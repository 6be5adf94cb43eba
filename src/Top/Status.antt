-- ===== src/Top/Status.antt =====
-- assignments/hw7/top.c and `top 2.c`: a `status` file in the form of the kernel's is read back.
use os_coursework.Prelude.{
  ℕ, ◌<◌, ◌≡◌, refl, ap, ◌∙◌, true, false, some, List, [], ◌∷◌, ◌++◌, map, All, lt→ltb, length,
  isdigit, decimal, signed_atoi, arith,
}
use mathlib.Core.List.{map-append}
use os_coursework.Prelude.Scan.{isspace, Spaces, signed_atoi-decimal, decimal-digits, some_digits}
use os_coursework.Top.{
  Found, read_line, all_found, read_status, all_digits, is_numeric, start, is_positive,
  entry_process,
}
use os_coursework.Top.Fields.{
  text_of, IsBody, file_lines-text_of, IsOther, read_status-others, read_status-field, IsName,
  name_body, state_body, ppid_body, vm_size_body, read_line-name, read_line-state, read_line-ppid,
  read_line-vm_size,
}

-- The lines of a `status` file in the form of the kernel's, with a name without spaces that `%63s` reads
-- whole: the four fields in their order, with other lines before, between and behind them.
pub record IsStatus (name : List ℕ) (state ppid memsize : ℕ) (bodies : List (List ℕ)) : Type 0 where
  pub head : List (List ℕ)
  pub upper : List (List ℕ)
  pub middle : List (List ℕ)
  pub lower : List (List ℕ)
  pub foot : List (List ℕ)
  pub description : List ℕ
  pub spaces : List ℕ
  pub lines :
      bodies
      ≡ head
        ++ name_body name
          ∷ (upper
              ++ state_body state description
                ∷ (middle ++ ppid_body ppid ∷ (lower ++ vm_size_body spaces memsize ∷ foot)))
  pub fit : All IsBody bodies
  pub others : All IsOther head × All IsOther upper × All IsOther middle × All IsOther lower
  pub named : IsName name
  pub visible : isspace state ≡ false
  pub blank : Spaces spaces
  pub numbers : (ppid < 2147483648) × (memsize < 2147483648)

abbrev line_of : List ℕ → List ℕ
line_of body = body ++ 10 ∷ []

-- The lines before a field are passed over, and the field is read.
read_status-next :
    (bodies rest : List (List ℕ)) (body : List ℕ) (f g : Found)
    → All IsOther bodies
    → all_found f ≡ false
    → read_line (line_of body) f ≡ g
    → all_found g ≡ false
    → read_status (map line_of (bodies ++ body ∷ rest)) f ≡ read_status (map line_of rest) g
read_status-next bodies rest body f g h more e more' =
    ap (λ ls. read_status ls f) (map-append line_of bodies (body ∷ rest))
    ∙ read_status-others bodies (map line_of (body ∷ rest)) f h more
    ∙ read_status-field (line_of body) (map line_of rest) f g e more'

-- The line behind which all fields are found ends the loop.
read_status-last :
    (bodies rest : List (List ℕ)) (body : List ℕ) (f g : Found)
    → All IsOther bodies
    → all_found f ≡ false
    → read_line (line_of body) f ≡ g
    → all_found g ≡ true
    → read_status (map line_of (bodies ++ body ∷ rest)) f ≡ g
unfolding read_status
read_status-last bodies rest body f g h more e full =
    ap (λ ls. read_status ls f) (map-append line_of bodies (body ∷ rest))
    ∙ read_status-others bodies (map line_of (body ∷ rest)) f h more
    ∙ rw (e, full) refl

read_status-IsStatus :
    {name : List ℕ} {state ppid memsize : ℕ} {bodies : List (List ℕ)} (d_name : List ℕ)
    → IsStatus name state ppid memsize bodies
    → read_status (map line_of bodies) (start d_name) ≡ record {
      process = record {
        pid = signed_atoi d_name;
        pname = name;
        pstate = state;
        ppid = (false, ppid);
        memsize = (false, memsize);
      };
      found_name = true;
      found_state = true;
      found_ppid = true;
      found_vmsize = true;
    }
unfolding all_found
read_status-IsStatus {name} {state} {ppid} {memsize} d_name i =
    let f0 = start d_name in
    let f1 : Found = record f0 {
      process = record f0.process { pname = name };
      found_name = true;
    } in
    let f2 : Found = record f1 {
      process = record f1.process { pstate = state };
      found_state = true;
    } in
    let f3 : Found = record f2 {
      process = record f2.process { ppid = (false, ppid) };
      found_ppid = true;
    } in
    let f4 : Found = record f3 {
      process = record f3.process { memsize = (false, memsize) };
      found_vmsize = true;
    } in
    ap (λ ls. read_status (map line_of ls) f0) i.lines
    ∙ read_status-next i.head _ (name_body name) f0 f1 i.others.0 refl
        (read_line-name name f0 i.named) refl
    ∙ read_status-next i.upper _ (state_body state i.description) f1 f2 i.others.1 refl
        (read_line-state state i.description f1 i.visible) refl
    ∙ read_status-next i.middle _ (ppid_body ppid) f2 f3 i.others.2 refl
        (read_line-ppid ppid f2 (omega (arith, i.numbers.0))) refl
    ∙ read_status-last i.lower i.foot (vm_size_body i.spaces memsize) f3 f4 i.others.3 refl
        (read_line-vm_size i.spaces memsize f3 i.blank (omega (arith, i.numbers.1))) refl

all_digits-All : (s : List ℕ) → All (λ c. isdigit c ≡ true) s → all_digits s ≡ true
unfolding all_digits
all_digits-All [] h = refl
all_digits-All (c ∷ s) h = rw (h.0, all_digits-All s h.1) refl

is_numeric-All : (s : List ℕ) → All (λ c. isdigit c ≡ true) s → 0 < length s → is_numeric s ≡ true
unfolding is_numeric
is_numeric-All [] h lt = absurd (omega arith)
is_numeric-All (c ∷ s) h lt = all_digits-All (c ∷ s) h

-- From a directory named by a number and its `status` file the program takes the number, the name, the
-- state, the parent and the size of the process, when the file has the four fields in their order, each
-- behind its key and a tab, a name of 1 to 63 characters without a space, a state that is no space, a
-- size above 0, numbers that fit in an `int`, each line short enough for one `fgets`, and lines before
-- and between the fields that start with none of the four keys. Behind the size any lines may follow.
pub entry_process-IsStatus :
    {name : List ℕ} {state ppid memsize : ℕ} {bodies : List (List ℕ)} (pid : ℕ)
    → pid < 2147483648
    → IsStatus name state ppid memsize bodies
    → 0 < memsize
    → entry_process
        (record { is_dir = true; d_name = decimal 10 pid; status = some (text_of bodies) })
      ≡ some (record {
        pid = (false, pid);
        pname = name;
        pstate = state;
        ppid = (false, ppid);
        memsize = (false, memsize);
      })
unfolding entry_process all_found is_positive
entry_process-IsStatus {name} {state} {ppid} {memsize} {bodies} pid lt i pos =
    let numeric = is_numeric-All (decimal 10 pid) (decimal-digits 10 pid) (some_digits 9 pid) in
    let read = read_status-IsStatus (decimal 10 pid) i in
    rw
      (
        numeric,
        file_lines-text_of bodies i.fit,
        read,
        lt→ltb 0 memsize pos,
        signed_atoi-decimal pid (omega arith),
      )
      refl
