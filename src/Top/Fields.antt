-- ===== src/Top/Fields.antt =====
-- assignments/hw7/top.c and `top 2.c`: what the loops read from the lines of a file.
use os_coursework.Prelude.{
  ℕ, ◌-◌, ◌^◌, ◌≤◌, ◌<◌, ◌≡◌, refl, ap, ◌∙◌, Bool, true, false, List, [], ◌∷◌, ◌++◌, map, All, ◌==◌,
  length, isdigit, decimal, arith,
}
use mathlib.Core.List.{append_assoc}
use os_coursework.Prelude.Scan.{
  isspace, Spaces, at_space, NoDigit, skip_spaces, scan_word-append, scan_int-decimal,
}
use os_coursework.Top.{
  lines_from, line_room, file_lines, starts_with, name_key, state_key, ppid_key, vm_size_key, Found,
  word_or, char_or, int_or, read_line, all_found, read_status,
}

-- A text by its lines, without their newlines.
abbrev pub text_of : List (List ℕ) → List ℕ
text_of [] = []
text_of (body ∷ bodies) = body ++ 10 ∷ text_of bodies

-- A line that one call of `fgets` reads.
pub record IsBody (body : List ℕ) : Type 0 where
  pub no_newline : All (λ c. (c == 10) ≡ false) body
  pub fits : length body < line_room

lines_from-body :
    (room : ℕ) (line body text : List ℕ)
    → All (λ c. (c == 10) ≡ false) body
    → length body < room
    → lines_from room line (body ++ 10 ∷ text)
      ≡ (line ++ (body ++ 10 ∷ [])) ∷ lines_from line_room [] text
unfolding lines_from
lines_from-body room line [] text h lt = refl
lines_from-body room line (c ∷ body) text h lt =
    let more : (room == 1) ≡ false = ground arith in
    rw (h.0, more)
      (lines_from-body (room - 1) (line ++ c ∷ []) body text h.1 (omega arith)
        ∙ ap (λ l. l ∷ lines_from line_room [] text) (append_assoc line (c ∷ []) (body ++ 10 ∷ [])))

pub file_lines-text_of :
    (bodies : List (List ℕ))
    → All IsBody bodies
    → file_lines (text_of bodies) ≡ map (λ body. body ++ 10 ∷ []) bodies
unfolding file_lines lines_from
file_lines-text_of [] h = refl
file_lines-text_of (body ∷ bodies) h =
    lines_from-body line_room [] body (text_of bodies) (h.0).no_newline (h.0).fits
    ∙ ap (λ ls. (body ++ 10 ∷ []) ∷ ls) (file_lines-text_of bodies h.1)

-- A line with none of the four keys.
pub record IsOther (body : List ℕ) : Type 0 where
  pub not_name : starts_with name_key (body ++ 10 ∷ []) ≡ false
  pub not_state : starts_with state_key (body ++ 10 ∷ []) ≡ false
  pub not_ppid : starts_with ppid_key (body ++ 10 ∷ []) ≡ false
  pub not_vm_size : starts_with vm_size_key (body ++ 10 ∷ []) ≡ false

pub read_status-others :
    (bodies : List (List ℕ)) (lines : List (List ℕ)) (f : Found)
    → All IsOther bodies
    → all_found f ≡ false
    → read_status (map (λ body. body ++ 10 ∷ []) bodies ++ lines) f ≡ read_status lines f
unfolding read_status read_line
read_status-others [] lines f h more = refl
read_status-others (body ∷ bodies) lines f h more =
    let o = h.0 in
    rw (o.not_name, o.not_state, o.not_ppid, o.not_vm_size, more)
      (read_status-others bodies lines f h.1 more)

-- A field's line, and the lines behind it.
pub read_status-field :
    (line : List ℕ) (lines : List (List ℕ)) (f g : Found)
    → read_line line f ≡ g
    → all_found g ≡ false
    → read_status (line ∷ lines) f ≡ read_status lines g
unfolding read_status
read_status-field line lines f g e more = rw (e, more) refl

-- A name that `%63s` reads whole.
pub record IsName (name : List ℕ) : Type 0 where
  pub visible : All (λ c. isspace c ≡ false) name
  pub some_char : 0 < length name
  pub short : length name ≤ 63

abbrev pub name_body : List ℕ → List ℕ
name_body name = name_key ++ 9 ∷ name

abbrev pub state_body : ℕ → List ℕ → List ℕ
state_body state description = state_key ++ 9 ∷ state ∷ description

abbrev pub ppid_body : ℕ → List ℕ
ppid_body ppid = ppid_key ++ 9 ∷ decimal 10 ppid

abbrev pub vm_size_body : List ℕ → ℕ → List ℕ
vm_size_body spaces memsize =
    vm_size_key ++ 9 ∷ (spaces ++ (decimal 10 memsize ++ 32 ∷ b'k' ∷ b'B' ∷ []))

word_or-name : (old name : List ℕ) → IsName name → word_or old (9 ∷ (name ++ 10 ∷ [])) ≡ name
unfolding word_or skip_spaces isspace
word_or-name old [] h = absurd (omega (arith, h.some_char))
word_or-name old (c ∷ name) h =
    rw
      (
        word_or,
        h.visible.0,
        scan_word-append 63 (c ∷ name) (10 ∷ []) h.visible h.short (at_space refl),
      )
      refl

char_or-state :
    (old state : ℕ) (description : List ℕ)
    → isspace state ≡ false
    → char_or old (9 ∷ state ∷ description) ≡ state
unfolding char_or skip_spaces isspace
char_or-state old state description h = rw (char_or, h) refl

pub tab : isspace 9 ≡ true
unfolding isspace
tab = refl

pub newline : isdigit 10 ≡ false
unfolding isdigit
newline = refl

pub blank : isdigit 32 ≡ false
unfolding isdigit
blank = refl

int_or-decimal :
    (old : Bool × ℕ) (spaces rest : List ℕ) (n : ℕ)
    → Spaces spaces
    → n < 10 ^ 10
    → NoDigit rest
    → int_or old (9 ∷ (spaces ++ (decimal 10 n ++ rest))) ≡ (false, n)
unfolding int_or
int_or-decimal old spaces rest n s lt ends =
    rw (int_or, scan_int-decimal (9 ∷ spaces) rest n (tab, s) lt ends) refl

pub read_line-name :
    (name : List ℕ) (f : Found)
    → IsName name
    → read_line (name_body name ++ 10 ∷ []) f
      ≡ record f { process = record f.process { pname = name }; found_name = true }
unfolding read_line starts_with
read_line-name name f h = rw (word_or-name f.process.pname name h) refl

pub read_line-state :
    (state : ℕ) (description : List ℕ) (f : Found)
    → isspace state ≡ false
    → read_line (state_body state description ++ 10 ∷ []) f
      ≡ record f { process = record f.process { pstate = state }; found_state = true }
unfolding read_line starts_with
read_line-state state description f h =
    rw (char_or-state f.process.pstate state (description ++ 10 ∷ []) h) refl

pub read_line-ppid :
    (ppid : ℕ) (f : Found)
    → ppid < 10 ^ 10
    → read_line (ppid_body ppid ++ 10 ∷ []) f
      ≡ record f { process = record f.process { ppid = (false, ppid) }; found_ppid = true }
unfolding read_line starts_with
read_line-ppid ppid f lt = rw (int_or-decimal f.process.ppid [] (10 ∷ []) ppid tt lt newline) refl

pub read_line-vm_size :
    (spaces : List ℕ) (memsize : ℕ) (f : Found)
    → Spaces spaces
    → memsize < 10 ^ 10
    → read_line (vm_size_body spaces memsize ++ 10 ∷ []) f
      ≡ record f { process = record f.process { memsize = (false, memsize) }; found_vmsize = true }
unfolding read_line starts_with
read_line-vm_size spaces memsize f s lt =
    let digits = decimal 10 memsize in
    let unit : List ℕ = 32 ∷ b'k' ∷ b'B' ∷ [] in
    let set = λ (n : Bool × ℕ). record f {
      process = record f.process { memsize = n };
      found_vmsize = true;
    } in
    ap (λ t. set (int_or f.process.memsize (9 ∷ t)))
      (append_assoc spaces (digits ++ unit) (10 ∷ [])
        ∙ ap (λ t. spaces ++ t) (append_assoc digits unit (10 ∷ [])))
    ∙ ap set (int_or-decimal f.process.memsize spaces (unit ++ 10 ∷ []) memsize s lt blank)
