-- ===== src/Top.antt =====
-- assignments/hw7/top.c and `top 2.c`, which differs from it in the checks behind `fopen`: the processes
-- of /proc, their sort, and the lines that are printed. What /proc holds is a parameter; its texts have
-- no NUL.
mod Fields
mod Status
mod Order
mod Largest
pub mod System
mod Meminfo
mod Insertion
mod Tests
use os_coursework.Prelude.{
  ℕ, zero, suc, ◌+◌, ◌-◌, ◌%◌, Bool, false, true, not, ◌&&◌, ◌||◌, Option, none, some, List, [],
  ◌∷◌, ◌++◌, map, if◌then◌else◌, ltb, leb, ◌==◌, length, take, drop, isdigit, signed_atoi,
}
use os_coursework.Prelude.Scan.{skip_spaces, scan_word, scan_int}

abbrev pub max_proc_num : ℕ
max_proc_num = 1024

-- The characters of a line that `fgets` reads at most.
abbrev pub line_room : ℕ
line_room = 255

-- A sign and a magnitude; a number beyond its C type is undefined in C.
abbrev pub CInt : Type 0
CInt = Bool × ℕ

pub record Process : Type 0 where
  pub pid : CInt
  pub pname : List ℕ
  pub pstate : ℕ
  pub ppid : CInt
  pub memsize : CInt

-- An entry of /proc: whether it is a directory, its name, and the text of its `status` if that opens.
pub record Entry : Type 0 where
  pub is_dir : Bool
  pub d_name : List ℕ
  pub status : Option (List ℕ)

-- The lines that the calls of `fgets` give one after the other, with `line` and room for `room` more.
unfoldable pub lines_from : ℕ → List ℕ → List ℕ → List (List ℕ)
lines_from room line [] = elim line [ [] ↦ [] | l ∷ rest ↦ (l ∷ rest) ∷ [] ]
lines_from room line (c ∷ text) =
    let ended = (line ++ c ∷ []) ∷ lines_from line_room [] text in
    let longer = lines_from (room - 1) (line ++ c ∷ []) text in
    if c == 10 || room == 1 then ended else longer

unfoldable pub file_lines : List ℕ → List (List ℕ)
file_lines text = lines_from line_room [] text

-- `strncmp( line, key, strlen( key ) ) == 0`.
unfoldable pub starts_with : List ℕ → List ℕ → Bool
starts_with [] line = true
starts_with (k ∷ key) [] = false
starts_with (k ∷ key) (c ∷ line) = (k == c) && starts_with key line

abbrev pub name_key : List ℕ
name_key = b'N' ∷ b'a' ∷ b'm' ∷ b'e' ∷ b':' ∷ []

abbrev pub state_key : List ℕ
state_key = b'S' ∷ b't' ∷ b'a' ∷ b't' ∷ b'e' ∷ b':' ∷ []

abbrev pub ppid_key : List ℕ
ppid_key = b'P' ∷ b'P' ∷ b'i' ∷ b'd' ∷ b':' ∷ []

abbrev pub vm_size_key : List ℕ
vm_size_key = b'V' ∷ b'm' ∷ b'S' ∷ b'i' ∷ b'z' ∷ b'e' ∷ b':' ∷ []

-- `current_proc` and the `found` flags.
pub record Found : Type 0 where
  pub process : Process
  pub found_name : Bool
  pub found_state : Bool
  pub found_ppid : Bool
  pub found_vmsize : Bool

-- Where `sscanf` matches nothing it leaves the variable as it is.
unfoldable pub word_or : List ℕ → List ℕ → List ℕ
word_or old line = elim (scan_word 63 (skip_spaces line)).0 [ [] ↦ old | c ∷ word ↦ c ∷ word ]

unfoldable pub char_or : ℕ → List ℕ → ℕ
char_or old line = elim (skip_spaces line) [ [] ↦ old | c ∷ _ ↦ c ]

unfoldable pub int_or : CInt → List ℕ → CInt
int_or old line = elim (scan_int line) [ none ↦ old | some n ↦ n ]

-- A line of a `status` file.
unfoldable pub read_line : List ℕ → Found → Found
read_line line f =
    let p = f.process in
    if starts_with name_key line
    then record f {
      process = record p { pname = word_or p.pname (drop 5 line) };
      found_name = true;
    }
    else if starts_with state_key line
    then record f {
      process = record p { pstate = char_or p.pstate (drop 6 line) };
      found_state = true;
    }
    else if starts_with ppid_key line
    then record f { process = record p { ppid = int_or p.ppid (drop 5 line) }; found_ppid = true }
    else if starts_with vm_size_key line
    then record f {
      process = record p { memsize = int_or p.memsize (drop 7 line) };
      found_vmsize = true;
    }
    else f

unfoldable pub all_found : Found → Bool
all_found f = f.found_name && f.found_state && f.found_ppid && f.found_vmsize

-- The loop over the lines of a `status` file.
unfoldable pub read_status : List (List ℕ) → Found → Found
read_status [] f = f
read_status (line ∷ lines) f =
    let g = read_line line f in let rest = read_status lines g in if all_found g then g else rest

unfoldable pub all_digits : List ℕ → Bool
all_digits [] = true
all_digits (c ∷ s) = isdigit c && all_digits s

unfoldable pub is_numeric : List ℕ → Bool
is_numeric [] = false
is_numeric (c ∷ s) = all_digits (c ∷ s)

abbrev pub start : List ℕ → Found
start d_name = record {
  process = record {
    pid = signed_atoi d_name;
    pname = [];
    pstate = 0;
    ppid = (false, 0);
    memsize = (false, 0);
  };
  found_name = false;
  found_state = false;
  found_ppid = false;
  found_vmsize = false;
}

unfoldable pub is_positive : CInt → Bool
is_positive n = not n.0 && ltb 0 n.1

-- The process of an entry, if it is taken.
unfoldable pub entry_process : Entry → Option Process
entry_process entry =
    if entry.is_dir && is_numeric entry.d_name
    then elim entry.status [
      | none ↦ none
      | some text ↦
          let f = read_status (file_lines text) (start entry.d_name) in
          if all_found f && is_positive f.process.memsize then some f.process else none
    ]
    else none

-- `getAllProcess`, with room for `room` more processes.
unfoldable pub collect : ℕ → List Entry → List Process
collect zero entries = []
collect (suc room) [] = []
collect (suc room) (entry ∷ entries) = elim (entry_process entry) [
  | none ↦ collect (suc room) entries
  | some p ↦ p ∷ collect room entries
]

unfoldable pub get_all_process : List Entry → List Process
get_all_process entries = collect max_proc_num entries

-- The 32 bits of an `int`.
unfoldable pub int_bits : CInt → ℕ
int_bits n = if n.0 then (4294967296 - n.1) % 4294967296 else n.1 % 4294967296

-- The bits of `proc_b->memsize - proc_a->memsize`.
unfoldable pub compare_proc_mem : Process → Process → ℕ
compare_proc_mem a b = (int_bits b.memsize + 4294967296 - int_bits a.memsize) % 4294967296

-- How many processes have a state.
unfoldable pub count_state : ℕ → List Process → ℕ
count_state state [] = 0
count_state state (p ∷ procs) = (if p.pstate == state then 1 else 0) + count_state state procs

-- What is printed, one line each.
pub data Output : Type 0 where
  uptime_line : ℕ → ℕ → ℕ → Output
  tasks_line : ℕ → ℕ → ℕ → Output
  cpu_line : List CInt → Output
  mem_line : CInt → CInt → CInt → Output
  swap_line : CInt → CInt → CInt → Output
  process_line : Process → Output
  failed : Output

unfoldable pub output_procstat : List Process → Output
output_procstat procs = tasks_line (length procs) (count_state b'R' procs) (count_state b'S' procs)

-- `qsort` is given the bits of what the comparison returns.
unfoldable pub output_proc :
    ((Process → Process → ℕ) → List Process → List Process) → List Process → List Output
output_proc qsort procs = map process_line (take 10 (qsort compare_proc_mem procs))
