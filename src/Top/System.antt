-- ===== src/Top/System.antt =====
-- assignments/hw7/top.c and `top 2.c`: what the programs print about the system, and `main`. A file of
-- /proc is its text, or `none` if it does not open.
use os_coursework.Prelude.{
  ℕ, zero, suc, ◌+◌, ◌-◌, ◌/◌, ◌%◌, ◌*◌, Bool, true, false, not, ◌&&◌, Option, none, some, List, [],
  ◌∷◌, ◌++◌, if◌then◌else◌, leb, ◌==◌, length, drop, isdigit, signed_atoi,
}
use os_coursework.Prelude.Scan.{skip_spaces, is_number}
use os_coursework.Top.{
  CInt, Process, Entry, file_lines, starts_with, int_or, get_all_process, Output, uptime_line,
  cpu_line, mem_line, swap_line, failed, is_positive, output_procstat, output_proc,
}

-- Days, hours and minutes of the whole seconds.
unfoldable pub output_uptime : ℕ → Output
output_uptime seconds =
    uptime_line (seconds / (24 * 3600)) (seconds % (24 * 3600) / 3600) (seconds % 3600 / 60)

unfoldable pub skip_digits : List ℕ → List ℕ
skip_digits [] = []
skip_digits (c ∷ line) = let rest = skip_digits line in if isdigit c then rest else c ∷ line

-- The numbers that `sscanf` matches, `n` at most.
unfoldable pub scan_ints : ℕ → List ℕ → List CInt
scan_ints zero line = []
scan_ints (suc n) line = elim (skip_spaces line) [
  | [] ↦ []
  | c ∷ word ↦
      let behind = skip_digits (if isdigit c then c ∷ word else word) in
      let rest = scan_ints n behind in
      if is_number (c ∷ word) then signed_atoi (c ∷ word) ∷ rest else []
]

abbrev pub cpu_key : List ℕ
cpu_key = b'c' ∷ b'p' ∷ b'u' ∷ b' ' ∷ []

-- `printf` puts the third number before the second.
unfoldable pub cpu_numbers : List CInt → List Output
cpu_numbers (user ∷ nice ∷ system ∷ idle ∷ iowait ∷ irq ∷ softirq ∷ steal ∷ []) =
    cpu_line (user ∷ system ∷ nice ∷ idle ∷ iowait ∷ irq ∷ softirq ∷ steal ∷ []) ∷ []
cpu_numbers _ = failed ∷ []

unfoldable pub cpu_lines : List (List ℕ) → List Output
cpu_lines [] = []
cpu_lines (line ∷ lines) =
    let rest = cpu_lines lines in
    if starts_with cpu_key line then cpu_numbers (scan_ints 8 (drop 4 line)) else rest

abbrev pub minus_one : CInt
minus_one = (true, 1)

unfoldable pub is_minus_one : CInt → Bool
is_minus_one n = n.0 && (n.1 == 1)

unfoldable pub sub_int : CInt → CInt → CInt
sub_int (false, a) (false, b) = if leb b a then (false, a - b) else (true, b - a)
sub_int (false, a) (true, b) = (false, a + b)
sub_int (true, a) (false, b) = (true, a + b)
sub_int (true, a) (true, b) = if leb a b then (false, b - a) else (true, a - b)

-- The loop over the lines of /proc/meminfo for two keys.
unfoldable pub read_meminfo : List ℕ → List ℕ → List (List ℕ) → CInt × CInt → CInt × CInt
read_meminfo total_key free_key [] r = r
read_meminfo total_key free_key (line ∷ lines) r =
    let s =
      if starts_with total_key line
      then (int_or r.0 (drop (length total_key) line), r.1)
      else if starts_with free_key line
      then (r.0, int_or r.1 (drop (length free_key) line))
      else r in
    let rest = read_meminfo total_key free_key lines s in
    if not (is_minus_one s.0) && not (is_minus_one s.1) then s else rest

abbrev pub mem_total_key : List ℕ
mem_total_key = b'M' ∷ b'e' ∷ b'm' ∷ b'T' ∷ b'o' ∷ b't' ∷ b'a' ∷ b'l' ∷ b':' ∷ []

abbrev pub mem_free_key : List ℕ
mem_free_key = b'M' ∷ b'e' ∷ b'm' ∷ b'F' ∷ b'r' ∷ b'e' ∷ b'e' ∷ b':' ∷ []

abbrev pub swap_total_key : List ℕ
swap_total_key = b'S' ∷ b'w' ∷ b'a' ∷ b'p' ∷ b'T' ∷ b'o' ∷ b't' ∷ b'a' ∷ b'l' ∷ b':' ∷ []

abbrev pub swap_free_key : List ℕ
swap_free_key = b'S' ∷ b'w' ∷ b'a' ∷ b'p' ∷ b'F' ∷ b'r' ∷ b'e' ∷ b'e' ∷ b':' ∷ []

-- The two programs, by whether they check that a file opens.
pub data Version : Type 0 where
  top : Version
  top2 : Version

-- A file that does not open: its NULL goes to `fgets` in top.c.
unfoldable pub not_opened : Version → Option (List Output)
not_opened top = none
not_opened top2 = some (failed ∷ [])

unfoldable pub output_cpu : Version → Option (List ℕ) → Option (List Output)
output_cpu version none = not_opened version
output_cpu version (some stat) = some (cpu_lines (file_lines stat))

-- What is printed where a number of /proc/meminfo is missing.
unfoldable pub mem_missing : Version → List Output
mem_missing top = []
mem_missing top2 = failed ∷ []

unfoldable pub output_mem : Version → Option (List ℕ) → Option (List Output)
output_mem version none = not_opened version
output_mem version (some meminfo) =
    let r = read_meminfo mem_total_key mem_free_key (file_lines meminfo) (minus_one, minus_one) in
    some (
      if not (is_minus_one r.0) && not (is_minus_one r.1)
      then mem_line r.0 (sub_int r.0 r.1) r.1 ∷ []
      else mem_missing version)

abbrev pub no_swap : Output
no_swap = swap_line (false, 0) (false, 0) (false, 0)

unfoldable pub output_swap : Version → Option (List ℕ) → Option (List Output)
output_swap version none = not_opened version
output_swap version (some meminfo) =
    let r = read_meminfo swap_total_key swap_free_key (file_lines meminfo) (minus_one, minus_one) in
    some (
      if not (is_minus_one r.0) && not (is_minus_one r.1)
      then (if is_positive r.0 then swap_line r.0 (sub_int r.0 r.1) r.1 else no_swap) ∷ []
      else failed ∷ no_swap ∷ [])

-- What /proc holds: its directories, the seconds of /proc/uptime, /proc/stat and /proc/meminfo.
pub record Proc : Type 0 where
  pub entries : List Entry
  pub uptime : ℕ
  pub stat : Option (List ℕ)
  pub meminfo : Option (List ℕ)

-- The outputs of a call, and then those of the calls behind it.
unfoldable pub then_output : Option (List Output) → Option (List Output) → Option (List Output)
then_output none rest = none
then_output (some lines) none = none
then_output (some lines) (some rest) = some (lines ++ rest)

-- `main`, without the time and the load averages; `none` is a NULL that is followed.
unfoldable pub main :
    ((Process → Process → ℕ) → List Process → List Process) → Version → Proc → Option (List Output)
main qsort version proc =
    let procs = get_all_process proc.entries in
    then_output (some (output_uptime proc.uptime ∷ output_procstat procs ∷ [])) (
      then_output (output_cpu version proc.stat) (
        then_output (output_mem version proc.meminfo)
          (then_output (output_swap version proc.meminfo) (some (output_proc qsort procs)))))
