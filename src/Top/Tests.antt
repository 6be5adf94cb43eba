-- ===== src/Top/Tests.antt =====
-- Examples for assignments/hw7/top.c.
use Prim.Native.Nat.{min}
use os_coursework.Prelude.{
  ℕ, ◌<◌, ◌≡◌, refl, sym, inl, inr, Bool, true, false, some, Bool-cases, List, [], ◌∷◌, ◌++◌, map,
  All, length, arith, decimal, subst, not, ◌&&◌, ◌==◌,
}
use os_coursework.Prelude.Scan.{isspace}
use os_coursework.Top.{
  starts_with, collect, Process, Entry, entry_process, get_all_process, process_line, output_proc,
}
use os_coursework.Top.Order.{Shuffled}
use os_coursework.Top.Fields.{text_of, IsBody, name_body, state_body, ppid_body, vm_size_body}
use os_coursework.Top.Status.{IsStatus, entry_process-IsStatus}
use os_coursework.Top.System.{mem_total_key, mem_free_key, swap_total_key, swap_free_key}
use os_coursework.Top.Meminfo.{amount_body}
use os_coursework.Top.Insertion.{some_qsort}
use os_coursework.Top.Largest.{Descending, output_proc_largest}

-- The `status` file of a shell.
abbrev shell_lines : List (List ℕ)
shell_lines =
    name_body (b's' ∷ b'h' ∷ [])
    ∷ (b'T' ∷ b'g' ∷ b'i' ∷ b'd' ∷ [])
    ∷ state_body b'S' (b' ' ∷ b's' ∷ [])
    ∷ ppid_body 1
    ∷ vm_size_body (b' ' ∷ b' ' ∷ []) 2580
    ∷ (b'V' ∷ b'm' ∷ [])
    ∷ []

abbrev shell : Entry
shell = record { is_dir = true; d_name = decimal 10 42; status = some (text_of shell_lines) }

-- Whether no character is a newline.
abbrev one_line : List ℕ → Bool
one_line [] = true
one_line (c ∷ body) = not (c == 10) && one_line body

one_line-All : (body : List ℕ) → one_line body ≡ true → All (λ c. (c == 10) ≡ false) body
one_line-All [] h = tt
one_line-All (c ∷ body) h = elim (Bool-cases (c == 10)) [
  | inl e ↦ absurd (ground (arith, e))
  | inr e ↦ (e, one_line-All body (rw e at h))
]

checked-IsBody : (body : List ℕ) → one_line body ≡ true → length body < 255 → IsBody body
checked-IsBody body h lt = record { no_newline = one_line-All body h; fits = lt }

shell-IsStatus : IsStatus (b's' ∷ b'h' ∷ []) b'S' 1 2580 shell_lines
unfolding starts_with isspace decimal
shell-IsStatus = record {
  head = [];
  upper = (b'T' ∷ b'g' ∷ b'i' ∷ b'd' ∷ []) ∷ [];
  middle = [];
  lower = [];
  foot = (b'V' ∷ b'm' ∷ []) ∷ [];
  description = b' ' ∷ b's' ∷ [];
  spaces = b' ' ∷ b' ' ∷ [];
  lines = refl;
  fit = (
    checked-IsBody (name_body (b's' ∷ b'h' ∷ [])) refl (omega arith),
    (
      checked-IsBody (b'T' ∷ b'g' ∷ b'i' ∷ b'd' ∷ []) refl (omega arith),
      (
        checked-IsBody (state_body b'S' (b' ' ∷ b's' ∷ [])) refl (omega arith),
        (
          checked-IsBody (ppid_body 1) refl (omega arith),
          (
            checked-IsBody (vm_size_body (b' ' ∷ b' ' ∷ []) 2580) refl (omega arith),
            (checked-IsBody (b'V' ∷ b'm' ∷ []) refl (omega arith), tt),
          ),
        ),
      ),
    ),
  );
  others = (
    tt,
    (record { not_name = refl; not_state = refl; not_ppid = refl; not_vm_size = refl }, tt),
    tt,
    tt,
  );
  named = record { visible = (refl, (refl, tt)); some_char = omega arith; short = omega arith };
  visible = refl;
  blank = (refl, (refl, tt));
  numbers = (omega arith, omega arith);
}

entry_process-IsStatus_example :
    entry_process shell
    ≡ some (record {
      pid = (false, 42);
      pname = b's' ∷ b'h' ∷ [];
      pstate = b'S';
      ppid = (false, 1);
      memsize = (false, 2580);
    })
entry_process-IsStatus_example =
    entry_process-IsStatus 42 (omega arith) shell-IsStatus (omega arith)

abbrev shell_process : Process
shell_process = record {
  pid = (false, 42);
  pname = b's' ∷ b'h' ∷ [];
  pstate = b'S';
  ppid = (false, 1);
  memsize = (false, 2580);
}

shell-found : get_all_process (shell ∷ []) ≡ shell_process ∷ []
unfolding get_all_process collect
shell-found = rw (collect, entry_process-IsStatus_example) refl

output_proc_largest_example :
    let procs = get_all_process (shell ∷ []) in
    (shown : List Process) × (rest : List Process) × (output_proc some_qsort.sort procs
      ≡ map process_line shown)
    × (length shown ≡ min 10 (length procs))
    × Shuffled procs (shown ++ rest)
    × Descending (shown ++ rest)
output_proc_largest_example =
    output_proc_largest some_qsort (shell ∷ [])
      (subst (All (λ p. p.memsize.1 < 2147483648)) (sym shell-found) (omega arith, tt))

abbrev meminfo_lines : List (List ℕ)
meminfo_lines =
    amount_body mem_total_key (b' ' ∷ []) 1000
    ∷ amount_body mem_free_key (b' ' ∷ []) 400
    ∷ amount_body swap_total_key (b' ' ∷ []) 0
    ∷ amount_body swap_free_key (b' ' ∷ []) 0
    ∷ []
