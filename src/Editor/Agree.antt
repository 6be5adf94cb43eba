-- ===== src/Editor/Agree.antt =====
-- assignments/hw4/edit.c does under its semaphore what assignments/hw3/edit.c does.
use os_coursework.Prelude.{
  ℕ, ◌+◌, ◌-◌, ◌≡◌, ◌≢◌, refl, sym, ap, ◌∙◌, Bool, true, false, Bool-cases, inl, inr, List, [], ◌∷◌,
  ltb, leb, ◌==◌, ◌||◌, not, length, arith,
}
use os_coursework.Editor.{
  Outcome, done, blocked, exited, undefined, ◌>>=◌, EditState, memmove, store, c_string, atoi,
  save_history, exit_success, exit_failure, Reply, answer, contents, insert_word, delete_word,
  undo_word, report_word, test_word,
}
use os_coursework.Prelude.{same, isdigit}
use os_coursework.Editor.Plain
use os_coursework.Editor.Locked
use os_coursework.Editor.Locked.{Shared, sem_wait, print_result}
use os_coursework.Editor.Safety.{inserted, deleted}

-- The result of a call on the edited state, with the semaphore beside it.
abbrev pub beside : Shared → Outcome (Reply × EditState) → Outcome (Reply × Shared)
beside shared result = result >>= λ r. done (r.0, record shared { edit = r.1 })

all_digits-false : (str : List ℕ) → Plain.all_digits false str ≡ false
unfolding Plain.all_digits
all_digits-false [] = refl
all_digits-false (c ∷ str) = elim (Bool-cases (isdigit c)) [
  | inl e ↦ rw e (all_digits-false str)
  | inr e ↦ rw e (all_digits-false str)
]

-- The two versions of `strIsInt` agree.
str_is_int-same : (str : List ℕ) → Locked.str_is_int str ≡ Plain.str_is_int str
unfolding Plain.all_digits Plain.str_is_int Locked.str_is_int
str_is_int-same [] = refl
str_is_int-same (c ∷ str) = elim (Bool-cases (isdigit c)) [
  | inl digit ↦ rw digit (str_is_int-same str)
  | inr other ↦ rw other (sym (all_digits-false str))
]

print_result-step :
    {A : Type 0} (shared : Shared) (m : Outcome A) (f : A → Outcome (Bool × Shared))
    (g : A → Outcome (Reply × EditState))
    → ((a : A) → print_result (f a) ≡ beside shared (g a))
    → print_result (m >>= f) ≡ beside shared (m >>= g)
unfolding print_result
print_result-step shared (done a) f g h = h a
print_result-step shared blocked f g h = refl
print_result-step shared exited f g h = refl
print_result-step shared undefined f g h = refl

sem_wait-free :
    (shared : Shared)
    → shared.sem ≢ 0
    → sem_wait shared ≡ done (record shared { sem = shared.sem - 1 })
unfolding sem_wait
sem_wait-free shared nz = let e : (shared.sem == 0) ≡ false = ground (arith, nz) in rw e refl

-- How the accepted edits end.
abbrev with_lock : Shared → (List ℕ → EditState) → List ℕ → Outcome (Bool × Shared)
with_lock shared edited string = done (true, record shared { edit = edited string })

abbrev without_lock : (List ℕ → EditState) → List ℕ → Outcome (Reply × EditState)
without_lock edited string = done (answer true, edited string)

pub insert-agrees :
    (shared : Shared) (i c : ℕ)
    → shared.sem ≢ 0
    → print_result (Locked.insert shared i c) ≡ beside shared (Plain.insert shared.edit i c)
unfolding Locked.insert Plain.insert Locked.sem_post print_result save_history
insert-agrees shared i c nz =
    let held = sem_wait-free shared nz in
    let back : shared.sem - 1 + 1 ≡ shared.sem = ground (arith, nz) in
    elim (Bool-cases (ltb shared.edit.len i || leb 75 shared.edit.len)) [
      | inl refused ↦ rw (held, refused, back) refl
      | inr accepted ↦
          rw (held, accepted, back)
            (print_result-step shared
              (memmove (i + 1) i (shared.edit.len - i + 1) shared.edit.string)
              (λ moved. (store i c moved >>= with_lock shared (inserted shared.edit)))
              (λ moved. (store i c moved >>= without_lock (inserted shared.edit)))
              λ moved.
                print_result-step shared (store i c moved) (with_lock shared (inserted shared.edit))
                  (without_lock (inserted shared.edit)) λ string. refl)
    ]

pub delete-agrees :
    (shared : Shared) (i : ℕ)
    → shared.sem ≢ 0
    → print_result (Locked.delete shared i) ≡ beside shared (Plain.delete shared.edit i)
unfolding Locked.delete Plain.delete Locked.sem_post print_result save_history
delete-agrees shared i nz =
    let held = sem_wait-free shared nz in
    let back : shared.sem - 1 + 1 ≡ shared.sem = ground (arith, nz) in
    elim (Bool-cases (leb shared.edit.len i)) [
      | inl refused ↦ rw (held, refused, back) refl
      | inr accepted ↦
          rw (held, accepted, back)
            (print_result-step shared (memmove i (i + 1) (shared.edit.len - i) shared.edit.string)
              (with_lock shared (deleted shared.edit)) (without_lock (deleted shared.edit))
              λ string. refl)
    ]

undo-agrees :
    (shared : Shared)
    → shared.sem ≢ 0
    → print_result (Locked.undo shared) ≡ beside shared (Plain.undo shared.edit)
unfolding Locked.undo Plain.undo Locked.sem_post print_result save_history
undo-agrees shared nz =
    let held = sem_wait-free shared nz in
    let back : shared.sem - 1 + 1 ≡ shared.sem = ground (arith, nz) in
    elim (Bool-cases (shared.edit.num_undos == 0)) [
      | inl none_left ↦ rw (held, none_left, back) refl
      | inr some_left ↦ rw (held, some_left, back) refl
    ]

report_step :
    (shared : Shared) (m : Outcome (List ℕ))
    → (m >>= λ text. done (contents text shared.edit.num_undos, shared))
      ≡ beside shared (m >>= λ text. done (contents text shared.edit.num_undos, shared.edit))
report_step shared (done text) = refl
report_step shared blocked = refl
report_step shared exited = refl
report_step shared undefined = refl

report-agrees : (shared : Shared) → Locked.report shared ≡ beside shared (Plain.report shared.edit)
unfolding Locked.report Plain.report
report-agrees shared = report_step shared (c_string shared.edit.string)

insert_step :
    (shared : Shared) (m : Outcome ℕ) (ch : List ℕ)
    → shared.sem ≢ 0
    → (m >>= λ i. elim ch [ [] ↦ exited | c ∷ _ ↦ print_result (Locked.insert shared i c) ])
      ≡ beside shared (m >>= λ i. elim ch [ [] ↦ exited | c ∷ _ ↦ Plain.insert shared.edit i c ])
insert_step shared (done i) [] nz = refl
insert_step shared (done i) (c ∷ _) nz = insert-agrees shared i c nz
insert_step shared blocked ch nz = refl
insert_step shared exited ch nz = refl
insert_step shared undefined ch nz = refl

delete_step :
    (shared : Shared) (m : Outcome ℕ)
    → shared.sem ≢ 0
    → (m >>= λ i. print_result (Locked.delete shared i))
      ≡ beside shared (m >>= λ i. Plain.delete shared.edit i)
delete_step shared (done i) nz = delete-agrees shared i nz
delete_step shared blocked nz = refl
delete_step shared exited nz = refl
delete_step shared undefined nz = refl

insert_command-agrees :
    (args : List (List ℕ)) (shared : Shared)
    → shared.sem ≢ 0
    → Locked.insert_command args shared ≡ beside shared (Plain.insert_command args shared.edit)
unfolding Locked.insert_command Plain.insert_command
insert_command-agrees [] shared nz = refl
insert_command-agrees (index ∷ []) shared nz = refl
insert_command-agrees (index ∷ ch ∷ []) shared nz =
    let ints = str_is_int-same index in
    elim (Bool-cases (not (length ch == 1) || not (Plain.str_is_int index))) [
      | inl bad ↦ rw (ints, bad) refl
      | inr usable ↦ rw (ints, usable) (insert_step shared (atoi index) ch nz)
    ]
insert_command-agrees (index ∷ ch ∷ more ∷ rest) shared nz = refl

delete_command-agrees :
    (args : List (List ℕ)) (shared : Shared)
    → shared.sem ≢ 0
    → Locked.delete_command args shared ≡ beside shared (Plain.delete_command args shared.edit)
unfolding Locked.delete_command Plain.delete_command
delete_command-agrees [] shared nz = refl
delete_command-agrees (index ∷ []) shared nz =
    let ints = str_is_int-same index in
    elim (Bool-cases (Plain.str_is_int index)) [
      | inl int ↦ rw (ints, int) (delete_step shared (atoi index) nz)
      | inr bad ↦ rw (ints, bad) refl
    ]
delete_command-agrees (index ∷ more ∷ rest) shared nz = refl

run_command-agrees :
    (command : List ℕ) (args : List (List ℕ)) (shared : Shared)
    → shared.sem ≢ 0
    → same command test_word ≡ false
    → Locked.run_command (command ∷ args) shared
      ≡ beside shared (Plain.run_command (command ∷ args) shared.edit)
unfolding Locked.run_command Plain.run_command
run_command-agrees command args shared nz other = elim (Bool-cases (same command insert_word)) [
  | inl e ↦ rw e (insert_command-agrees args shared nz)
  | inr e1 ↦ elim (Bool-cases (same command delete_word)) [
    | inl e ↦ rw (e1, e) (delete_command-agrees args shared nz)
    | inr e2 ↦ elim (Bool-cases (same command undo_word)) [
      | inl e ↦ rw (e1, e2, e) (undo-agrees shared nz)
      | inr e3 ↦ elim (Bool-cases (same command report_word)) [
        | inl e ↦ rw (e1, e2, e3, e) (report-agrees shared)
        | inr e4 ↦ rw (e1, e2, e3, e4, other) refl
      ]
    ]
  ]
]

-- How each `main` ends: the exit status, the answer, and what the processes share.
abbrev pub plain_end : Reply × EditState → Outcome (ℕ × (Reply × EditState))
plain_end r = done (exit_failure, r)

abbrev pub locked_end : Shared → Reply × EditState → Outcome (ℕ × (Reply × Shared))
locked_end shared r = done (exit_success, (r.0, record shared { edit = r.1 }))

abbrev with_success : Reply × Shared → Outcome (ℕ × (Reply × Shared))
with_success r = done (exit_success, r)

status-beside :
    (shared : Shared) (m : Outcome (Reply × EditState))
    → (beside shared m >>= with_success) ≡ (m >>= locked_end shared)
status-beside shared (done r) = refl
status-beside shared blocked = refl
status-beside shared exited = refl
status-beside shared undefined = refl

-- While the semaphore is free, every command but `test` comes to the same answer and the same edited
-- state in hw3/edit.c and in hw4/edit.c, or makes both exit, or is undefined in both. hw4/edit.c leaves
-- the semaphore as it was: each branch posts what it waited for. When they come to an answer, the exit
-- status is 1 in hw3/edit.c, also of a command that succeeds, and 0 in hw4/edit.c.
pub main-agrees :
    (command : List ℕ) (args : List (List ℕ)) (shared : Shared)
    → shared.sem ≢ 0
    → same command test_word ≡ false
    → (result : Outcome (Reply × EditState)) × (Plain.main (command ∷ args) shared.edit
        ≡ (result >>= plain_end))
      × (Locked.main (command ∷ args) shared ≡ (result >>= locked_end shared))
unfolding Locked.main Plain.main
main-agrees command args shared nz other =
    let result = Plain.run_command (command ∷ args) shared.edit in
    (
      result,
      refl,
      ap (λ m. m >>= with_success) (run_command-agrees command args shared nz other)
          ∙ status-beside shared result,
    )
