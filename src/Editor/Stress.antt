-- ===== src/Editor/Stress.antt =====
-- The command `test` of assignments/hw4/edit.c.
use os_coursework.Prelude.{
  ℕ, zero, suc, ◌≤◌, ◌<◌, ◌≡◌, ◌≢◌, refl, subst, ap, ◌∙◌, Bool, true, List, [], ◌∷◌, length, arith,
}
use os_coursework.Editor.{Outcome, done, blocked, exited, undefined, answer, EditState}
use os_coursework.Editor.Locked
use os_coursework.Editor.Locked.{Shared, sem_wait, print_result}
use os_coursework.Editor.Text.{insert_at, delete_at}
use os_coursework.Editor.Holds.{length-insert_at}
use os_coursework.Editor.Refine.{Represents, one_more, insert-Represents, delete-Represents}
use os_coursework.Editor.Agree.{beside, insert-agrees, delete-agrees}

delete_at-insert_at :
    (i c : ℕ) (text : List ℕ) → i ≤ length text → delete_at i (insert_at i c text) ≡ text
delete_at-insert_at zero c text le = refl
delete_at-insert_at (suc i) c [] le = elim le [ ]
delete_at-insert_at (suc i) c (d ∷ text) le =
    ap (d ∷◌) (delete_at-insert_at i c text (omega (arith, le)))

print_result-done :
    (result : Outcome (Bool × Shared)) (b : Bool) (shared : Shared)
    → print_result result ≡ done (answer b, shared)
    → result ≡ done (b, shared)
unfolding print_result
print_result-done (done (b', s)) b shared e = cc (e)
print_result-done blocked b shared e = cc
print_result-done exited b shared e = cc
print_result-done undefined b shared e = cc

locked_insert :
    {shared : Shared} {text text1 text2 text3 : List ℕ} {undos : ℕ} (i c : ℕ)
    → Represents shared.edit text text1 text2 text3 undos
    → shared.sem ≢ 0
    → c ≢ 0
    → i ≤ length text
    → length text < 75
    → (next : EditState) × (Locked.insert shared i c ≡ done (true, record shared { edit = next }))
      × Represents next (insert_at i c text) text text1 text2 (one_more undos)
locked_insert {shared} i c r free nz le lt =
    let (next, e, r1) = insert-Represents i c r nz le lt in
    (
      next,
      print_result-done (Locked.insert shared i c) true (record shared { edit = next })
          (insert-agrees shared i c free ∙ ap (beside shared) e),
      r1,
    )

locked_delete :
    {shared : Shared} {text text1 text2 text3 : List ℕ} {undos : ℕ} (i : ℕ)
    → Represents shared.edit text text1 text2 text3 undos
    → shared.sem ≢ 0
    → i < length text
    → (next : EditState) × (Locked.delete shared i ≡ done (true, record shared { edit = next }))
      × Represents next (delete_at i text) text text1 text2 (one_more undos)
locked_delete {shared} i r free lt =
    let (next, e, r1) = delete-Represents i r lt in
    (
      next,
      print_result-done (Locked.delete shared i) true (record shared { edit = next })
          (delete-agrees shared i free ∙ ap (beside shared) e),
      r1,
    )

-- While the semaphore is free, `test` with a character, an index within the text and a text that
-- has room for one more character ends with the text as it was, whatever the number of rounds, and
-- with the semaphore as it was.
test-Represents :
    (n i c : ℕ) {shared : Shared} {text text1 text2 text3 : List ℕ} {undos : ℕ}
    → Represents shared.edit text text1 text2 text3 undos
    → shared.sem ≢ 0
    → c ≢ 0
    → i ≤ length text
    → length text < 75
    → (next : EditState) × (texts : List ℕ × List ℕ × List ℕ × ℕ) × (Locked.test shared n i c
        ≡ done (record shared { edit = next }))
      × Represents next text texts.0 texts.1 texts.2 texts.3
unfolding Locked.test
test-Represents zero i c {shared} {text} {text1} {text2} {text3} {undos} r free nz le lt =
    (shared.edit, (text1, text2, text3, undos), refl, r)
test-Represents (suc n) i c {shared} {text} {text1} {text2} {text3} {undos} r free nz le lt =
    let (s1, e1, r1) = locked_insert i c r free nz le lt in
    let (s2, e2, r2) =
      locked_delete {shared = record shared { edit = s1 }} i r1 free
        (omega (arith, length-insert_at i c text, le)) in
    let r2' =
      subst (λ t. Represents s2 t (insert_at i c text) text text1 (one_more (one_more undos)))
        (delete_at-insert_at i c text le) r2 in
    let (next, texts, e, r3) =
      test-Represents n i c {shared = record shared { edit = s2 }} r2' free nz le lt in
    (next, texts, rw (e1, e2) e, r3)
