-- ===== src/Critical/Lock.antt =====
-- exercises/ex08/critical.c: the lock around the critical sections, for any number of threads.
use os_coursework.Prelude.{
  ℕ, ◌<◌, ◌≡◌, refl, sym, Bool, true, false, update, Bool-cases, ◌⊎◌, ◌==◌, ==_iff, ◌∙◌, inl, inr,
  arith,
}

-- The lock, and whether a thread is between `lockTestAndSet` and `__sync_lock_release`.
pub record LockState : Type 0 where
  pub lock : Bool
  pub inside : ℕ → Bool

abbrev pub unlocked : LockState
unlocked = record { lock = false; inside = λ _. false }

-- `__sync_lock_test_and_set( lock, 1 )`: the old value, and the state behind it.
unfoldable pub test_and_set : LockState → Bool × LockState
test_and_set s = (s.lock, record s { lock = true })

-- A thread that is outside tests the lock, and is inside once it was free; one that is inside releases it.
pub data LockStep (tcount : ℕ) (s : LockState) : LockState → Type 0 where
  waits :
      (i : ℕ)
      → i < tcount
      → s.inside i ≡ false
      → (test_and_set s).0 ≡ true
      → LockStep tcount s (test_and_set s).1
  enters :
      (i : ℕ)
      → i < tcount
      → s.inside i ≡ false
      → (test_and_set s).0 ≡ false
      → LockStep tcount s (record (test_and_set s).1 { inside = update s.inside i true })
  releases :
      (i : ℕ)
      → i < tcount
      → s.inside i ≡ true
      → LockStep tcount s (record s { lock = false; inside = update s.inside i false })

pub data LockSteps (tcount : ℕ) : LockState → Type 0 where
  at_start : LockSteps tcount unlocked
  then_step : {s t : LockState} → LockSteps tcount s → LockStep tcount s t → LockSteps tcount t

record IsLocked (s : LockState) : Type 0 where
  one : (i j : ℕ) → s.inside i ≡ true → s.inside j ≡ true → i ≡ j
  free : s.lock ≡ false → (i : ℕ) → s.inside i ≡ false
  taken : s.lock ≡ true → (i : ℕ) × (s.inside i ≡ true)

-- Whether a thread is inside, after another or the same has changed.
update-inside :
    (inside : ℕ → Bool) (i j : ℕ) (b : Bool)
    → update inside i b j ≡ true
    → ((i ≡ j) × (b ≡ true)) ⊎ (inside j ≡ true)
update-inside inside i j b h = elim (Bool-cases (i == j)) [
  | inl e ↦ inl ((==_iff i j).0 e, rw e at h)
  | inr e ↦ inr (rw e at h)
]

LockStep-IsLocked : {tcount : ℕ} {s t : LockState} → LockStep tcount s t → IsLocked s → IsLocked t
unfolding test_and_set
LockStep-IsLocked (waits i lt out held) v = record {
  one = v.one;
  free = λ e. cc (e);
  taken = λ _. v.taken held;
}
LockStep-IsLocked {s = s} (enters i lt out open_lock) v =
    let only : (j : ℕ) → update s.inside i true j ≡ true → i ≡ j = λ j h.
      elim (update-inside s.inside i j true h) [
        | inl e ↦ e.0
        | inr e ↦ cc (e, v.free open_lock j)
      ] in
    record {
      one = λ j k h h'. sym (only j h) ∙ only k h';
      free = λ e. cc (e);
      taken = λ _. (i, ground arith);
    }
LockStep-IsLocked {s = s} (releases i lt into) v =
    let nobody : (j : ℕ) → update s.inside i false j ≡ false = λ j. elim (Bool-cases (i == j)) [
      | inl e ↦ rw e refl
      | inr e ↦ elim (Bool-cases (s.inside j)) [
        | inl h ↦ cc (e, (==_iff i j).1 (v.one i j into h))
        | inr h ↦ rw e h
      ]
    ] in
    record { one = λ j k h h'. cc (h, nobody j); free = λ _. nobody; taken = λ e. cc (e) }

-- Whatever the threads do, two that are between `lockTestAndSet` and the release are the same one, and
-- the lock is free exactly if no thread is.
pub one_inside :
    {tcount : ℕ} {s : LockState}
    → LockSteps tcount s
    → ((i j : ℕ) → s.inside i ≡ true → s.inside j ≡ true → i ≡ j)
      × (s.lock ≡ false → (i : ℕ) → s.inside i ≡ false)
      × (s.lock ≡ true → (i : ℕ) × (s.inside i ≡ true))
one_inside steps = let v = reached steps in (v.one, v.free, v.taken)
  where
    reached : {tcount : ℕ} {s : LockState} → LockSteps tcount s → IsLocked s
    reached at_start = record { one = λ i j h. cc (h); free = λ _ i. refl; taken = λ e. cc (e) }
    reached (then_step steps step) = LockStep-IsLocked step (reached steps)
