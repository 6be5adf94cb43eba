-- ===== src/Kitchen/Tails.antt =====
-- A thread has always a tail of its loop body left, so what holds of a body and of each tail of what
-- it holds of, holds of what any thread has left.
use os_coursework.Prelude.{
  ℕ, ◌<◌, ◌≡◌, some, List, [], ◌∷◌, arith, update, update-all, Bool-cases, inl, inr,
}
use os_coursework.Kitchen.Threads.{
  Instr, lock, unlock, cook, rest, say, Pc, at, done, State, call, resume, turn, chef, stop, Reach,
  here, later, Steps,
}

-- `P` on what is left.
abbrev pub OnPc : (List Instr → Type 0) → Pc → Type 0
OnPc P (at r) = P r
OnPc P done = Unit

-- What every call does to the threads.
pub call-pc :
    (c : Instr) (r : List Instr) (i : ℕ) (s : State) {t : State}
    → call c r i s ≡ some t
    → (t.pc ≡ update s.pc i (at r)) × (t.running ≡ s.running)
unfolding call
call-pc (lock m) r i s h = ground arith
call-pc (unlock m) r i s h = ground arith
call-pc (cook d) r i s h = ground arith
call-pc (rest d) r i s h = ground arith
call-pc say r i s h = ground arith

module _ (n : ℕ) (start : ℕ → List Instr) (P : ℕ → List Instr → Type 0)
    (tail : (i : ℕ) (c : Instr) (r : List Instr) → P i (c ∷ r) → P i r)
    (starts : (i : ℕ) → i < n → P i (start i)) where
  resume-tail :
      (s : State) {t : State} (i : ℕ) (p : Pc)
      → i < n
      → ((j : ℕ) → j < n → OnPc (P j) (s.pc j))
      → OnPc (P i) p
      → resume (start i) p i s ≡ some t
      → (j : ℕ) → j < n
      → OnPc (P j) (t.pc j)
  unfolding resume
  resume-tail s {t} i (at []) lt all own h = elim (Bool-cases s.running) [
    | inl on ↦
        let same : t.pc ≡ update s.pc i (at (start i)) = ground (arith, on) in
        rw same (update-all (λ j. OnPc (P j)) s.pc i _ n all (starts i lt))
    | inr off ↦
        let same : t.pc ≡ update s.pc i done = ground (arith, off) in
        rw same (update-all (λ j. OnPc (P j)) s.pc i _ n all tt)
  ]
  resume-tail s i (at (c ∷ r)) lt all own h =
      rw (call-pc c r i s h).0 (update-all (λ j. OnPc (P j)) s.pc i (at r) n all (tail i c r own))
  resume-tail s i done lt all own h = cc

  Steps-tail :
      {s t : State}
      → Steps n start s t
      → ((j : ℕ) → j < n → OnPc (P j) (s.pc j))
      → (j : ℕ) → j < n
      → OnPc (P j) (t.pc j)
  unfolding turn
  Steps-tail here all = all
  Steps-tail (later {t = s} r (chef i lt h)) all =
      let before = Steps-tail r all in resume-tail s i (s.pc i) lt before (before i lt) h
  Steps-tail (later r stop) all = Steps-tail r all

  pub Reach-tail :
      ((j : ℕ) → P j []) → {s : State} → Reach n start s → (j : ℕ) → j < n → OnPc (P j) (s.pc j)
  Reach-tail nil r = Steps-tail r (λ j lt. nil j)
