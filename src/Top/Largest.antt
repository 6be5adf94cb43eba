-- ===== src/Top/Largest.antt =====
-- assignments/hw7: the processes that are printed are the largest.
use Prim.Native.Nat.{min}
use os_coursework.Prelude.{
  ℕ, zero, suc, ◌≤◌, ◌<◌, ◌≡◌, refl, sym, ap, subst, ◌∙◌, ◌⊎◌, inl, inr, true, false, some,
  Option-cases, Bool-cases, List, [], ◌∷◌, ◌++◌, map, All, leb, leb→le, length, take, drop, arith,
}
use os_coursework.Top.{
  Process, Entry, is_positive, entry_process, collect, get_all_process, compare_proc_mem,
  process_line, output_proc, max_proc_num,
}
use os_coursework.Top.Order.{
  Shuffled, Shuffled-All, Shuffled-length, at_most_zero, Ordered, Qsort, Fits, compare_proc_mem-leb,
}

take-append-drop : (n : ℕ) (xs : List Process) → take n xs ++ drop n xs ≡ xs
take-append-drop zero xs = refl
take-append-drop (suc n) [] = refl
take-append-drop (suc n) (x ∷ xs) = ap (λ r. x ∷ r) (take-append-drop n xs)

length-take : (n : ℕ) (xs : List Process) → length (take n xs) ≡ min n (length xs)
length-take zero xs = omega arith
length-take (suc n) [] = omega arith
length-take (suc n) (x ∷ xs) = omega (arith, length-take n xs)

-- Sizes that do not grow.
abbrev pub Descending : List Process → Type 0
Descending [] = Unit
Descending (p ∷ procs) = All (λ q. q.memsize.1 ≤ p.memsize.1) procs × Descending procs

entry_process-positive :
    (entry : Entry) (p : Process) → entry_process entry ≡ some p → p.memsize.0 ≡ false
unfolding entry_process is_positive
entry_process-positive entry p e = ground arith

collect-positive :
    (room : ℕ) (entries : List Entry) → All (λ p. p.memsize.0 ≡ false) (collect room entries)
unfolding collect
collect-positive zero entries = tt
collect-positive (suc room) [] = tt
collect-positive (suc room) (entry ∷ entries) = elim (Option-cases (entry_process entry)) [
  | inl e ↦ rw (collect, e) (collect-positive (suc room) entries)
  | inr (p, e) ↦ rw (collect, e) (entry_process-positive entry p e, collect-positive room entries)
]

at_most→le :
    (a b : Process)
    → Fits a
    → Fits b
    → at_most_zero (compare_proc_mem a b) ≡ true
    → b.memsize.1 ≤ a.memsize.1
at_most→le a b h k e = leb→le b.memsize.1 a.memsize.1 (sym (compare_proc_mem-leb a b h k) ∙ e)

le→at_most :
    (a b : Process)
    → Fits a
    → Fits b
    → b.memsize.1 ≤ a.memsize.1
    → at_most_zero (compare_proc_mem a b) ≡ true
le→at_most a b h k le = rw (compare_proc_mem-leb a b h k) (ground arith)

at_most_total :
    (a b : Process)
    → Fits a
    → Fits b
    → (at_most_zero (compare_proc_mem a b) ≡ true) ⊎ (at_most_zero (compare_proc_mem b a) ≡ true)
at_most_total a b h k = elim (Bool-cases (leb b.memsize.1 a.memsize.1)) [
  | inl le ↦ inl (le→at_most a b h k (leb→le b.memsize.1 a.memsize.1 le))
  | inr gt ↦ inr (le→at_most b a k h (ground (arith, gt)))
]

at_most_trans :
    (a b c : Process)
    → Fits a
    → Fits b
    → Fits c
    → at_most_zero (compare_proc_mem a b) ≡ true
    → at_most_zero (compare_proc_mem b c) ≡ true
    → at_most_zero (compare_proc_mem a c) ≡ true
at_most_trans a b c h k l e e' =
    le→at_most a c h l (omega (arith, at_most→le a b h k e, at_most→le b c k l e'))

Ordered-Descending :
    (procs : List Process) → All Fits procs → Ordered compare_proc_mem procs → Descending procs
Ordered-Descending [] h o = tt
Ordered-Descending (p ∷ procs) h o = (below procs h.1 o.0, Ordered-Descending procs h.1 o.1)
  where
    below :
        (qs : List Process)
        → All Fits qs
        → All (λ q. at_most_zero (compare_proc_mem p q) ≡ true) qs
        → All (λ q. q.memsize.1 ≤ p.memsize.1) qs
    below [] k s = tt
    below (q ∷ qs) k s = (at_most→le p q h.0 k.0 s.0, below qs k.1 s.1)

All-zip :
    (procs : List Process)
    → All (λ p. p.memsize.0 ≡ false) procs
    → All (λ p. p.memsize.1 < 2147483648) procs
    → All Fits procs
All-zip [] h k = tt
All-zip (p ∷ procs) h k = ((h.0, k.0), All-zip procs h.1 k.1)

-- With any `qsort` as the C library documents it, and sizes that fit in an `int`, what is printed is ten
-- of the processes found, or all if they are fewer, by falling size, and none of the others is larger.
pub output_proc_largest :
    (q : Qsort) (entries : List Entry)
    → let procs = get_all_process entries in
      All (λ p. p.memsize.1 < 2147483648) procs
      → (shown : List Process) × (rest : List Process) × (output_proc q.sort procs
          ≡ map process_line shown)
        × (length shown ≡ min 10 (length procs))
        × Shuffled procs (shown ++ rest)
        × Descending (shown ++ rest)
unfolding output_proc get_all_process
output_proc_largest q entries small =
    let procs = collect max_proc_num entries in
    let fit = All-zip procs (collect-positive max_proc_num entries) small in
    let sorted = q.sort compare_proc_mem procs in
    let same = q.shuffles compare_proc_mem procs in
    let whole = sym (take-append-drop 10 sorted) in
    let ordered = q.orders Fits compare_proc_mem at_most_total at_most_trans procs fit in
    (
      take 10 sorted,
      drop 10 sorted,
      refl,
      length-take 10 sorted ∙ ap (min 10) (sym (Shuffled-length same)),
      subst (Shuffled procs) whole same,
      subst Descending whole (Ordered-Descending sorted (Shuffled-All Fits same fit) ordered),
    )
