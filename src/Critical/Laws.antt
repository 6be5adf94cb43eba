-- ===== src/Critical/Laws.antt =====
-- exercises/ex08/critical.c: no node is lost, and no count.
use os_coursework.Prelude.{
  ℕ, zero, suc, ◌+◌, ◌≤◌, ◌<◌, ◌≡◌, refl, sym, ap, subst, ◌∙◌, Option, some, List, [], ◌∷◌, ◌++◌,
  length, update, some_inj, arith, Bool-cases, inl, inr, ◌==◌,
}
use os_coursework.Critical.{
  or_else, State, make_nodes, add_node, dequeue_node, enqueue_node, count_node, takes, gives, Steps,
  here, later, report,
}
use os_coursework.Critical.Linked.{sum_of}
use os_coursework.Prelude.Nodes.{occurrences, Linked, last, update-same, Linked-update}
use os_coursework.Critical.Queue.{IsQueue, taken, gives-IsQueue}

-- The numbers from `n - 1` down to 0.
abbrev down_from : ℕ → List ℕ
down_from zero = []
down_from (suc n) = n ∷ down_from n

down_from-absent : (n b : ℕ) → n ≤ b → occurrences b (down_from n) ≡ 0
unfolding occurrences
down_from-absent zero b le = refl
down_from-absent (suc n) b le = ground (arith, down_from-absent n b)

down_from-once : (n b : ℕ) → occurrences b (down_from n) ≤ 1
unfolding occurrences
down_from-once zero b = omega arith
down_from-once (suc n) b = ground (arith, down_from-once n b, down_from-absent n b)

length-down_from : (n : ℕ) → length (down_from n) ≡ n
length-down_from zero = refl
length-down_from (suc n) = ap suc (length-down_from n)

make_nodes-held : (n : ℕ) → (make_nodes n).held ≡ []
unfolding make_nodes add_node
make_nodes-held zero = refl
make_nodes-held (suc n) = make_nodes-held n

make_nodes-counter : (n a : ℕ) → (make_nodes n).counter a ≡ 0
unfolding make_nodes add_node
make_nodes-counter zero a = refl
make_nodes-counter (suc n) a = elim (Bool-cases (n == a)) [
  | inl e ↦ rw e refl
  | inr e ↦ rw e (make_nodes-counter n a)
]

sum_of-zero : (f : ℕ → ℕ) (q : List ℕ) → ((a : ℕ) → f a ≡ 0) → sum_of f q ≡ 0
unfolding sum_of
sum_of-zero f [] all = refl
sum_of-zero f (a ∷ q) all = omega (arith, all a, sum_of-zero f q all)

make_nodes-Linked : (n : ℕ) → Linked (make_nodes n).next (make_nodes n).head (down_from n)
unfolding make_nodes add_node Linked
make_nodes-Linked zero = refl
make_nodes-Linked (suc n) = (
  refl,
  subst (λ p. Linked (update (make_nodes n).next n (make_nodes n).head) p (down_from n))
      (sym (update-same (make_nodes n).next n (make_nodes n).head))
      (Linked-update (make_nodes n).next n (make_nodes n).head (make_nodes n).head (down_from n)
        (down_from-absent n n (omega arith)) (make_nodes-Linked n)),
)

make_nodes-tail : (n : ℕ) → (make_nodes (suc n)).tail ≡ some (last n (down_from n))
unfolding make_nodes add_node last
make_nodes-tail zero = refl
make_nodes-tail (suc n) = ap (λ o. or_else o (suc n)) (make_nodes-tail n)

make_nodes-IsQueue : (n : ℕ) → IsQueue (suc n) 0 n (down_from n) (make_nodes (suc n))
unfolding occurrences sum_of
make_nodes-IsQueue n = record {
  linked = make_nodes-Linked (suc n);
  tail_last = make_nodes-tail n;
  distinct =
      λ b. omega (arith, down_from-once (suc n) b, ap (occurrences b) (make_nodes-held (suc n)));
  size = omega (arith, length-down_from n, ap length (make_nodes-held (suc n)));
  counted = omega (
    arith,
    sum_of-zero (make_nodes (suc n)).counter (n ∷ down_from n) (make_nodes-counter (suc n)),
    ap (sum_of (make_nodes (suc n)).counter) (make_nodes-held (suc n)),
  );
}

made-IsQueue : (n : ℕ) → 0 < n → (a : ℕ) × (q : List ℕ) × IsQueue n 0 a q (make_nodes n)
made-IsQueue zero pos = absurd (omega arith)
made-IsQueue (suc n) pos = (n, down_from n, make_nodes-IsQueue n)

abbrev pub gives_count : {tcount : ℕ} {s t : State} → Steps tcount s t → ℕ
gives_count here = 0
gives_count (later steps (takes node t few e)) = gives_count steps
gives_count (later steps (gives before after node t holds e)) = suc (gives_count steps)

Steps-IsQueue :
    {n tcount : ℕ} {s : State} (steps : Steps tcount (make_nodes n) s)
    → tcount < n
    → (a : ℕ) × (q : List ℕ) × IsQueue n (gives_count steps) a q s
Steps-IsQueue {n} here fewer = made-IsQueue n (omega (arith, fewer))
Steps-IsQueue {n} (later steps (takes node t few e)) fewer =
    let (a, q, r) = Steps-IsQueue steps fewer in
    let (dequeued, now) = taken r few fewer in
    subst
      (λ taken_to.
        (b : ℕ) × (rest : List ℕ) × IsQueue n (gives_count steps) b rest
          (record taken_to.1 { held = taken_to.0 ∷ taken_to.1.held }))
      (some_inj (sym dequeued ∙ e)) now
Steps-IsQueue {n} (later steps (gives before after node t holds e)) fewer =
    let (a, q, r) = Steps-IsQueue steps fewer in
    let (u, enqueued, r1) = gives-IsQueue before after node holds r in
    (
      a,
      q ++ node ∷ [],
      subst
          (λ v.
            IsQueue n (suc (gives_count steps)) a (q ++ node ∷ [])
              (record v { held = before ++ after }))
          (some_inj (sym enqueued ∙ e)) r1,
    )

abbrev reported : ℕ → ℕ → Option (ℕ × ℕ)
reported nodes total = some (nodes, total)

same_report : {a b c d : ℕ} → a ≡ b → c ≡ d → reported a c ≡ reported b d
same_report e e' = cc (e, e')

report-Linked :
    (next : ℕ → Option ℕ) (counter : ℕ → ℕ) (p : Option ℕ) (q : List ℕ) (nodes total : ℕ)
    → Linked next p q
    → report (length q) next counter p nodes total
      ≡ some (nodes + length q, total + sum_of counter q)
unfolding report Linked sum_of
report-Linked next counter p [] nodes total h = rw h (same_report (omega arith) (omega arith))
report-Linked next counter p (a ∷ q) nodes total (e, h) = rw e (
    report-Linked next counter (next a) q (nodes + 1) (total + counter a) h
    ∙ same_report (omega arith) (omega arith))

-- With fewer threads than nodes, in every interleaving of the threads: a thread that has no node gets
-- one, no NULL is followed when a node is put back, and once every thread has put its node back the
-- report, with fuel for each node, is the number of nodes and how often a node was put back.
pub nothing_lost :
    {n tcount : ℕ} {s : State} (steps : Steps tcount (make_nodes n) s)
    → tcount < n
    → (length s.held < tcount → (node : ℕ) × (t : State) × (dequeue_node s ≡ some (node, t)))
      × ((before after : List ℕ) (node : ℕ)
          → s.held ≡ before ++ node ∷ after
          → (t : State) × (enqueue_node node (count_node node s) ≡ some t))
      × (s.held ≡ [] → report n s.next s.counter s.head 0 0 ≡ some (n, gives_count steps))
unfolding sum_of
nothing_lost {n} {s = s} steps fewer =
    let (a, q, r) = Steps-IsQueue steps fewer in
    (
      λ few. (a, record s { head = s.next a }, (taken r few fewer).0),
      λ before after node holds.
          let (t, enqueued, _) = gives-IsQueue before after node holds r in (t, enqueued),
      λ none_held.
          let nodes : suc (length q) ≡ n = omega (arith, r.size, ap length none_held) in
          let counts : sum_of s.counter (a ∷ q) ≡ gives_count steps =
            omega (arith, r.counted, ap (sum_of s.counter) none_held) in
          ap (λ fuel. report fuel s.next s.counter s.head 0 0) (sym nodes)
          ∙ report-Linked s.next s.counter s.head (a ∷ q) 0 0 r.linked
          ∙ same_report (omega (arith, nodes)) (omega (arith, counts)),
    )
