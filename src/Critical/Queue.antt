-- ===== src/Critical/Queue.antt =====
-- exercises/ex08/critical.c: the nodes are in the list or held, and each only once.
use os_coursework.Prelude.{
  ℕ, suc, ◌+◌, ◌≤◌, ◌<◌, ◌≡◌, refl, sym, ap, subst, ◌∙◌, none, some, List, [], ◌∷◌, ◌++◌, length,
  length-append, update, arith,
}
use os_coursework.Critical.{State, dequeue_node, enqueue_node, count_node}
use os_coursework.Critical.Linked.{sum_of, sum_of-append, sum_of-update, Linked-enqueue}
use os_coursework.Prelude.Nodes.{
  occurrences, Linked, last, occurrences-append, last-append, occurrences-here, update-same,
}

-- The list is `a ∷ q`, the nodes are `n`, and they have been given back `total` times.
pub record IsQueue (n total : ℕ) (a : ℕ) (q : List ℕ) (s : State) : Type 0 where
  pub linked : Linked s.next s.head (a ∷ q)
  pub tail_last : s.tail ≡ some (last a q)
  pub distinct : (b : ℕ) → occurrences b (a ∷ q) + occurrences b s.held ≤ 1
  pub size : suc (length q) + length s.held ≡ n
  pub counted : sum_of s.counter (a ∷ q) + sum_of s.counter s.held ≡ total

dequeue_node-IsQueue :
    {n total a : ℕ} {b : ℕ} {q : List ℕ} {s : State}
    → IsQueue n total a (b ∷ q) s
    → dequeue_node s ≡ some (a, record s { head = s.next a })
unfolding dequeue_node Linked
dequeue_node-IsQueue r = rw (r.linked.0) refl

takes-IsQueue :
    {n total a : ℕ} {b : ℕ} {q : List ℕ} {s : State}
    → IsQueue n total a (b ∷ q) s
    → IsQueue n total b q (record s { head = s.next a; held = a ∷ s.held })
unfolding Linked occurrences sum_of last
takes-IsQueue {a = a} {b} {q} {s} r = record {
  linked = r.linked.1;
  tail_last = r.tail_last;
  distinct = λ c. omega (arith, r.distinct c);
  size = omega (arith, r.size);
  counted = omega (arith, r.counted);
}

-- A list with one node taken out.
occurrences-without :
    (b node : ℕ) (before after : List ℕ)
    → occurrences b (before ++ node ∷ after)
      ≡ occurrences b (before ++ after) + occurrences b (node ∷ [])
unfolding occurrences
occurrences-without b node before after =
    omega (arith, occurrences-append b before (node ∷ after), occurrences-append b before after)

sum_of-without :
    (f : ℕ → ℕ) (node : ℕ) (before after : List ℕ)
    → sum_of f (before ++ node ∷ after) ≡ sum_of f (before ++ after) + f node
unfolding sum_of
sum_of-without f node before after =
    omega (arith, sum_of-append f before (node ∷ after), sum_of-append f before after)

length-without :
    (node : ℕ) (before after : List ℕ)
    → length (before ++ node ∷ after) ≡ suc (length (before ++ after))
length-without node before after =
    omega (arith, length-append before (node ∷ after), length-append before after)

sum_of-once : (f : ℕ → ℕ) (node : ℕ) → sum_of f (node ∷ []) ≡ f node
unfolding sum_of
sum_of-once f node = omega arith

pub gives-IsQueue :
    {n total a : ℕ} {q : List ℕ} {s : State} (before after : List ℕ) (node : ℕ)
    → s.held ≡ before ++ node ∷ after
    → IsQueue n total a q s
    → (t : State) × (enqueue_node node (count_node node s) ≡ some t)
      × IsQueue n (suc total) a (q ++ node ∷ []) (record t { held = before ++ after })
unfolding enqueue_node last
gives-IsQueue {n} {total} {a} {q} {s} before after node holds r =
    let others = before ++ after in
    let counter = update s.counter node (s.counter node + 1) in
    let split = λ (b : ℕ). ap (occurrences b) holds ∙ occurrences-without b node before after in
    let fresh : occurrences node (a ∷ q) ≡ 0 =
      omega (arith, r.distinct node, split node, occurrences-here node []) in
    (
      record s {
        counter = counter;
        next = update (update s.next (last a q) (some node)) node none;
        tail = some node;
      },
      rw r.tail_last refl,
      record {
        linked =
            Linked-enqueue s.next node s.head a q fresh (λ b. omega (arith, r.distinct b)) r.linked;
        tail_last = ap some (sym (last-append a node q []));
        distinct =
            λ b. omega (arith, r.distinct b, split b, occurrences-append b (a ∷ q) (node ∷ []));
        size = omega (
          arith,
          r.size,
          ap length holds,
          length-without node before after,
          length-append q (node ∷ []),
        );
        counted = omega (
          arith,
          r.counted,
          ap (sum_of s.counter) holds,
          sum_of-without s.counter node before after,
          sum_of-append counter (a ∷ q) (node ∷ []),
          sum_of-update s.counter node (a ∷ q),
          sum_of-update s.counter node others,
          sum_of-once counter node,
          update-same s.counter node (s.counter node + 1),
          split node,
          r.distinct node,
          occurrences-here node [],
        );
      },
    )

-- With fewer threads than nodes the list is not empty when a thread takes a node.
longer :
    {n total a tcount : ℕ} (q : List ℕ) {s : State}
    → IsQueue n total a q s
    → length s.held < tcount
    → tcount < n
    → (b : ℕ) × (rest : List ℕ) × (q ≡ b ∷ rest)
longer [] r few fewer = absurd (omega (arith, r.size))
longer (b ∷ rest) r few fewer = (b, rest, refl)

pub taken :
    {n total a tcount : ℕ} {q : List ℕ} {s : State}
    → IsQueue n total a q s
    → length s.held < tcount
    → tcount < n
    → (dequeue_node s ≡ some (a, record s { head = s.next a }))
      × ((b : ℕ) × (rest : List ℕ) × IsQueue n total b rest
            (record s { head = s.next a; held = a ∷ s.held }))
taken {n} {total} {a} {q = q} {s = s} r few fewer =
    let (b, rest, e) = longer q r few fewer in
    let r1 = subst (λ x. IsQueue n total a x s) e r in
    (dequeue_node-IsQueue r1, (b, rest, takes-IsQueue r1))
