-- ===== src/Sorts/Nodes/Laws.antt =====
-- exercises/ex15/linked.c: on the nodes `sort` does what it does on the values.
use os_coursework.Prelude.{
  ℕ, zero, suc, ◌+◌, ◌≤◌, ◌<◌, ◌≡◌, refl, sym, ap, subst, ◌∙◌, ◌≢◌, Option, none, some, List, [],
  ◌∷◌, ◌++◌, map, length, length-append, update, arith,
}
use mathlib.Core.List.{map-append}
use os_coursework.Prelude.Nodes.{
  occurrences, Linked, last, occurrences-append, occurrences-here, occurrences-tail, absent-apart,
  last-append, last-occurrences, update-same, update-other, Linked-frame, Linked-join,
}
use os_coursework.Sorts.{distribute, sort_linked}
use os_coursework.Sorts.Nodes.{Next, Ends, no_nodes, join_nodes, sort_nodes}
use os_coursework.Sorts.Nodes.Loop.{
  tail_of, IsList, IsList-frame, in-apart, Split, distribute_nodes-Split,
}

tail_of-last :
    (pivot : ℕ) (gs : List ℕ)
    → (let tail : Option ℕ = elim (tail_of gs) [ some tail ↦ some tail | none ↦ some pivot ] in
        tail)
      ≡ some (last pivot gs)
unfolding tail_of last
tail_of-last pivot [] = refl
tail_of-last pivot (b ∷ gs) = refl

-- Lesser + pivot + greater.
join_nodes-IsList :
    (pivot : ℕ) (ls gs : List ℕ) (lesser greater : Ends) (next : Next)
    → IsList next lesser ls
    → IsList next greater gs
    → ((b : ℕ) → occurrences b ls + occurrences b gs + occurrences b (pivot ∷ []) ≤ 1)
    → (after : Ends × Next) × (join_nodes pivot lesser greater next ≡ some after)
      × IsList after.1 after.0 (ls ++ pivot ∷ gs)
      × ((b : ℕ) → occurrences b ls ≡ 0 → pivot ≢ b → after.1 b ≡ next b)
unfolding join_nodes Linked tail_of
join_nodes-IsList pivot [] gs lesser greater next l g once =
    let next' = update next pivot greater.head in
    let behind : Linked next' (next' pivot) gs =
      subst (λ r. Linked next' r gs) (sym (update-same next pivot greater.head))
        (Linked-frame next next' greater.head gs
          (λ b lt.
            update-other next pivot b greater.head
              (in-apart pivot b gs (omega (arith, once pivot, occurrences-here pivot [])) lt))
          g.linked) in
    (
      (record { head = some pivot; tail = some (last pivot gs) }, next'),
      rw (join_nodes, l.linked, g.tail_last, tail_of-last pivot gs) refl,
      record { linked = (refl, behind); tail_last = refl },
      λ b _ ne. update-other next pivot b greater.head ne,
    )
join_nodes-IsList pivot (a ∷ q) gs lesser greater next l g once =
    let linked = update next (last a q) (some pivot) in
    let next' = update linked pivot greater.head in
    let fresh_l : occurrences pivot (a ∷ q) ≡ 0 =
      omega (arith, once pivot, occurrences-here pivot []) in
    let kept : (b : ℕ) → pivot ≢ b → last a q ≢ b → next' b ≡ next b = λ b ne not_last.
      update-other linked pivot b greater.head ne
      ∙ update-other next (last a q) b (some pivot) not_last in
    let at_last =
      update-other linked pivot (last a q) greater.head
        (in-apart pivot (last a q) (a ∷ q) fresh_l (last-occurrences a q))
      ∙ update-same next (last a q) (some pivot) in
    let behind : Linked next' (next' pivot) gs =
      subst (λ r. Linked next' r gs) (sym (update-same linked pivot greater.head))
        (Linked-frame next next' greater.head gs
          (λ b lt.
            kept b (in-apart pivot b gs (omega (arith, once pivot, occurrences-here pivot [])) lt)
              (λ same. absurd (
                omega
                  (arith, once b, lt, last-occurrences a q, ap (λ c. occurrences c (a ∷ q)) same))))
          g.linked) in
    (
      (record { head = some a; tail = some (last pivot gs) }, next'),
      rw (join_nodes, l.linked.0, l.tail_last, g.tail_last, tail_of-last pivot gs) refl,
      record {
        linked =
            Linked-join next next' (some a) a q (pivot ∷ gs) (λ b. omega (arith, once b))
              (λ b lt ne. kept b (in-apart pivot b (a ∷ q) fresh_l lt) (λ same. ne (sym same)))
              (at_last, behind) (refl, l.linked.1);
        tail_last = ap some (sym (last-append a pivot q gs));
      },
      λ b absent ne.
          kept b ne
            (λ same. in-apart b (last a q) (a ∷ q) absent (last-occurrences a q) (sym same)),
    )

-- What `sort` comes to.
pub record SortsNodes (fuel : ℕ) (val : ℕ → ℕ) (next : Next) (nodes : List ℕ)
    (result : Option (Ends × Next)) : Type 0 where
  pub after : Ends × Next
  pub order : List ℕ
  pub done : result ≡ some after
  pub list : IsList after.1 after.0 order
  pub same : (b : ℕ) → occurrences b order ≡ occurrences b nodes
  pub size : length order ≡ length nodes
  pub frame : (b : ℕ) → occurrences b nodes ≡ 0 → after.1 b ≡ next b
  pub values : map val order ≡ sort_linked fuel (map val nodes)

sort_linked-nil : (fuel : ℕ) → sort_linked fuel [] ≡ []
unfolding sort_linked
sort_linked-nil zero = refl
sort_linked-nil (suc fuel) = refl

distribute-nil : (v : ℕ) → distribute v [] [] [] ≡ ([], [])
unfolding distribute
distribute-nil v = refl

sort_linked-parts :
    (fuel v : ℕ) (vs : List ℕ) {lows highs xs ys : List ℕ}
    → distribute v vs [] [] ≡ (lows, highs)
    → xs ≡ sort_linked fuel lows
    → ys ≡ sort_linked fuel highs
    → xs ++ v ∷ ys ≡ sort_linked (suc fuel) (v ∷ vs)
unfolding sort_linked
sort_linked-parts fuel v vs e low high = rw (e, low, high) refl

-- The two parts are sorted one after the other, and joined around the pivot.
joined-SortsNodes :
    (fuel : ℕ) (val : ℕ → ℕ) (pivot : ℕ) (rest : List ℕ) (next : Next)
    {r r0 r1 : Option (Ends × Next)} {r2 : Option ((Ends × Ends) × Next)}
    → ((b : ℕ) → occurrences b (pivot ∷ rest) ≤ 1)
    → (p : Split val pivot next rest [] [] r2) → (low : SortsNodes fuel val p.parts.1 p.lows r0)
    → (high : SortsNodes fuel val low.after.1 p.highs r1)
    → r ≡ join_nodes pivot low.after.0 high.after.0 high.after.1
    → SortsNodes (suc fuel) val next (pivot ∷ rest) r
unfolding occurrences
joined-SortsNodes fuel val pivot rest next once p low high e =
    let apart : (b : ℕ)
        → occurrences b low.order + occurrences b high.order + occurrences b (pivot ∷ []) ≤ 1 =
      λ b. omega (arith, p.same b, low.same b, high.same b, once b) in
    let (after, joined, joins, frame) =
      join_nodes-IsList pivot low.order high.order low.after.0 high.after.0 high.after.1
        (IsList-frame low.after.1 high.after.1 low.after.0 low.order
          (λ b some_low. high.frame b (omega (arith, apart b, high.same b, some_low))) low.list)
        high.list apart in
    record {
      after = after;
      order = low.order ++ pivot ∷ high.order;
      done = e ∙ joined;
      list = joins;
      same = λ b. omega (
        arith,
        occurrences-append b low.order (pivot ∷ high.order),
        low.same b,
        high.same b,
        p.same b,
      );
      size =
          omega (arith, length-append low.order (pivot ∷ high.order), low.size, high.size, p.size);
      frame = λ b absent.
          let none_low : occurrences b p.lows + occurrences b p.highs ≡ 0 =
            omega (arith, p.same b, absent) in
          frame b (omega (arith, low.same b, none_low))
            (λ same. absent-apart b pivot rest absent (sym same))
          ∙ high.frame b (omega (arith, none_low))
          ∙ low.frame b (omega (arith, none_low))
          ∙ p.frame b (omega (arith, absent));
      values =
          map-append val low.order (pivot ∷ high.order)
          ∙ sort_linked-parts fuel (val pivot) (map val rest) p.values low.values high.values;
    }

-- On the nodes of a linked list, each once, `sort` ends with fuel for each node and one more, follows no
-- NULL, and leaves a linked list of the same nodes, whose values are in the order that the sort of the
-- values gives; the pointers of other nodes stay.
pub sort_nodes-SortsNodes :
    (fuel : ℕ) (val : ℕ → ℕ) (nodes : List ℕ) (list : Ends) (next : Next)
    → length nodes < fuel
    → IsList next list nodes
    → ((b : ℕ) → occurrences b nodes ≤ 1)
    → SortsNodes fuel val next nodes (sort_nodes fuel val list next)
unfolding sort_nodes Linked tail_of occurrences
sort_nodes-SortsNodes zero val nodes list next lt l once = absurd (omega arith)
sort_nodes-SortsNodes (suc fuel) val [] list next lt l once =
    rw (sort_nodes, l.linked)
      (record {
        after = (list, next);
        order = [];
        done = refl;
        list = l;
        same = λ b. refl;
        size = refl;
        frame = λ b _. refl;
        values = sym (sort_linked-nil (suc fuel));
      })
sort_nodes-SortsNodes (suc fuel) val (pivot ∷ []) list next lt l once =
    rw (sort_nodes, l.linked.0, l.linked.1)
      (record {
        after = (list, next);
        order = pivot ∷ [];
        done = refl;
        list = l;
        same = λ b. refl;
        size = refl;
        frame = λ b _. refl;
        values =
            sort_linked-parts fuel (val pivot) [] (distribute-nil (val pivot))
              (sym (sort_linked-nil fuel)) (sym (sort_linked-nil fuel));
      })
sort_nodes-SortsNodes (suc fuel) val (pivot ∷ curr ∷ rest) list next lt l once =
    let p =
      distribute_nodes-Split fuel val pivot (some curr) (curr ∷ rest) [] [] no_nodes no_nodes next
        (omega (arith, lt)) (refl, l.linked.1.1) (record { linked = refl; tail_last = refl })
        (record { linked = refl; tail_last = refl })
        (λ b. omega (arith, once b, occurrences-tail b pivot (curr ∷ rest))) in
    let few : length p.lows + length p.highs ≡ suc (length rest) = omega (arith, p.size) in
    let low =
      sort_nodes-SortsNodes fuel val p.lows p.parts.0.0 p.parts.1 (omega (arith, few, lt)) p.low
        (λ b. omega (arith, p.same b, once b)) in
    let high =
      sort_nodes-SortsNodes fuel val p.highs p.parts.0.1 low.after.1 (omega (arith, few, lt))
        (IsList-frame p.parts.1 low.after.1 p.parts.0.1 p.highs
          (λ b some_high. low.frame b (omega (arith, p.same b, once b, some_high))) p.high)
        (λ b. omega (arith, p.same b, once b)) in
    joined-SortsNodes fuel val pivot (curr ∷ rest) next once p low high
      (rw (sort_nodes, l.linked.0, l.linked.1.0, p.done, low.done, high.done) refl)
