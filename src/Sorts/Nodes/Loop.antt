-- ===== src/Sorts/Nodes/Loop.antt =====
-- exercises/ex15/linked.c: the loop over the nodes keeps two linked lists.
use os_coursework.Prelude.{
  ℕ, zero, suc, ◌+◌, ◌≤◌, ◌<◌, ◌≡◌, refl, sym, ap, subst, ◌∙◌, ◌≢◌, Bool-cases, inl, inr, Option,
  none, some, List, [], ◌∷◌, ◌++◌, map, length, length-append, update, ltb, arith,
}
use mathlib.Core.List.{map-append}
use os_coursework.Prelude.Nodes.{
  occurrences, Linked, last, occurrences-append, occurrences-here, occurrences-tail, last-append,
  last-occurrences, update-same, update-other, Linked-frame, Linked-join,
}
use os_coursework.Sorts.{distribute}
use os_coursework.Sorts.Nodes.{Next, Ends, append_node, distribute_nodes}

unfoldable pub tail_of : List ℕ → Option ℕ
tail_of [] = none
tail_of (a ∷ q) = some (last a q)

-- What `head` and `tail` point to.
pub record IsList (next : Next) (list : Ends) (nodes : List ℕ) : Type 0 where
  pub linked : Linked next list.head nodes
  pub tail_last : list.tail ≡ tail_of nodes

pub in-apart : (a b : ℕ) (q : List ℕ) → occurrences a q ≡ 0 → 0 < occurrences b q → a ≢ b
in-apart a b q absent lt same = omega (arith, absent, lt, ap (λ c. occurrences c q) same)

-- No node of the list is changed.
pub IsList-frame :
    (next next' : Next) (list : Ends) (nodes : List ℕ)
    → ((b : ℕ) → 0 < occurrences b nodes → next' b ≡ next b)
    → IsList next list nodes
    → IsList next' list nodes
IsList-frame next next' list nodes keeps l = record {
  linked = Linked-frame next next' list.head nodes keeps l.linked;
  tail_last = l.tail_last;
}

-- A node that is in no list, and points to none, is appended: the pointers of no node but the last change.
pub append_node-IsList :
    (curr : ℕ) (list : Ends) (nodes : List ℕ) (next : Next)
    → IsList next list nodes
    → next curr ≡ none
    → ((b : ℕ) → occurrences b nodes ≤ 1)
    → occurrences curr nodes ≡ 0
    → IsList (append_node curr list next).1 (append_node curr list next).0 (nodes ++ curr ∷ [])
      × ((b : ℕ) → occurrences b nodes ≡ 0 → (append_node curr list next).1 b ≡ next b)
unfolding append_node tail_of Linked last
append_node-IsList curr list [] next l ends once fresh =
    rw (append_node, l.tail_last) (record { linked = (refl, ends); tail_last = refl }, λ b _. refl)
append_node-IsList curr list (a ∷ q) next l ends once fresh =
    let apart : (b : ℕ) → occurrences b (a ∷ q) ≡ 0 → last a q ≢ b =
      λ b absent same. in-apart b (last a q) (a ∷ q) absent (last-occurrences a q) (sym same) in
    rw (append_node, l.tail_last)
      (
        record {
          linked =
              Linked-join next (update next (last a q) (some curr)) list.head a q (curr ∷ []) once
                (λ b lt ne. update-other next (last a q) b (some curr) (λ same. ne (sym same)))
                (
                  update-same next (last a q) (some curr),
                  update-other next (last a q) curr (some curr) (apart curr fresh) ∙ ends,
                )
                l.linked;
          tail_last = ap some (sym (last-append a curr q []));
        },
        λ b absent. update-other next (last a q) b (some curr) (apart b absent),
      )

-- The node that the loop is at goes to one list; the other list and the nodes behind it stay.
record Moved (next next' : Next) (a : ℕ) (rest ts os : List ℕ) (target other : Ends) : Type 0 where
  grown : IsList next' target (ts ++ a ∷ [])
  kept : IsList next' other os
  behind : Linked next' (next a) rest
  frame : (b : ℕ) → occurrences b ts ≡ 0 → a ≢ b → next' b ≡ next b

append_node-Moved :
    (next : Next) (a : ℕ) (rest ts os : List ℕ) (target other : Ends)
    → IsList next target ts
    → IsList next other os
    → Linked next (next a) rest
    → ((b : ℕ) → occurrences b ts + occurrences b os + occurrences b (a ∷ rest) ≤ 1)
    → let added = append_node a target (update next a none) in
      Moved next added.1 a rest ts os added.0 other
append_node-Moved next a rest ts os target other l k h once =
    let cut = update next a none in
    let fresh : occurrences a ts + occurrences a os + occurrences a rest ≡ 0 =
      omega (arith, once a, occurrences-here a rest) in
    let apart_t : occurrences a ts ≡ 0 = omega arith in
    let (grown, frame) =
      append_node-IsList a target ts cut
        (IsList-frame next cut target ts
          (λ b lt. update-other next a b none (in-apart a b ts apart_t lt)) l)
        (update-same next a none) (λ b. omega (arith, once b)) apart_t in
    let keeps : (b : ℕ) → occurrences b ts ≡ 0 → a ≢ b → (append_node a target cut).1 b ≡ next b =
      λ b absent ne. frame b absent ∙ update-other next a b none ne in
    record {
      grown = grown;
      kept =
          IsList-frame next (append_node a target cut).1 other os
            (λ b lt. keeps b (omega (arith, once b, lt)) (in-apart a b os (omega arith) lt)) k;
      behind =
          Linked-frame next (append_node a target cut).1 (next a) rest
            (λ b lt.
              keeps b (omega (arith, once b, lt, occurrences-tail b a rest))
                (in-apart a b rest (omega arith) lt))
            h;
      frame = keeps;
    }

-- What the loop comes to.
pub record Split (val : ℕ → ℕ) (pivot : ℕ) (next : Next) (rest ls gs : List ℕ)
    (result : Option ((Ends × Ends) × Next)) : Type 0 where
  pub parts : (Ends × Ends) × Next
  pub lows : List ℕ
  pub highs : List ℕ
  pub done : result ≡ some parts
  pub low : IsList parts.1 parts.0.0 lows
  pub high : IsList parts.1 parts.0.1 highs
  pub same :
      (b : ℕ)
      → occurrences b lows + occurrences b highs
        ≡ occurrences b ls + occurrences b gs + occurrences b rest
  pub size : length lows + length highs ≡ length ls + length gs + length rest
  pub frame :
      (b : ℕ) → occurrences b ls + occurrences b gs + occurrences b rest ≡ 0 → parts.1 b ≡ next b
  pub values :
      distribute (val pivot) (map val rest) (map val ls) (map val gs)
      ≡ (map val lows, map val highs)

pub distribute_nodes-Split :
    (fuel : ℕ) (val : ℕ → ℕ) (pivot : ℕ) (curr : Option ℕ) (rest ls gs : List ℕ)
    (lesser greater : Ends) (next : Next)
    → length rest ≤ fuel
    → Linked next curr rest
    → IsList next lesser ls
    → IsList next greater gs
    → ((b : ℕ) → occurrences b ls + occurrences b gs + occurrences b rest ≤ 1)
    → Split val pivot next rest ls gs (distribute_nodes fuel val pivot curr lesser greater next)
unfolding distribute_nodes Linked distribute occurrences
distribute_nodes-Split fuel val pivot curr [] ls gs lesser greater next le h l g once =
    rw h (record {
      parts = ((lesser, greater), next);
      lows = ls;
      highs = gs;
      done = refl;
      low = l;
      high = g;
      same = λ b. omega arith;
      size = omega arith;
      frame = λ b _. refl;
      values = refl;
    })
distribute_nodes-Split zero val pivot curr (a ∷ rest) ls gs lesser greater next le h l g once =
    absurd (omega arith)
distribute_nodes-Split (suc fuel) val pivot curr (a ∷ rest) ls gs lesser greater next le (e, h) l g
      once =
    elim (Bool-cases (ltb (val a) (val pivot))) [
      | inl less ↦
          let m = append_node-Moved next a rest ls gs lesser greater l g h once in
          let added = append_node a lesser (update next a none) in
          let r =
            distribute_nodes-Split fuel val pivot (next a) rest (ls ++ a ∷ []) gs added.0 greater
              added.1 (omega arith) m.behind m.grown m.kept
              (λ b. omega (arith, once b, occurrences-append b ls (a ∷ []))) in
          rw (e, distribute_nodes, less)
            (record {
              parts = r.parts;
              lows = r.lows;
              highs = r.highs;
              done = r.done;
              low = r.low;
              high = r.high;
              same = λ b. omega (arith, r.same b, occurrences-append b ls (a ∷ []));
              size = omega (arith, r.size, length-append ls (a ∷ []));
              frame = λ b absent.
                  r.frame b (omega (arith, absent, occurrences-append b ls (a ∷ [])))
                  ∙ m.frame b (omega (arith, absent)) (λ same. absurd (
                      omega (
                        arith,
                        absent,
                        occurrences-here a rest,
                        ap (λ c. occurrences c (a ∷ rest)) same,
                      )));
              values = rw less (
                  subst
                    (λ xs.
                      distribute (val pivot) (map val rest) xs (map val gs)
                      ≡ (map val r.lows, map val r.highs))
                    (map-append val ls (a ∷ [])) r.values);
            })
      | inr not_less ↦
          let m =
            append_node-Moved next a rest gs ls greater lesser g l h (λ b. omega (arith, once b)) in
          let added = append_node a greater (update next a none) in
          let r =
            distribute_nodes-Split fuel val pivot (next a) rest ls (gs ++ a ∷ []) lesser added.0
              added.1 (omega arith) m.behind m.kept m.grown
              (λ b. omega (arith, once b, occurrences-append b gs (a ∷ []))) in
          rw (e, distribute_nodes, not_less)
            (record {
              parts = r.parts;
              lows = r.lows;
              highs = r.highs;
              done = r.done;
              low = r.low;
              high = r.high;
              same = λ b. omega (arith, r.same b, occurrences-append b gs (a ∷ []));
              size = omega (arith, r.size, length-append gs (a ∷ []));
              frame = λ b absent.
                  r.frame b (omega (arith, absent, occurrences-append b gs (a ∷ [])))
                  ∙ m.frame b (omega (arith, absent)) (λ same. absurd (
                      omega (
                        arith,
                        absent,
                        occurrences-here a rest,
                        ap (λ c. occurrences c (a ∷ rest)) same,
                      )));
              values = rw not_less (
                  subst
                    (λ xs.
                      distribute (val pivot) (map val rest) (map val ls) xs
                      ≡ (map val r.lows, map val r.highs))
                    (map-append val gs (a ∷ [])) r.values);
            })
    ]
