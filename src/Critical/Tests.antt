-- ===== src/Critical/Tests.antt =====
-- Runs of exercises/ex08/critical.c.
use os_coursework.Prelude.{ℕ, ◌<◌, ◌≡◌, refl, some, List, [], ◌∷◌, ◌++◌, length, arith}
use os_coursework.Critical.{
  State, list_len, add_node, make_nodes, dequeue_node, enqueue_node, count_node, takes, gives,
  Steps, here, later, report,
}
use os_coursework.Critical.Laws.{gives_count, nothing_lost}

-- A thread takes a node and puts it back.
one_round : (s : State) × Steps 1 (make_nodes list_len) s
unfolding make_nodes add_node dequeue_node enqueue_node
one_round = (_, later (later here (takes 99 _ (omega arith) refl)) (gives [] [] 99 _ refl refl))

-- Two threads on two nodes: the head is NULL when both have one, and stays NULL.
two_rounds : (s : State) × Steps 2 (make_nodes 2) s
unfolding make_nodes add_node dequeue_node enqueue_node
two_rounds = (
  _,
  later
      (later (later (later here (takes 1 _ (omega arith) refl)) (takes 0 _ (omega arith) refl))
        (gives [] (1 ∷ []) 0 _ refl refl))
      (gives [] [] 1 _ refl refl),
)

all_lost :
    let s = two_rounds.0 in
    (gives_count two_rounds.1 ≡ 2) × (report 2 s.next s.counter s.head 0 0 ≡ some (0, 0))
unfolding make_nodes add_node dequeue_node enqueue_node report two_rounds
all_lost = (refl, refl)

nothing_lost_example :
    (length one_round.0.held < 1
      → (node : ℕ) × (t : State) × (dequeue_node one_round.0 ≡ some (node, t)))
    × ((before after : List ℕ) (node : ℕ)
        → one_round.0.held ≡ before ++ node ∷ after
        → (t : State) × (enqueue_node node (count_node node one_round.0) ≡ some t))
    × (one_round.0.held ≡ []
        → report list_len one_round.0.next one_round.0.counter one_round.0.head 0 0
          ≡ some (list_len, gives_count one_round.1))
nothing_lost_example = nothing_lost one_round.1 (omega arith)
