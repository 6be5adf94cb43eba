-- ===== src/Critical.antt =====
-- exercises/ex08/critical.c: threads that take a node from the head of a linked list and put it at the
-- tail. A critical section, from `lockTestAndSet` to `__sync_lock_release`, is one step, since only the
-- thread that got the lock is in one.
mod Linked
mod Queue
mod Lock
mod Laws
mod Tests
use os_coursework.Prelude.{
  ℕ, zero, suc, ◌+◌, ◌<◌, ◌≡◌, Option, none, some, List, [], ◌∷◌, ◌++◌, length, update,
}

abbrev pub list_len : ℕ
list_len = 100

-- A node is a number, its address, and NULL is `none`. `held` are the nodes that a thread has between
-- `dequeueNode` and `enqueueNode`, one for each thread that is there.
pub record State : Type 0 where
  pub head : Option ℕ
  pub tail : Option ℕ
  pub next : ℕ → Option ℕ
  pub counter : ℕ → ℕ
  pub held : List ℕ

abbrev pub no_nodes : State
no_nodes = record { head = none; tail = none; next = λ _. none; counter = λ _. 0; held = [] }

abbrev pub or_else : Option ℕ → ℕ → Option ℕ
or_else none node = some node
or_else (some tail) node = some tail

-- A round of the loop of `main` that makes the nodes; `malloc` gave `node`.
unfoldable pub add_node : ℕ → State → State
add_node node s = record s {
  counter = update s.counter node 0;
  tail = or_else s.tail node;
  next = update s.next node s.head;
  head = some node;
}

-- The nodes are numbered down from `n`, in the order in which they are made.
unfoldable pub make_nodes : ℕ → State
make_nodes zero = no_nodes
make_nodes (suc n) = add_node n (make_nodes n)

-- The node, and what it leaves; `none` is a NULL that is followed.
unfoldable pub dequeue_node : State → Option (ℕ × State)
dequeue_node s = dequeue_from s.head s
  where
    dequeue_from : Option ℕ → State → Option (ℕ × State)
    dequeue_from none s = none
    dequeue_from (some node) s = some (node, record s { head = s.next node })

unfoldable pub enqueue_node : ℕ → State → Option State
enqueue_node node s = enqueue_behind s.tail s
  where
    enqueue_behind : Option ℕ → State → Option State
    enqueue_behind none s = none
    enqueue_behind (some tail) s =
        some
          (record s { next = update (update s.next tail (some node)) node none; tail = some node })

-- `node->counter++`.
abbrev pub count_node : ℕ → State → State
count_node node s = record s { counter = update s.counter node (s.counter node + 1) }

-- One half of a round of `cycleList` by one of `tcount` threads: any thread that has no node takes one,
-- and any thread that has one counts it and puts it back.
pub data Step (tcount : ℕ) (s : State) : State → Type 0 where
  takes :
      (node : ℕ) (t : State)
      → length s.held < tcount
      → dequeue_node s ≡ some (node, t)
      → Step tcount s (record t { held = node ∷ t.held })
  gives :
      (before after : List ℕ) (node : ℕ) (t : State)
      → s.held ≡ before ++ node ∷ after
      → enqueue_node node (count_node node s) ≡ some t
      → Step tcount s (record t { held = before ++ after })

-- Any number of steps.
pub data Steps (tcount : ℕ) (s : State) : State → Type 0 where
  here : Steps tcount s s
  later : {t u : State} → Steps tcount s t → Step tcount t u → Steps tcount s u

-- The loop at the end of `main`: the nodes and the sum of their counters. `none` is out of fuel.
unfoldable pub report : ℕ → (ℕ → Option ℕ) → (ℕ → ℕ) → Option ℕ → ℕ → ℕ → Option (ℕ × ℕ)
report fuel next counter none nodes total = some (nodes, total)
report zero next counter (some p) nodes total = none
report (suc fuel) next counter (some p) nodes total =
    report fuel next counter (next p) (nodes + 1) (total + counter p)
