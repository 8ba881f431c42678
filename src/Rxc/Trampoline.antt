-- ===== src/Rxc/Trampoline.antt =====
-- The queue of rxc/src/schedulers/trampoline.c as it stands in memory: worker_enqueue,
-- worker_dequeue, and the `free` of a node that has run.
pub mod Fifo
pub mod Queue
mod Tests
use sas.Base.{
  ℕ, ◌+◌, Bool, true, false, Option, none, some, Run, ok, fault, Fault, ◌>>=◌, or_fault, ◌==◌,
  if◌then◌else◌,
}

-- `struct trampoline_queue_node`; its runnable and context are the `task`
pub record QueueNode : Type 0 where
  pub task : ℕ
  pub prev : Option ℕ

-- The queue of `struct trampoline_worker`, with the memory that holds its nodes: `none` where nothing
-- was allocated or it is freed. malloc returns `fresh`, and does not fail.
pub record Worker : Type 0 where
  pub head : Option ℕ
  pub tail : Option ℕ
  pub nodes : ℕ → Option QueueNode
  pub fresh : ℕ

-- scheduler_create_worker
abbrev pub worker_create : Worker
worker_create = record { head = none; tail = none; nodes = λ p. none; fresh = 0 }

abbrev pub set_node : (ℕ → Option QueueNode) → ℕ → Option QueueNode → ℕ → Option QueueNode
set_node nodes p v q = if p == q then v else nodes q

-- `*p` where `p` may be NULL
unfoldable pub node_at : Worker → Option ℕ → Run (ℕ × QueueNode)
node_at w none = fault Fault.null_pointer
node_at w (some p) = or_fault (w.nodes p) Fault.use_after_free >>= λ n. ok (p, n)

unfoldable pub node_enqueue : ℕ → Worker → Run Worker
unfolding node_at
node_enqueue task w =
    let p = w.fresh in
    let nodes = set_node w.nodes p (some (record { task = task; prev = none })) in
    let w' : Worker = record w { nodes = nodes; fresh = p + 1 } in
    elim (w.head) [
      | none ↦ ok (record w' { head = some p; tail = some p })
      | some h ↦ (do
        (t, n) ← node_at w' w.tail
        ok (record w' {
          tail = some p;
          nodes = set_node nodes t (some (record n { prev = some p }));
        }))
    ]

-- the node taken, by its pointer and its task; `none` is NULL
unfoldable pub node_dequeue : Worker → Run (Option (ℕ × ℕ) × Worker)
unfolding node_at
node_dequeue w = elim (w.head) [
  | none ↦ ok (none, w)
  | some h ↦ (do
    (p, n) ← node_at w (some h)
    let tail : Option ℕ = elim (n.prev) [ none ↦ none | some q ↦ w.tail ]
    ok (some (p, n.task), record w { head = n.prev; tail = tail }))
]

-- `free(node)`
abbrev pub node_free : ℕ → Worker → Worker
node_free p w = record w { nodes = set_node w.nodes p none }
