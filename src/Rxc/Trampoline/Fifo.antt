-- ===== src/Rxc/Trampoline/Fifo.antt =====
-- The queue in memory against a list, over any sequence of its operations.
use sas.Base.{ℕ, ◌≡◌, refl, List, [], ◌∷◌, ◌++◌, Option, none, some, Run, ok, ◌>>=◌}
use sas.Rxc.Trampoline.{Worker, node_enqueue, node_dequeue, node_free}
use sas.Rxc.Trampoline.Queue.{Holds, enqueue-Holds, dequeue-Holds}

-- what worker_schedule and its `while` do to the queue: a task is put in, or the first is taken out,
-- run and freed
pub data QueueOp : Type 0 where
  put : ℕ → QueueOp
  take_first : QueueOp

-- the tasks taken out, in order, where `none` is an empty queue
unfoldable pub play_nodes : List QueueOp → Worker → Run (List (Option ℕ) × Worker)
play_nodes [] w = ok ([], w)
play_nodes (put n ∷ ops) w = node_enqueue n w >>= play_nodes ops
play_nodes (take_first ∷ ops) w = do
  (taken, w') ← node_dequeue w
  elim taken [
    | none ↦ (do (out, w'') ← play_nodes ops w'; ok (none ∷ out, w''))
    | some (p, task) ↦ (do (out, w'') ← play_nodes ops (node_free p w'); ok (some task ∷ out, w''))
  ]

-- the same on the list of tasks
abbrev pub play_list : List QueueOp → List ℕ → List (Option ℕ) × List ℕ
play_list [] tasks = ([], tasks)
play_list (put n ∷ ops) tasks = play_list ops (tasks ++ n ∷ [])
play_list (take_first ∷ ops) [] = (none ∷ (play_list ops []).0, (play_list ops []).1)
play_list (take_first ∷ ops) (task ∷ tasks) =
    (some task ∷ (play_list ops tasks).0, (play_list ops tasks).1)

dequeue-none : (w : Worker) → w.head ≡ none → node_dequeue w ≡ ok (none, w)
unfolding node_dequeue
dequeue-none w e = rw e

-- From a queue that holds a list of tasks in memory, any sequence of operations ends without a fault,
-- takes out the tasks that the list gives first in, first out, and leaves a queue that holds the rest.
pub queue_refines :
    (ops : List QueueOp) (w : Worker) (tasks : List ℕ)
    → Holds w tasks
    → (w' : Worker) × (play_nodes ops w ≡ ok ((play_list ops tasks).0, w'))
      × Holds w' (play_list ops tasks).1
unfolding play_nodes
queue_refines [] w tasks v = (w, refl, v)
queue_refines (put n ∷ ops) w tasks v =
    let (w', run, v') = enqueue-Holds w tasks n v in
    let (w'', rest, v'') = queue_refines ops w' (tasks ++ n ∷ []) v' in
    (w'', rw (run, ◌>>=◌) rest, v'')
queue_refines (take_first ∷ ops) w [] v =
    let (w', rest, v') = queue_refines ops w [] v in (w', rw (dequeue-none w v.0, ◌>>=◌, rest), v')
queue_refines (take_first ∷ ops) w (task ∷ tasks) v =
    let (p, w', run, v') = dequeue-Holds w task tasks v in
    let (w'', rest, v'') = queue_refines ops (node_free p w') tasks v' in
    (w'', rw (run, ◌>>=◌, rest), v'')
