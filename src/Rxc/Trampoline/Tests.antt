-- ===== src/Rxc/Trampoline/Tests.antt =====
-- Tests of the queue in memory, and its theorem at a concrete sequence of operations.
use sas.Base.{◌≡◌, refl, List, [], ◌∷◌, none, some, ok}
use sas.Rxc.Trampoline.{Worker, worker_create}
use sas.Rxc.Trampoline.Queue.{Holds}
use sas.Rxc.Trampoline.Fifo.{QueueOp, put, take_first, play_nodes, queue_refines}

abbrev script : List QueueOp
script = put 4 ∷ put 5 ∷ take_first ∷ put 6 ∷ take_first ∷ take_first ∷ take_first ∷ put 7 ∷ []

queue_refines_example :
    (w : Worker) × (play_nodes script worker_create ≡ ok (some 4 ∷ some 5 ∷ some 6 ∷ none ∷ [], w))
    × Holds w (7 ∷ [])
queue_refines_example = queue_refines script worker_create [] (refl, refl)
