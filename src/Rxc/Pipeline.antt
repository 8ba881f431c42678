-- ===== src/Rxc/Pipeline.antt =====
-- rxc/src/pipeline.c, which puts a scheduler between the sink and its connection, and the worker of
-- rxc/src/schedulers/trampoline.c, which runs the requests of the sink one after the other.
use sas.Base.{
  ℕ, zero, suc, true, false, [], ◌∷◌, ◌++◌, Run, ok, fault, out_of_fuel, Fault, ◌>>=◌,
  if◌then◌else◌,
}
use sas.Rxc.Connection.{
  Pipe, Inlet, Outlet, SinkLogic, SourceLogic, connection_pull, connection_cancel,
  connection_create, outlet_emit, outlet_fail, outlet_complete,
}

module _ {ℓ κ} {A : Type ℓ} {B : Type κ} where
  -- worker_enqueue: the node goes to the tail. A task is a request, run by pipeline_executor.
  unfoldable pub worker_enqueue : ℕ → Pipe A B → Pipe A B
  worker_enqueue n p = record p { queue = p.queue ++ n ∷ [] }

  -- worker_schedule, where `loop` is its `while`: a call from inside the loop only enqueues.
  unfoldable pub worker_schedule : (Pipe A B → Run (Pipe A B)) → ℕ → Pipe A B → Run (Pipe A B)
  unfolding worker_enqueue
  worker_schedule loop n p =
      let p' = worker_enqueue n p in
      let drained : Run (Pipe A B) = do
        r ← loop (record p' { wip = true })
        ok (record r { wip = false })
      in if p'.wip then ok p' else drained

  -- pipeline_inlet_pull
  unfoldable pub inlet_pull : (Pipe A B → Run (Pipe A B)) → ℕ → Pipe A B → Run (Pipe A B)
  unfolding worker_schedule
  inlet_pull loop n p =
      let scheduled = worker_schedule loop n p in if p.parent then scheduled else ok p

module _ {ℓ κ μ} {E : Type ℓ} {A : Type κ} {B : Type μ} where
  -- pipeline_inlet_cancel calls `parent->cancel` also where `parent` is NULL.
  unfoldable pub inlet_cancel : SourceLogic E (Pipe A B) → Pipe A B → Run (Pipe A B)
  inlet_cancel source p =
      let canceled = connection_cancel source (record p { parent = false }) in
      if p.parent then canceled else fault Fault.null_pointer

  module _ (source : SourceLogic E (Pipe A B)) (sink : SinkLogic E (Pipe A B)) where
    abbrev pub inlet_over : (Pipe A B → Run (Pipe A B)) → Inlet (Pipe A B)
    inlet_over loop = record { pull = inlet_pull loop; cancel = inlet_cancel source }

    abbrev pub outlet_over : Inlet (Pipe A B) → Outlet E (Pipe A B)
    outlet_over inlet = record {
      emit = outlet_emit sink inlet;
      complete = outlet_complete sink;
      fail = outlet_fail sink;
    }

    -- The `while` of worker_schedule: worker_dequeue, then pipeline_executor, which calls the
    -- connection. The fuel bounds the number of requests.
    unfoldable pub worker_loop : ℕ → Pipe A B → Run (Pipe A B)
    worker_loop zero p = out_of_fuel
    worker_loop (suc k) p = elim p.queue [
      | [] ↦ ok p
      | n ∷ rest ↦
          connection_pull source (outlet_over (inlet_over (worker_loop k))) n
            (record p { queue = rest })
          >>= worker_loop k
    ]

    -- The inlet that the sink's logic holds.
    unfoldable pub inlet_of : ℕ → Inlet (Pipe A B)
    inlet_of fuel = inlet_over (worker_loop fuel)

    -- rxc_pipeline_start: the source's `connect` creates the two logics and the connection, and
    -- tells the sink.
    unfoldable pub pipeline_start : ℕ → A → B → Run (Pipe A B)
    unfolding inlet_of connection_create
    pipeline_start fuel a b = sink.on_connect (inlet_of fuel) (connection_create a b)
