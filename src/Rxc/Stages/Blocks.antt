-- ===== src/Rxc/Stages/Blocks.antt =====
-- The blocks of memory that a pipeline allocates while it runs: the request of pipeline_inlet_pull of
-- rxc/src/pipeline.c, the node of worker_enqueue of rxc/src/schedulers/trampoline.c, and the element
-- of on_pull of rxc/src/ops/count.c. A mapping puts its result in the block of its element, and a
-- callback frees none.
use sas.Base.{ℕ, ◌+◌, ◌-◌, ◌*◌, Bool, Run, ok, fault, Fault, ◌==◌, if◌then◌else◌, length}
use sas.Rxc.Connection.{Pipe, Inlet, Outlet, SinkLogic, SourceLogic}
use sas.Rxc.Ops.{sink_ignore}

-- the state of a callback, and how many blocks malloc has besides those of the requests
pub record Held {ℓ} (B : Type ℓ) : Type ℓ where
  pub state : B
  pub room : ℕ

-- a callback, which frees nothing
abbrev pub held {ℓ} : {B : Type ℓ} → (ℕ → B → B) → ℕ → Held B → Held B
held callback e h = record h { state = callback e h.state }

module _ {ℓ} {B : Type ℓ} where
  -- A request and its node stand in memory from pipeline_inlet_pull until the request has run: those
  -- of the queue, and of the request that runs.
  abbrev pub requests_held : Pipe ℕ (Held B) → ℕ
  requests_held p = 2 * (length p.queue + (if p.wip then 1 else 0))

  -- how many blocks malloc still has
  abbrev pub free_blocks : Pipe ℕ (Held B) → ℕ
  free_blocks p = p.sink.room - requests_held p

  abbrev pub with_room : ℕ → Pipe ℕ (Held B) → Pipe ℕ (Held B)
  with_room room p = record p { sink = record (p.sink) { room = room } }

  -- The two calls of malloc in pipeline_inlet_pull and worker_enqueue: the request is written without a
  -- check, and without a node it is dropped and never freed; a worker that is not in its loop then
  -- finds its queue empty.
  unfoldable pub allocating_pull :
      Inlet (Pipe ℕ (Held B)) → ℕ → Pipe ℕ (Held B) → Run (Pipe ℕ (Held B))
  allocating_pull inlet n p =
      let pulled = inlet.pull n p in
      let blocks = free_blocks p in
      if p.parent
      then (if blocks == 0
          then fault Fault.null_pointer
          else if blocks == 1
          then ok (with_room (p.sink.room - 1) p)
          else pulled)
      else ok p

  abbrev pub allocating_inlet : Inlet (Pipe ℕ (Held B)) → Inlet (Pipe ℕ (Held B))
  allocating_inlet inlet = record { pull = allocating_pull inlet; cancel = inlet.cancel }

  -- the logic of a scheduler's sink, which gives the inner logic its own inlet
  unfoldable pub scheduled : SinkLogic ℕ (Pipe ℕ (Held B)) → SinkLogic ℕ (Pipe ℕ (Held B))
  unfolding allocating_pull
  scheduled inner = record {
    on_connect = λ inlet. inner.on_connect (allocating_inlet inlet);
    on_push = λ inlet e. inner.on_push (allocating_inlet inlet) e;
    on_upstream_finish = inner.on_upstream_finish;
    on_upstream_failure = inner.on_upstream_failure;
  }

  -- malloc of an element, which is written without a check
  unfoldable pub allocating_emit :
      Outlet ℕ (Pipe ℕ (Held B)) → ℕ → Pipe ℕ (Held B) → Run (Bool × Pipe ℕ (Held B))
  allocating_emit out e p =
      let emitted = out.emit e (with_room (p.sink.room - 1) p) in
      if free_blocks p == 0 then fault Fault.null_pointer else emitted

  -- a source that allocates each element that it emits
  unfoldable pub allocating : SourceLogic ℕ (Pipe ℕ (Held B)) → SourceLogic ℕ (Pipe ℕ (Held B))
  unfolding allocating_emit
  allocating source = record {
    on_pull = λ out.
        source.on_pull
          (record { emit = allocating_emit out; complete = out.complete; fail = out.fail });
    on_downstream_finish = source.on_downstream_finish;
  }

  -- the logic of ignore.c, which frees each element
  unfoldable pub freeing_ignore : SinkLogic ℕ (Pipe ℕ (Held B))
  unfolding sink_ignore
  freeing_ignore = record sink_ignore {
    on_push = λ inlet e p. sink_ignore.on_push inlet e (with_room (p.sink.room + 1) p);
  }
