-- ===== src/Rxc/Stages.antt =====
-- The stages of rxc/include/rxc/pipeline.h in memory, and the functions that allocate, join, start and
-- free them: rxc/src/pipeline.c, rxc/src/ops/wrapper.c and the constructors and deallocators of the
-- other files of rxc/src/ops. Each kind of stage has its own addresses, since the pointers are typed;
-- a pointer is an address or `none` for NULL. Every element is a `long`.
pub mod Blocks
pub mod Chain
pub mod Dealloc
pub mod Feeding
pub mod Leaks
pub mod Runs
pub mod Start
pub mod Whole
mod Tests
use sas.Base.{
  ℕ, zero, suc, ◌+◌, ◌-◌, Bool, true, false, not, Option, none, some, Run, ok, fault, out_of_fuel,
  Fault, ◌>>=◌, or_fault, ◌==◌, if◌then◌else◌,
}
use sas.Rxc.Connection.{Pipe, SinkLogic}
use sas.Rxc.Pipeline.{pipeline_start}
use sas.Rxc.Ops.{source_count, source_empty, sink_foreach, sink_ignore, sink_canceled, sink_map}

abbrev pub Ptr : Type 0
Ptr = Option ℕ

-- `struct rxc_source` with the fields behind it: `dealloc` and `connect` are those of the constructor
pub data Source : Type 0 where
  count : (from to : ℕ) → Source
  empty : Source
  wrapper : (inner flow : Ptr) → Source

-- `struct rxc_sink` with the fields behind it, and a callback that works on a state of type B
pub data Sink {ℓ} (B : Type ℓ) : Type ℓ where
  foreach : (callback : ℕ → B → B) → Sink B
  ignore canceled : Sink B
  map : (inner : Ptr) (mapping : ℕ → ℕ) → Sink B
  scheduler : (inner : Ptr) → Sink B

-- `struct rxc_flow` with the context behind it: `wrap` is the sink_wrap of map.c, the only one there is
pub record Flow : Type 0 where
  pub ctx : Ptr

-- `struct map_ctx`
pub record MapCtx : Type 0 where
  pub mapping : ℕ → ℕ

pub record Pipeline : Type 0 where
  pub source : Ptr
  pub sink : Ptr

-- The memory: what is allocated and not freed, the next address, and how many blocks malloc still has.
pub record Memory {ℓ} (B : Type ℓ) : Type ℓ where
  pub sources : ℕ → Option Source
  pub sinks : ℕ → Option (Sink B)
  pub flows : ℕ → Option Flow
  pub ctxs : ℕ → Option MapCtx
  pub pipelines : ℕ → Option Pipeline
  pub fresh : ℕ
  pub room : ℕ

abbrev pub put {ℓ} : {A : Type ℓ} → (ℕ → Option A) → ℕ → Option A → ℕ → Option A
put cells p v q = if p == q then v else cells q

-- `*p`
abbrev pub at {ℓ} : {A : Type ℓ} → (ℕ → Option A) → Ptr → Run A
at cells none = fault Fault.null_pointer
at cells (some p) = or_fault (cells p) Fault.use_after_free

-- a block of memory is taken: malloc returns the address `fresh`
abbrev pub taken {ℓ} : {B : Type ℓ} → Memory B → Memory B
taken m = record m { fresh = m.fresh + 1; room = m.room - 1 }

abbrev pub given {ℓ} : {B : Type ℓ} → Memory B → Memory B
given m = record m { room = m.room + 1 }

module _ {ℓ} {B : Type ℓ} where
  -- malloc, and what is written there: NULL where there is no room
  unfoldable pub new_source : Source → Memory B → Ptr × Memory B
  new_source x m =
      if m.room == 0
      then (none, m)
      else (some m.fresh, record (taken m) { sources = put m.sources m.fresh (some x) })

  unfoldable pub new_sink : Sink B → Memory B → Ptr × Memory B
  new_sink x m =
      if m.room == 0
      then (none, m)
      else (some m.fresh, record (taken m) { sinks = put m.sinks m.fresh (some x) })

  -- malloc for a block that is not freed, and that is written without a check
  unfoldable pub take_block : Memory B → Run (Memory B)
  take_block m = if m.room == 0 then fault Fault.null_pointer else ok (taken m)

  unfoldable pub rxc_source_count : ℕ → ℕ → Memory B → Ptr × Memory B
  unfolding new_source
  rxc_source_count from to m = new_source (Source.count from to) m

  unfoldable pub rxc_source_empty : Memory B → Ptr × Memory B
  unfolding new_source
  rxc_source_empty m = new_source Source.empty m

  unfoldable pub rxc_sink_foreach : (ℕ → B → B) → Memory B → Ptr × Memory B
  unfolding new_sink
  rxc_sink_foreach callback m = new_sink (Sink.foreach callback) m

  unfoldable pub rxc_sink_ignore : Memory B → Ptr × Memory B
  unfolding new_sink
  rxc_sink_ignore m = new_sink Sink.ignore m

  unfoldable pub rxc_sink_canceled : Memory B → Ptr × Memory B
  unfolding new_sink
  rxc_sink_canceled m = new_sink Sink.canceled m

  -- The result of malloc is written without a check.
  unfoldable pub rxc_flow_wrapper : Ptr → Memory B → Run (Ptr × Memory B)
  unfolding take_block
  rxc_flow_wrapper ctx m = take_block m >>= λ m'.
      ok (some m.fresh, record m' { flows = put m.flows m.fresh (some (record { ctx = ctx })) })

  unfoldable pub rxc_flow_map : (ℕ → ℕ) → Memory B → Run (Ptr × Memory B)
  unfolding take_block rxc_flow_wrapper
  rxc_flow_map mapping m = do
    m' ← take_block m
    rxc_flow_wrapper (some m.fresh)
        (record m' { ctxs = put m.ctxs m.fresh (some (record { mapping = mapping })) })

  -- sink_wrap of map.c
  unfoldable pub sink_wrap : Ptr → Ptr → Memory B → Run (Ptr × Memory B)
  unfolding new_sink
  sink_wrap sink ctx m =
      let wrapped = at m.ctxs ctx >>= λ c. ok (new_sink (Sink.map sink c.mapping) m) in
      if m.room == 0 then ok (none, m) else wrapped

  unfoldable pub flow_connect_sink : Ptr → Ptr → Memory B → Run (Ptr × Memory B)
  unfolding sink_wrap
  flow_connect_sink flow sink m = at m.flows flow >>= λ self. sink_wrap sink self.ctx m

  unfoldable pub flow_connect_source : Ptr → Ptr → Memory B → Ptr × Memory B
  unfolding new_source
  flow_connect_source self source m = new_source (Source.wrapper source self) m

  unfoldable pub rxc_source_via : Ptr → Ptr → Memory B → Run (Ptr × Memory B)
  unfolding flow_connect_source
  rxc_source_via source flow m = at m.flows flow >>= λ f. ok (flow_connect_source flow source m)

  unfoldable pub rxc_flow_to : Ptr → Ptr → Memory B → Run (Ptr × Memory B)
  unfolding flow_connect_sink
  rxc_flow_to flow sink m = flow_connect_sink flow sink m

  unfoldable pub rxc_flow_via : Ptr → Ptr → Memory B → Ptr × Memory B
  rxc_flow_via a b m = (none, m)

  unfoldable pub rxc_source_to : Ptr → Ptr → Memory B → Ptr × Memory B
  rxc_source_to source sink m =
      let pipeline : Pipeline = record { source = source; sink = sink } in
      if m.room == 0
      then (none, m)
      else (some m.fresh, record (taken m) { pipelines = put m.pipelines m.fresh (some pipeline) })

  -- `free(p)` for a source and for a sink
  abbrev pub free_source : Ptr → Memory B → Run (Memory B)
  free_source none m = ok m
  free_source (some p) m = or_fault (m.sources p) Fault.use_after_free >>= λ x.
      ok (record (given m) { sources = put m.sources p none })

  abbrev pub free_sink : Ptr → Memory B → Run (Memory B)
  free_sink none m = ok m
  free_sink (some p) m = or_fault (m.sinks p) Fault.use_after_free >>= λ x.
      ok (record (given m) { sinks = put m.sinks p none })

  abbrev pub free_ctx : Ptr → Memory B → Run (Memory B)
  free_ctx none m = ok m
  free_ctx (some p) m = or_fault (m.ctxs p) Fault.use_after_free >>= λ x.
      ok (record (given m) { ctxs = put m.ctxs p none })

  abbrev pub free_flow : Ptr → Memory B → Run (Memory B)
  free_flow none m = ok m
  free_flow (some p) m = or_fault (m.flows p) Fault.use_after_free >>= λ x.
      ok (record (given m) { flows = put m.flows p none })
