-- ===== src/Rxc/Stages/Start.antt =====
-- rxc_pipeline_start, with the `connect` of every source and the `create_logic` of every sink.
use sas.Base.{ℕ, zero, suc, Run, ok, out_of_fuel, ◌>>=◌}
use sas.Rxc.Connection.{Pipe, SinkLogic}
use sas.Rxc.Pipeline.{pipeline_start}
use sas.Rxc.Ops.{source_count, source_empty, sink_foreach, sink_canceled, sink_map}
use sas.Rxc.Stages.Blocks.{Held, held, scheduled, allocating, freeing_ignore}
use sas.Rxc.Stages.{Ptr, Source, Sink, Memory, at, new_sink, take_block, flow_connect_sink}

module _ {ℓ} {B : Type ℓ} where
  -- `sink->create_logic(sink)`. A logic that is NULL is used before anything else is done, so a malloc
  -- that fails is a fault here. A scheduler's sink also allocates a worker; the fuel bounds how deep the sinks are nested.
  unfoldable pub create_logic : ℕ → Ptr → Memory B → Run (SinkLogic ℕ (Pipe ℕ (Held B)) × Memory B)
  unfolding take_block scheduled freeing_ignore
  create_logic zero p m = out_of_fuel
  create_logic (suc k) p m = do
    x ← at m.sinks p
    m' ← take_block m
    elim x [
      | Sink.foreach callback ↦ ok (sink_foreach (held callback), m')
      | Sink.ignore ↦ ok (freeing_ignore, m')
      | Sink.canceled ↦ ok (sink_canceled, m')
      | Sink.map inner mapping ↦
          create_logic k inner m' >>= λ (logic, m2). ok (sink_map mapping logic, m2)
      | Sink.scheduler inner ↦ create_logic k inner m' >>= λ (logic, m2).
          take_block m2 >>= λ m3. ok (scheduled logic, m3)
    ]

  -- what `connect` of count.c and of empty.c allocates: the source's logic, the sink's, the connection,
  -- and the inlet of the scheduler
  unfoldable pub join : ℕ → Ptr → Memory B → Run (SinkLogic ℕ (Pipe ℕ (Held B)) × Memory B)
  unfolding create_logic take_block
  join k sink m = do
    m1 ← take_block m
    (logic, m2) ← create_logic k sink m1
    m3 ← take_block m2
    m4 ← take_block m3
    ok (logic, m4)

  -- what is left of the memory when the pipeline has run
  abbrev pub after_run : Pipe ℕ (Held B) → Memory B → Memory B
  after_run p m = record m { room = p.sink.room }

  -- `source->connect(source, sink)`: the pipeline runs on the fuel `requests`, on the state `b`, and in
  -- the blocks that are left.
  unfoldable pub connect : ℕ → ℕ → B → Ptr → Ptr → Memory B → Run (Pipe ℕ (Held B) × Memory B)
  unfolding join flow_connect_sink allocating
  connect zero requests b source sink m = out_of_fuel
  connect (suc k) requests b source sink m = at m.sources source >>= λ x. elim x [
    | Source.count from to ↦ (do
      (logic, m') ← join k sink m
      p ←
          pipeline_start (allocating (source_count to)) logic requests from
            (record { state = b; room = m'.room })
      ok (p, after_run p m'))
    | Source.empty ↦ (do
      (logic, m') ← join k sink m
      p ← pipeline_start source_empty logic requests 0 (record { state = b; room = m'.room })
      ok (p, after_run p m'))
    | Source.wrapper inner flow ↦
        flow_connect_sink flow sink m >>= λ (wrapped, m'). connect k requests b inner wrapped m'
  ]

  -- the sink that hands the requests of another to the scheduler, which is the trampoline
  unfoldable pub pipeline_sink : Ptr → Memory B → Ptr × Memory B
  unfolding new_sink
  pipeline_sink sink m = new_sink (Sink.scheduler sink) m

  unfoldable pub rxc_pipeline_start : ℕ → ℕ → B → Ptr → Memory B → Run (Pipe ℕ (Held B) × Memory B)
  unfolding connect pipeline_sink
  rxc_pipeline_start k requests b pipeline m = do
    self ← at m.pipelines pipeline
    let (sink, m') = pipeline_sink self.sink m
    connect k requests b self.source sink m'
