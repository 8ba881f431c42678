-- ===== src/Rxc/Stages/Dealloc.antt =====
-- The deallocation of pipelines and of their stages.
use sas.Base.{
  ℕ, zero, suc, ◌+◌, ◌≡◌, Bool, true, none, some, Run, ok, fault, out_of_fuel, Fault, ◌>>=◌,
  if◌then◌else◌,
}
use sas.Rxc.Stages.{
  Ptr, Source, Sink, Memory, put, at, given, free_source, free_sink, free_ctx, free_flow,
}

module _ {ℓ} {B : Type ℓ} where
  -- flow_dealloc of wrapper.c
  unfoldable pub flow_dealloc : Ptr → Memory B → Run (Memory B)
  flow_dealloc flow m = do self ← at m.flows flow; m' ← free_ctx self.ctx m; free_flow flow m'

  -- `source->dealloc(source, shallow)`
  unfoldable pub source_dealloc : Bool → Ptr → Memory B → Run (Memory B)
  unfolding flow_dealloc
  source_dealloc shallow p m = at m.sources p >>= λ x. elim x [
    | Source.count from to ↦ free_source p m
    | Source.empty ↦ free_source p m
    | Source.wrapper inner flow ↦
        let deep = flow_dealloc flow m >>= free_source p in
        if shallow then free_source p m else deep
  ]

  -- `sink->dealloc(sink, shallow)`. The fuel bounds how deep the sinks are nested; the deallocation of
  -- the scheduler has no effect.
  unfoldable pub sink_dealloc : ℕ → Bool → Ptr → Memory B → Run (Memory B)
  sink_dealloc zero shallow p m = out_of_fuel
  sink_dealloc (suc k) shallow p m = at m.sinks p >>= λ x. elim x [
    | Sink.foreach callback ↦ free_sink p m
    | Sink.ignore ↦ free_sink p m
    | Sink.canceled ↦ free_sink p m
    | Sink.map inner mapping ↦
        let deep = sink_dealloc k shallow inner m >>= free_sink p in
        if shallow then free_sink p m else deep
    | Sink.scheduler inner ↦
        let deep = sink_dealloc k shallow inner m >>= free_sink p in
        if shallow then free_sink p m else deep
  ]

  -- These ask for a shallow deallocation, which needs no more fuel.
  unfoldable pub rxc_source_dealloc : Ptr → Memory B → Run (Memory B)
  unfolding source_dealloc
  rxc_source_dealloc source m = source_dealloc true source m

  unfoldable pub rxc_sink_dealloc : Ptr → Memory B → Run (Memory B)
  unfolding sink_dealloc
  rxc_sink_dealloc sink m = sink_dealloc 1 true sink m

  unfoldable pub rxc_pipeline_dealloc : Ptr → Memory B → Run (Memory B)
  unfolding rxc_source_dealloc rxc_sink_dealloc
  rxc_pipeline_dealloc none m = fault Fault.null_pointer
  rxc_pipeline_dealloc (some p) m = do
    pipeline ← at m.pipelines (some p)
    m1 ← rxc_source_dealloc pipeline.source m
    m2 ← rxc_sink_dealloc pipeline.sink m1
    ok (record (given m2) { pipelines = put m2.pipelines p none })

  -- the memory without a pipeline, a source and a sink
  abbrev pub without : ℕ → ℕ → ℕ → Memory B → Memory B
  without p s t m = record m {
    sources = put m.sources s none;
    sinks = put m.sinks t none;
    pipelines = put m.pipelines p none;
    room = m.room + 1 + 1 + 1;
  }

  module _ (m : Memory B) (p s t : ℕ) (x : Source) (y : Sink B)
      (joined : m.pipelines p ≡ some (record { source = some s; sink = some t }))
      (source : m.sources s ≡ some x) (sink : m.sinks t ≡ some y) where
    source_freed :
        (u : Source)
        → m.sources s ≡ some u
        → rxc_source_dealloc (some s) m ≡ ok (record (given m) { sources = put m.sources s none })
    unfolding rxc_source_dealloc source_dealloc
    source_freed (Source.count from to) e = rw (e, ◌>>=◌) (rw (e, ◌>>=◌))
    source_freed Source.empty e = rw (e, ◌>>=◌) (rw (e, ◌>>=◌))
    source_freed (Source.wrapper inner flow) e = rw (e, ◌>>=◌) (rw (e, ◌>>=◌))

    sink_freed :
        (n : Memory B) (u : Sink B)
        → n.sinks t ≡ some u
        → rxc_sink_dealloc (some t) n ≡ ok (record (given n) { sinks = put n.sinks t none })
    unfolding rxc_sink_dealloc sink_dealloc
    sink_freed n (Sink.foreach callback) e = rw (e, ◌>>=◌) (rw (e, ◌>>=◌))
    sink_freed n Sink.ignore e = rw (e, ◌>>=◌) (rw (e, ◌>>=◌))
    sink_freed n Sink.canceled e = rw (e, ◌>>=◌) (rw (e, ◌>>=◌))
    sink_freed n (Sink.map inner f) e = rw (e, ◌>>=◌) (rw (e, ◌>>=◌))
    sink_freed n (Sink.scheduler inner) e = rw (e, ◌>>=◌) (rw (e, ◌>>=◌))

    -- The deallocation of a pipeline whose source and sink are live frees the pipeline, that source and
    -- that sink, and nothing else, whatever they wrap.
    pub pipeline_dealloc_shallow : rxc_pipeline_dealloc (some p) m ≡ ok (without p s t m)
    unfolding rxc_pipeline_dealloc
    pipeline_dealloc_shallow = rw (
      joined,
      ◌>>=◌,
      source_freed x source,
      sink_freed (record (given m) { sources = put m.sources s none }) y sink,
    )
