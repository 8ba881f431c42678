-- ===== src/Rxc/Stages/Tests.antt =====
-- Tests of the stages, and their theorems on an empty memory.
use sas.Base.{
  ℕ, ◌+◌, ◌*◌, ◌≡◌, refl, List, [], ◌∷◌, none, some, ok, fault, Fault, ◌>>=◌, false, arith,
}
use sas.Rxc.Long.{long_min}
use sas.Rxc.Connection.{Pipe}
use sas.Rxc.Stages.{
  Ptr, Source, Sink, Memory, at, put, rxc_flow_map, rxc_flow_wrapper, take_block, rxc_flow_to,
  flow_connect_sink, sink_wrap, new_sink,
}
use sas.Rxc.Stages.Dealloc.{rxc_pipeline_dealloc, pipeline_dealloc_shallow, without}
use sas.Rxc.Stages.Blocks.{Held}
use sas.Rxc.Connection.{connection_pull, connection_create, outlet_emit}
use sas.Rxc.Pipeline.{
  pipeline_start, inlet_pull, inlet_of, worker_schedule, worker_enqueue, worker_loop,
}
use sas.Rxc.Ops.{source_count, count_loop, sink_map, sink_foreach}
use sas.Rxc.Stages.{
  new_source, flow_connect_source, rxc_source_count, rxc_source_via, rxc_source_to,
  rxc_sink_foreach,
}
use sas.Rxc.Stages.Blocks.{scheduled, allocating, allocating_pull, allocating_emit}
use sas.Rxc.Stages.Start.{connect, create_logic, join, pipeline_sink}
use sas.Rxc.Stages.Start.{rxc_pipeline_start}
use sas.Rxc.Stages.Chain.{IsMemory}
use sas.Rxc.Stages.Whole.{build, built_runs}
use sas.Rxc.Stages.Leaks.{built_leaks}

-- nothing is allocated
abbrev blank : ℕ → Memory (List ℕ)
blank room = record {
  sources = λ p. none;
  sinks = λ p. none;
  flows = λ p. none;
  ctxs = λ p. none;
  pipelines = λ p. none;
  fresh = 0;
  room = room;
}

blank-IsMemory : (room : ℕ) → IsMemory (blank room)
blank-IsMemory room = record {
  no_source = λ q h. refl;
  no_sink = λ q h. refl;
  no_flow = λ q h. refl;
  no_ctx = λ q h. refl;
}

-- the elements seen, the latest first
abbrev see : ℕ → List ℕ → List ℕ
see e seen = e ∷ seen

abbrev doubling : List (ℕ → ℕ)
doubling = (λ e. e + 1) ∷ (λ e. e * 2) ∷ []

-- malloc fails, and rxc_flow_map writes to NULL
flow_map_fails : rxc_flow_map (λ e. e) (blank 0) ≡ fault Fault.null_pointer
unfolding rxc_flow_map take_block
flow_map_fails = refl

-- a sink behind a flow keeps the sink that it wraps
flow_to_wraps :
    (rxc_flow_map
        (λ e. e * 2)
        (record (blank 9) { fresh = 3; sinks = put (λ p. none) 2 (some Sink.ignore) })
      >>= λ (flow, m). rxc_flow_to flow (some 2) m >>= λ (sink, m'). at m'.sinks sink)
    ≡ ok (Sink.map (some 2) (λ e. e * 2))
unfolding rxc_flow_map rxc_flow_wrapper take_block rxc_flow_to flow_connect_sink sink_wrap new_sink
flow_to_wraps = refl

built_runs_example :
    (q : Pipe ℕ (Held (List ℕ))) × (m' : Memory (List ℕ)) × ((build doubling 5 8 see (blank 27)
        >>= λ (p, m1). rxc_pipeline_start 7 5 [] p m1)
      ≡ ok (q, m'))
    × (q.sink.state ≡ 16 ∷ 14 ∷ 12 ∷ [])
    × (q.requested ≡ long_min)
    × (q.queue ≡ [])
    × (q.wip ≡ false)
built_runs_example =
    built_runs doubling 5 8 see (blank 27) (blank-IsMemory 27) 7 5 [] (omega arith) (omega arith)
      (omega arith) (omega arith)

built_leaks_example :
    (p : Ptr) × (m1 m2 m3 : Memory (List ℕ)) × (q : Pipe ℕ (Held (List ℕ))) × (build doubling 5 8
        see
        (blank 27)
      ≡ ok (p, m1))
    × (rxc_pipeline_start 7 5 [] p m1 ≡ ok (q, m2))
    × (rxc_pipeline_dealloc p m2 ≡ ok m3)
    × (m3.room + (5 * 2 + 7 + 3) ≡ 27)
built_leaks_example =
    built_leaks doubling 5 8 see (blank 27) (blank-IsMemory 27) 7 5 [] (omega arith) (omega arith)
      (omega arith) (omega arith)

-- a pipeline whose sink is behind a flow
abbrev wrapped : Memory (List ℕ)
wrapped = record (blank 9) {
  sources = put (λ p. none) 0 (some (Source.count 1 4));
  sinks = put (put (λ p. none) 1 (some Sink.ignore)) 2 (some (Sink.map (some 1) (λ e. e)));
  pipelines = put (λ p. none) 3 (some (record { source = some 0; sink = some 2 }));
  fresh = 4;
}

pipeline_dealloc_shallow_example :
    rxc_pipeline_dealloc (some 3) wrapped ≡ ok (without 3 0 2 wrapped)
pipeline_dealloc_shallow_example =
    pipeline_dealloc_shallow wrapped 3 0 2 (Source.count 1 4) (Sink.map (some 1) (λ e. e)) refl refl
      refl

-- two blocks are left for the first request and its node, and none for the first element
too_few_blocks :
    (build doubling 5 8 see (blank 22) >>= λ (p, m1). rxc_pipeline_start 7 5 [] p m1)
    ≡ fault Fault.null_pointer
unfolding rxc_pipeline_start connect create_logic join pipeline_sink rxc_flow_map rxc_flow_wrapper
    take_block flow_connect_sink sink_wrap new_sink new_source flow_connect_source rxc_source_count
    rxc_source_via rxc_source_to rxc_sink_foreach pipeline_start sink_map sink_foreach inlet_pull
    inlet_of worker_schedule worker_enqueue worker_loop connection_pull connection_create
    source_count count_loop outlet_emit scheduled allocating allocating_pull allocating_emit
too_few_blocks = refl
