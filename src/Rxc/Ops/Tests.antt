-- ===== src/Rxc/Ops/Tests.antt =====
-- Tests of the pipelines, and their theorems at concrete ones.
use sas.Base.{ℕ, ◌*◌, ◌-◌, ◌^◌, ◌≡◌, refl, List, [], ◌∷◌, ok, fault, Fault, arith, false}
use sas.Rxc.Long.{long_min}
use sas.Rxc.Connection.{
  Pipe, connection_pull, connection_cancel, connection_create, outlet_emit, outlet_complete,
}
use sas.Rxc.Pipeline.{worker_loop, pipeline_start, inlet_pull, inlet_cancel, worker_enqueue}
use sas.Rxc.Ops.{
  count_loop, source_count, source_empty, sink_foreach, sink_ignore, sink_canceled, sink_map,
}
use sas.Rxc.Ops.Streams.{closed, count_map_foreach, cancel_twice, count_ignore}

-- the elements seen, the latest first
abbrev see : ℕ → List ℕ → List ℕ
see e seen = e ∷ seen

abbrev double : ℕ → ℕ
double e = e * 2

-- from -1 up to 2
count_across_zero :
    pipeline_start (source_count 2) (sink_foreach see) 6 (2 ^ 64 - 1) []
    ≡ ok (closed 2 false (1 ∷ 0 ∷ (2 ^ 64 - 1) ∷ []))
unfolding pipeline_start worker_loop inlet_pull worker_enqueue connection_pull source_count
    count_loop sink_foreach outlet_emit outlet_complete
count_across_zero = refl

-- A source of no elements does not end the stream.
empty_never_ends :
    pipeline_start {A = ℕ} source_empty (sink_foreach see) 3 0 []
    ≡ ok (record (connection_create 0 []) { requested = 1 })
unfolding pipeline_start worker_loop inlet_pull worker_enqueue connection_pull source_empty
    sink_foreach
empty_never_ends = refl

abbrev started : Pipe ℕ (List ℕ)
started = connection_create 5 []

canceled_at_once :
    pipeline_start (source_count 9) sink_canceled 3 5 []
    ≡ ok (record started { requested = long_min; parent = false })
unfolding pipeline_start sink_canceled inlet_cancel connection_cancel source_count
canceled_at_once = refl

mapped_counts :
    (p : Pipe ℕ (List ℕ)) × (pipeline_start
        (source_count 8)
        (sink_map double (sink_foreach see))
        5
        5
        []
      ≡ ok p)
    × (p.sink ≡ 14 ∷ 12 ∷ 10 ∷ [])
    × (p.requested ≡ long_min)
    × (p.queue ≡ [])
    × (p.wip ≡ false)
mapped_counts = count_map_foreach see double 5 8 5 [] (omega arith) (omega arith)

counted_ignored :
    pipeline_start {B = List ℕ} (source_count 1_000_000) sink_ignore 2 5 []
    ≡ ok (closed 1_000_000 false [])
counted_ignored = count_ignore 1_000_000 0 5 [] (omega arith) (omega arith)

cancel_twice_example :
    (q : Pipe ℕ (List ℕ)) × (inlet_cancel (source_count 9) started ≡ ok q)
    × (q.requested ≡ long_min)
    × (inlet_pull (λ r. ok r) 1 q ≡ ok q)
    × (inlet_cancel (source_count 9) q ≡ fault Fault.null_pointer)
unfolding source_count connection_create
cancel_twice_example = cancel_twice (source_count 9) 1 started (λ q. refl) refl
