-- ===== src/Rxc/Stages/Whole.antt =====
-- Pipelines from count to foreach with any flows between them, from their construction to their
-- deallocation.
use sas.Base.{
  ℕ, ◌+◌, ◌-◌, ◌*◌, ◌<◌, ◌≤◌, ◌≡◌, refl, ap, ◌∙◌, true, false, List, [], ◌∷◌, map, some, Run, ok,
  ◌>>=◌, ◌==◌, arith, length,
}
use sas.Base.Words.{u64_mod, add64}
use sas.Rxc.Long.{long_min, rank}
use sas.Rxc.Connection.{Pipe, SinkLogic}
use sas.Rxc.Ops.{sink_foreach, sink_map}
use sas.Rxc.Ops.Each.{TakesEach, count_up, feed}
use sas.Rxc.Ops.Streams.{foreach-TakesEach, closed}
use sas.Rxc.Stages.{
  Ptr, Source, Sink, Pipeline, Memory, put, at, taken, new_source, new_sink, rxc_source_count,
  rxc_sink_foreach, rxc_source_to,
}
use sas.Rxc.Stages.Blocks.{Held, held, scheduled}
use sas.Rxc.Stages.Feeding.{feeds_each}
use sas.Rxc.Stages.Start.{after_run, rxc_pipeline_start}
use sas.Rxc.Stages.Chain.{IsMemory, Attached, attach, onto, same-Attached, attach-Built}
use sas.Rxc.Stages.Runs.{Ran, same-Ran, foreach-Makes, chained, start_runs}

-- the mappings one after the other, and a callback behind those of a chain, the latest first
abbrev pub apply_all : List (ℕ → ℕ) → ℕ → ℕ
apply_all [] e = e
apply_all (f ∷ fs) e = apply_all fs (f e)

length-onto : (fs done : List (ℕ → ℕ)) → length (onto fs done) ≡ length fs + length done
length-onto [] done = omega arith
length-onto (f ∷ fs) done = omega (arith, length-onto fs (f ∷ done))

module _ {ℓ} {B : Type ℓ} where
  abbrev behind : List (ℕ → ℕ) → (ℕ → B → B) → ℕ → B → B
  behind [] callback = callback
  behind (f ∷ fs) callback = behind fs (λ e. callback (f e))

  behind-onto :
      (fs done : List (ℕ → ℕ)) (callback : ℕ → B → B)
      → behind (onto fs done) callback ≡ behind done (λ e. callback (apply_all fs e))
  behind-onto [] done callback = refl
  behind-onto (f ∷ fs) done callback = behind-onto fs (f ∷ done) callback

  mapped-TakesEach :
      (f : ℕ → ℕ) (callback : ℕ → B → B) (logic : SinkLogic ℕ (Pipe ℕ (Held B)))
      → TakesEach (held callback) logic
      → TakesEach (held (λ e. callback (f e))) (sink_map f logic)
  unfolding sink_map
  mapped-TakesEach f callback logic each = record {
    connects = each.connects;
    pushes = λ inlet e. each.pushes inlet (f e);
    finishes = each.finishes;
  }

  chained-TakesEach :
      (fs : List (ℕ → ℕ)) (callback : ℕ → B → B) (logic : SinkLogic ℕ (Pipe ℕ (Held B)))
      → TakesEach (held callback) logic
      → TakesEach (held (behind fs callback)) (chained fs logic)
  chained-TakesEach [] callback logic each = each
  chained-TakesEach (f ∷ fs) callback logic each =
      chained-TakesEach fs (λ e. callback (f e)) (sink_map f logic)
        (mapped-TakesEach f callback logic each)

  -- the scheduler may as well stand before the flows
  chained-scheduled :
      (fs : List (ℕ → ℕ)) (logic : SinkLogic ℕ (Pipe ℕ (Held B)))
      → chained fs (scheduled logic) ≡ scheduled (chained fs logic)
  unfolding sink_map scheduled
  chained-scheduled [] logic = refl
  chained-scheduled (f ∷ fs) logic = chained-scheduled fs (sink_map f logic)

  feed-apply :
      (fs : List (ℕ → ℕ)) (callback : ℕ → B → B) (es : List ℕ) (b : B)
      → feed (λ e. callback (apply_all fs e)) es b ≡ feed callback (map (apply_all fs) es) b
  feed-apply fs callback [] b = refl
  feed-apply fs callback (e ∷ es) b = feed-apply fs callback es (callback (apply_all fs e) b)

  -- a pipeline that has ended
  abbrev pub done : ℕ → B → ℕ → Pipe ℕ (Held B)
  done c b room = closed c false (record { state = b; room = room })

  -- rxc_source_count, rxc_source_via with a flow rxc_flow_map for each of the mappings,
  -- rxc_sink_foreach and rxc_source_to, one after the other
  abbrev pub build : List (ℕ → ℕ) → ℕ → ℕ → (ℕ → B → B) → Memory B → Run (Ptr × Memory B)
  build fs from to callback m = do
    let (source, m1) = rxc_source_count from to m
    (source', m2) ← attach fs source m1
    let (sink, m3) = rxc_sink_foreach callback m2
    ok (rxc_source_to source' sink m3)

  module _ (fs : List (ℕ → ℕ)) (from to : ℕ) (callback : ℕ → B → B) (m : Memory B)
      (v : IsMemory m) where
    -- what stands in memory once the pipeline is built
    pub record Standing (p : ℕ) (source : Ptr) (sink : ℕ) (m' : Memory B) : Type ℓ where
      pub pipeline : at m'.pipelines (some p) ≡ ok (record { source = source; sink = some sink })
      pub attached : Attached m' from to (onto fs []) source
      pub foreach : m'.sinks sink ≡ some (Sink.foreach callback)
      pub below : sink < m'.fresh
      pub room : m'.room ≡ m.room - (3 * length fs + 3)

    pub build-Standing :
        3 * length fs + 3 ≤ m.room
        → (p : ℕ) × (source : Ptr) × (sink : ℕ) × (m' : Memory B) × (build fs from to callback m
            ≡ ok (some p, m'))
          × Standing p source sink m'
    unfolding rxc_source_count new_source rxc_sink_foreach new_sink rxc_source_to
    build-Standing r =
        let first : (m.room == 0) ≡ false = ground arith in
        let m1 : Memory B = record (taken m) {
          sources = put m.sources m.fresh (some (Source.count from to));
        } in
        let here : ((q : ℕ) → (q == q) ≡ true) = λ q. ground arith in
        let v1 : IsMemory m1 = record {
          no_source = λ q h. ground (arith, v.no_source q (omega arith));
          no_sink = λ q h. v.no_sink q (omega arith);
          no_flow = λ q h. v.no_flow q (omega arith);
          no_ctx = λ q h. v.no_ctx q (omega arith);
        } in
        let (source, m2, run, built) =
          attach-Built fs [] (some m.fresh) m1 from to v1 (rw (here m.fresh)) (omega arith) in
        let second : (m2.room == 0) ≡ false = ground (arith, built.room) in
        let m3 : Memory B = record (taken m2) {
          sinks = put m2.sinks m2.fresh (some (Sink.foreach callback));
        } in
        let pipeline : Pipeline = record { source = source; sink = some m2.fresh } in
        let m4 : Memory B = record (taken m3) {
          pipelines = put m3.pipelines m3.fresh (some pipeline);
        } in
        let third : (m2.room - 1 == 0) ≡ false = ground (arith, built.room) in
        (
          m2.fresh + 1,
          source,
          m2.fresh,
          m4,
          rw (first, run, ◌>>=◌, second, third),
          record {
            pipeline = rw (here (m2.fresh + 1));
            attached =
                same-Attached m4.sinks m4.pipelines m4.fresh m4.room m2 from to (onto fs []) source
                  built.attached;
            foreach = rw (here m2.fresh);
            below = omega arith;
            room = omega (arith, built.room);
          },
        )

    -- the blocks that are enough: for the stages and the logics, for two requests and their nodes, and
    -- for each element
    abbrev pub enough_blocks : ℕ
    enough_blocks = 5 * length fs + 14 + (rank to - rank from)

    -- what is left once the pipeline has run; `loaded` is the memory when all logics are created
    pub record WholeRun (k requests : ℕ) (b : B) : Type ℓ where
      pub p : ℕ
      pub source : Ptr
      pub sink : ℕ
      pub built : Memory B
      pub loaded : Memory B
      pub state : Pipe ℕ (Held B)
      pub builds : build fs from to callback m ≡ ok (some p, built)
      pub standing : Standing p source sink built
      pub runs : rxc_pipeline_start k requests b (some p) built ≡ ok (state, after_run state loaded)
      pub ran : Ran built (2 * length fs + 7) loaded
      pub is :
          state
          ≡ done
              (add64 from (rank to - rank from))
              (feed (behind (onto fs []) callback) (count_up (rank to - rank from) from) b)
              (m.room - (5 * length fs + 10) - (rank to - rank from))

    pub whole_run :
        (k requests : ℕ) (b : B)
        → from < u64_mod
        → rank to - rank from + 2 ≤ requests
        → 2 * length fs + 2 < k
        → enough_blocks ≤ m.room
        → WholeRun k requests b
    whole_run k requests b small enough deep r =
        let (p, source, sink, m1, built, standing) = build-Standing (omega arith) in
        let long : length (onto fs []) ≡ length fs = omega (arith, length-onto fs []) in
        let (m', run, ran) =
          start_runs requests k b from to (onto fs []) (some p) source (some sink) m1
            (sink_foreach (held callback)) 1 1 standing.pipeline standing.attached
            (foreach-Makes m1.sinks m1.fresh sink standing.below callback standing.foreach)
            (omega (arith, long)) (omega (arith, long, standing.room)) in
        let each =
          chained-TakesEach (onto fs []) callback (sink_foreach (held callback))
            (foreach-TakesEach (held callback)) in
        let ran' = same-Ran m1 m' _ (2 * length fs + 7) (omega (arith, long)) ran in
        let left : m'.room ≡ m.room - (5 * length fs + 10) =
          omega (arith, ran'.room, standing.room) in
        let fed = feed (behind (onto fs []) callback) (count_up (rank to - rank from) from) b in
        record {
          p = p;
          source = source;
          sink = sink;
          built = m1;
          loaded = m';
          state = done (add64 from (rank to - rank from)) fed (m'.room - (rank to - rank from));
          builds = built;
          standing = standing;
          runs =
              run
              ∙ rw (
                chained-scheduled (onto fs []) (sink_foreach (held callback)),
                feeds_each to _ _ each requests from b m'.room small enough (omega (arith, left)),
                ◌>>=◌,
              );
          ran = ran';
          is =
              ap (λ n. done (add64 from (rank to - rank from)) fed (n - (rank to - rank from)))
                left;
        }

    -- A pipeline of count(from, to), any flows of these mappings and foreach(callback), built in a memory
    -- of five blocks for each flow, one for each value and fourteen more, starts and ends: the callback has been called on the values of `from` up to
    -- the one before `to`, each through all the mappings in the order of attachment, once each and in
    -- order; the connection is closed and the worker idle.
    pub built_runs :
        (k requests : ℕ) (b : B)
        → from < u64_mod
        → rank to - rank from + 2 ≤ requests
        → 2 * length fs + 2 < k
        → enough_blocks ≤ m.room
        → (q : Pipe ℕ (Held B)) × (m' : Memory B) × ((build fs from to callback m >>= λ (p, m1).
              rxc_pipeline_start k requests b p m1)
            ≡ ok (q, m'))
          × (q.sink.state
              ≡ feed callback (map (apply_all fs) (count_up (rank to - rank from) from)) b)
          × (q.requested ≡ long_min)
          × (q.queue ≡ [])
          × (q.wip ≡ false)
    built_runs k requests b small enough deep r =
        let w = whole_run k requests b small enough deep r in
        let d = rank to - rank from in
        (
          w.state,
          after_run w.state w.loaded,
          rw (w.builds, ◌>>=◌) w.runs,
          ap (λ (q : Pipe ℕ (Held B)). q.sink.state) w.is
              ∙ ap (λ c. feed c (count_up d from) b) (behind-onto fs [] callback)
              ∙ feed-apply fs callback (count_up d from) b,
          ap (λ (q : Pipe ℕ (Held B)). q.requested) w.is,
          ap (λ (q : Pipe ℕ (Held B)). q.queue) w.is,
          ap (λ (q : Pipe ℕ (Held B)). q.wip) w.is,
        )
