-- ===== src/Rxc/Stages/Runs.antt =====
-- The start of a pipeline that stands in memory, and what it then runs.
use mathlib.Core.Path.{subst}
use sas.Base.{
  ℕ, zero, suc, ◌+◌, ◌-◌, ◌*◌, ◌<◌, ◌≤◌, ◌≡◌, refl, sym, ap, ◌∙◌, true, false, List, [], ◌∷◌,
  Option, some, ok, ◌>>=◌, ◌==◌, arith, length,
}
use sas.Rxc.Connection.{Pipe, SinkLogic}
use sas.Rxc.Pipeline.{pipeline_start}
use sas.Rxc.Ops.{source_count, sink_foreach, sink_map}
use sas.Rxc.Stages.{
  Ptr, Sink, Memory, put, at, taken, new_sink, take_block, flow_connect_sink, sink_wrap,
}
use sas.Rxc.Stages.Blocks.{Held, held, scheduled, allocating}
use sas.Rxc.Stages.Start.{after_run, create_logic, join, connect, pipeline_sink, rxc_pipeline_start}
use sas.Rxc.Stages.Chain.{Attached}

module _ {ℓ} {B : Type ℓ} where
  -- `n` blocks of memory are taken
  abbrev pub takes : ℕ → Memory B → Memory B
  takes zero m = m
  takes (suc n) m = takes n (taken m)

  takes-taken : (n : ℕ) (m : Memory B) → takes n (taken m) ≡ taken (takes n m)
  takes-taken zero m = refl
  takes-taken (suc n) m = takes-taken n (taken m)

  takes-room : (n : ℕ) (m : Memory B) → (takes n m).room ≡ m.room - n
  takes-room zero m = omega arith
  takes-room (suc n) m = omega (arith, takes-room n (taken m))

  block_taken : (m : Memory B) → 1 ≤ m.room → take_block m ≡ ok (taken m)
  unfolding take_block
  block_taken m r = let some_room : (m.room == 0) ≡ false = ground arith in rw some_room

  block_after :
      (n : ℕ) (m : Memory B) → n + 1 ≤ m.room → take_block (takes n m) ≡ ok (takes (suc n) m)
  block_after n m r =
      block_taken (takes n m) (omega (arith, takes-room n m)) ∙ ap ok (sym (takes-taken n m))

  -- The sink creates this logic, on fuel of `depth` and with `n` blocks, wherever the sinks that are
  -- allocated below `fresh` are these.
  abbrev pub Makes :
      (ℕ → Option (Sink B)) → ℕ → Ptr → SinkLogic ℕ (Pipe ℕ (Held B)) → ℕ → ℕ → Type ℓ
  Makes sinks fresh p logic depth n =
      (k : ℕ) (m : Memory B)
      → depth ≤ k
      → ((q : ℕ) → q < fresh → m.sinks q ≡ sinks q)
      → n ≤ m.room
      → create_logic k p m ≡ ok (logic, takes n m)

  module _ (sinks : ℕ → Option (Sink B)) (fresh p : ℕ) (below : p < fresh) where
    pub foreach-Makes :
        (callback : ℕ → B → B)
        → sinks p ≡ some (Sink.foreach callback)
        → Makes sinks fresh (some p) (sink_foreach (held callback)) 1 1
    unfolding create_logic
    foreach-Makes callback e zero m d same r = absurd (omega arith)
    foreach-Makes callback e (suc k) m d same r = rw (same p below ∙ e, ◌>>=◌, block_taken m r)

    map-Makes :
        (inner : Ptr) (f : ℕ → ℕ) (logic : SinkLogic ℕ (Pipe ℕ (Held B))) (depth n : ℕ)
        → sinks p ≡ some (Sink.map inner f)
        → Makes sinks fresh inner logic depth n
        → Makes sinks fresh (some p) (sink_map f logic) (suc depth) (suc n)
    unfolding create_logic
    map-Makes inner f logic depth n e makes zero m d same r = absurd (omega arith)
    map-Makes inner f logic depth n e makes (suc k) m d same r = rw (
      same p below ∙ e,
      ◌>>=◌,
      block_taken m (omega arith),
      makes k (taken m) (omega arith) same (omega arith),
    )

    scheduler-Makes :
        (inner : Ptr) (logic : SinkLogic ℕ (Pipe ℕ (Held B))) (depth n : ℕ)
        → sinks p ≡ some (Sink.scheduler inner)
        → Makes sinks fresh inner logic depth n
        → Makes sinks fresh (some p) (scheduled logic) (suc depth) (suc (suc n))
    unfolding create_logic
    scheduler-Makes inner logic depth n e makes zero m d same r = absurd (omega arith)
    scheduler-Makes inner logic depth n e makes (suc k) m d same r = rw (
      same p below ∙ e,
      ◌>>=◌,
      block_taken m (omega arith),
      makes k (taken m) (omega arith) same (omega arith),
      block_after n (taken m) (omega arith),
    )

  -- another sink is allocated
  grown-Makes :
      (sinks : ℕ → Option (Sink B)) (fresh : ℕ) (x : Sink B) (p : Ptr)
      (logic : SinkLogic ℕ (Pipe ℕ (Held B))) (depth n : ℕ)
      → Makes sinks fresh p logic depth n
      → Makes (put sinks fresh (some x)) (fresh + 1) p logic depth n
  grown-Makes sinks fresh x p logic depth n makes k m d same r =
      makes k m d (λ q h. same q (omega arith) ∙ ground arith) r

  -- the logic that a chain of flows at the source makes of the sink's
  abbrev pub chained : List (ℕ → ℕ) → SinkLogic ℕ (Pipe ℕ (Held B)) → SinkLogic ℕ (Pipe ℕ (Held B))
  chained [] logic = logic
  chained (f ∷ fs) logic = chained fs (sink_map f logic)

  join_ok :
      (k : ℕ) (sink : Ptr) (m : Memory B) (logic : SinkLogic ℕ (Pipe ℕ (Held B))) (depth n : ℕ)
      → Makes m.sinks m.fresh sink logic depth n
      → depth ≤ k
      → n + 3 ≤ m.room
      → join k sink m ≡ ok (logic, takes (suc (suc n)) (taken m))
  unfolding join
  join_ok k sink m logic depth n makes d r = rw (
    block_taken m (omega arith),
    ◌>>=◌,
    makes k (taken m) d (λ q h. refl) (omega arith),
    block_after n (taken m) (omega arith),
    block_after (suc n) (taken m) (omega arith),
  )

  -- what a start leaves of the memory, `n` blocks later
  pub record Ran (m : Memory B) (n : ℕ) (m' : Memory B) : Type ℓ where
    pub room : m'.room ≡ m.room - n
    pub sources : m'.sources ≡ m.sources
    pub pipelines : m'.pipelines ≡ m.pipelines
    pub sinks : (q : ℕ) → q < m.fresh → m'.sinks q ≡ m.sinks q

  takes-Ran : (n : ℕ) (m : Memory B) → Ran m n (takes n m)
  takes-Ran zero m = record {
    room = omega arith;
    sources = refl;
    pipelines = refl;
    sinks = λ q h. refl;
  }
  takes-Ran (suc n) m =
      let rest = takes-Ran n (taken m) in
      record {
        room = omega (arith, rest.room);
        sources = rest.sources;
        pipelines = rest.pipelines;
        sinks = λ q h. rest.sinks q (omega arith);
      }

  -- a sink is allocated first
  sink-Ran :
      (x : Sink B) (m m' : Memory B) (n : ℕ)
      → Ran (record (taken m) { sinks = put m.sinks m.fresh (some x) }) n m'
      → Ran m (suc n) m'
  sink-Ran x m m' n rest = record {
    room = omega (arith, rest.room);
    sources = rest.sources;
    pipelines = rest.pipelines;
    sinks = λ q h. rest.sinks q (omega arith) ∙ ground arith;
  }

  pub same-Ran : (m m' : Memory B) (n k : ℕ) → n ≡ k → Ran m n m' → Ran m k m'
  same-Ran m m' n k e rest = subst (λ i. Ran m i m') e rest

  connect_runs :
      (requests : ℕ) (b : B) (from to : ℕ) (fs : List (ℕ → ℕ)) (k : ℕ) (p sink : Ptr) (m : Memory B)
      (logic : SinkLogic ℕ (Pipe ℕ (Held B))) (depth n : ℕ)
      → Attached m from to fs p
      → Makes m.sinks m.fresh sink logic depth n
      → 2 * length fs + depth < k
      → 2 * length fs + n + 3 ≤ m.room
      → (m' : Memory B) × (connect k requests b p sink m ≡ (
          pipeline_start
            (allocating (source_count to))
            (chained fs logic)
            requests
            from
            (record { state = b; room = m'.room })
          >>= λ q. ok (q, after_run q m')))
        × Ran m (2 * length fs + n + 3) m'
  unfolding connect flow_connect_sink sink_wrap new_sink
  connect_runs requests b from to fs zero p sink m logic depth n a makes d r = absurd (omega arith)
  connect_runs requests b from to [] (suc k) p sink m logic depth n a makes d r = (
    takes (suc (suc n)) (taken m),
    rw (a, ◌>>=◌, join_ok k sink m logic depth n makes (omega arith) (omega arith)),
    same-Ran m _ _ _ (omega arith) (takes-Ran (suc (suc (suc n))) m),
  )
  connect_runs requests b from to (f ∷ fs) (suc k) p sink m logic depth n
        (inner, flow, ctx, e1, e2, e3, a) makes d r =
      let x : Sink B = Sink.map sink f in
      let more : (m.room == 0) ≡ false = ground arith in
      let here : (m.fresh == m.fresh) ≡ true = ground arith in
      let m1 = record (taken m) { sinks = put m.sinks m.fresh (some x) } in
      let makes1 =
        map-Makes m1.sinks m1.fresh m.fresh (omega arith) sink f logic depth n (rw here)
          (grown-Makes m.sinks m.fresh x sink logic depth n makes) in
      let (m', run, ran) =
        connect_runs requests b from to fs k inner (some m.fresh) m1 (sink_map f logic) (suc depth)
          (suc n) a makes1 (omega arith) (omega arith) in
      (
        m',
        rw (e1, ◌>>=◌, e2, more, e3) run,
        same-Ran m m' _ _ (omega arith) (sink-Ran x m m' _ ran),
      )

  -- what rxc_pipeline_start runs, where a pipeline of such a source and of a sink stands in memory
  pub start_runs :
      (requests k : ℕ) (b : B) (from to : ℕ) (fs : List (ℕ → ℕ)) (p source sink : Ptr)
      (m : Memory B) (logic : SinkLogic ℕ (Pipe ℕ (Held B))) (depth n : ℕ)
      → at m.pipelines p ≡ ok (record { source = source; sink = sink })
      → Attached m from to fs source
      → Makes m.sinks m.fresh sink logic depth n
      → 2 * length fs + depth + 1 < k
      → 2 * length fs + n + 6 ≤ m.room
      → (m' : Memory B) × (rxc_pipeline_start k requests b p m ≡ (
          pipeline_start
            (allocating (source_count to))
            (chained fs (scheduled logic))
            requests
            from
            (record { state = b; room = m'.room })
          >>= λ q. ok (q, after_run q m')))
        × Ran m (2 * length fs + n + 6) m'
  unfolding rxc_pipeline_start pipeline_sink new_sink
  start_runs requests k b from to fs p source sink m logic depth n here a makes d r =
      let x : Sink B = Sink.scheduler sink in
      let more : (m.room == 0) ≡ false = ground arith in
      let same : (m.fresh == m.fresh) ≡ true = ground arith in
      let m1 : Memory B = record (taken m) { sinks = put m.sinks m.fresh (some x) } in
      let makes1 =
        scheduler-Makes m1.sinks m1.fresh m.fresh (omega arith) sink logic depth n (rw same)
          (grown-Makes m.sinks m.fresh x sink logic depth n makes) in
      let (m', run, ran) =
        connect_runs requests b from to fs k source (some m.fresh) m1 (scheduled logic) (suc depth)
          (suc (suc n)) a makes1 (omega arith) (omega arith) in
      (m', rw (here, ◌>>=◌, more) run, same-Ran m m' _ _ (omega arith) (sink-Ran x m m' _ ran))
