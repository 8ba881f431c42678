-- ===== src/Rxc/Ops/Streams.antt =====
-- The whole pipelines of count with each of the sinks.
use sas.Base.{
  ℕ, zero, suc, ◌+◌, ◌-◌, ◌≤◌, ◌<◌, ◌≡◌, refl, ap, ◌∙◌, Bool, true, false, List, [], ◌∷◌, map, ok,
  fault, Fault, ◌>>=◌, leb, arith,
}
use sas.Base.Words.{add64, u64_mod}
use sas.Rxc.Long.{long_max, long_min, rank}
use sas.Rxc.Connection.{Pipe, Inlet, SourceLogic, connection_pull, connection_cancel}
use sas.Rxc.Connection.{outlet_emit, outlet_complete}
use sas.Rxc.Pipeline.{
  worker_loop, pipeline_start, inlet_pull, inlet_cancel, worker_enqueue, inlet_over, outlet_over,
}
use sas.Rxc.Ops.{count_loop, source_count, sink_foreach, sink_ignore, sink_map}
use sas.Rxc.Ops.Each.{TakesEach, count_up, feed, count_each}

module _ {ℓ} {B : Type ℓ} (callback : ℕ → B → B) where
  pub foreach-TakesEach : TakesEach callback (sink_foreach callback)
  unfolding sink_foreach
  foreach-TakesEach = record {
    connects = λ inlet p. refl;
    pushes = λ inlet e p. refl;
    finishes = λ p. refl;
  }

  map-TakesEach :
      (mapping : ℕ → ℕ)
      → TakesEach (λ e. callback (mapping e)) (sink_map mapping (sink_foreach callback))
  unfolding sink_foreach sink_map
  map-TakesEach mapping = record {
    connects = λ inlet p. refl;
    pushes = λ inlet e p. refl;
    finishes = λ p. refl;
  }

  feed-map :
      (mapping : ℕ → ℕ) (es : List ℕ) (b : B)
      → feed (λ e. callback (mapping e)) es b ≡ feed callback (map mapping es) b
  feed-map mapping [] b = refl
  feed-map mapping (e ∷ es) b = feed-map mapping es (callback (mapping e) b)

  -- The pipeline count(from, to), map(mapping), foreach(callback) ends, with the callback called on
  -- the mapped values of `from` up to the one before `to`, once each and in order, the connection
  -- closed and the worker idle, on fuel of the number of values and two, or more.
  pub count_map_foreach :
      (mapping : ℕ → ℕ) (from to fuel : ℕ) (b : B)
      → from < u64_mod
      → rank to - rank from + 2 ≤ fuel
      → (p : Pipe ℕ B) × (pipeline_start
            (source_count to)
            (sink_map mapping (sink_foreach callback))
            fuel
            from
            b
          ≡ ok p)
        × (p.sink ≡ feed callback (map mapping (count_up (rank to - rank from) from)) b)
        × (p.requested ≡ long_min)
        × (p.queue ≡ [])
        × (p.wip ≡ false)
  count_map_foreach mapping from to fuel b r f = (
    _,
    count_each to _ _ (map-TakesEach mapping) fuel from b r f,
    feed-map mapping (count_up (rank to - rank from) from) b,
    refl,
    refl,
    refl,
  )

  -- foreach alone
  pub count_foreach :
      (from to fuel : ℕ) (b : B)
      → from < u64_mod
      → rank to - rank from + 2 ≤ fuel
      → (p : Pipe ℕ B) × (pipeline_start (source_count to) (sink_foreach callback) fuel from b
          ≡ ok p)
        × (p.sink ≡ feed callback (count_up (rank to - rank from) from) b)
        × (p.requested ≡ long_min)
        × (p.queue ≡ [])
        × (p.wip ≡ false)
  count_foreach from to fuel b r f =
      (_, count_each to _ _ foreach-TakesEach fuel from b r f, refl, refl, refl, refl)

module _ {ℓ κ μ} {E : Type ℓ} {A : Type κ} {B : Type μ} (source : SourceLogic E (Pipe A B)) where
  -- The first cancellation closes the connection, after which requests are ignored; a second one
  -- calls through a null pointer. This holds for every source that does nothing when it is told.
  pub cancel_twice :
      (n : ℕ) (p : Pipe A B)
      → ((q : Pipe A B) → source.on_downstream_finish q ≡ ok q)
      → p.parent ≡ true
      → (q : Pipe A B) × (inlet_cancel source p ≡ ok q)
        × (q.requested ≡ long_min)
        × (inlet_pull (λ r. ok r) n q ≡ ok q)
        × (inlet_cancel source q ≡ fault Fault.null_pointer)
  unfolding inlet_cancel inlet_pull connection_cancel
  cancel_twice n p quiet h = (
    record p { requested = long_min; parent = false },
    ground (arith, quiet (record p { requested = long_min; parent = false })),
    refl,
    refl,
    refl,
  )

module _ {ℓ} {B : Type ℓ} where
  -- the state of the pipeline inside the worker's loop, with an unbounded demand
  abbrev flowing : ℕ → B → Pipe ℕ B
  flowing c b = record {
    requested = long_max;
    queue = [];
    wip = true;
    parent = true;
    source = c;
    sink = b;
  }

  -- a pipeline that has ended
  abbrev pub closed : ℕ → Bool → B → Pipe ℕ B
  closed c wip b = record {
    requested = long_min;
    queue = [];
    wip = wip;
    parent = true;
    source = c;
    sink = b;
  }

module _ {ℓ} {B : Type ℓ} (to : ℕ) where
  drained :
      (inlet : Inlet (Pipe ℕ B)) (d n c : ℕ) (b : B)
      → rank to - rank c ≡ d
      → c < u64_mod
      → d < n
      → count_loop to (outlet_over (source_count to) sink_ignore inlet) n (flowing c b)
        ≡ ok (closed (add64 c d) true b)
  unfolding count_loop sink_ignore outlet_emit outlet_complete
  drained inlet d zero c b e r f = absurd (omega arith)
  drained inlet zero (suc n) c b e r f =
      let done : leb (rank to) (rank c) ≡ true = ground arith in
      let same : c ≡ add64 c 0 = omega arith in rw done (ap (λ x. ok (closed x true b)) same)
  drained inlet (suc d) (suc n) c b e r f =
      let more : leb (rank to) (rank c) ≡ false = ground arith in
      let same : add64 (add64 c 1) d ≡ add64 c (suc d) = omega arith in
      rw more (
        drained inlet d n (add64 c 1) b (omega arith) (omega arith) (omega arith)
        ∙ ap (λ x. ok (closed x true b)) same)

  -- The pipeline count(from, to), ignore ends after its one request: the source has counted up to
  -- `to`, if it is above `from`, and the connection is closed. There are fewer than LONG_MAX values.
  pub count_ignore :
      (fuel from : ℕ) (b : B)
      → from < u64_mod
      → rank to - rank from < long_max
      → pipeline_start (source_count to) sink_ignore (suc (suc fuel)) from b
        ≡ ok (closed (add64 from (rank to - rank from)) false b)
  unfolding pipeline_start sink_ignore inlet_pull worker_enqueue worker_loop connection_pull
      source_count
  count_ignore fuel from b r f = rw (
    drained
        (inlet_over (source_count to) sink_ignore
          (worker_loop (source_count to) sink_ignore (suc fuel)))
        (rank to - rank from) long_max from b refl r f,
    ◌>>=◌,
  )
