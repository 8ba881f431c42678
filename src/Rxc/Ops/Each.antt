-- ===== src/Rxc/Ops/Each.antt =====
-- Sinks that take their elements one at a time: the source is asked for the next when the last is
-- done with.
use sas.Base.{
  ℕ, zero, suc, ◌+◌, ◌-◌, ◌≤◌, ◌<◌, ◌≡◌, refl, ap, ◌∙◌, Bool, true, false, List, [], ◌∷◌, ok, ◌>>=◌,
  leb, arith,
}
use sas.Base.Words.{add64, u64_mod}
use sas.Rxc.Long.{long_min, rank}
use sas.Rxc.Connection.{Pipe, Inlet, SinkLogic, connection_pull}
use sas.Rxc.Connection.{outlet_emit, outlet_complete}
use sas.Rxc.Pipeline.{worker_loop, pipeline_start, inlet_pull, worker_enqueue}
use sas.Rxc.Ops.{source_count, count_loop}

-- `d` consecutive values of type `long`
abbrev pub count_up : ℕ → ℕ → List ℕ
count_up zero c = []
count_up (suc d) c = c ∷ count_up d (add64 c 1)

-- the elements, handed to a callback in order
abbrev pub feed {ℓ κ} : {E : Type ℓ} {B : Type κ} → (E → B → B) → List E → B → B
feed callback [] b = b
feed callback (e ∷ es) b = feed callback es (callback e b)

module _ {ℓ} {B : Type ℓ} where
  -- a sink that calls `callback` on each element and then asks for one more
  pub record TakesEach (callback : ℕ → B → B) (sink : SinkLogic ℕ (Pipe ℕ B)) : Type ℓ where
    pub connects :
        (inlet : Inlet (Pipe ℕ B)) (p : Pipe ℕ B) → sink.on_connect inlet p ≡ inlet.pull 1 p
    pub pushes :
        (inlet : Inlet (Pipe ℕ B)) (e : ℕ) (p : Pipe ℕ B)
        → sink.on_push inlet e p ≡ inlet.pull 1 (record p { sink = callback e p.sink })
    pub finishes : (p : Pipe ℕ B) → sink.on_upstream_finish p ≡ ok p

  module _ (to : ℕ) (callback : ℕ → B → B) (sink : SinkLogic ℕ (Pipe ℕ B))
      (each : TakesEach callback sink) where
    -- inside the worker's loop, with one request waiting
    abbrev waiting : ℕ → B → Pipe ℕ B
    waiting c b = record {
      requested = 0;
      queue = 1 ∷ [];
      wip = true;
      parent = true;
      source = c;
      sink = b;
    }

    abbrev completed : ℕ → Bool → B → Pipe ℕ B
    completed c wip b = record {
      requested = long_min;
      queue = [];
      wip = wip;
      parent = true;
      source = c;
      sink = b;
    }

    loop_completes :
        (k c : ℕ) (b : B)
        → rank to ≤ rank c
        → worker_loop (source_count to) sink (suc (suc k)) (waiting c b) ≡ ok (completed c true b)
    unfolding worker_loop connection_pull source_count count_loop outlet_complete
    loop_completes k c b h =
        let done : leb (rank to) (rank c) ≡ true = ground arith in rw (done, each.finishes)

    loop_steps :
        (k c : ℕ) (b : B)
        → rank c < rank to
        → worker_loop (source_count to) sink (suc k) (waiting c b)
          ≡ worker_loop (source_count to) sink k (waiting (add64 c 1) (callback c b))
    unfolding worker_loop connection_pull source_count count_loop outlet_emit inlet_pull
        worker_enqueue
    loop_steps k c b h =
        let more : leb (rank to) (rank c) ≡ false = ground arith in rw (more, each.pushes)

    loop_feeds :
        (d k c : ℕ) (b : B)
        → rank to - rank c ≡ d
        → c < u64_mod
        → d + 2 ≤ k
        → worker_loop (source_count to) sink k (waiting c b)
          ≡ ok (completed (add64 c d) true (feed callback (count_up d c) b))
    loop_feeds d zero c b e r f = absurd (omega arith)
    loop_feeds d (suc zero) c b e r f = absurd (omega arith)
    loop_feeds zero (suc (suc k)) c b e r f =
        let same : c ≡ add64 c 0 = omega arith in
        loop_completes k c b (omega arith) ∙ ap (λ x. ok (completed x true b)) same
    loop_feeds (suc d) (suc k) c b e r f =
        let same : add64 (add64 c 1) d ≡ add64 c (suc d) = omega arith in
        loop_steps k c b (omega arith)
        ∙ loop_feeds d k (add64 c 1) (callback c b) (omega arith) (omega arith) (omega arith)
        ∙ ap (λ x. ok (completed x true (feed callback (count_up d (add64 c 1)) (callback c b))))
            same

    -- A pipeline from count(from, to) to a sink that takes its elements one at a time ends, with one
    -- request more of fuel than the elements and the end of the stream need. The callback has been
    -- called on the values of `long` from `from` up to the one before `to`, once each and in order;
    -- the connection is closed, and the worker is idle.
    pub count_each :
        (fuel from : ℕ) (b : B)
        → from < u64_mod
        → rank to - rank from + 2 ≤ fuel
        → pipeline_start (source_count to) sink fuel from b
          ≡ ok (
              completed
                (add64 from (rank to - rank from))
                false
                (feed callback (count_up (rank to - rank from) from) b))
    unfolding pipeline_start inlet_pull worker_enqueue
    count_each fuel from b r f =
        each.connects _ _ ∙ rw (loop_feeds (rank to - rank from) fuel from b refl r f, ◌>>=◌)
