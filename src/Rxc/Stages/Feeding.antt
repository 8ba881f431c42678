-- ===== src/Rxc/Stages/Feeding.antt =====
-- The pipeline of count with a sink that takes its elements one at a time, in a memory of enough blocks.
use sas.Base.{
  ℕ, zero, suc, ◌+◌, ◌-◌, ◌≤◌, ◌<◌, ◌≡◌, refl, ap, ◌∙◌, Bool, true, false, [], ◌∷◌, ok, ◌>>=◌, leb,
  ◌==◌, arith,
}
use sas.Base.Words.{add64, u64_mod}
use sas.Rxc.Long.{long_min, rank}
use sas.Rxc.Connection.{Pipe, SinkLogic, connection_pull, outlet_emit, outlet_complete}
use sas.Rxc.Pipeline.{worker_loop, pipeline_start, inlet_pull, worker_enqueue}
use sas.Rxc.Ops.{source_count, count_loop}
use sas.Rxc.Ops.Each.{TakesEach, count_up, feed}
use sas.Rxc.Stages.Blocks.{Held, held, allocating, allocating_emit, allocating_pull, scheduled}

module _ {ℓ} {B : Type ℓ} (to : ℕ) (callback : ℕ → B → B) (sink : SinkLogic ℕ (Pipe ℕ (Held B)))
    (each : TakesEach (held callback) sink) where
  -- inside the worker's loop, with one request waiting, and at the end
  abbrev waiting : ℕ → B → ℕ → Pipe ℕ (Held B)
  waiting c b room = record {
    requested = 0;
    queue = 1 ∷ [];
    wip = true;
    parent = true;
    source = c;
    sink = record { state = b; room = room };
  }

  abbrev pub ended : ℕ → Bool → B → ℕ → Pipe ℕ (Held B)
  ended c wip b room = record {
    requested = long_min;
    queue = [];
    wip = wip;
    parent = true;
    source = c;
    sink = record { state = b; room = room };
  }

  loop_ends :
      (k c : ℕ) (b : B) (room : ℕ)
      → rank to ≤ rank c
      → worker_loop (allocating (source_count to)) (scheduled sink) (suc (suc k)) (waiting c b room)
        ≡ ok (ended c true b room)
  unfolding worker_loop connection_pull source_count count_loop outlet_complete allocating scheduled
  loop_ends k c b room h =
      let done : leb (rank to) (rank c) ≡ true = ground arith in rw (done, each.finishes)

  -- an element takes a block, while its request and the next one stand in memory
  loop_emits :
      (k c : ℕ) (b : B) (room : ℕ)
      → rank c < rank to
      → 5 ≤ room
      → worker_loop (allocating (source_count to)) (scheduled sink) (suc k) (waiting c b room)
        ≡ worker_loop
            (allocating (source_count to))
            (scheduled sink)
            k
            (waiting (add64 c 1) (callback c b) (room - 1))
  unfolding worker_loop connection_pull source_count count_loop outlet_emit inlet_pull
      worker_enqueue allocating allocating_emit allocating_pull scheduled
  loop_emits k c b room h r =
      let more : leb (rank to) (rank c) ≡ false = ground arith in
      let element : (room - 2 == 0) ≡ false = ground arith in
      let request : (room - 1 - 2 == 0) ≡ false = ground arith in
      let node : (room - 1 - 2 == 1) ≡ false = ground arith in
      rw (more, element, each.pushes, request, node)

  loop_feeds :
      (d k c : ℕ) (b : B) (room : ℕ)
      → rank to - rank c ≡ d
      → c < u64_mod
      → d + 2 ≤ k
      → d + 4 ≤ room
      → worker_loop (allocating (source_count to)) (scheduled sink) k (waiting c b room)
        ≡ ok (ended (add64 c d) true (feed callback (count_up d c) b) (room - d))
  loop_feeds d zero c b room e r f m = absurd (omega arith)
  loop_feeds d (suc zero) c b room e r f m = absurd (omega arith)
  loop_feeds zero (suc (suc k)) c b room e r f m =
      let same : c ≡ add64 c 0 = omega arith in
      let all : room ≡ room - 0 = omega arith in
      loop_ends k c b room (omega arith)
      ∙ ap (λ x. ok (ended x true b room)) same
      ∙ ap (λ x. ok (ended (add64 c 0) true b x)) all
  loop_feeds (suc d) (suc k) c b room e r f m =
      let same : add64 (add64 c 1) d ≡ add64 c (suc d) = omega arith in
      let left : room - 1 - d ≡ room - suc d = omega arith in
      let fed = feed callback (count_up d (add64 c 1)) (callback c b) in
      loop_emits k c b room (omega arith) (omega arith)
      ∙ loop_feeds d k (add64 c 1) (callback c b) (room - 1) (omega arith) (omega arith)
          (omega arith) (omega arith)
      ∙ ap (λ x. ok (ended x true fed (room - 1 - d))) same
      ∙ ap (λ x. ok (ended (add64 c (suc d)) true fed x)) left

  -- Each value is handed to the callback, and leaves its element in memory.
  pub feeds_each :
      (fuel from : ℕ) (b : B) (room : ℕ)
      → from < u64_mod
      → rank to - rank from + 2 ≤ fuel
      → rank to - rank from + 4 ≤ room
      → pipeline_start
          (allocating (source_count to))
          (scheduled sink)
          fuel
          from
          (record { state = b; room = room })
        ≡ ok (
            ended
              (add64 from (rank to - rank from))
              false
              (feed callback (count_up (rank to - rank from) from) b)
              (room - (rank to - rank from)))
  unfolding pipeline_start inlet_pull worker_enqueue allocating_pull scheduled
  feeds_each fuel from b room r f m =
      let request : (room - 0 == 0) ≡ false = ground arith in
      let node : (room - 0 == 1) ≡ false = ground arith in
      each.connects _ _
      ∙ rw (request, node, loop_feeds (rank to - rank from) fuel from b room refl r f m, ◌>>=◌)
