-- ===== src/Rxc/Stages/Leaks.antt =====
-- What a pipeline leaves in memory once it has ended and is deallocated.
use sas.Base.{
  ℕ, ◌+◌, ◌-◌, ◌*◌, ◌<◌, ◌≤◌, ◌≡◌, refl, ap, ◌∙◌, List, [], ◌∷◌, Option, none, some, ok, Fault,
  or_fault, arith, length,
}
use sas.Base.Words.{u64_mod}
use sas.Rxc.Long.{rank}
use sas.Rxc.Connection.{Pipe}
use sas.Rxc.Stages.{Ptr, Source, Sink, Memory}
use sas.Rxc.Stages.Dealloc.{rxc_pipeline_dealloc, pipeline_dealloc_shallow}
use sas.Rxc.Stages.Blocks.{Held}
use sas.Rxc.Stages.Start.{after_run, rxc_pipeline_start}
use sas.Rxc.Stages.Chain.{IsMemory, Attached, onto}
use sas.Rxc.Stages.Whole.{build, enough_blocks, whole_run}

-- what a pointer that is in use leads to
or_fault-some {ℓ} :
    {A : Type ℓ} (o : Option A) (x : A) → or_fault o Fault.use_after_free ≡ ok x → o ≡ some x
or_fault-some none x e = absurd cc
or_fault-some (some y) x e = cc

module _ {ℓ} {B : Type ℓ} where
  Attached-live :
      (m : Memory B) (from to : ℕ) (fs : List (ℕ → ℕ)) (p : Ptr)
      → Attached m from to fs p
      → (s : ℕ) × (x : Source) × (p ≡ some s) × (m.sources s ≡ some x)
  Attached-live m from to [] none a = absurd cc
  Attached-live m from to [] (some s) a = (s, _, refl, or_fault-some (m.sources s) _ a)
  Attached-live m from to (f ∷ fs) none (inner, flow, ctx, e, e2, e3, rest) = absurd cc
  Attached-live m from to (f ∷ fs) (some s) (inner, flow, ctx, e, e2, e3, rest) =
      (s, _, refl, or_fault-some (m.sources s) _ e)

  -- A pipeline of count(from, to), any flows of these mappings and foreach(callback), in a memory of
  -- five blocks for each flow, one for each value and fourteen more, once it has run and is deallocated,
  -- leaves five blocks for each of its flows, one for each value that it counted and seven more that
  -- nothing frees, where the callback frees no element.
  pub built_leaks :
      (fs : List (ℕ → ℕ)) (from to : ℕ) (callback : ℕ → B → B) (m : Memory B) (v : IsMemory m)
      (k requests : ℕ) (b : B)
      → from < u64_mod
      → rank to - rank from + 2 ≤ requests
      → 2 * length fs + 2 < k
      → enough_blocks fs from to callback m v ≤ m.room
      → (p : Ptr) × (m1 m2 m3 : Memory B) × (q : Pipe ℕ (Held B)) × (build fs from to callback m
          ≡ ok (p, m1))
        × (rxc_pipeline_start k requests b p m1 ≡ ok (q, m2))
        × (rxc_pipeline_dealloc p m2 ≡ ok m3)
        × (m3.room + (5 * length fs + 7 + (rank to - rank from)) ≡ m.room)
  built_leaks fs from to callback m v k requests b small enough deep r =
      let w = whole_run fs from to callback m v k requests b small enough deep r in
      let (s, x, is, live) =
        Attached-live w.built from to (onto fs []) w.source w.standing.attached in
      let ended = after_run w.state w.loaded in
      let kept : ended.room ≡ m.room - (5 * length fs + 10) - (rank to - rank from) =
        ap (λ (q : Pipe ℕ (Held B)). q.sink.room) w.is in
      let joined : ended.pipelines w.p ≡ some (record { source = some s; sink = some w.sink }) =
        ap (λ c. c w.p) w.ran.pipelines
        ∙ or_fault-some (w.built.pipelines w.p) _ w.standing.pipeline
        ∙ ap (λ (u : Ptr). some (record { source = u; sink = some w.sink })) is in
      (
        some w.p,
        w.built,
        ended,
        _,
        w.state,
        w.builds,
        w.runs,
        pipeline_dealloc_shallow ended w.p s w.sink x (Sink.foreach callback) joined
            (ap (λ c. c s) w.ran.sources ∙ live)
            (w.ran.sinks w.sink w.standing.below ∙ w.standing.foreach),
        omega (arith, kept),
      )
