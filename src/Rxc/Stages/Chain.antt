-- ===== src/Rxc/Stages/Chain.antt =====
-- Flows attached to a source and to a sink: what stands in memory after a chain of them is built.
use sas.Base.{
  ℕ, ◌+◌, ◌-◌, ◌*◌, ◌≤◌, ◌≡◌, refl, sym, ap, ◌∙◌, inl, inr, true, false, List, [], ◌∷◌, Option,
  none, some, Run, ok, ◌>>=◌, ◌==◌, arith, length, Bool-cases,
}
use sas.Rxc.Stages.{
  Ptr, Pipeline, Source, Sink, Memory, put, at, taken, new_source, take_block, rxc_flow_wrapper,
  rxc_flow_map, rxc_source_via, flow_connect_source,
}

-- a pointer that is in use still leads to the same after something else is allocated
pub at-put {ℓ} :
    {A : Type ℓ} (cells : ℕ → Option A) (q : ℕ) (x y : A) (p : Ptr)
    → cells q ≡ none
    → at cells p ≡ ok x
    → at (put cells q (some y)) p ≡ ok x
at-put cells q x y none free e = absurd cc
at-put cells q x y (some p) free e = elim (Bool-cases (q == p)) [
  | inl same ↦
      let same' : q ≡ p = ground arith in
      let gone : cells p ≡ none = ap cells (sym same') ∙ free in let bad = rw gone at e in absurd cc
  | inr other ↦ rw other e
]

-- nothing is allocated from the next address on
pub record IsMemory {ℓ} {B : Type ℓ} (m : Memory B) : Type ℓ where
  pub no_source : (q : ℕ) → m.fresh ≤ q → m.sources q ≡ none
  pub no_sink : (q : ℕ) → m.fresh ≤ q → m.sinks q ≡ none
  pub no_flow : (q : ℕ) → m.fresh ≤ q → m.flows q ≡ none
  pub no_ctx : (q : ℕ) → m.fresh ≤ q → m.ctxs q ≡ none

-- the mappings in the order of attachment, the latest first
abbrev pub onto : List (ℕ → ℕ) → List (ℕ → ℕ) → List (ℕ → ℕ)
onto [] done = done
onto (f ∷ fs) done = onto fs (f ∷ done)

module _ {ℓ} {B : Type ℓ} where
  -- A source `count(from, to)` with the flows of these mappings attached to it, the latest first.
  abbrev pub Attached : Memory B → ℕ → ℕ → List (ℕ → ℕ) → Ptr → Type 0
  Attached m from to [] p = at m.sources p ≡ ok (Source.count from to)
  Attached m from to (f ∷ fs) p =
      (inner flow ctx : Ptr) × (at m.sources p ≡ ok (Source.wrapper inner flow))
      × (at m.flows flow ≡ ok (record { ctx = ctx }))
      × (at m.ctxs ctx ≡ ok (record { mapping = f }))
      × Attached m from to fs inner

  -- The flow map(f) is allocated and attached to a source, as it is for each of the mappings in turn.
  abbrev pub attach : List (ℕ → ℕ) → Ptr → Memory B → Run (Ptr × Memory B)
  attach [] source m = ok (source, m)
  attach (f ∷ fs) source m = do
    (flow, m1) ← rxc_flow_map f m
    (source', m2) ← rxc_source_via source flow m1
    attach fs source' m2

  -- the memory once map(f) is allocated, and once it is attached to `source`
  abbrev pub with_flow : (ℕ → ℕ) → Memory B → Memory B
  with_flow f m = record (taken (taken m)) {
    ctxs = put m.ctxs m.fresh (some (record { mapping = f }));
    flows = put m.flows (m.fresh + 1) (some (record { ctx = some m.fresh }));
  }

  abbrev pub with_wrapper : (ℕ → ℕ) → Ptr → Memory B → Memory B
  with_wrapper f source m = record (taken (with_flow f m)) {
    sources = put m.sources (m.fresh + 1 + 1) (some (Source.wrapper source (some (m.fresh + 1))));
  }

  flow_map_step :
      (f : ℕ → ℕ) (m : Memory B)
      → 2 ≤ m.room
      → rxc_flow_map f m ≡ ok (some (m.fresh + 1), with_flow f m)
  unfolding rxc_flow_map rxc_flow_wrapper take_block
  flow_map_step f m r =
      let first : (m.room == 0) ≡ false = ground arith in
      let second : (m.room - 1 == 0) ≡ false = ground arith in rw (first, ◌>>=◌, second)

  -- one flow more
  attach_step :
      (f : ℕ → ℕ) (fs : List (ℕ → ℕ)) (source : Ptr) (m : Memory B)
      → 3 ≤ m.room
      → attach (f ∷ fs) source m ≡ attach fs (some (m.fresh + 1 + 1)) (with_wrapper f source m)
  unfolding rxc_source_via flow_connect_source new_source
  attach_step f fs source m r =
      let third : (m.room - 1 - 1 == 0) ≡ false = ground arith in
      let here : (m.fresh + 1 == m.fresh + 1) ≡ true = ground arith in
      rw (flow_map_step f m (omega arith), ◌>>=◌, here, third)

  -- the sinks, the pipelines and the room do not matter
  pub same-Attached :
      (sinks : ℕ → Option (Sink B)) (pipelines : ℕ → Option Pipeline) (fresh room : ℕ)
      (m : Memory B) (from to : ℕ) (fs : List (ℕ → ℕ)) (p : Ptr)
      → Attached m from to fs p
      → Attached
          (record m { sinks = sinks; pipelines = pipelines; fresh = fresh; room = room })
          from
          to
          fs
          p
  same-Attached sinks pipelines fresh room m from to [] p a = a
  same-Attached sinks pipelines fresh room m from to (f ∷ fs) p (inner, flow, ctx, e1, e2, e3, a) =
      (inner, flow, ctx, e1, e2, e3, same-Attached sinks pipelines fresh room m from to fs inner a)

  step-IsMemory :
      (f : ℕ → ℕ) (source : Ptr) (m : Memory B) → IsMemory m → IsMemory (with_wrapper f source m)
  step-IsMemory f source m v = record {
    no_source = λ q h. ground (arith, v.no_source q (omega arith));
    no_sink = λ q h. v.no_sink q (omega arith);
    no_flow = λ q h. ground (arith, v.no_flow q (omega arith));
    no_ctx = λ q h. ground (arith, v.no_ctx q (omega arith));
  }

  step-Attached :
      (f : ℕ → ℕ) (source : Ptr) (m : Memory B) (from to : ℕ) (fs : List (ℕ → ℕ)) (p : Ptr)
      → IsMemory m
      → Attached m from to fs p
      → Attached (with_wrapper f source m) from to fs p
  step-Attached f source m from to [] p v a =
      at-put m.sources (m.fresh + 1 + 1) _ _ p (v.no_source _ (omega arith)) a
  step-Attached f source m from to (g ∷ fs) p v (inner, flow, ctx, e1, e2, e3, rest) = (
    inner,
    flow,
    ctx,
    at-put m.sources (m.fresh + 1 + 1) _ _ p (v.no_source _ (omega arith)) e1,
    at-put m.flows (m.fresh + 1) _ _ flow (v.no_flow _ (omega arith)) e2,
    at-put m.ctxs m.fresh _ _ ctx (v.no_ctx _ (omega arith)) e3,
    step-Attached f source m from to fs inner v rest,
  )

  -- what a chain of flows leaves, which took three blocks for each of them
  pub record Built (m : Memory B) (from to : ℕ) (fs : List (ℕ → ℕ)) (n : ℕ) (p : Ptr)
      (m' : Memory B) : Type ℓ where
    pub formed : IsMemory m'
    pub attached : Attached m' from to fs p
    pub room : m'.room ≡ m.room - 3 * n
    pub sinks : m'.sinks ≡ m.sinks
    pub pipelines : m'.pipelines ≡ m.pipelines

  pub attach-Built :
      (fs done : List (ℕ → ℕ)) (source : Ptr) (m : Memory B) (from to : ℕ)
      → IsMemory m
      → Attached m from to done source
      → 3 * length fs ≤ m.room
      → (p : Ptr) × (m' : Memory B) × (attach fs source m ≡ ok (p, m'))
        × Built m from to (onto fs done) (length fs) p m'
  attach-Built [] done source m from to v a r = (
    source,
    m,
    refl,
    record { formed = v; attached = a; room = omega arith; sinks = refl; pipelines = refl },
  )
  attach-Built (f ∷ fs) done source m from to v a r =
      let here : ((q : ℕ) → (q == q) ≡ true) = λ q. ground arith in
      let next : Attached (with_wrapper f source m) from to (f ∷ done) (some (m.fresh + 1 + 1)) = (
        source,
        some (m.fresh + 1),
        some m.fresh,
        rw (here (m.fresh + 1 + 1)),
        rw (here (m.fresh + 1)),
        rw (here m.fresh),
        step-Attached f source m from to done source v a,
      ) in
      let (p, m', run, b) =
        attach-Built fs (f ∷ done) (some (m.fresh + 1 + 1)) (with_wrapper f source m) from to
          (step-IsMemory f source m v) next (omega (arith, r)) in
      (
        p,
        m',
        attach_step f fs source m (omega (arith, r)) ∙ run,
        record {
          formed = b.formed;
          attached = b.attached;
          room = omega (arith, b.room);
          sinks = b.sinks;
          pipelines = b.pipelines;
        },
      )
