-- ===== src/Rxc/Connection/Demand.antt =====
-- What two stages see of each other over a connection, whatever calls they make, in any order.
mod Tests
use sas.Base.{
  ℕ, zero, suc, ◌+◌, ◌-◌, ◌≤◌, ◌<◌, ◌≡◌, refl, ◌⊎◌, inl, inr, Bool, true, false, List, [], ◌∷◌, Run,
  ok, ◌>>=◌, ◌==◌, ltb, if◌then◌else◌, arith, Bool-cases, ◌∙◌,
}
use sas.Base.Words.{add64}
use sas.Rxc.Long.{long_max, long_min, is_negative, is_positive}
use sas.Rxc.Connection.{
  Pipe, Inlet, Outlet, SinkLogic, SourceLogic, connection_pull, connection_cancel,
  connection_create, outlet_emit, outlet_fail, outlet_complete,
}

-- a callback that the connection makes
pub data Signal {ℓ} (E : Type ℓ) : Type ℓ where
  pulled : ℕ → Signal E
  pushed : E → Signal E
  canceled finished failed : Signal E

-- a call that a stage makes
pub data Call {ℓ} (E : Type ℓ) : Type ℓ where
  pull : ℕ → Call E
  emit : E → Call E
  cancel complete fail : Call E

-- the signals so far, the latest first
abbrev pub Log {ℓ} : Type ℓ → Type ℓ
Log E = Pipe (Unit {0}) (List (Signal E))

module _ {ℓ} (E : Type ℓ) where
  abbrev inlet : Inlet (Log E)
  inlet = record { pull = λ n p. ok p; cancel = λ p. ok p }

  abbrev outlet : Outlet E (Log E)
  outlet = record { emit = λ e p. ok (true, p); complete = λ p. ok p; fail = λ p. ok p }

module _ {ℓ} {E : Type ℓ} where
  abbrev note : Signal E → Log E → Run (Log E)
  note s p = ok (record p { sink = s ∷ p.sink })

  -- stages that note each callback and do nothing else
  abbrev sink : SinkLogic E (Log E)
  sink = record {
    on_connect = λ inlet p. ok p;
    on_push = λ inlet e. note (pushed e);
    on_upstream_finish = note finished;
    on_upstream_failure = note failed;
  }

  abbrev source : SourceLogic E (Log E)
  source = record { on_pull = λ out n. note (pulled n); on_downstream_finish = note canceled }

  unfoldable pub call : Call E → Log E → Run (Log E)
  call (pull n) p = connection_pull source (outlet E) n p
  call (emit e) p = outlet_emit sink (inlet E) e p >>= λ r. ok r.1
  call cancel p = connection_cancel source p
  call complete p = outlet_complete sink p
  call fail p = outlet_fail sink p

  unfoldable pub play : List (Call E) → Log E → Run (Log E)
  play [] p = ok p
  play (c ∷ cs) p = call c p >>= play cs

  -- how much the sink has asked for, and got
  pub demanded : List (Signal E) → ℕ
  demanded [] = 0
  demanded (pulled n ∷ log) = n + demanded log
  demanded (s ∷ log) = demanded log

  pub pushes : List (Signal E) → ℕ
  pushes [] = 0
  pushes (pushed e ∷ log) = suc (pushes log)
  pushes (s ∷ log) = pushes log

  pub is_closed : List (Signal E) → Bool
  is_closed [] = false
  is_closed (pulled n ∷ log) = is_closed log
  is_closed (pushed e ∷ log) = is_closed log
  is_closed (s ∷ log) = true

  -- nothing is signalled once the stream is canceled, finished or failed
  abbrev pub IsOrderly : List (Signal E) → Type 0
  IsOrderly [] = Unit
  IsOrderly (s ∷ log) = (is_closed log ≡ false) × IsOrderly log

  -- a request is for a number of elements that is not negative
  abbrev pub InRange : List (Call E) → Type 0
  InRange [] = Unit
  InRange (pull n ∷ cs) = (n ≤ long_max) × InRange cs
  InRange (c ∷ cs) = InRange cs

  -- the demand that is left is what was asked for and not pushed, unless that has no bound
  pub record Accounts (p : Log E) : Type 0 where
    pub orderly : IsOrderly p.sink
    pub closed : is_closed p.sink ≡ (p.requested == long_min)
    pub open_range : p.requested ≤ long_min
    pub left :
        (long_max ≤ demanded p.sink)
        ⊎ ((is_closed p.sink ≡ true) × (pushes p.sink ≤ demanded p.sink)
            ⊎ (p.requested + pushes p.sink ≡ demanded p.sink))

  closing :
      (p : Log E) (s : Signal E)
      → Accounts p
      → (p.requested == long_min) ≡ false
      → ((log : List (Signal E)) → is_closed (s ∷ log) ≡ true)
      → ((log : List (Signal E)) → demanded (s ∷ log) ≡ demanded log)
      → ((log : List (Signal E)) → pushes (s ∷ log) ≡ pushes log)
      → Accounts (record p { requested = long_min; sink = s ∷ p.sink })
  closing p s v o shut same_demand same_pushes = record {
    orderly = (v.closed ∙ o, v.orderly);
    closed = shut p.sink;
    open_range = omega arith;
    left = ground (arith, shut p.sink, same_demand p.sink, same_pushes p.sink);
  }

  first_InRange : (c : Call E) (cs : List (Call E)) → InRange (c ∷ cs) → InRange (c ∷ [])
  first_InRange (pull n) cs r = (r.0, tt)
  first_InRange c cs r = tt

  rest_InRange : (c : Call E) (cs : List (Call E)) → InRange (c ∷ cs) → InRange cs
  rest_InRange (pull n) cs r = r.1
  rest_InRange c cs r = r

  start : Accounts (connection_create tt [])
  unfolding connection_create is_closed demanded pushes
  start = record {
    orderly = tt;
    closed = refl;
    open_range = omega arith;
    left = inr (inr (omega arith));
  }

  call-Accounts :
      (c : Call E) (p : Log E)
      → InRange (c ∷ [])
      → Accounts p
      → (q : Log E) × (call c p ≡ ok q) × Accounts q
  unfolding call connection_pull outlet_emit connection_cancel outlet_complete outlet_fail demanded
      pushes is_closed
  call-Accounts (pull n) p r v = elim (Bool-cases (p.requested == long_min)) [
    | inl c ↦ (p, rw c, v)
    | inr o ↦ (
      record p {
        requested = if is_negative (add64 p.requested n) then long_max else add64 p.requested n;
        sink = pulled n ∷ p.sink;
      },
      rw o,
      record {
        orderly = (v.closed ∙ o, v.orderly);
        closed = ground arith;
        open_range = ground arith;
        left = ground arith;
      },
    )
  ]
  call-Accounts (emit e) p r v = elim (Bool-cases (is_positive p.requested)) [
    | inl o ↦ (
      record p {
        requested = if p.requested == long_max then p.requested else p.requested - 1;
        sink = pushed e ∷ p.sink;
      },
      rw o,
      record {
        orderly = (ground arith, v.orderly);
        closed = ground arith;
        open_range = ground arith;
        left = ground arith;
      },
    )
    | inr c ↦ (p, rw c, v)
  ]
  call-Accounts cancel p r v = elim (Bool-cases (p.requested == long_min)) [
    | inl c ↦ (p, rw c, v)
    | inr o ↦ (
      record p { requested = long_min; sink = canceled ∷ p.sink },
      rw o,
      closing p canceled v o (λ log. refl) (λ log. refl) (λ log. refl),
    )
  ]
  call-Accounts complete p r v = elim (Bool-cases (p.requested == long_min)) [
    | inl c ↦ (p, rw c, v)
    | inr o ↦ (
      record p { requested = long_min; sink = finished ∷ p.sink },
      rw o,
      closing p finished v o (λ log. refl) (λ log. refl) (λ log. refl),
    )
  ]
  call-Accounts fail p r v = elim (Bool-cases (p.requested == long_min)) [
    | inl c ↦ (p, rw c, v)
    | inr o ↦ (
      record p { requested = long_min; sink = failed ∷ p.sink },
      rw o,
      closing p failed v o (λ log. refl) (λ log. refl) (λ log. refl),
    )
  ]

  play-Accounts :
      (cs : List (Call E)) (p : Log E)
      → InRange cs
      → Accounts p
      → (q : Log E) × (play cs p ≡ ok q) × Accounts q
  unfolding play
  play-Accounts [] p r v = (p, refl, v)
  play-Accounts (c ∷ cs) p r v =
      let (q, run, w) = call-Accounts c p (first_InRange c cs r) v in
      let (q', run', w') = play-Accounts cs q (rest_InRange c cs r) w in
      (q', rw (run, ◌>>=◌) run', w')

  -- Whatever calls the two stages make, in any order and each request for at most LONG_MAX, none
  -- faults; no callback follows a cancellation, an end or a failure; and the demand that the
  -- connection keeps while it is open is what the sink asked for less what it was pushed, so that it
  -- is never pushed more, unless it asked for LONG_MAX or more in all.
  pub demand_accounts :
      (cs : List (Call E))
      → InRange cs
      → (q : Log E) × (play cs (connection_create tt []) ≡ ok q) × Accounts q
  demand_accounts cs r = play-Accounts cs (connection_create tt []) r start
