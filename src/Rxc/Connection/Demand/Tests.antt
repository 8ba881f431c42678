-- ===== src/Rxc/Connection/Demand/Tests.antt =====
-- Tests of the connection, and its theorem at a concrete sequence of calls.
use sas.Base.{ℕ, ◌≡◌, refl, List, [], ◌∷◌, ok, arith, true, false}
use sas.Rxc.Long.{long_max, long_min}
use sas.Rxc.Connection.{
  connection_pull, connection_cancel, connection_create, outlet_emit, outlet_complete,
}
use sas.Rxc.Connection.Demand.{
  pulled, pushed, finished, Call, pull, emit, cancel, complete, Log, call, play, demand_accounts,
  Accounts,
}

-- One element too many is emitted, and two calls come after the end.
abbrev script : List (Call ℕ)
script = pull 1 ∷ emit 7 ∷ emit 8 ∷ pull 2 ∷ emit 9 ∷ complete ∷ pull 1 ∷ cancel ∷ []

script_log :
    play script (connection_create tt [])
    ≡ ok (record {
      requested = long_min;
      queue = [];
      wip = false;
      parent = true;
      source = tt;
      sink = finished ∷ pushed 9 ∷ pulled 2 ∷ pushed 7 ∷ pulled 1 ∷ [];
    })
unfolding play call connection_pull connection_cancel connection_create outlet_emit outlet_complete
script_log = refl

saturates :
    play {E = ℕ} (pull long_max ∷ pull 5 ∷ emit 1 ∷ []) (connection_create tt [])
    ≡ ok (record {
      requested = long_max;
      queue = [];
      wip = false;
      parent = true;
      source = tt;
      sink = pushed 1 ∷ pulled 5 ∷ pulled long_max ∷ [];
    })
unfolding play call connection_pull connection_create outlet_emit
saturates = refl

demand_accounts_example : (q : Log ℕ) × (play script (connection_create tt []) ≡ ok q) × Accounts q
demand_accounts_example = demand_accounts script (omega arith)
