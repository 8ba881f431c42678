-- ===== src/Rxc/Connection.antt =====
-- rxc/include/rxc/logic.h and rxc/src/logic.c: the connection between a source and a sink, which
-- keeps the demand that the sink has signalled and the source has not met.
pub mod Demand
use sas.Base.{ℕ, ◌-◌, Bool, true, false, List, Run, ok, ◌>>=◌, ◌==◌, if◌then◌else◌}
use sas.Base.Words.{add64}
use sas.Rxc.Long.{long_max, long_min, is_negative, is_positive}

-- A running pipeline. `requested` is the field of `rxc_connection`, LONG_MIN once it is closed.
-- `queue` and `wip` belong to the trampoline worker, `parent` says whether the field of
-- `rxc_inlet_scheduler` is not NULL; `source` and `sink` are the states of the two stages.
pub record Pipe {ℓ κ} (A : Type ℓ) (B : Type κ) : Type (ℓ ⊔ κ) where
  pub requested : ℕ
  pub queue : List ℕ
  pub wip : Bool
  pub parent : Bool
  pub source : A
  pub sink : B

-- What a sink may call on its connection.
pub record Inlet {ℓ} (S : Type ℓ) : Type ℓ where
  pub pull : ℕ → S → Run S
  pub cancel : S → Run S

-- What a source may call: `emit` also returns whether the element was taken (RXC_EOK or -1).
pub record Outlet {ℓ κ} (E : Type ℓ) (S : Type κ) : Type (ℓ ⊔ κ) where
  pub emit : E → S → Run (Bool × S)
  pub complete : S → Run S
  pub fail : S → Run S

-- The callbacks of `rxc_sink_logic` and `rxc_source_logic`. A failure carries nothing but NULL.
pub record SinkLogic {ℓ κ} (E : Type ℓ) (S : Type κ) : Type (ℓ ⊔ κ) where
  pub on_connect : Inlet S → S → Run S
  pub on_push : Inlet S → E → S → Run S
  pub on_upstream_finish : S → Run S
  pub on_upstream_failure : S → Run S

pub record SourceLogic {ℓ κ} (E : Type ℓ) (S : Type κ) : Type (ℓ ⊔ κ) where
  pub on_pull : Outlet E S → ℕ → S → Run S
  pub on_downstream_finish : S → Run S

module _ {ℓ κ} {A : Type ℓ} {B : Type κ} where
  -- rxc_connection_create
  unfoldable pub connection_create : A → B → Pipe A B
  connection_create source sink = record {
    requested = 0;
    queue = List.[];
    wip = false;
    parent = true;
    source = source;
    sink = sink;
  }

  unfoldable pub outlet_available : Pipe A B → Bool
  outlet_available out = is_positive out.requested

module _ {ℓ κ μ} {E : Type ℓ} {A : Type κ} {B : Type μ} where
  -- rxc_connection_inlet_pull
  unfoldable pub connection_pull :
      SourceLogic E (Pipe A B) → Outlet E (Pipe A B) → ℕ → Pipe A B → Run (Pipe A B)
  connection_pull source out n conn =
      let sum = add64 conn.requested n in
      let capped = if is_negative sum then long_max else sum in
      let pulled = source.on_pull out n (record conn { requested = capped }) in
      if conn.requested == long_min then ok conn else pulled

  -- rxc_connection_inlet_cancel
  unfoldable pub connection_cancel : SourceLogic E (Pipe A B) → Pipe A B → Run (Pipe A B)
  connection_cancel source conn =
      let closed = source.on_downstream_finish (record conn { requested = long_min }) in
      if conn.requested == long_min then ok conn else closed

  module _ (sink : SinkLogic E (Pipe A B)) (inlet : Inlet (Pipe A B)) where
    unfoldable pub outlet_emit : E → Pipe A B → Run (Bool × Pipe A B)
    outlet_emit element conn =
        let left = if conn.requested == long_max then conn.requested else conn.requested - 1 in
        let pushed : Run (Bool × Pipe A B) = do
          conn' ← sink.on_push inlet element (record conn { requested = left })
          ok (true, conn')
        in if is_positive conn.requested then pushed else ok (false, conn)

  module _ (sink : SinkLogic E (Pipe A B)) where
    unfoldable pub outlet_fail : Pipe A B → Run (Pipe A B)
    outlet_fail conn =
        let closed = sink.on_upstream_failure (record conn { requested = long_min }) in
        if conn.requested == long_min then ok conn else closed

    unfoldable pub outlet_complete : Pipe A B → Run (Pipe A B)
    outlet_complete conn =
        let closed = sink.on_upstream_finish (record conn { requested = long_min }) in
        if conn.requested == long_min then ok conn else closed
