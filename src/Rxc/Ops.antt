-- ===== src/Rxc/Ops.antt =====
-- rxc/src/ops: the sources count and empty, the sinks foreach, ignore and canceled, and the flow map
-- with the wrapper that connects it. Freeing an element has no effect here.
pub mod Each
pub mod Streams
mod Tests
use sas.Base.{ℕ, zero, suc, ◌+◌, Bool, Run, ok, fault, Fault, ◌>>=◌, leb, if◌then◌else◌}
use sas.Base.Words.{add64}
use sas.Rxc.Long.{long_max, is_positive, rank}
use sas.Rxc.Connection.{Pipe, Inlet, Outlet, SinkLogic, SourceLogic}

module _ {ℓ} {B : Type ℓ} where
  -- the `for` of count.c's on_pull; the state of the source is the field `count`
  unfoldable pub count_loop : ℕ → Outlet ℕ (Pipe ℕ B) → ℕ → Pipe ℕ B → Run (Pipe ℕ B)
  count_loop to out zero p = ok p
  count_loop to out (suc n) p =
      let next : Run (Pipe ℕ B) = do
        (taken, p') ← out.emit p.source (record p { source = add64 p.source 1 })
        count_loop to out n p'
      in if leb (rank to) (rank p.source) then out.complete p else next

  -- The logic of `rxc_source_count(from, to)`, which starts at the state `from`.
  unfoldable pub source_count : ℕ → SourceLogic ℕ (Pipe ℕ B)
  source_count to = record {
    on_pull = λ out n. count_loop to out (if is_positive n then n else 0);
    on_downstream_finish = λ p. ok p;
  }

module _ {ℓ κ μ} {E : Type ℓ} {A : Type κ} {B : Type μ} where
  unfoldable pub source_empty : SourceLogic E (Pipe A B)
  source_empty = record { on_pull = λ out n p. ok p; on_downstream_finish = λ p. ok p }

  -- `callback` may change what the model keeps as the sink's state.
  unfoldable pub sink_foreach : (E → B → B) → SinkLogic E (Pipe A B)
  sink_foreach callback = record {
    on_connect = λ inlet. inlet.pull 1;
    on_push = λ inlet element p. inlet.pull 1 (record p { sink = callback element p.sink });
    on_upstream_finish = λ p. ok p;
    on_upstream_failure = λ p. ok p;
  }

  unfoldable pub sink_ignore : SinkLogic E (Pipe A B)
  sink_ignore = record {
    on_connect = λ inlet. inlet.pull long_max;
    on_push = λ inlet element p. ok p;
    on_upstream_finish = λ p. ok p;
    on_upstream_failure = λ p. ok p;
  }

  unfoldable pub sink_canceled : SinkLogic E (Pipe A B)
  sink_canceled = record {
    on_connect = λ inlet. inlet.cancel;
    on_push = λ inlet element p. ok p;
    on_upstream_finish = λ p. ok p;
    on_upstream_failure = λ p. ok p;
  }

  -- The sink that `rxc_flow_map(mapping)` wraps round `inner`. Its on_upstream_failure takes the
  -- sink for its logic and reads the field `inner` past the sink's end.
  unfoldable pub sink_map {ν} :
      {F : Type ν} → (E → F) → SinkLogic F (Pipe A B) → SinkLogic E (Pipe A B)
  sink_map mapping inner = record {
    on_connect = inner.on_connect;
    on_push = λ inlet element. inner.on_push inlet (mapping element);
    on_upstream_finish = inner.on_upstream_finish;
    on_upstream_failure = λ p. fault Fault.out_of_bounds;
  }
