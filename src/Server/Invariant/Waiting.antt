-- ===== src/Server/Invariant/Waiting.antt =====
-- The invariant of the server, under the calls that add a session to the heap of timeouts or pop one.
use sas.Base.{
  ℕ, ◌≡◌, sym, ap, ◌∙◌, List, ◌∷◌, Option, none, some, ok, Fault, or_fault, ◌>>=◌, inl, inr,
  Bool-cases, arith, length, ◌==◌,
}
use sas.Timeout.{Ptr, TimeoutHeap, timeout_pop}
use sas.Timeout.Order.{count, SameEntries}
use sas.Timeout.Pop.{heap_of}
use sas.Timeout.Live.{AllLive, add_keeps, pop_keeps}
use sas.Server.Session.{Session}
use sas.Server.Table.{Server, load}
use sas.Server.Loop.{timeout_of, add_timeout, pop_timeout}
use sas.Server.Loop.Expiry.{with_heap}
use sas.Server.Invariant.{IsServer}
use sas.Server.Invariant.Tables.{heap-IsServer}

-- the timeout of a session, or 0 where it is freed
abbrev key_at : Option Session → ℕ
key_at none = 0
key_at (some x) = x.timeout

abbrev key_of : Server → Ptr → ℕ
key_of s p = key_at (s.store p)

timeout_live :
    (s : Server) (p : Ptr) (x : Session) → s.store p ≡ some x → timeout_of s p ≡ ok (key_of s p)
unfolding timeout_of load
timeout_live s p x live =
    ap (λ o. or_fault o Fault.use_after_free >>= λ y. ok y.timeout) live
    ∙ ap (λ o. ok (key_at o)) (sym live)

entries_live : (s : Server) → IsServer s → AllLive (key_of s) (timeout_of s) s.timeouts.heap
entries_live s k p h = let (x, live) = k.waiting p h in timeout_live s p x live

-- the heap with one more entry
pub add-IsServer :
    (s : Server) (p : Ptr) (x : Session)
    → IsServer s
    → s.store p ≡ some x
    → (h : TimeoutHeap) × (add_timeout s p ≡ ok (with_heap h s))
      × IsServer (with_heap h s)
      × SameEntries h.heap (p ∷ s.timeouts.heap)
unfolding add_timeout count
add-IsServer s p x k live =
    let (h, run, same) =
      add_keeps (key_of s) (timeout_of s) s.timeouts p (entries_live s k)
        (timeout_live s p x live) in
    (
      h,
      rw (run, ◌>>=◌),
      heap-IsServer h s k (λ q there. elim (Bool-cases (q == p)) [
        | inl e ↦ let qp : p ≡ q = ground arith in (x, ap s.store (sym qp) ∙ live)
        | inr e ↦ k.waiting q (ground (arith, same q))
      ]),
      same,
    )

-- the heap without one of its entries
pub pop-IsServer :
    (s : Server) (min : Ptr) (rest : List Ptr)
    → IsServer s
    → s.timeouts.heap ≡ min ∷ rest
    → (h : TimeoutHeap) × (pop_timeout s ≡ ok (some min, with_heap h s))
      × IsServer (with_heap h s)
      × SameEntries (min ∷ h.heap) (min ∷ rest)
      × (length h.heap ≡ length rest)
unfolding pop_timeout count
pop-IsServer s min rest k shape =
    let live : AllLive (key_of s) (timeout_of s) (min ∷ rest) =
      λ q there. entries_live s k q (rw shape there) in
    let (b, run, same, shorter) =
      pop_keeps (key_of s) (timeout_of s) min rest s.timeouts.capacity live in
    let h = heap_of s.timeouts.capacity b in
    (
      h,
      ap
            (λ hp. timeout_pop (timeout_of s) (heap_of s.timeouts.capacity hp) >>= λ (p, heap).
              ok (p, with_heap heap s))
            shape
          ∙ rw (run, ◌>>=◌),
      heap-IsServer h s k (λ q there. k.waiting q (rw shape (ground (arith, same q)))),
      same,
      shorter,
    )
