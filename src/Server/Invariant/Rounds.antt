-- ===== src/Server/Invariant/Rounds.antt =====
-- The invariant of the server, over the rounds of its loop.
use mathlib.Core.Path.{subst}
use sas.Base.{
  ℕ, suc, ◌+◌, ◌-◌, ◌<◌, ◌≡◌, refl, sym, ap, ◌∙◌, ◌⊎◌, inl, inr, false, List, [], ◌∷◌, Option, none,
  some, ok, ◌>>=◌, arith, leb, length,
}
use sas.Transport.{Header}
use sas.Timeout.{Ptr, TimeoutHeap, timeout_pop}
use sas.Server.Address.{Addr}
use sas.Server.Session.{Session, World, Host}
use sas.Server.Table.{Server, load, server_alloc}
use sas.Server.Machine.{Files}
use sas.Server.Loop.{
  timeout_of, handle_packet, pop_timeout, expire, select_limit, re_add, received, timed_out,
  running, handle, round,
}
use sas.Server.Loop.Expiry.{with_heap}
use sas.Server.Invariant.{IsServer}
use sas.Server.Invariant.Waiting.{add-IsServer, pop-IsServer}
use sas.Server.Invariant.Settled.{expiring_round, timed_out_round}
use sas.Server.Invariant.Expired.{IsDistinct}
use sas.Server.Invariant.Packet.{forgets_sender, sender-heap, packet_safe, server_alloc-IsServer}

-- no session waits, or the one that pop takes is not due
abbrev pub IsQuiet : ℕ → Server → Type 0
IsQuiet now s =
    (s.timeouts.heap ≡ [])
    ⊎ ((p : Ptr) × (rest : List Ptr) × (x : Session) × (s.timeouts.heap ≡ p ∷ rest)
        × (s.store p ≡ some x)
        × (now < x.timeout))

module _ (now later : ℕ) (s : Server) (k : IsServer s) where
  -- what a quiet round does before the packet
  pub quiet_round :
      IsQuiet now s
      → (fuel : ℕ)
      → (waiting : Option Ptr) × (s1 : Server) × (limit : Option ℕ) × (h : TimeoutHeap) × (expire
            (suc fuel)
            now
            later
            s
          ≡ ok (waiting, s1))
        × (select_limit now s1 waiting ≡ ok limit)
        × (re_add s1 waiting ≡ ok (with_heap h s))
        × IsServer (with_heap h s)
  unfolding expire pop_timeout timeout_pop select_limit re_add timeout_of load
  quiet_round (inl empty) fuel = (none, s, none, s.timeouts, rw empty, refl, refl, k)
  quiet_round (inr (p, rest, x, shape, live, early)) fuel =
      let (h, popped, k1, entries, shorter) = pop-IsServer s p rest k shape in
      let (h', added, k2, same) = add-IsServer (with_heap h s) p x k1 live in
      let not_due : leb x.timeout now ≡ false = ground arith in
      let reads : timeout_of (with_heap h s) p ≡ ok x.timeout = rw (live, ◌>>=◌) in
      (
        some p,
        with_heap h s,
        some (x.timeout - now),
        h',
        rw (popped, ◌>>=◌) (rw (reads, ◌>>=◌, not_due)),
        rw (reads, ◌>>=◌),
        added,
        k2,
      )

module _ (host : Host) (files : Files) (junk : Session) (addr : Addr) (wire : Header)
    (buffer : List ℕ) where
  -- A round with a packet that does not make the server forget the session of its client, and that,
  -- where it is the first SYN of that session, holds a name that ends inside the buffer, at a server
  -- that satisfies the invariant, where no session waits or the one that pop takes is not due, ends
  -- without a fault and goes on, with a server that satisfies the invariant.
  pub round_safe :
      (now later : ℕ) (s : Server)
      → IsServer s
      → IsQuiet now s
      → forgets_sender host files junk s addr wire buffer ≡ ok false
      → (r : Server) × (round host files junk now later s (λ limit. received addr wire buffer)
          ≡ ok (running r))
        × IsServer r
  unfolding round handle handle_packet
  round_safe now later s k quiet stays =
      let (waiting, s1, limit, h, popped, selected, added, k1) =
        quiet_round now later s k quiet (length s.timeouts.heap) in
      let (r, run, safe, waits) =
        packet_safe host files junk (with_heap h s) addr wire buffer later k1
          (sender-heap host files junk addr wire buffer h s k k1 ∙ stays) in
      let more : length s.timeouts.heap + 1 ≡ suc (length s.timeouts.heap) = omega arith in
      (
        r,
        rw (ap (λ n. expire n now later s) more ∙ popped, ◌>>=◌, selected)
            (ap
                (λ u. u >>= λ s2.
                  handle_packet host files junk later s2 addr wire buffer >>= λ v. ok (running v))
                added
              ∙ ap (λ u. u >>= λ v. ok (running v)) run),
        safe,
      )

-- The servers of the rounds that start at sas_server_alloc: each is a round as above with such a
-- packet, or a round in which the expired sessions are freed first, where no session stands in the
-- heap twice, and then such a packet comes or none comes in time.
pub data Reached (host : Host) (files : Files) (junk : Session) (world : World)
    : Server → Type 0 where
  fresh : Reached host files junk world (server_alloc world)
  next :
      {s r : Server} (now later : ℕ) (addr : Addr) (wire : Header) (buffer : List ℕ)
      → Reached host files junk world s
      → IsQuiet now s
      → forgets_sender host files junk s addr wire buffer ≡ ok false
      → round host files junk now later s (λ limit. received addr wire buffer) ≡ ok (running r)
      → Reached host files junk world r
  expires :
      {s s1 r : Server} {waiting : Option Ptr} (now later : ℕ) (addr : Addr) (wire : Header)
      (buffer : List ℕ)
      → Reached host files junk world s
      → IsDistinct s
      → expire (length s.timeouts.heap + 1) now later s ≡ ok (waiting, s1)
      → forgets_sender host files junk s1 addr wire buffer ≡ ok false
      → round host files junk now later s (λ limit. received addr wire buffer) ≡ ok (running r)
      → Reached host files junk world r
  times_out :
      {s s1 r : Server} {p : Ptr} (now later : ℕ)
      → Reached host files junk world s
      → IsDistinct s
      → expire (length s.timeouts.heap + 1) now later s ≡ ok (some p, s1)
      → round host files junk now later s (λ limit. timed_out) ≡ ok (running r)
      → Reached host files junk world r

running_is : (r r' : Server) → ok (running r) ≡ ok (running r') → r ≡ r'
running_is r r' e = cc

-- The invariant holds of every server that is reached from the one of sas_server_alloc by rounds that
-- go on: rounds in which a packet comes that does not make the server forget its client's session
-- and that, where it is the first SYN of that session, holds a name that ends inside the buffer, where the session that is popped first is not due or no session stands in the heap twice; and
-- rounds in which no packet comes in time, where no session stands in the heap twice.
pub reached-IsServer :
    (host : Host) (files : Files) (junk : Session) (world : World) (s : Server)
    → Reached host files junk world s
    → IsServer s
reached-IsServer host files junk world s fresh = server_alloc-IsServer world
reached-IsServer host files junk world r
      (next {s} now later addr wire buffer before quiet stays run) =
    let (r', run', safe) =
      round_safe host files junk addr wire buffer now later s
        (reached-IsServer host files junk world s before) quiet stays in
    subst IsServer (running_is r' r (sym run' ∙ run)) safe
reached-IsServer host files junk world r
      (expires {s = s} {s1 = s1} {waiting = waiting} now later addr wire buffer before once popped
        stays run) =
    let (r', run', safe) =
      expiring_round host files junk now later s (reached-IsServer host files junk world s before)
        once addr wire buffer waiting s1 popped stays in
    subst IsServer (running_is r' r (sym run' ∙ run)) safe
reached-IsServer host files junk world r
      (times_out {s = s} {s1 = s1} {p = p} now later before once popped run) =
    let (r', run', safe, distinct) =
      timed_out_round host files junk now later s (reached-IsServer host files junk world s before)
        once p s1 popped in
    subst IsServer (running_is r' r (sym run' ∙ run)) safe
