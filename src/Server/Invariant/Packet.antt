-- ===== src/Server/Invariant/Packet.antt =====
-- The invariant of the server, over a packet and over the rounds of its loop.
use sas.Base.{
  ℕ, ◌+◌, ◌<◌, ◌≡◌, refl, sym, ap, ◌∙◌, ◌==◌, ◌∷◌, inl, inr, Bool, true, false, List, some, Run, ok,
  fault, Fault, ◌>>=◌, arith,
}
use mathlib.Core.Path.{subst}
use sas.Transport.{Header, header_decode}
use sas.Timeout.{Ptr, TimeoutHeap}
use sas.Timeout.Order.{count}
use sas.Server.Address.{Addr}
use sas.Server.Session.{Session, World, Host}
use sas.Server.Table.Lookup.{session_get_cases, inserted}
use sas.Server.Table.{
  index_of, session_find, new_session, Server, load, store_at, session_get, server_alloc,
}
use sas.Server.Table.Chains.{server_alloc-IsTable}
use sas.Server.Machine.{Files, state_machine}
use sas.Server.Loop.{handle_packet, session_timeout}
use sas.Server.Loop.Expiry.{with_heap, session_find-heap}
use sas.Server.Invariant.{IsSession, IsServer}
use sas.Server.Invariant.Sends.{SentTo, SentTo-refl}
use sas.Server.Invariant.Tables.{get-IsServer}
use sas.Server.Invariant.Forgotten.{forgotten, written-Kept}
use sas.Server.Invariant.Machine.{machine-Kept, machine_forgets}
use sas.Server.Invariant.Waiting.{add-IsServer}

-- Whether the server forgets the session of a packet. It is a fault where the packet is the first SYN
-- of a session and its name runs past the buffer.
abbrev pub forgets_sender : Host → Files → Session → Server → Addr → Header → List ℕ → Run Bool
forgets_sender host files junk s addr wire buffer = session_get junk s addr >>= λ (p, s').
    load s' p >>= λ x. forgotten host files s'.world.errno x (header_decode host.endian wire) buffer

timeout-IsSession : (x : Session) (t : ℕ) → IsSession x → IsSession (record x { timeout = t })
timeout-IsSession x t good = record { streams = good.streams }

module _ (host : Host) (files : Files) (junk : Session) (s : Server) (addr : Addr) (wire : Header)
    (buffer : List ℕ) (time : ℕ) (k : IsServer s) where
  -- what a packet leaves of the server: of every session, and of those that are not its own
  pub record Handled (p : Ptr) (s' r : Server) : Type 0 where
    pub server : IsServer r
    pub own : (x : Session) × (r.store p ≡ some x) × (x.timeout ≡ time + session_timeout)
    pub made :
        (s2 : Server) × (y : Session) × (state_machine host files s' p
            (header_decode host.endian wire)
            buffer
          ≡ ok s2)
        × (s2.store p ≡ some y)
        × (r.store p ≡ some (record y { timeout = time + session_timeout }))
        × (r.world ≡ s2.world)
    pub sends : (x : Session) → s'.store p ≡ some x → SentTo x.addr s.world.sent r.world.sent
    pub waits : (q : Ptr) → count q r.timeouts.heap ≡ count q (p ∷ s.timeouts.heap)
    pub others : (q : Ptr) → (p == q) ≡ false → r.store q ≡ s.store q

  pub packet-Handled :
      forgets_sender host files junk s addr wire buffer ≡ ok false
      → (p : Ptr) × (s' : Server) × (r : Server) × (session_get junk s addr ≡ ok (p, s'))
        × (handle_packet host files junk time s addr wire buffer ≡ ok r)
        × Handled p s' r
  unfolding handle_packet load
  packet-Handled stays =
      let (p, x, s', got, live, k', fetched) = get-IsServer junk s addr k in
      let (s2, run, kept) =
        machine-Kept host files s' p x (header_decode host.endian wire) buffer k' live
          (rw (got, ◌>>=◌, live) at stays) in
      let (y, there) = kept.live in
      let z = record y { timeout = time + session_timeout } in
      let noted =
        written-Kept s2 p y z s2.world there refl kept.server
          (timeout-IsSession y _ (kept.server.sessions p y there))
          (SentTo-refl y.addr s2.world.sent) in
      let (h, added, safe, same) = add-IsServer (store_at s2 p z) p z noted.server (ground arith) in
      (
        p,
        s',
        with_heap h (store_at s2 p z),
        got,
        rw (got, ◌>>=◌, run, there) added,
        record {
          server = safe;
          own = (z, ground arith, refl);
          made = (s2, y, run, there, ground arith, refl);
          sends = λ u there'.
              subst (λ (w : World). SentTo u.addr w.sent s2.world.sent) fetched.world
                (kept.sends u there');
          waits = λ q.
              same q
              ∙ ap (λ (t : TimeoutHeap). count q (p ∷ t.heap)) (kept.timeouts ∙ fetched.timeouts);
          others = λ q e. rw e (kept.others q e ∙ fetched.others q e);
        },
      )

  -- A packet from any client that does not make the server forget the client's session, and that,
  -- where it is the first SYN of that session, holds a name that ends inside the buffer, is handled
  -- without a fault at a server that satisfies the invariant; the session is then live and waits in
  -- the heap for its new timeout, and the server satisfies the invariant.
  pub packet_safe :
      forgets_sender host files junk s addr wire buffer ≡ ok false
      → (r : Server) × (handle_packet host files junk time s addr wire buffer ≡ ok r)
        × IsServer r
        × ((p : Ptr) × (x : Session) × (r.store p ≡ some x)
            × (x.timeout ≡ time + session_timeout)
            × (0 < count p r.timeouts.heap))
  unfolding count
  packet_safe stays =
      let (p, s', r, got, run, d) = packet-Handled stays in
      let (x, live, at) = d.own in (r, run, d.server, (p, x, live, at, ground (arith, d.waits p)))

  -- A packet that makes the server forget the session of its client makes it use that session after
  -- it is freed.
  pub packet_use_after_free :
      forgets_sender host files junk s addr wire buffer ≡ ok true
      → handle_packet host files junk time s addr wire buffer ≡ fault Fault.use_after_free
  unfolding handle_packet load
  packet_use_after_free gone =
      let (p, x, s', got, live, k', fetched) = get-IsServer junk s addr k in
      let (s2, run, freed) =
        machine_forgets host files s' p x (header_decode host.endian wire) buffer k' live
          (rw (got, ◌>>=◌, live) at gone) in
      rw (got, ◌>>=◌, run, freed)

module _ (host : Host) (files : Files) (junk : Session) (addr : Addr) (wire : Header)
    (buffer : List ℕ) where
  pub sender-reads :
      (s s' : Server) (p : Ptr) (x : Session)
      → session_get junk s addr ≡ ok (p, s')
      → s'.store p ≡ some x
      → forgets_sender host files junk s addr wire buffer
        ≡ forgotten host files s'.world.errno x (header_decode host.endian wire) buffer
  unfolding load
  sender-reads s s' p x got live = rw (got, ◌>>=◌, live)

  -- the heap does not matter
  pub sender-heap :
      (h : TimeoutHeap) (s : Server)
      → IsServer s
      → IsServer (with_heap h s)
      → forgets_sender host files junk (with_heap h s) addr wire buffer
        ≡ forgets_sender host files junk s addr wire buffer
  unfolding session_get session_find index_of
  sender-heap h s k kh = elim (session_get_cases junk s addr k.table) [
    | inl (p, x, run, live, same, got) ↦
        sender-reads (with_heap h s) (with_heap h s) p x
          (rw (session_find-heap h s addr, run, ◌>>=◌)) live
        ∙ sym (sender-reads s s p x got live)
    | inr (absent, got) ↦
        sender-reads (with_heap h s) (inserted junk (with_heap h s) addr) s.fresh
          (new_session junk addr) (rw (session_find-heap h s addr, absent, ◌>>=◌)) (ground arith)
        ∙ sym (
            sender-reads s (inserted junk s addr) s.fresh (new_session junk addr) got
              (ground arith))
  ]

-- The server of sas_server_alloc satisfies the invariant.
pub server_alloc-IsServer : (world : World) → IsServer (server_alloc world)
unfolding server_alloc count
server_alloc-IsServer world = record {
  table = server_alloc-IsTable world;
  found = λ p x e. absurd cc;
  sessions = λ p x e. absurd cc;
  waiting = λ p h. absurd (ground arith);
}
