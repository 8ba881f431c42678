-- ===== src/Server/Invariant/Isolation.antt =====
-- What a packet from one client does to the sessions of the others.
use mathlib.Core.Path.{subst}
use sas.Base.{ℕ, ◌≡◌, ◌≢◌, ◌∙◌, ◌==◌, false, List, some, Run, ok, arith}
use sas.Transport.{Header}
use sas.Timeout.{Ptr}
use sas.Timeout.Order.{count}
use sas.Server.Address.{Addr}
use sas.Server.Session.{Session, Host}
use sas.Server.Table.{Server, session_find, session_get}
use sas.Server.Machine.{Files}
use sas.Server.Loop.{handle_packet}
use sas.Server.Invariant.{IsServer}
use sas.Server.Invariant.Packet.{forgets_sender, Handled, packet-Handled}
use sas.Server.Invariant.Sends.{SentTo}

one_result : {A : Type 0} (r : Run A) (a b : A) → r ≡ ok a → r ≡ ok b → a ≡ b
one_result r a b h k = cc

module _ (host : Host) (files : Files) (junk : Session) (s : Server) (addr : Addr) (wire : Header)
    (buffer : List ℕ) (time : ℕ) (k : IsServer s) where
  -- A packet from any client that does not make the server forget the client's session, and that,
  -- where it is the first SYN of that session, holds a name that ends inside the buffer, is handled
  -- without a fault at a server that satisfies the invariant, and leaves every session alone but the
  -- one that get returns for the client: another session that is live stays as it was, is still what
  -- find returns for its own address, and stands in the heap as often as before. Every packet that
  -- the server sends on it goes to the address of the session that get returned.
  pub packet_isolates :
      (p q : Ptr) (s' : Server) (x y : Session)
      → session_get junk s addr ≡ ok (p, s')
      → s'.store p ≡ some x
      → s.store q ≡ some y
      → p ≢ q
      → forgets_sender host files junk s addr wire buffer ≡ ok false
      → (r : Server) × (handle_packet host files junk time s addr wire buffer ≡ ok r)
        × (r.store q ≡ some y)
        × (session_find r y.addr ≡ ok (some q))
        × (count q r.timeouts.heap ≡ count q s.timeouts.heap)
        × SentTo x.addr s.world.sent r.world.sent
  unfolding count
  packet_isolates p q s' x y got own other apart stays =
      let (p2, s2, r, got2, run, d2) =
        packet-Handled host files junk s addr wire buffer time k stays in
      let same = one_result (session_get junk s addr) (p2, s2) (p, s') got2 got in
      let d : Handled host files junk s addr wire buffer time k p s' r =
        subst (λ (t : Ptr × Server). Handled host files junk s addr wire buffer time k t.0 t.1 r)
          same d2 in
      let differ : (p == q) ≡ false = ground arith in
      let kept = d.others q differ ∙ other in
      (r, run, kept, d.server.found q y kept, ground (arith, d.waits q), d.sends x own)
