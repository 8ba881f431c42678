-- ===== src/Meeting/Exchange/Talking.antt =====
-- A session and a client that are past the handshake, and what the server does on their packets.
use sas.Base.{sym, ℕ, ◌+◌, ◌*◌, ◌≤◌, ◌<◌, ◌≡◌, ap, ◌∙◌, ◌⊎◌, List, ◌∷◌, ◌++◌, some, ok, length}
use sas.Base.Words.{u32_mod}
use sas.Transport.{State}
use sas.Timeout.{Ptr}
use sas.Server.Session.{Wav, Session, Host}
use sas.Server.Sink.Delivery.{open_stream, reading, file_of, total}
use sas.Server.Table.{Server}
use sas.Server.Machine.{Files, state_machine}
use sas.Client.{Client, Datagram, Peer}
use sas.Client.Drivers.{Audio}
use sas.Meeting.Packets.{InRange}
use sas.Meeting.Exchange.{to_server}
use sas.Meeting.Exchange.Asks.{AreAsks}
use sas.Meeting.Exchange.Serving.{get_found, serves, streams_stay}
use sas.Server.Address.{Addr}
use sas.Server.Table.{session_find}
use sas.Server.Loop.{handle_packet, session_timeout}
use sas.Server.Invariant.{IsServer}
use sas.Meeting.Exchange.{received}

-- A session that still has chunks to send, a client that plays, and the acknowledgements that are on
-- their way from the client: there is one at least, and they are numbered one by one from the number
-- that the session expects to the client's own.
pub record Talking (host : Host) (peer : Peer) (pad : List ℕ) (addr : Addr) (p : Ptr) (wav : Wav)
    (chunks : List (ℕ × List ℕ)) (s : Server) (x : Session) (c : Client) (asks : List Datagram)
    : Type 0 where
  pub served : IsServer s
  pub home : x.addr ≡ addr
  pub live : s.store p ≡ some x
  pub ready : (x.state ≡ State.sack_sent) ⊎ (x.state ≡ State.establsh)
  pub stream : x.stream ≡ some (open_stream (reading wav (file_of chunks)))
  pub numbers : InRange x
  pub small : x.seq + total chunks < u32_mod
  pub plays : c.session.state ≡ State.establsh
  pub expects : c.session.ack ≤ x.seq
  pub some_ask : 0 < length asks
  pub asked : AreAsks host peer pad x.ack asks
  pub counted : c.session.seq ≡ x.ack + length asks
  pub room : c.session.seq + 2 * length chunks < u32_mod

module _ (host : Host) (files : Files) (junk : Session) (addr : Addr) (clock : ℕ → ℕ) (peer : Peer)
    (pad stale : List ℕ) (audio : Audio) (p : Ptr) where
  -- what the server does with the oldest acknowledgement
  pub served_turn :
      (time : ℕ) (wav : Wav) (chunks : List (ℕ × List ℕ)) (s s' : Server) (x x' : Session)
      (c : Client) (d : Datagram) (asks : List Datagram)
      → Talking host peer pad addr p wav chunks s x c (d ∷ asks)
      → state_machine host files s p (to_server host peer pad d) (d.payload ++ stale) ≡ ok s'
      → s'.store p ≡ some x'
      → (r : Server) × (handle_packet host files junk time s addr
            (received host peer pad d)
            (d.payload ++ stale)
          ≡ ok r)
        × IsServer r
        × (r.store p ≡ some (record x' { timeout = time + session_timeout }))
        × (r.world ≡ s'.world)
  served_turn time wav chunks s s' x x' c d asks t run there =
      serves host files junk addr time s s s' p x x' (received host peer pad d) (d.payload ++ stale)
        t.served
        (get_found junk s addr p (ap (session_find s) (sym t.home) ∙ t.served.found p x t.live))
        t.live
        (streams_stay host files s.world.errno x (to_server host peer pad d) (d.payload ++ stale)
          t.asked.0.plain t.ready)
        run there
