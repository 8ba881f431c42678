-- ===== src/Meeting/Exchange.antt =====
-- The exchange of packets between the server and a client on a network that loses nothing and keeps
-- the order: what sas_server_run of sas-server/src/server.c does with a packet, and sas_client_receive
-- of sas-client/src/client.c, each of which hears what the other sends.
pub mod Answers
pub mod Asks
pub mod Complete
pub mod Handshake
pub mod Opening
pub mod Rounds
pub mod Serving
pub mod Talking
pub mod Turns
pub mod Whole
use sas.Base.{ℕ, zero, suc, ◌+◌, ◌-◌, ◌%◌, List, [], ◌∷◌, ◌++◌, map, Run, ok, ◌>>=◌, length, take}
use sas.Base.Words.{u64_mod}
use sas.Transport.{Header, header_decode, cfg_ack_size}
use sas.Transport.Wire.{header_bytes, header_of}
use sas.Server.Session.{Session, Sent, Host}
use sas.Server.Sink.Delivery.{chunk_of}
use sas.Server.Table.{Server}
use sas.Server.Machine.{Files}
use sas.Server.Loop.{handle_packet}
use sas.Server.Address.{Addr}
use sas.Client.{Datagram, Peer}
use sas.Client.Drivers.{Oss, Audio, driver_oss}
use sas.Client.Machine.{Player, Received, returned, waiting, receive_loop}
use sas.Meeting.Packets.{on_wire, onto}

-- what was sent since, the first first; the lists hold the latest first
abbrev pub newly {ℓ} : {A : Type ℓ} → List A → List A → List A
newly before after = onto (take (length after - length before) after) []

-- a header of the client in the server's memory, and as the server decodes it
abbrev pub received : Host → Peer → List ℕ → Datagram → Header
received host peer pad d = header_of host.endian (header_bytes peer.endian pad d.header)

abbrev pub to_server : Host → Peer → List ℕ → Datagram → Header
to_server host peer pad d = header_decode host.endian (received host peer pad d)

-- the length and the bytes of a chunk of the file, as the client gives them to write(2)
abbrev pub told_of : ℕ × List ℕ → ℕ × List ℕ
told_of c = ((length (chunk_of c) + u64_mod - cfg_ack_size) % u64_mod, chunk_of c)

module _ (host : Host) (files : Files) (junk : Session) (addr : Addr) (clock : ℕ → ℕ) (peer : Peer)
    (pad stale : List ℕ) (audio : Audio) where
  -- The server takes the oldest packet of the client that it has not heard, and the client takes what
  -- the server sends on it, at most `rounds` times; `asks` are the packets that are on their way,
  -- `clock` is the time by the rounds that are left, and `stale` is what stands behind a packet in the
  -- server's buffer.
  unfoldable pub converse : ℕ → List Datagram → Server → Player Oss → Run (Received Oss × Server)
  unfolding handle_packet receive_loop
  converse zero asks s w = ok (waiting w, s)
  converse (suc rounds) [] s w = ok (waiting w, s)
  converse (suc rounds) (d ∷ asks) s w = do
    s' ←
        handle_packet host files junk (clock rounds) s addr (received host peer pad d)
          (d.payload ++ stale)
    let answers = newly s.world.sent s'.world.sent
    r ← receive_loop peer (driver_oss audio) 2 (map (on_wire host peer pad) answers) w
    elim r [
      | returned e w' ↦ ok (returned e w', s')
      | waiting w' ↦ converse rounds (asks ++ newly w.pipe.source.sent w'.pipe.source.sent) s' w'
    ]
