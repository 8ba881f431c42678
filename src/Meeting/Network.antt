-- ===== src/Meeting/Network.antt =====
-- A stream over a network that loses, repeats and reorders packets: those of sas-server/src/session.c,
-- as sas_client_receive of sas-client/src/client.c takes them and sas-client/src/drivers/oss.c plays
-- them.
pub mod Steps
pub mod Picked
pub mod Order
mod Tests
use sas.Base.{
  ℕ, suc, ◌+◌, ◌-◌, ◌*◌, ◌%◌, ◌≤◌, ◌<◌, ◌≡◌, ◌⊎◌, inl, inr, ◌≢◌, Bool-cases, refl, sym, ap, ◌∙◌,
  Bool, true, false, List, [], ◌∷◌, map, Option, none, some, Run, ok, ltb, ◌==◌, ◌||◌,
  if◌then◌else◌, arith, length, get_elem?,
}
use sas.Base.Words.{u32_mod, u64_mod}
use sas.Rxc.Long.{long_max}
use sas.Transport.{State, cfg_ack_size}
use sas.Server.Session.{Session, Sent, Out, Host, Wav}
use sas.Server.Sink.Delivery.{open_stream, reading, with_stream, file_of, FitBuffer, total, pulls}
use sas.Meeting.Packets.{InRange, on_wire, onto, stream_packets, pulls_packets}
use sas.Meeting.Packets.Offsets.{chunk_at, chunk_packet, last_packet, no_packet}
use sas.Client.{Chunk, Client, Peer}
use sas.Client.Drivers.{Oss, Audio, driver_oss}
use sas.Client.Machine.{Player, Arrival, Received, returned, waiting, is_finished, receive_loop}
use sas.Client.Machine.Device.{sounding}
use sas.Client.Machine.Sound.{device, Takes, Takes-less}

-- What the network brings: the places of the packets in the order in which they come. A place that is
-- missing is a packet lost, one that is there twice is a packet repeated.
abbrev pub brought : Host → Peer → List ℕ → Option Sent → List Arrival → List Arrival
brought host peer pad none rest = rest
brought host peer pad (some p) rest = on_wire host peer pad p ∷ rest

abbrev pub network : Host → Peer → List ℕ → List Sent → List ℕ → List Arrival
network host peer pad packets [] = []
network host peer pad packets (i ∷ places) =
    brought host peer pad (get_elem? packets i) (network host peer pad packets places)

-- Of the places that come, those below `last` that are beyond all that came before, up to the first
-- that is `last`.
unfoldable pub picked : ℕ → ℕ → List ℕ → List ℕ
picked last next [] = []
picked last next (i ∷ places) =
    let later = picked last next places in
    let taken = i ∷ picked last (i + 1) places in
    if ltb i next then later else if i == last then [] else if ltb last i then later else taken

-- whether the last packet comes
unfoldable pub comes : ℕ → List ℕ → Bool
comes last [] = false
comes last (i ∷ places) = i == last || comes last places

-- the length and the bytes of a chunk, as they are given to write(2)
abbrev pub heard : Chunk → ℕ × List ℕ
heard chunk = (chunk.size, chunk.buffer)

-- the same of chunk i of the file, whose length the client computes as that of a SYN-ACK
abbrev pub told : List (ℕ × List ℕ) → ℕ → ℕ × List ℕ
told chunks i = ((length (chunk_at chunks i) + u64_mod - cfg_ack_size) % u64_mod, chunk_at chunks i)

-- sas_client_receive is done, or waits
abbrev pub verdict : Bool → Player Oss → Received Oss
verdict true w = returned 0 w
verdict false w = waiting w
