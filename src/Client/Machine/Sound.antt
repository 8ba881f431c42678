-- ===== src/Client/Machine/Sound.antt =====
-- What the sink of drivers/oss.c writes while the audio device takes every chunk.
use sas.Base.{
  ℕ, zero, suc, ◌+◌, ◌≤◌, ◌<◌, ◌≡◌, ap, ◌∙◌, true, false, List, [], ◌∷◌, Option, some, ok, ◌>>=◌,
  ltb, ◌==◌, arith,
}
use sas.Rxc.Long.{long_max}
use sas.Rxc.Connection.{Pipe, SinkLogic}
use sas.Rxc.Pipeline.{inlet_of}
use sas.Transport.{State, Header, flag_isset, flag_rst, header_decode}
use sas.Client.{Chunk, Client, Peer}
use sas.Client.Drivers.{Oss, Audio, driver_oss, oss_push, is_unset, write_chunk, write_failed}
use sas.Client.Machine.{
  Player, Arrival, arrived, chunk_size, client_accept, set_chunk, push_chunk, establsh_state,
  client_dispatch, client_state_machine, is_finished, receive_loop,
}
use sas.Client.Machine.Acks.{pull_asks, after_chunk, dispatched}
use sas.Client.Machine.Device.{sounding}

-- the device, open at a descriptor other than 0
abbrev pub device : ℕ → List (Option ℕ) → List Chunk → List ℕ → Oss
device fd writes played closed = record {
  fd = some (suc fd);
  finished = false;
  writes = writes;
  played = played;
  closed = closed;
}

-- the device takes some bytes of each of the next k writes
abbrev pub Takes : ℕ → List (Option ℕ) → Type 0
Takes zero writes = Unit
Takes (suc k) [] = ⊥
Takes (suc k) (n ∷ writes) = (write_failed n ≡ false) × Takes k writes

pub Takes-less : (k : ℕ) (writes : List (Option ℕ)) → Takes (suc k) writes → Takes k writes
Takes-less zero (n ∷ writes) t = tt
Takes-less (suc k) (n ∷ writes) (good, t) = (good, Takes-less k writes t)
Takes-less k [] t = elim t [ ]

module _ (peer : Peer) {D : Type 0} (sink : SinkLogic Chunk (Pipe Client D)) (fuel : ℕ) where
  -- a packet that was acknowledged before changes nothing
  pub old_step :
      (w : Player D) (h : Header) (buffer : List ℕ) (rest : List Arrival)
      → w.pipe.source.session.state ≡ State.establsh
      → (header_decode peer.endian h).seq < w.pipe.source.session.ack
      → receive_loop peer sink fuel (arrived h buffer ∷ rest) w ≡ receive_loop peer sink fuel rest w
  unfolding receive_loop is_finished client_state_machine
  old_step w h buffer rest st old =
      let going : is_finished w.pipe.source.session.state ≡ false = ap is_finished st in
      let dropped : ltb (header_decode peer.endian h).seq w.pipe.source.session.ack ≡ true =
        ground arith in
      rw (going, dropped)

module _ (peer : Peer) (audio : Audio) where
  -- the chunk that a packet of the stream makes
  abbrev pub chunk_in : Header → List ℕ → Client → Chunk
  chunk_in h buffer c = record (c.session.chunk) { size = chunk_size h; buffer = buffer }

  device_takes :
      (r fd : ℕ) (c : Client) (n : Option ℕ) (writes : List (Option ℕ)) (played : List Chunk)
      (closed : List ℕ) (h : Header) (buffer : List ℕ)
      → r < long_max
      → write_failed n ≡ false
      → establsh_state peer
          (driver_oss audio)
          2
          (sounding peer audio r (client_accept h c) (device fd (n ∷ writes) played closed))
          h
          buffer
        ≡ ok (
          0,
          sounding peer audio
              (r + 1)
              (after_chunk peer h buffer c)
              (device fd writes (chunk_in h buffer c ∷ played) closed),
        )
  unfolding establsh_state push_chunk driver_oss oss_push inlet_of is_unset write_chunk
      client_accept
  device_takes r fd c n writes played closed h buffer fits good =
      let chunk = chunk_in h buffer c in
      let open_fd : (suc fd == 0) ≡ false = ground arith in
      rw (
        open_fd,
        good,
        pull_asks peer (driver_oss audio) r (set_chunk chunk (client_accept h c))
            (device fd writes (chunk ∷ played) closed) fits,
        ◌>>=◌,
      )

  pub sound_step :
      (r fd : ℕ) (c : Client) (n : Option ℕ) (writes : List (Option ℕ)) (played : List Chunk)
      (closed : List ℕ) (h : Header) (buffer : List ℕ) (rest : List Arrival)
      → c.session.state ≡ State.establsh
      → c.session.ack ≤ (header_decode peer.endian h).seq
      → flag_isset (header_decode peer.endian h).flags flag_rst ≡ false
      → r < long_max
      → write_failed n ≡ false
      → receive_loop peer
          (driver_oss audio)
          2
          (arrived h buffer ∷ rest)
          (sounding peer audio r c (device fd (n ∷ writes) played closed))
        ≡ receive_loop peer (driver_oss audio) 2 rest (
            sounding peer audio
              (r + 1)
              (after_chunk peer (header_decode peer.endian h) buffer c)
              (device fd writes (chunk_in (header_decode peer.endian h) buffer c ∷ played) closed))
  unfolding receive_loop is_finished client_dispatch
  sound_step r fd c n writes played closed h buffer rest st new not_reset fits good =
      let d = header_decode peer.endian h in
      let oss = device fd (n ∷ writes) played closed in
      let going : is_finished c.session.state ≡ false = ap is_finished st in
      let taken =
        dispatched peer (driver_oss audio) 2 (sounding peer audio r c oss) d buffer new not_reset
        ∙ ap
            (λ s.
              client_dispatch peer (driver_oss audio) 2 s
                (sounding peer audio r (client_accept d c) oss) d buffer)
            st
        ∙ device_takes r fd c n writes played closed d buffer fits good in
      rw (going, taken, ◌>>=◌)
