-- ===== src/Client/Machine/Opened.antt =====
-- How the client that plays through drivers/oss.c takes a SYN-ACK: it opens the audio device.
use sas.Base.{
  ℕ, suc, ◌≤◌, ◌<◌, ◌≡◌, none, false, ◌∷◌, ap, ◌∙◌, true, false, List, [], Option, some, ok, ◌>>=◌,
  arith,
}
use sas.Base.Words.{u32_mod}
use sas.Rxc.Connection.{connection_create}
use sas.Rxc.Pipeline.{inlet_of, pipeline_start}
use sas.Transport.{
  State, Header, CfgAck, Endian, flag_isset, flag_rst, header_decode, cfg_ack_encode,
}
use sas.Transport.Wire.{cfg_ack_bytes}
use sas.Transport.Exchange.{cfg_ack_exchange}
use sas.Client.{Chunk, Client, Peer, client_ack, client_send, set_state}
use sas.Client.Drivers.{
  Oss, Audio, driver_oss, oss_push, oss_create, open_audio_fd, device_ready, is_unset, dsp_reset,
  dsp_samplesize, dsp_channels, dsp_speed, dsp_sync,
}
use sas.Client.Machine.{
  Player, client_accept, configured, push_chunk, syn_sent_state, client_dispatch, Arrival, arrived,
  is_finished, receive_loop,
}
use sas.Client.Machine.Acks.{asked, pull_asks, dispatched}
use sas.Client.Machine.Configuration.{first_chunk, after_syn_ack}
use sas.Client.Machine.Device.{sounding}
use sas.Client.Machine.Sound.{device}

-- the device opens at a descriptor other than 0, and takes the parameters of a stream
pub record Sounds (audio : Audio) (fd : ℕ) (cfg : CfgAck) : Type 0 where
  pub opens : audio.open_device ≡ some (suc fd)
  pub resets : audio.ioctl dsp_reset 0 ≡ true
  pub takes_size : audio.ioctl dsp_samplesize cfg.sample_size ≡ true
  pub takes_channels : audio.ioctl dsp_channels cfg.channels ≡ true
  pub takes_rate : audio.ioctl dsp_speed cfg.sample_rate ≡ true
  pub syncs : audio.ioctl dsp_sync 0 ≡ true

-- what oss_create makes
abbrev quiet : List (Option ℕ) → Oss
quiet writes = record { fd = none; finished = false; writes = writes; played = []; closed = [] }

module _ (peer : Peer) (audio : Audio) where
  -- a client with the sink of oss.c, before its pipeline starts
  abbrev pub silent : Client → List (Option ℕ) → Player Oss
  silent c writes = record { running = false; pipe = connection_create c (oss_create writes) }

  opens_device :
      (fd : ℕ) (chunk : Chunk) (writes : List (Option ℕ))
      → audio.open_device ≡ some (suc fd)
      → device_ready audio chunk ≡ true
      → open_audio_fd audio chunk (quiet writes) ≡ device fd writes [] []
  unfolding open_audio_fd
  opens_device fd chunk writes found ready = rw (found, ready)

  -- the client once it has acknowledged the SYN-ACK
  abbrev after_ack : Header → List ℕ → Client → Client
  after_ack h buffer c =
      set_state State.establsh (client_ack peer (asked peer (first_chunk peer h buffer c))).1

  after_ack_chunk :
      (h : Header) (buffer : List ℕ) (c : Client)
      → (after_ack h buffer c).session.chunk ≡ configured peer h buffer
  unfolding client_ack client_send client_accept
  after_ack_chunk h buffer c = ground arith

  syn_sent_opens :
      (fd : ℕ) (c : Client) (writes : List (Option ℕ)) (h : Header) (buffer : List ℕ)
      → audio.open_device ≡ some (suc fd)
      → device_ready audio (configured peer h buffer) ≡ true
      → syn_sent_state peer (driver_oss audio) 2 (silent (client_accept h c) writes) h buffer
        ≡ ok (0, sounding peer audio 2 (after_syn_ack peer h buffer c) (device fd writes [] []))
  unfolding syn_sent_state push_chunk pipeline_start driver_oss oss_push inlet_of connection_create
      is_unset oss_create
  syn_sent_opens fd c writes h buffer found ready =
      let c1 = first_chunk peer h buffer c in
      let c2 = after_ack h buffer c in
      let ready' = ap (device_ready audio) (after_ack_chunk h buffer c) ∙ ready in
      rw (
        pull_asks peer (driver_oss audio) 0 c1 (quiet writes) (omega arith),
        ◌>>=◌,
        opens_device fd c2.session.chunk writes found ready',
        pull_asks peer (driver_oss audio) 1 c2 (device fd writes [] []) (omega arith),
      )

  configured-ready :
      (h : Header) (server : Endian) (pad fd : ℕ) (cfg : CfgAck)
      → cfg.sample_rate < u32_mod
      → Sounds audio fd cfg
      → device_ready audio
          (configured peer h (cfg_ack_bytes server pad (cfg_ack_encode server cfg)))
        ≡ true
  unfolding configured device_ready
  configured-ready h server pad fd cfg fits device =
      let same = cfg_ack_exchange server peer.endian pad cfg fits in
      rw (
        device.resets,
        ap (λ (k : CfgAck). audio.ioctl dsp_samplesize k.sample_size) same ∙ device.takes_size,
        ap (λ (k : CfgAck). audio.ioctl dsp_channels k.channels) same ∙ device.takes_channels,
        ap (λ (k : CfgAck). audio.ioctl dsp_speed k.sample_rate) same ∙ device.takes_rate,
        device.syncs,
      )

  -- the client on a SYN-ACK that is not old
  pub syn_ack_opens :
      (fd : ℕ) (c : Client) (writes : List (Option ℕ)) (h : Header) (server : Endian) (pad : ℕ)
      (cfg : CfgAck) (rest : List Arrival)
      → let buffer = cfg_ack_bytes server pad (cfg_ack_encode server cfg) in
        let d = header_decode peer.endian h in
        c.session.state ≡ State.syn_sent
        → c.session.ack ≤ d.seq
        → flag_isset d.flags flag_rst ≡ false
        → cfg.sample_rate < u32_mod
        → Sounds audio fd cfg
        → receive_loop peer (driver_oss audio) 2 (arrived h buffer ∷ rest) (silent c writes)
          ≡ receive_loop peer
              (driver_oss audio)
              2
              rest
              (sounding peer audio 2 (after_syn_ack peer d buffer c) (device fd writes [] []))
  unfolding receive_loop is_finished client_dispatch connection_create
  syn_ack_opens fd c writes h server pad cfg rest st new not_reset fits sounds =
      let buffer = cfg_ack_bytes server pad (cfg_ack_encode server cfg) in
      let d = header_decode peer.endian h in
      let going : is_finished c.session.state ≡ false = ap is_finished st in
      let taken =
        dispatched peer (driver_oss audio) 2 (silent c writes) d buffer new not_reset
        ∙ ap
            (λ s.
              client_dispatch peer (driver_oss audio) 2 s (silent (client_accept d c) writes) d
                buffer)
            st
        ∙ syn_sent_opens fd c writes d buffer sounds.opens
            (configured-ready d server pad fd cfg fits sounds) in
      rw (going, taken, ◌>>=◌)
