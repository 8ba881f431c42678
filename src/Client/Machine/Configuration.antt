-- ===== src/Client/Machine/Configuration.antt =====
-- How the client takes the configuration of the stream from a SYN-ACK.
use sas.Base.{ℕ, ◌+◌, ◌≤◌, ◌<◌, ◌≡◌, ap, ◌∙◌, false, List, ok, ◌>>=◌, arith, length}
use sas.Base.Words.{u32_mod}
use sas.Rxc.Connection.{connection_create}
use sas.Rxc.Pipeline.{inlet_of, pipeline_start}
use sas.Transport.{State, Header, CfgAck, Endian, flag_isset, flag_rst, cfg_ack_encode}
use sas.Transport.Wire.{cfg_ack_bytes}
use sas.Transport.Exchange.{cfg_ack_exchange}
use sas.Client.{Chunk, Client, Peer, client_send, client_ack, set_state}
use sas.Client.Drivers.{driver_ignore}
use sas.Client.Machine.{
  Player, client_accept, set_chunk, configured, push_chunk, syn_sent_state, client_dispatch,
  client_state_machine,
}
use sas.Client.Machine.Acks.{asked, playing, pull_asks, dispatched}

module _ (peer : Peer) where
  abbrev pub first_chunk : Header → List ℕ → Client → Client
  first_chunk h buffer c = set_chunk (configured peer h buffer) (client_accept h c)

  -- the client once it has taken the SYN-ACK
  abbrev pub after_syn_ack : Header → List ℕ → Client → Client
  after_syn_ack h buffer c =
      asked peer
        (set_state State.establsh (client_ack peer (asked peer (first_chunk h buffer c))).1)

  syn_sent_takes :
      (w : Player (Unit {0})) (h : Header) (buffer : List ℕ)
      → syn_sent_state peer driver_ignore 2
          (record w { pipe = record (w.pipe) { source = client_accept h w.pipe.source } })
          h
          buffer
        ≡ ok (0, playing 2 (after_syn_ack h buffer w.pipe.source))
  unfolding syn_sent_state push_chunk pipeline_start driver_ignore inlet_of connection_create
  syn_sent_takes w h buffer =
      let c = first_chunk h buffer w.pipe.source in
      let c' = set_state State.establsh (client_ack peer (asked peer c)).1 in
      rw (
        pull_asks peer driver_ignore 0 c tt (omega arith),
        ◌>>=◌,
        pull_asks peer driver_ignore 1 c' tt (omega arith),
      )

  pub after_syn_ack_state :
      (h : Header) (buffer : List ℕ) (c : Client)
      → ((after_syn_ack h buffer c).session.state ≡ State.establsh)
        × (length (after_syn_ack h buffer c).sent ≡ length c.sent + 3)
        × ((after_syn_ack h buffer c).session.chunk ≡ configured peer h buffer)
  unfolding client_ack client_send client_accept
  after_syn_ack_state h buffer c = (ground arith, ground arith, ground arith)

  -- A client that waits for its SYN-ACK and plays through driver_ignore takes from it, whatever the
  -- byte order of the server, the sample rate, sample size, channels and codec that the server
  -- encoded. It is then established, has sent three acknowledgements and made two requests.
  pub syn_ack_configures :
      (w : Player (Unit {0})) (h : Header) (server : Endian) (pad : ℕ) (cfg : CfgAck)
      → w.pipe.source.session.state ≡ State.syn_sent
      → w.pipe.source.session.ack ≤ h.seq
      → flag_isset h.flags flag_rst ≡ false
      → cfg.sample_rate < u32_mod
      → (c : Client) × (client_state_machine peer driver_ignore 2 w h
            (cfg_ack_bytes server pad (cfg_ack_encode server cfg))
          ≡ ok (0, playing 2 c))
        × (c.session.state ≡ State.establsh)
        × (length c.sent ≡ length w.pipe.source.sent + 3)
        × (c.session.chunk.sample_rate ≡ cfg.sample_rate)
        × (c.session.chunk.sample_size ≡ cfg.sample_size)
        × (c.session.chunk.channels ≡ cfg.channels)
        × (c.session.chunk.codec ≡ cfg.codec)
  unfolding client_dispatch configured
  syn_ack_configures w h server pad cfg st in_order not_reset fits =
      let buffer = cfg_ack_bytes server pad (cfg_ack_encode server cfg) in
      let w' = record w { pipe = record (w.pipe) { source = client_accept h w.pipe.source } } in
      let (state, sent, chunk) = after_syn_ack_state h buffer w.pipe.source in
      let same = cfg_ack_exchange server peer.endian pad cfg fits in
      (
        after_syn_ack h buffer w.pipe.source,
        dispatched peer driver_ignore 2 w h buffer in_order not_reset
            ∙ ap (λ s. client_dispatch peer driver_ignore 2 s w' h buffer) st
            ∙ syn_sent_takes w h buffer,
        state,
        sent,
        ap (λ (k : Chunk). k.sample_rate) chunk ∙ ap (λ (k : CfgAck). k.sample_rate) same,
        ap (λ (k : Chunk). k.sample_size) chunk ∙ ap (λ (k : CfgAck). k.sample_size) same,
        ap (λ (k : Chunk). k.channels) chunk ∙ ap (λ (k : CfgAck). k.channels) same,
        ap (λ (k : Chunk). k.codec) chunk ∙ ap (λ (k : CfgAck). k.codec) same,
      )
