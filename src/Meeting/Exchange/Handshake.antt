-- ===== src/Meeting/Exchange/Handshake.antt =====
-- The SYN of the client on the exchange, and what the two sides are once it is answered.
use sas.Base.{
  ℕ, suc, ◌+◌, ◌-◌, ◌%◌, ◌^◌, ◌<◌, ◌≡◌, refl, ap, ◌∙◌, true, List, [], ◌∷◌, ◌++◌, Option, ok, ltb,
  arith, length, take,
}
use sas.Base.Words.{u16_mod, u32_mod, u64_mod, add32}
use sas.Transport.{
  State, Header, CfgAck, cfg_size, cfg_ack_size, cfg_encode, cfg_ack_encode, Endian, flag_isset,
  flag_rst, flag_syn, flag_ack, header_encode, header_decode,
}
use sas.Transport.Wire.{header_bytes, header_of, cfg_ack_bytes, store32}
use sas.Transport.Exchange.{header_exchange}
use sas.Server.Session.{Session, Host, advance}
use sas.Server.Session.Sending.{packet_of}
use sas.Server.Machine.{Files}
use sas.Server.Machine.Handshake.{named}
use sas.Client.{Client, Datagram, Peer, client_send, client_syn, client_window_size, set_state}
use sas.Client.Drivers.{Audio, driver_oss}
use sas.Client.Machine.{arrived, waiting, receive_loop}
use sas.Client.Machine.Configuration.{after_syn_ack, after_syn_ack_state}
use sas.Client.Machine.Device.{sounding}
use sas.Client.Machine.Sound.{device}
use sas.Client.Machine.Opened.{Sounds, silent, syn_ack_opens}
use sas.Meeting.{NonZero, strndup-name, take-length}
use sas.Meeting.Packets.{InRange, on_wire, arrives}
use sas.Meeting.Exchange.{newly, to_server}
use sas.Meeting.Exchange.Asks.{ask, IsAsk, ask-IsAsk, syn_ack_asks, newly_three}
use sas.Meeting.Exchange.Turns.{waits}
use sas.Server.Machine.{Files}
use sas.Server.Address.{Addr}

-- the header of a SYN before it is encoded, and the packet
abbrev pub syn_header : List ℕ → Client → Header
syn_header name c = record {
  seq = c.session.seq;
  ack = c.session.ack;
  reserved = 0;
  flags = flag_syn;
  window = c.session.receive_window;
  length = suc (length name);
}

abbrev pub syn_of : Peer → List ℕ → Client → Datagram
syn_of peer name c = record {
  header = header_encode peer.endian (syn_header name c);
  payload = 0 ∷ name;
}

sent_session :
    (peer : Peer) (flags n : ℕ) (payload : List ℕ) (c : Client)
    → (client_send peer flags n payload c).1 ≡ record {
      session = record (c.session) { seq = add32 c.session.seq (advance n) };
      sent =
          record {
            header = header_encode peer.endian (record {
              seq = c.session.seq;
              ack = c.session.ack;
              reserved = 0;
              flags = flags;
              window = c.session.receive_window;
              length = n;
            });
            payload = take n payload;
          }
          ∷ c.sent;
    }
unfolding client_send
sent_session peer flags n payload c = ground arith

-- the client once it has sent its SYN
abbrev pub asking : Peer → List ℕ → Client → Client
asking peer name c = record {
  session = record (c.session) {
    state = State.syn_sent;
    seq = add32 c.session.seq (advance (suc (length name)));
  };
  sent = syn_of peer name c ∷ c.sent;
}

pub client_syn-asking :
    (peer : Peer) (name : List ℕ) (c : Client)
    → length name < 2 ^ 15
    → (e : ℕ) × (client_syn peer name c ≡ ok (e, asking peer name c))
unfolding client_syn cfg_encode
client_syn-asking peer name c short =
    let n : length name % u16_mod ≡ length name = omega arith in
    let one_more : cfg_size + length name ≡ suc (length name) = omega arith in
    let fits : ltb (length name) (2 ^ 15) ≡ true = ground arith in
    let whole = take-length name in
    let c' = set_state State.syn_sent c in
    let payload = 0 ∷ take (length name) name in
    let sent = client_send peer flag_syn (cfg_size + length name) payload c' in
    (
      sent.0,
      rw (n, fits)
          (ap (λ c. ok (sent.0, c))
            (sent_session peer flag_syn (cfg_size + length name) payload c'
              ∙ rw (one_more, whole, whole))),
    )

module _ (host : Host) (peer : Peer) (pad : List ℕ) where
  pub syn_decodes :
      (name : List ℕ) (c : Client)
      → length name < 2 ^ 15
      → c.session.seq < u32_mod
      → c.session.ack < u32_mod
      → c.session.receive_window < u16_mod
      → to_server host peer pad (syn_of peer name c) ≡ syn_header name c
  syn_decodes name c short seq ack window =
      header_exchange peer.endian host.endian pad (syn_header name c) (record {
        seq_in = seq;
        ack_in = ack;
        reserved_in = omega arith;
        flags_in = omega arith;
        window_in = window;
        length_in = omega (arith, short);
      })

-- the server reads the name, whatever stands behind the packet
pub syn_named :
    (name stale : List ℕ) (c : Client)
    → NonZero name
    → length name < 2 ^ 15
    → named (syn_header name c) ((0 ∷ name) ++ stale) ≡ ok name
syn_named name stale c v short =
    let size : (suc (length name) + u64_mod - cfg_size) % u64_mod ≡ length name = omega arith in
    rw size (strndup-name name stale v)

pub advance-suc : (n : ℕ) → advance (suc n) ≡ suc n
advance-suc n = ground arith

eight_bytes :
    (e : Endian) (pad : ℕ) (cfg : CfgAck)
    → take cfg_ack_size (cfg_ack_bytes e pad cfg) ≡ cfg_ack_bytes e pad cfg
unfolding cfg_ack_bytes store32
eight_bytes Endian.little pad cfg = refl
eight_bytes Endian.big pad cfg = refl

-- a client with the numbers that sas_client_init gives it
pub record Starting (c : Client) : Type 0 where
  pub seq : c.session.seq ≡ 0
  pub ack : c.session.ack ≡ 0
  pub window : c.session.receive_window < u16_mod

module _ (host : Host) (files : Files) (junk : Session) (addr : Addr) (clock : ℕ → ℕ) (peer : Peer)
    (pad stale : List ℕ) (audio : Audio) where
  -- the client on the SYN-ACK
  pub client_opens :
      (x : Session) (c : Client) (writes : List (Option ℕ)) (afd : ℕ) (cfg : CfgAck)
      → x.seq ≡ 0
      → InRange x
      → c.session.state ≡ State.syn_sent
      → c.session.ack ≡ 0
      → c.session.seq + 3 < u32_mod
      → cfg.sample_rate < u32_mod
      → Sounds audio afd cfg
      → (c' : Client) × (a1 : Datagram) × (a2 : Datagram) × (a3 : Datagram) × (receive_loop peer
            (driver_oss audio)
            2
            (on_wire host peer pad (
                packet_of host
                  (flag_syn + flag_ack)
                  cfg_ack_size
                  (cfg_ack_bytes host.endian host.padding (cfg_ack_encode host.endian cfg))
                  x)
              ∷ [])
            (silent peer audio c writes)
          ≡ ok (waiting (sounding peer audio 2 c' (device afd writes [] []))))
        × (c'.session.state ≡ State.establsh)
        × (c'.session.ack ≡ 8)
        × (c'.session.seq ≡ c.session.seq + 3)
        × (newly c.sent c'.sent ≡ a1 ∷ a2 ∷ a3 ∷ [])
        × IsAsk host peer pad c.session.seq a1
        × IsAsk host peer pad (c.session.seq + 1) a2
        × IsAsk host peer pad (c.session.seq + 2) a3
  unfolding flag_isset cfg_ack_bytes
  client_opens x c writes afd cfg zero_seq numbers st zero_ack room rate sounds =
      let payload = cfg_ack_bytes host.endian host.padding (cfg_ack_encode host.endian cfg) in
      let packet = packet_of host (flag_syn + flag_ack) cfg_ack_size payload x in
      let wire = header_of peer.endian (header_bytes host.endian pad packet.header) in
      let g = header_decode peer.endian wire in
      let d =
        arrives host peer pad (flag_syn + flag_ack) cfg_ack_size payload x numbers (omega arith)
          (omega arith) in
      let c' = after_syn_ack peer g payload c in
      let ack = add32 g.seq (advance g.length) in
      let eight : ack ≡ 8 =
        ap (λ (g : Header). add32 g.seq (advance g.length)) d ∙ omega (arith, zero_seq) in
      let bound : ack < u32_mod = omega (arith, eight) in
      let (st', sent, chunk) = after_syn_ack_state peer g payload c in
      let (sends, seq', ack') = syn_ack_asks peer g payload c room in
      let asks = λ (k : ℕ). ask peer k ack client_window_size in
      (
        c',
        asks c.session.seq,
        asks (c.session.seq + 1),
        asks (c.session.seq + 2),
        ap
              (λ b.
                receive_loop peer (driver_oss audio) 2 (arrived wire b ∷ [])
                  (silent peer audio c writes))
              (eight_bytes host.endian host.padding (cfg_ack_encode host.endian cfg))
            ∙ syn_ack_opens peer audio afd c writes wire host.endian host.padding cfg [] st
                (omega (arith, zero_ack)) (ap (λ (g : Header). flag_isset g.flags flag_rst) d) rate
                sounds
            ∙ waits host files junk addr clock peer pad stale audio
                (sounding peer audio 2 c' (device afd writes [] [])) st',
        st',
        ack' ∙ eight,
        seq',
        ap (newly c.sent) sends
            ∙ newly_three (asks c.session.seq) (asks (c.session.seq + 1)) (asks (c.session.seq + 2))
                c.sent,
        ask-IsAsk host peer pad c.session.seq ack client_window_size (omega arith) bound
            (omega arith),
        ask-IsAsk host peer pad (c.session.seq + 1) ack client_window_size (omega arith) bound
            (omega arith),
        ask-IsAsk host peer pad (c.session.seq + 2) ack client_window_size (omega arith) bound
            (omega arith),
      )
