-- ===== src/Server/Session.antt =====
-- A session of the server and the packets that it sends: sas-server/src/session.h and the functions
-- sas_server_session_send to sas_server_session_syn_ack of session.c.
pub mod Sending
use sas.Base.{
  ℕ, ◌+◌, ◌%◌, Bool, List, [], ◌∷◌, Option, none, some, ltb, if◌then◌else◌, length, take,
}
use sas.Base.Words.{u16_mod, add32}
use sas.Transport.{
  State, Header, CfgAck, Endian, flag_fin, flag_syn, flag_rst, flag_ack, flag_err, header_encode,
  cfg_ack_encode, err_encode, header_size, cfg_ack_size, err_size,
}
use sas.Transport.Wire.{cfg_ack_bytes, err_bytes}
use sas.Server.Address.{Addr}

-- What the successive calls of read(2) on an open file give: bytes, or an error number. Past the end
-- of the list they give 0 bytes.
pub data ReadResult : Type 0 where
  bytes : List ℕ → ReadResult
  failed : ℕ → ReadResult

abbrev pub File : Type 0
File = List ReadResult

-- `struct sas_formats_wav_source`, with what its file still has to give
pub record Wav : Type 0 where
  pub fd : ℕ
  pub file : File
  pub finished : Bool
  pub sample_rate : ℕ
  pub sample_size : ℕ
  pub channels : ℕ

-- The pipeline of a session with its source, connection, worker and inlet.
pub record Stream : Type 0 where
  pub requested : ℕ
  pub queue : List ℕ
  pub wip : Bool
  pub parent : Bool
  pub wav : Wav

-- `fd` is `none` for -1. `stream` is `none` while `pipeline` and `sink_logic` are NULL: the first
-- call of state_machine that sets the one also sets the other.
pub record Session : Type 0 where
  pub addr : Addr
  pub state : State
  pub seq : ℕ
  pub ack : ℕ
  pub send_window : ℕ
  pub receive_window : ℕ
  pub stream : Option Stream
  pub timeout : ℕ
  pub sample_rate : ℕ
  pub sample_size : ℕ
  pub channels : ℕ
  pub codec : ℕ
  pub fd : Option ℕ

-- a datagram handed to sendto(2): the header as encoded, and the bytes behind it
pub record Sent : Type 0 where
  pub to : Addr
  pub header : Header
  pub payload : List ℕ
  pub size : ℕ

-- What the server changes outside its own memory, the latest first, and `errno`.
pub record World : Type 0 where
  pub sent : List Sent
  pub closed : List ℕ
  pub errno : ℕ

-- a session and the world, which its functions change
pub record Out : Type 0 where
  pub session : Session
  pub world : World

-- What the host and its network give: the byte order, the error number of a sendto that fails (or
-- `none`), and the value of the padding byte of a SYN-ACK, which is not initialised.
pub record Host : Type 0 where
  pub endian : Endian
  pub sendto : Sent → Option ℕ
  pub padding : ℕ

-- a uint16_t length, or 1 where it is 0: what a packet takes of the sequence numbers
abbrev pub advance : ℕ → ℕ
advance length = if ltb 0 length then length else 1

module _ (host : Host) where
  -- `sendto(...) == -1`, and then `errno`
  unfoldable pub send_out : Sent → World → ℕ × World
  send_out packet world = elim (host.sendto packet) [
    | none ↦ (0, record world { sent = packet ∷ world.sent })
    | some e ↦ (e, record world { sent = packet ∷ world.sent; errno = e })
  ]

  -- sas_server_session_send, for a packet of the given flags, length and following bytes
  unfoldable pub session_send : ℕ → ℕ → List ℕ → Out → ℕ × Out
  unfolding send_out header_encode
  session_send flags length payload o =
      let session = o.session in
      let header : Header = record {
        seq = session.seq;
        ack = session.ack;
        reserved = 0;
        flags = flags;
        window = session.receive_window;
        length = length;
      } in
      let packet : Sent = record {
        to = session.addr;
        header = header_encode host.endian header;
        payload = take length payload;
        size = header_size + length;
      } in
      let (err, world) = send_out packet o.world in
      (
        err,
        record {
          session = record session { seq = add32 session.seq (advance length) };
          world = world;
        },
      )

  -- The chunk is its buffer of `size` bytes; the length is the size cut to 16 bits.
  unfoldable pub session_send_chunk : List ℕ → Out → ℕ × Out
  session_send_chunk chunk o = session_send 0 (length chunk % u16_mod) chunk o

  unfoldable pub session_reset : Bool → Out → ℕ × Out
  session_reset fin o = session_send (if fin then flag_rst + flag_fin else flag_rst) 0 [] o

  unfoldable pub session_error : ℕ → Out → ℕ × Out
  unfolding err_bytes err_encode
  session_error code o =
      session_send (flag_rst + flag_err) err_size
        (err_bytes host.endian (err_encode host.endian (record { err = code }))) o

  unfoldable pub session_syn_ack : Out → ℕ × Out
  unfolding cfg_ack_bytes cfg_ack_encode
  session_syn_ack o =
      let packet : CfgAck = record {
        sample_rate = o.session.sample_rate;
        sample_size = o.session.sample_size;
        channels = o.session.channels;
        codec = o.session.codec;
      } in
      session_send (flag_syn + flag_ack) cfg_ack_size
        (cfg_ack_bytes host.endian host.padding (cfg_ack_encode host.endian packet)) o
