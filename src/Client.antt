-- ===== src/Client.antt =====
-- sas-client: the session of the client and the packets that it sends (sas-client/src/client.h, and
-- sas_client_init, sas_client_session_send, _syn and _ack of client.c) with the chunk of
-- sas-core/include/sas/chunk.h. Connect is the rest of client.c but sas_client_receive, which is
-- Machine; Program is main.c.
pub mod Connect
pub mod Drivers
pub mod Machine
pub mod Program
use sas.Base.{
  ℕ, ◌+◌, ◌%◌, ◌^◌, List, [], ◌∷◌, Option, none, some, Run, ok, fault, Fault, ltb, if◌then◌else◌,
  length, take,
}
use sas.Base.Words.{u16_mod, add32}
use sas.Transport.{
  State, Header, Cfg, Endian, flag_syn, flag_ack, header_encode, cfg_encode, cfg_size,
}
use sas.Server.Session.{advance}

-- `struct sas_chunk`; `buffer` is what stands in memory from the pointer on, of which `size` bytes
-- are said to be the chunk's.
pub record Chunk : Type 0 where
  pub size : ℕ
  pub buffer : List ℕ
  pub sample_rate : ℕ
  pub sample_size : ℕ
  pub channels : ℕ
  pub codec : ℕ

-- `struct sas_client_session`, less the pointers to its pipeline
pub record ClientSession : Type 0 where
  pub state : State
  pub seq : ℕ
  pub ack : ℕ
  pub send_window : ℕ
  pub receive_window : ℕ
  pub chunk : Chunk

-- a packet handed to send(2): the header as encoded, and the bytes behind it
pub record Datagram : Type 0 where
  pub header : Header
  pub payload : List ℕ

-- the client's session, and the packets that it has sent, the latest first
pub record Client : Type 0 where
  pub session : ClientSession
  pub sent : List Datagram

-- SAS_CLIENT_SESSION_WINDOW_SIZE
abbrev pub client_window_size : ℕ
client_window_size = 1024

-- sas_client_init; the chunk is not initialised
unfoldable pub client_init : Chunk → Client
client_init junk = record {
  session = record {
    state = State.initial;
    seq = 0;
    ack = 0;
    send_window = 0;
    receive_window = client_window_size;
    chunk = junk;
  };
  sent = [];
}

-- The host and its network: the byte order, and the error number of a send that fails.
pub record Peer : Type 0 where
  pub endian : Endian
  pub send : Datagram → Option ℕ

abbrev pub set_state : State → Client → Client
set_state state c = record c { session = record (c.session) { state = state } }

abbrev pub set_window : ℕ → Client → Client
set_window n c = record c { session = record (c.session) { receive_window = n } }

module _ (peer : Peer) where
  -- sas_client_session_send, for a packet of the given flags, length and following bytes
  unfoldable pub client_send : ℕ → ℕ → List ℕ → Client → ℕ × Client
  unfolding header_encode
  client_send flags length payload c =
      let session = c.session in
      let header : Header = record {
        seq = session.seq;
        ack = session.ack;
        reserved = 0;
        flags = flags;
        window = session.receive_window;
        length = length;
      } in
      let packet : Datagram = record {
        header = header_encode peer.endian header;
        payload = take length payload;
      } in
      let c' : Client = record {
        session = record session { seq = add32 session.seq (advance length) };
        sent = packet ∷ c.sent;
      } in
      elim (peer.send packet) [ none ↦ (0, c') | some e ↦ (e, c') ]

  -- sas_client_session_syn. `name_len` is an int16_t, and the packet buffer an array of a size
  -- computed from it.
  unfoldable pub client_syn : List ℕ → Client → Run (ℕ × Client)
  unfolding cfg_encode
  client_syn name c =
      let name_len = length name % u16_mod in
      let cfg : Cfg = cfg_encode (record { codec = 0 }) in
      let sent =
        client_send flag_syn (cfg_size + name_len) (cfg.codec ∷ take name_len name)
          (set_state State.syn_sent c) in
      if ltb name_len (2 ^ 15) then ok sent else fault Fault.out_of_bounds

  -- sas_client_session_ack
  unfoldable pub client_ack : Client → ℕ × Client
  client_ack c = client_send flag_ack 0 [] c
