-- ===== src/Server/Samples.antt =====
-- Sample data of the server: a host, two clients, a session that streams, and a table of one session.
use sas.Base.{
  ℕ, zero, suc, ◌%◌, ◌≡◌, ◌<◌, refl, false, List, [], ◌∷◌, ◌++◌, none, some, ok, ◌==◌,
  if◌then◌else◌, arith, length, replicate,
}
use sas.Transport.{State, Header, Endian}
use sas.Server.Address.{Addr, addr_hash, addr_eq, djb2, char_value, same_bytes}
use sas.Server.Session.{bytes, Wav, Session, World, Host}
use sas.Server.Wav.{riff, wavefmt}
use sas.Server.Sink.Delivery.{open_stream}
use sas.Server.Table.{Server, server_alloc, index_of, load, find_in, session_find}
use sas.Server.Table.Chains.{IsTable, IsChain, chain_at}
use sas.Server.Machine.{opened, refused, Files}
use sas.Server.Machine.Forget.{Known}

abbrev pub host : Host
host = record { endian = Endian.little; sendto = λ packet. none; padding = 0 }

abbrev pub no_world : World
no_world = record { sent = []; closed = []; errno = 0 }

abbrev pub loopback : Addr
loopback = record { ip = replicate 15 0 ++ (1 ∷ []); port = 4000 }

abbrev pub elsewhere : Addr
elsewhere = record { ip = replicate 15 0 ++ (2 ∷ []); port = 4000 }

abbrev pub junk : Session
junk = record {
  addr = loopback;
  state = State.finished;
  seq = 9;
  ack = 9;
  send_window = 9;
  receive_window = 9;
  stream = none;
  timeout = 9;
  sample_rate = 9;
  sample_size = 9;
  channels = 9;
  codec = 9;
  fd = none;
}

abbrev pub wav : Wav
wav = record {
  fd = 5;
  file = bytes (7 ∷ 8 ∷ []) ∷ [];
  finished = false;
  sample_rate = 44100;
  sample_size = 16;
  channels = 2;
}

-- a session that expects its first packet, and one that streams
abbrev pub fresh_session : Session
fresh_session = record junk { state = State.initial; seq = 0; ack = 0; receive_window = 1024 }

abbrev pub streaming_session : Session
streaming_session = record fresh_session {
  state = State.establsh;
  seq = 8;
  ack = 12;
  stream = some (open_stream wav);
  fd = some 5;
}

-- a table of two chains, with one session in the second
abbrev pub holding : Session → Server
holding x = record (server_alloc no_world) {
  count = 1;
  table = [] ∷ (0 ∷ []) ∷ [];
  store = λ p. if p == 0 then some x else none;
  fresh = 1;
}

holding-IsTable : (x : Session) → addr_hash x.addr % 2 ≡ 1 → IsTable (holding x)
unfolding server_alloc
holding-IsTable x home = record { wide = omega arith; chains = chains x home }
  where
    chains :
        (x : Session) (home : addr_hash x.addr % 2 ≡ 1) (i : ℕ)
        → i < 2
        → IsChain (holding x).store 1 2 i (chain_at (holding x) i)
    chains x home zero h = tt
    chains x home (suc zero) h = ((x, refl, home), omega arith, tt, tt)
    chains x home (suc (suc i)) h = absurd (ground arith)

loopback_home : addr_hash loopback % 2 ≡ 1
unfolding addr_hash djb2 char_value
loopback_home = refl

pub streaming-IsTable : IsTable (holding streaming_session)
streaming-IsTable = holding-IsTable streaming_session loopback_home

pub streaming_found : session_find (holding streaming_session) loopback ≡ ok (some 0)
unfolding session_find index_of find_in load addr_hash djb2 char_value addr_eq same_bytes
    server_alloc
streaming_found = refl

pub streaming-Known : Known (holding streaming_session) 0 streaming_session
unfolding server_alloc
streaming-Known = record { table = streaming-IsTable; live = refl; found = streaming_found }

pub fresh-Known : Known (holding fresh_session) 0 fresh_session
unfolding session_find index_of find_in load addr_hash djb2 char_value addr_eq same_bytes
    server_alloc
fresh-Known = record {
  table = holding-IsTable fresh_session loopback_home;
  live = refl;
  found = refl;
}

-- the 44 bytes of a header: PCM, two channels, 44100 samples a second of 16 bits
abbrev pub wave_bytes : List ℕ
wave_bytes =
    riff
    ++ (0 ∷ 0 ∷ 0 ∷ 0 ∷ [])
    ++ wavefmt
    ++ (32 ∷ 16 ∷ 0 ∷ 0 ∷ 0 ∷ 1 ∷ 0 ∷ 2 ∷ 0 ∷ 68 ∷ 172 ∷ 0 ∷ 0 ∷ 0 ∷ 0 ∷ 0 ∷ 0 ∷ 0 ∷ 0 ∷ 16 ∷ 0
        ∷ [])
    ++ replicate 8 0

-- one file opens, at descriptor 5, and another does not
abbrev pub files : Files
files = record {
  open_file = λ name.
      if length name == 1 then opened 5 (bytes wave_bytes ∷ bytes (7 ∷ 8 ∷ []) ∷ []) else refused 2;
  junk = replicate 44 0;
}

abbrev pub packet : ℕ → ℕ → Header
packet seq flags = record {
  seq = seq;
  ack = 0;
  reserved = 0;
  flags = flags;
  window = 100;
  length = 3;
}

abbrev pub syn_buffer : List ℕ
syn_buffer = 0 ∷ 65 ∷ 0 ∷ []

abbrev pub missing_buffer : List ℕ
missing_buffer = 0 ∷ 65 ∷ 66 ∷ []
