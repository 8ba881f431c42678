-- ===== src/Client/Machine/Tests.antt =====
-- Tests of the client, and its theorems at concrete sessions and packets.
use sas.Base.{
  ℕ, ◌-◌, ◌^◌, ◌≡◌, refl, true, false, List, [], ◌∷◌, ◌++◌, none, some, ok, fault, Fault, ◌>>=◌,
  arith, length,
}
use sas.Rxc.Connection.{connection_create}
use sas.Transport.{
  State, Header, CfgAck, Endian, flag_isset, header_encode, header_decode, htonl, htons,
  cfg_ack_encode, err_encode,
}
use sas.Transport.Wire.{cfg_ack_bytes, err_bytes}
use sas.Client.{Chunk, Client, Peer, client_init, client_send, client_syn}
use sas.Client.Drivers.{Audio, driver_ignore, driver_oss, write_failed}
use sas.Client.Machine.{
  Player, arrived, timed_out, returned, waiting, client_state_machine, receive_loop, client_receive,
  etimedout,
}
use sas.Client.Machine.Acks.{playing, InOrder, arrivals, stream_demand}
use sas.Client.Machine.Configuration.{syn_ack_configures}
use sas.Client.Machine.Device.{sounding, second_failure_faults}
use sas.Client.Machine.Failures.{error_reaches, stream_finishes, chunk_size_wrong}

abbrev peer : Peer
peer = record { endian = Endian.big; send = λ packet. none }

abbrev no_chunk : Chunk
no_chunk = record {
  size = 0;
  buffer = [];
  sample_rate = 0;
  sample_size = 0;
  channels = 0;
  codec = 0;
}

abbrev client_in : State → ℕ → Client
client_in state ack = record {
  session = record {
    state = state;
    seq = 5;
    ack = ack;
    send_window = 0;
    receive_window = 1024;
    chunk = no_chunk;
  };
  sent = [];
}

abbrev packet : ℕ → ℕ → ℕ → Header
packet seq flags length = record {
  seq = seq;
  ack = 0;
  reserved = 0;
  flags = flags;
  window = 1024;
  length = length;
}

-- 20 bytes after a SYN-ACK of 8
abbrev data_packets : List (Header × List ℕ)
data_packets = (packet 8 0 4, 1 ∷ 2 ∷ 3 ∷ 4 ∷ []) ∷ (packet 12 0 16, []) ∷ []

abbrev before : Player (Unit {0})
before = record { running = false; pipe = connection_create (client_init no_chunk) tt }

syn_names_the_file :
    (client_syn peer (65 ∷ 66 ∷ []) (client_init no_chunk) >>= λ r. ok (r.1.sent))
    ≡ ok (
        record {
          header = record { seq = 0; ack = 0; reserved = 0; flags = 2; window = 1024; length = 3 };
          payload = 0 ∷ 65 ∷ 66 ∷ [];
        }
        ∷ [])
unfolding client_syn client_send client_init header_encode htonl htons
syn_names_the_file = refl

no_answer :
    (client_receive peer driver_ignore 2 (65 ∷ []) (timed_out ∷ []) before
      >>= elim [ returned e w ↦ ok e | waiting w ↦ ok 0 ])
    ≡ ok etimedout
unfolding client_receive client_syn client_send client_init receive_loop connection_create
no_answer = refl

data-InOrder : InOrder peer 8 data_packets
unfolding header_decode htonl htons flag_isset
data-InOrder = (omega arith, refl, (omega arith, refl, tt))

stream_demand_example :
    (c : Client) × (receive_loop peer driver_ignore 2
        (arrivals peer data_packets ++ (timed_out ∷ []))
        (playing 2 (client_in State.establsh 8))
      ≡ receive_loop peer driver_ignore 2 (timed_out ∷ []) (playing 4 c))
    × (c.session.state ≡ State.establsh)
    × (c.session.ack ≡ 28)
    × (length c.sent ≡ 4)
unfolding header_decode htonl htons
stream_demand_example =
    stream_demand peer data_packets (timed_out ∷ []) 2 (client_in State.establsh 8) refl
      data-InOrder (omega arith)

stream_finishes_example :
    (w : Player (Unit {0})) × (receive_loop peer driver_ignore 2
        (arrivals peer data_packets ++ (arrived (packet 28 5 0) [] ∷ []))
        (playing 2 (client_in State.establsh 8))
      ≡ ok (returned 0 w))
    × (w.pipe.source.session.state ≡ State.finished)
    × (length w.pipe.source.sent ≡ 4)
unfolding header_decode htonl htons flag_isset
stream_finishes_example =
    stream_finishes peer data_packets (packet 28 5 0) [] [] 2 (client_in State.establsh 8) refl
      data-InOrder (omega arith) (omega arith) refl refl refl

chunk_size_wrong_example :
    (w : Player (Unit {0})) × (client_state_machine peer driver_ignore 2
        (playing 2 (client_in State.establsh 8))
        (packet 8 0 4)
        []
      ≡ ok (0, w))
    × (w.pipe.source.session.chunk.size ≡ 2 ^ 64 - 4)
unfolding flag_isset
chunk_size_wrong_example =
    chunk_size_wrong peer 2 (client_in State.establsh 8) (packet 8 0 4) [] refl (omega arith) refl
      (omega arith) (omega arith)

abbrev cfg : CfgAck
cfg = record { sample_rate = 44100; sample_size = 16; channels = 2; codec = 0 }

abbrev asking : Player (Unit {0})
asking = record { running = false; pipe = connection_create (client_in State.syn_sent 0) tt }

syn_ack_configures_example :
    (c : Client) × (client_state_machine peer driver_ignore 2 asking
        (packet 0 10 8)
        (cfg_ack_bytes Endian.little 0 (cfg_ack_encode Endian.little cfg))
      ≡ ok (0, playing 2 c))
    × (c.session.state ≡ State.establsh)
    × (length c.sent ≡ 3)
    × (c.session.chunk.sample_rate ≡ 44100)
    × (c.session.chunk.sample_size ≡ 16)
    × (c.session.chunk.channels ≡ 2)
    × (c.session.chunk.codec ≡ 0)
unfolding flag_isset connection_create
syn_ack_configures_example =
    syn_ack_configures peer asking (packet 0 10 8) Endian.little 0 cfg refl (omega arith) refl
      (omega arith)

error_reaches_example :
    (w : Player (Unit {0})) × (client_state_machine peer driver_ignore 2 asking
        (packet 0 20 4)
        (err_bytes Endian.little (err_encode Endian.little (record { err = 2 })))
      ≡ ok (2, w))
unfolding flag_isset connection_create
error_reaches_example =
    error_reaches peer driver_ignore 2 asking (packet 0 20 4) Endian.little (record { err = 2 })
      (omega arith) refl refl (omega arith)

abbrev device : Audio
device = record { open_device = some 3; ioctl = λ request value. true }

second_failure_faults_example :
    receive_loop peer
      (driver_oss device)
      2
      (arrived (packet 8 0 4) (1 ∷ 2 ∷ 3 ∷ 4 ∷ []) ∷ arrived (packet 12 0 16) [] ∷ [])
      (sounding peer device 2 (client_in State.establsh 8) (record {
        fd = some 3;
        finished = false;
        writes = none ∷ none ∷ [];
        played = [];
        closed = [];
      }))
    ≡ fault Fault.null_pointer
unfolding write_failed
second_failure_faults_example =
    second_failure_faults peer device 2 2 (client_in State.establsh 8) none none [] []
      (packet 8 0 4) (packet 12 0 16) (1 ∷ 2 ∷ 3 ∷ 4 ∷ []) [] [] refl data-InOrder (omega arith)
      refl refl
