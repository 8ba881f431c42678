-- ===== src/Meeting/Tests.antt =====
-- The theorem on a SYN at a concrete name.
use sas.Base.{[], none}
use sas.Transport.{State, Endian}
use sas.Client.{Client, Peer}

abbrev peer : Peer
peer = record { endian = Endian.little; send = λ packet. none }

abbrev client : Client
client = record {
  session = record {
    state = State.initial;
    seq = 0;
    ack = 0;
    send_window = 0;
    receive_window = 1024;
    chunk = record {
      size = 0;
      buffer = [];
      sample_rate = 0;
      sample_size = 0;
      channels = 0;
      codec = 0;
    };
  };
  sent = [];
}
