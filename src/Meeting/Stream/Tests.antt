-- ===== src/Meeting/Stream/Tests.antt =====
-- The theorem on a stream between two hosts of different byte orders.
use sas.Base.{ℕ, ◌≡◌, refl, List, [], ◌∷◌, ◌++◌, map, none, ok, arith, length}
use sas.Transport.{State, Endian}
use sas.Server.Session.{Sent, Out}
use sas.Server.Sink.Delivery.{open_stream, reading, with_stream, file_of, pulls, total}
use sas.Server.Samples.{host, wav, no_world, streaming_session}
use sas.Client.{Client, Peer}
use sas.Client.Drivers.{driver_ignore}
use sas.Client.Machine.{Player, returned, timed_out, receive_loop}
use sas.Client.Machine.Acks.{playing}
use sas.Meeting.Packets.{InRange, on_wire, onto}
use sas.Meeting.Stream.{stream_meets}

abbrev peer : Peer
peer = record { endian = Endian.big; send = λ packet. none }

abbrev client : Client
client = record {
  session = record {
    state = State.establsh;
    seq = 12;
    ack = 8;
    send_window = 0;
    receive_window = 1024;
    chunk = record {
      size = 0;
      buffer = [];
      sample_rate = 0;
      sample_size = 0;
      channels = 0;
      codec = 0;
    };
  };
  sent = [];
}

abbrev streaming : Out
streaming = record { session = streaming_session; world = no_world }

streaming-InRange : InRange streaming_session
streaming-InRange = record { seq = omega arith; ack = omega arith; window = omega arith }

abbrev chunks : List (ℕ × List ℕ)
chunks = (1, 2 ∷ []) ∷ (3, []) ∷ []

stream_meets_example :
    (q : Out) × (packets : List Sent) × (w : Player (Unit {0})) × (pulls host 3
        (with_stream (open_stream (reading wav (file_of chunks))) streaming)
      ≡ ok q)
    × (q.world.sent ≡ onto packets [])
    × (map (λ s. s.payload) packets ≡ (1 ∷ 2 ∷ []) ∷ (3 ∷ []) ∷ [] ∷ [])
    × (receive_loop peer driver_ignore 2
          (map (on_wire host peer (0 ∷ 0 ∷ [])) packets ++ (timed_out ∷ []))
          (playing 0 client)
        ≡ ok (returned 0 w))
    × (w.pipe.source.session.state ≡ State.finished)
    × (length w.pipe.source.sent ≡ 4)
unfolding total
stream_meets_example =
    stream_meets host peer (0 ∷ 0 ∷ []) wav chunks streaming (timed_out ∷ []) 0 client
      (omega arith, (omega arith, tt)) streaming-InRange (omega arith) refl (omega arith)
      (omega arith)
