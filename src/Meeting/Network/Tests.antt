-- ===== src/Meeting/Network/Tests.antt =====
-- The theorem on a network at a stream of three chunks, of which the second comes too late.
use sas.Base.{ℕ, ◌-◌, ◌≡◌, refl, true, List, [], ◌∷◌, map, none, some, ok, arith, length}
use sas.Base.Words.{u64_mod}
use sas.Transport.{State, Endian}
use sas.Server.Session.{Sent, Out}
use sas.Server.Sink.Delivery.{open_stream, reading, with_stream, file_of, pulls, total}
use sas.Server.Samples.{host, wav, no_world, streaming_session}
use sas.Client.{Client, Peer}
use sas.Client.Drivers.{Oss, Audio, driver_oss, write_failed}
use sas.Client.Machine.{Player, returned, receive_loop}
use sas.Client.Machine.Device.{sounding}
use sas.Client.Machine.Sound.{device}
use sas.Meeting.Packets.{InRange, onto}
use sas.Meeting.Network.{network, picked, comes, heard}
use sas.Meeting.Network.Picked.{Rising}
use sas.Meeting.Network.Order.{stream_plays}

abbrev peer : Peer
peer = record { endian = Endian.big; send = λ packet. none }

abbrev audio : Audio
audio = record { open_device = some 3; ioctl = λ request value. true }

abbrev client : Client
client = record {
  session = record {
    state = State.establsh;
    seq = 12;
    ack = 8;
    send_window = 0;
    receive_window = 1024;
    chunk = record {
      size = 0;
      buffer = [];
      sample_rate = 0;
      sample_size = 0;
      channels = 0;
      codec = 0;
    };
  };
  sent = [];
}

abbrev streaming : Out
streaming = record { session = streaming_session; world = no_world }

streaming-InRange : InRange streaming_session
streaming-InRange = record { seq = omega arith; ack = omega arith; window = omega arith }

abbrev chunks : List (ℕ × List ℕ)
chunks = (1, 2 ∷ []) ∷ (3, []) ∷ (4, 5 ∷ []) ∷ []

abbrev places : List ℕ
places = 0 ∷ 0 ∷ 2 ∷ 1 ∷ 7 ∷ 3 ∷ 1 ∷ []

two_picked : picked 3 0 places ≡ 0 ∷ 2 ∷ []
unfolding picked
two_picked = refl

last_comes : comes 3 places ≡ true
unfolding comes
last_comes = refl

stream_plays_example :
    (q : Out) × (packets : List Sent) × (w : Player Oss) × (pulls host 4
        (with_stream (open_stream (reading wav (file_of chunks))) streaming)
      ≡ ok q)
    × (q.world.sent ≡ onto packets [])
    × (length packets ≡ 4)
    × (receive_loop peer (driver_oss audio) 2 (network host peer (0 ∷ 0 ∷ []) packets places) (
          sounding peer audio 0 client
            (device 4 (some 2 ∷ some 2 ∷ some 2 ∷ some 2 ∷ some 2 ∷ some 2 ∷ some 2 ∷ []) [] []))
        ≡ ok (returned 0 w))
    × (map heard w.pipe.sink.played ≡ (u64_mod - 6, 4 ∷ 5 ∷ []) ∷ (u64_mod - 6, 1 ∷ 2 ∷ []) ∷ [])
    × Rising 3 0 (picked 3 0 places)
    × (length w.pipe.source.sent ≡ 4)
unfolding total picked comes write_failed
stream_plays_example =
    stream_plays host peer (0 ∷ 0 ∷ []) audio wav chunks streaming places 0 4 client
      (some 2 ∷ some 2 ∷ some 2 ∷ some 2 ∷ some 2 ∷ some 2 ∷ some 2 ∷ []) [] []
      (omega arith, (omega arith, (omega arith, tt))) streaming-InRange (omega arith) refl
      (omega arith) (omega arith) (refl, (refl, (refl, (refl, (refl, (refl, (refl, tt)))))))
