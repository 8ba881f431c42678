-- ===== src/Client/Program/Tests.antt =====
-- Tests of the client's program, and its theorem where the server does not answer.
use sas.Base.{◌+◌, ◌≡◌, refl, true, [], ◌∷◌, none, some, ok, arith, length}
use sas.Transport.{Endian}
use sas.Sockets.{success, failure, exited}
use sas.Client.{Chunk, Peer, client_init, client_syn, client_send}
use sas.Client.Connect.{Address, Network}
use sas.Client.Drivers.{driver_ignore}
use sas.Client.Machine.{Player, timed_out, returned, client_receive, receive_loop, is_finished}
use sas.Client.Program.{flagged, help, first_player, client_main, client_main_exits}

abbrev address : Address
address = record { family = 2; socktype = 2; protocol = 17; addr = [] }

abbrev network : Network
network = record {
  getaddrinfo = λ host port asked. (0, address ∷ []);
  socket = λ fds a. some (3 + length fds);
  connect = λ fd a. true;
}

abbrev peer : Peer
peer = record { endian = Endian.little; send = λ packet. none }

abbrev junk : Chunk
junk = record { size = 0; buffer = []; sample_rate = 0; sample_size = 0; channels = 0; codec = 0 }

-- -h exits at once, whatever follows
help_exits :
    client_main network peer junk 2 (flagged ∷ help ∷ []) 1 [] [] true [] (0 ∷ [])
    ≡ ok (exited success (0 ∷ []))
unfolding client_main
help_exits = refl

-- no answer in time
unanswered :
    (w : Player (Unit {0})) × (client_receive peer driver_ignore 2
        (65 ∷ [])
        (timed_out ∷ [])
        (first_player network peer junk 2)
      ≡ ok (returned 110 w))
unfolding client_receive client_syn client_send receive_loop is_finished client_init
unanswered = (_, refl)

client_main_exits_example :
    client_main network peer junk 2
      (flagged ∷ [])
      3
      (104 ∷ [])
      (65 ∷ [])
      true
      (timed_out ∷ [])
      (0 ∷ [])
    ≡ ok (exited failure (0 ∷ []))
client_main_exits_example =
    client_main_exits network peer junk 2 (flagged ∷ []) 3 (104 ∷ []) (65 ∷ []) (timed_out ∷ [])
      (0 ∷ []) (returned 110 unanswered.0) refl (omega arith) unanswered.1
