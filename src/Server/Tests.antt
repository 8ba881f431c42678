-- ===== src/Server/Tests.antt =====
-- Tests of the server, and its theorems at concrete sessions and packets.
use sas.Base.{length, none, ◌≡◌, refl, [], ◌∷◌, ◌++◌, ok, fault, Fault, arith, replicate}
use sas.Transport.{flag_isset, header_decode, htonl, swap32}
use sas.Timeout.{Ptr}
use sas.Server.Address.{Addr, addr_hash, djb2, char_value, same_bytes}
use sas.Server.Session.{Out}
use sas.Server.Sink.Delivery.{
  open_stream, reading, with_stream, pulls, file_of, Delivered, stream_delivers,
}
use sas.Server.Table.{Server, server_alloc, index_of, session_get, session_delete}
use sas.Server.Table.Lookup.{Got, session_get_correct, session_get_shares}
use sas.Server.Table.Removal.{Deleted, session_delete_correct}
use sas.Server.Loop.{handle_packet}
use sas.Server.Loop.{expire}
use sas.Server.Loop.Expiry.{once, emptied, with_heap, heap-Known, old_packet_dooms, session_expires}
use sas.Server.Loop.Freed.{reset_use_after_free}
use sas.Server.Samples.{
  host, files, packet, holding, no_world, loopback, junk, wav, streaming_session, holding,
  streaming-IsTable, streaming_found, streaming-Known,
}

session_get_correct_example :
    (p : Ptr) × (s' : Server) × (session_get junk (holding streaming_session) loopback ≡ ok (p, s'))
    × Got (holding streaming_session) loopback p s'
session_get_correct_example =
    session_get_correct junk (holding streaming_session) loopback streaming-IsTable

-- another client whose address has the same home
abbrev neighbour : Addr
neighbour = record { ip = replicate 15 0 ++ (3 ∷ []); port = 4000 }

session_get_shares_example :
    session_get junk (holding streaming_session) neighbour ≡ ok (0, holding streaming_session)
unfolding index_of addr_hash djb2 char_value same_bytes server_alloc
session_get_shares_example =
    session_get_shares junk (holding streaming_session) neighbour 0 [] streaming_session refl refl
      refl

session_delete_correct_example :
    (s' : Server) × (session_delete (holding streaming_session) 0 ≡ ok s')
    × Deleted (holding streaming_session) 0 streaming_session s'
unfolding server_alloc
session_delete_correct_example =
    session_delete_correct (holding streaming_session) 0 streaming_session streaming-IsTable refl
      streaming_found

abbrev streaming_out : Out
streaming_out = record { session = streaming_session; world = no_world }

stream_delivers_example :
    (q : Out) × (pulls host 3 (
        with_stream
          (open_stream (reading wav (file_of ((1, 2 ∷ []) ∷ (3, []) ∷ []))))
          streaming_out)
      ≡ ok q)
    × Delivered host wav ((1, 2 ∷ []) ∷ (3, []) ∷ []) streaming_out q
stream_delivers_example =
    stream_delivers host wav ((1, 2 ∷ []) ∷ (3, []) ∷ []) streaming_out
      (omega arith, (omega arith, tt)) (omega arith)

reset_faults :
    handle_packet host files junk 100 (holding streaming_session) loopback (packet (swap32 12) 4) []
    ≡ fault Fault.use_after_free
unfolding flag_isset header_decode htonl swap32
reset_faults =
    reset_use_after_free host files junk (holding streaming_session) 0 streaming_session
      streaming-Known 100 (packet (swap32 12) 4) [] (omega arith) refl

-- the same server, where the session waits in the heap
abbrev waiting_server : Server
waiting_server = with_heap (once 32 0) (holding streaming_session)

old_packet_dooms_example :
    (r : Server) × (handle_packet host files junk 100 waiting_server loopback (packet 0 16) []
      ≡ ok r)
    × (length r.timeouts.heap ≡ 2)
    × (expire 3 130 130 r ≡ fault Fault.use_after_free)
unfolding header_decode htonl swap32
old_packet_dooms_example =
    old_packet_dooms host files junk waiting_server 0 streaming_session
      (heap-Known (once 32 0) (holding streaming_session) 0 streaming_session streaming-Known) 32
      refl 100 130 130 (packet 0 16) [] (omega arith) (omega arith) (omega arith)

waiting_expires :
    (r : Server) × (expire 2 50 50 waiting_server ≡ ok (none, r))
    × Deleted (with_heap (emptied 32) waiting_server) 0 streaming_session r
    × (r.timeouts ≡ emptied 32)
waiting_expires =
    session_expires host files junk waiting_server 0 streaming_session
      (heap-Known (once 32 0) (holding streaming_session) 0 streaming_session streaming-Known) 32
      refl 50 50 (omega arith) (omega arith)
