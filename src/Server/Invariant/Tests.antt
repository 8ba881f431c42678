-- ===== src/Server/Invariant/Tests.antt =====
-- The theorems on the invariant at concrete servers and packets.
use sas.Base.{
  Option, ◌+◌, ◌<◌, ◌≡◌, refl, ap, ◌∙◌, sym, inl, inr, false, [], ◌∷◌, some, ok, fault, Fault,
  arith, ◌==◌, Bool-cases,
}
use mathlib.Core.Path.{subst}
use sas.Transport.{flag_isset, header_decode, htonl, htons, swap32}
use sas.Timeout.{Ptr}
use sas.Timeout.Order.{count}
use sas.Server.Address.{Addr, addr_hash, djb2, char_value, addr_eq, same_bytes}
use sas.Server.Session.{Session}
use sas.Server.Table.{
  Server, server_alloc, session_get, session_find, index_of, find_in, load, new_session,
}
use sas.Server.Wav.{formats_wav, header_read, read, wave_header_of}
use sas.Server.Machine.{strndup, state_machine, dispatch, initial_state}
use sas.Transport.Wire.{load16, load32}
use sas.Server.Loop.{expire, received, running, round, handle_packet, session_timeout}
use sas.Server.Loop.Expiry.{once, with_heap, session_find-heap}
use sas.Server.Invariant.{IsSession, IsServer}
use sas.Server.Invariant.Expired.{IsDistinct, Settled, expire_safe}
use sas.Server.Table.Lookup.{inserted}
use sas.Server.Invariant.Isolation.{packet_isolates}
use sas.Server.Invariant.Sends.{SentTo}
use sas.Server.Invariant.Packet.{
  server_alloc-IsServer, forgets_sender, packet_safe, packet_use_after_free,
}
use sas.Server.Invariant.Rounds.{round_safe, Reached, reached-IsServer}
use sas.Server.Samples.{
  host, files, packet, syn_buffer, junk, wav, loopback, no_world, streaming_session, holding,
  streaming-IsTable, streaming_found,
}

abbrev waiting_server : Server
waiting_server = with_heap (once 32 0) (holding streaming_session)

is_streaming :
    (p : Ptr) (x : Session) → waiting_server.store p ≡ some x → (p ≡ 0) × (streaming_session ≡ x)
unfolding server_alloc
is_streaming p x e = elim (Bool-cases (p == 0)) [
  | inl same ↦ let there = rw same at e in (ground arith, cc)
  | inr other ↦ let gone = rw other at e in absurd cc
]

streaming-IsSession : IsSession streaming_session
streaming-IsSession = record { streams = λ ready. (_, refl, (wav, wav.file, inl refl)) }

waiting-IsServer : IsServer waiting_server
unfolding server_alloc count
waiting-IsServer = record {
  table = record { wide = streaming-IsTable.wide; chains = streaming-IsTable.chains };
  found = λ p x e.
      let (zero_p, same) = is_streaming p x e in
      ap (λ (u : Session). session_find waiting_server u.addr) (sym same)
      ∙ session_find-heap (once 32 0) (holding streaming_session) loopback
      ∙ streaming_found
      ∙ ap (λ q. ok (some q)) (sym zero_p);
  sessions =
      λ p x e. let (zero_p, same) = is_streaming p x e in subst IsSession same streaming-IsSession;
  waiting = λ p h. (streaming_session, ground arith);
}

packet_safe_example :
    (r : Server) × (handle_packet host files junk 100 waiting_server loopback
        (packet (swap32 12) 16)
        []
      ≡ ok r)
    × IsServer r
    × ((p : Ptr) × (x : Session) × (r.store p ≡ some x)
        × (x.timeout ≡ 100 + session_timeout)
        × (0 < count p r.timeouts.heap))
unfolding session_get session_find index_of find_in load addr_hash djb2 char_value addr_eq
    same_bytes server_alloc flag_isset header_decode htonl swap32
packet_safe_example =
    packet_safe host files junk waiting_server loopback (packet (swap32 12) 16) [] 100
      waiting-IsServer refl

packet_use_after_free_example :
    handle_packet host files junk 100 waiting_server loopback (packet (swap32 12) 4) []
    ≡ fault Fault.use_after_free
unfolding session_get session_find index_of find_in load addr_hash djb2 char_value addr_eq
    same_bytes server_alloc flag_isset header_decode htonl swap32
packet_use_after_free_example =
    packet_use_after_free host files junk waiting_server loopback (packet (swap32 12) 4) [] 100
      waiting-IsServer refl

-- a second client on the same host, whose SYN is not refused
abbrev second : Addr
second = record loopback { port = 4001 }

abbrev second_served : Ptr × Server
second_served = (1, inserted junk waiting_server second)

second_got : session_get junk waiting_server second ≡ ok second_served
unfolding session_get session_find index_of find_in load addr_hash djb2 char_value addr_eq
    same_bytes server_alloc new_session
second_got = refl

packet_isolates_example :
    (r : Server) × (handle_packet host files junk 100 waiting_server second (packet 0 2) syn_buffer
      ≡ ok r)
    × (r.store 0 ≡ some streaming_session)
    × (session_find r loopback ≡ ok (some 0))
    × (count 0 r.timeouts.heap ≡ 1)
    × SentTo second [] r.world.sent
unfolding session_get session_find index_of find_in load addr_hash djb2 char_value addr_eq
    same_bytes server_alloc flag_isset header_decode htonl htons swap32 new_session strndup
    formats_wav header_read read wave_header_of load16 load32 count
packet_isolates_example =
    packet_isolates host files junk waiting_server second (packet 0 2) syn_buffer 100
      waiting-IsServer 1 0 second_served.1 (new_session junk second) streaming_session second_got
      refl refl (omega arith) refl

round_safe_example :
    (r : Server) × (round host files junk 5 6 waiting_server
        (λ limit. received loopback (packet (swap32 12) 16) [])
      ≡ ok (running r))
    × IsServer r
unfolding session_get session_find index_of find_in load addr_hash djb2 char_value addr_eq
    same_bytes server_alloc flag_isset header_decode htonl swap32
round_safe_example =
    round_safe host files junk loopback (packet (swap32 12) 16) [] 5 6 waiting_server
      waiting-IsServer (inr (0, [], streaming_session, refl, refl, omega arith)) refl

-- a SYN for the file that opens is not refused
syn_stays :
    forgets_sender host files junk (server_alloc no_world) loopback (packet 0 2) syn_buffer
    ≡ ok false
unfolding session_get session_find index_of find_in load addr_hash djb2 char_value addr_eq
    same_bytes server_alloc flag_isset header_decode htonl htons swap32 new_session strndup
    formats_wav header_read read wave_header_of load16 load32
syn_stays = refl

-- the server that has answered it
answered :
    (r : Server) × (round host files junk 5 6
        (server_alloc no_world)
        (λ limit. received loopback (packet 0 2) syn_buffer)
      ≡ ok (running r))
    × IsServer r
unfolding server_alloc
answered =
    round_safe host files junk loopback (packet 0 2) syn_buffer 5 6 (server_alloc no_world)
      (server_alloc-IsServer no_world) (inl refl) syn_stays

reached-IsServer_example : IsServer answered.0
unfolding server_alloc
reached-IsServer_example = reached-IsServer host files junk no_world answered.0 (
    Reached.next 5 6 loopback (packet 0 2) syn_buffer Reached.fresh (inl refl) syn_stays answered.1)

waiting-IsDistinct : IsDistinct waiting_server
unfolding count
waiting-IsDistinct p = ground arith

expire_safe_example :
    (waiting : Option Ptr) × (r : Server) × (expire 2 50 50 waiting_server ≡ ok (waiting, r))
    × Settled 50 waiting r
expire_safe_example =
    expire_safe 50 50 2 waiting_server waiting-IsServer waiting-IsDistinct (omega arith)

-- a first SYN whose length runs past what stands in the buffer
name_overruns :
    handle_packet host files junk 7
      (server_alloc no_world)
      loopback
      (record (packet 0 2) { length = 2304 })
      (0 ∷ 65 ∷ [])
    ≡ fault Fault.out_of_bounds
unfolding handle_packet session_get find_in server_alloc index_of addr_hash state_machine
    header_decode htonl flag_isset dispatch initial_state strndup htons
name_overruns = refl
