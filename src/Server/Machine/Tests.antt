-- ===== src/Server/Machine/Tests.antt =====
-- Tests of state_machine, and its theorems at concrete sessions and packets.
use sas.Base.{ℕ, ◌≡◌, inr, refl, true, false, [], ◌∷◌, some, ok, arith}
use sas.Transport.{flag_isset, flag_rst}
use sas.Transport.Wire.{load16, load32}
use sas.Server.Address.{same_bytes}
use sas.Server.Session.{Session, session_send_chunk, session_reset}
use sas.Server.Wav.{formats_wav, header_read, read, wave_header_of}
use sas.Server.Sink.Delivery.{open_stream, ended_stream, reading, with_stream, after_close}
use sas.Server.Table.{Server, store_at}
use sas.Server.Table.Removal.{Deleted}
use sas.Server.Machine.{accept, out_at, commit, state_machine, strndup}
use sas.Server.Machine.Forget.{reset_forgets}
use sas.Server.Machine.Established.{sends_next_chunk, sends_end}
use sas.Server.Machine.Window.{window_ignored}
use sas.Server.Table.{Server}
use sas.Server.Machine.{Files, opened}
use sas.Server.Session.{failed}
use sas.Server.Wav.{read_errno}
use sas.Server.Machine.Handshake.{verdict, deny, Opening, Admitted, handshake-Admitted}
use sas.Server.Samples.{
  host, files, packet, syn_buffer, wav, fresh_session, streaming_session, holding, streaming-Known,
  fresh-Known,
}

reset_forgets_example :
    (s' : Server) × (state_machine host files (holding streaming_session) 0 (packet 12 4) []
      ≡ ok s')
    × Deleted
        (store_at (holding streaming_session) 0 (accept (packet 12 4) streaming_session))
        0
        (accept (packet 12 4) streaming_session)
        s'
unfolding flag_isset
reset_forgets_example =
    reset_forgets host files (holding streaming_session) 0 streaming_session streaming-Known
      (packet 12 4) [] (omega arith) refl

abbrev streaming_noted : Server
streaming_noted = store_at (holding streaming_session) 0 (accept (packet 12 16) streaming_session)

sends_next_chunk_example :
    state_machine host files (holding streaming_session) 0 (packet 12 16) []
    ≡ ok (
        commit streaming_noted 0 (
          with_stream
            (open_stream (reading wav []))
            (session_send_chunk host (7 ∷ 8 ∷ []) (
              with_stream
                (open_stream wav)
                (out_at streaming_noted (accept (packet 12 16) streaming_session)))).1))
unfolding flag_isset accept
sends_next_chunk_example =
    sends_next_chunk host files (holding streaming_session) 0 streaming_session (packet 12 16) []
      refl (omega arith) refl (inr refl) wav [] 7 (8 ∷ []) refl

window_ignored_example :
    (r r' : Server) × (state_machine host files (holding streaming_session) 0 (packet 12 16) []
      ≡ ok r)
    × (state_machine host files
          (holding streaming_session)
          0
          (record (packet 12 16) { window = 0 })
          []
        ≡ ok r')
    × (r.world ≡ r'.world)
unfolding flag_isset
window_ignored_example =
    window_ignored host files (holding streaming_session) 0 streaming_session refl (packet 12 16) []
      0 7 (8 ∷ []) wav [] (omega arith) refl (inr refl) refl

-- the same session with its file at the end
abbrev finishing_session : Session
finishing_session = record streaming_session { stream = some (open_stream (reading wav [])) }

abbrev finishing_noted : Server
finishing_noted = store_at (holding finishing_session) 0 (accept (packet 12 16) finishing_session)

sends_end_example :
    state_machine host files (holding finishing_session) 0 (packet 12 16) []
    ≡ ok (
        commit finishing_noted 0 (
          with_stream
            (ended_stream (record wav { file = []; finished = true }))
            (session_reset host true (
              after_close host wav (
                with_stream
                  (open_stream (reading wav []))
                  (out_at finishing_noted (accept (packet 12 16) finishing_session))))).1))
unfolding flag_isset accept
sends_end_example =
    sends_end host files (holding finishing_session) 0 finishing_session (packet 12 16) [] refl
      (omega arith) refl (inr refl) wav [] refl

fresh-Opening :
    (flags : ℕ)
    → flag_isset flags flag_rst ≡ false
    → Opening (holding fresh_session) 0 fresh_session (packet 0 flags)
fresh-Opening flags h = record {
  known = fresh-Known;
  first = refl;
  in_order = omega arith;
  not_reset = h;
}

handshake-Admitted_example :
    (s' : Server) × (state_machine host files (holding fresh_session) 0 (packet 0 2) syn_buffer
      ≡ ok s')
    × Admitted host (holding fresh_session) 0 5 wav 9 s'
unfolding flag_isset strndup formats_wav header_read read wave_header_of same_bytes load16 load32
handshake-Admitted_example =
    handshake-Admitted host files (holding fresh_session) 0 fresh_session (packet 0 2) syn_buffer
      (fresh-Opening 2 refl) refl (65 ∷ []) refl 5 wav refl

-- the read of a directory fails with EISDIR, which is then the code
abbrev directory : Files
directory = record { open_file = λ name. opened 5 (failed 21 ∷ []); junk = files.junk }

directory_denied : verdict host directory 0 0 (65 ∷ []) ≡ deny 21
unfolding formats_wav header_read read read_errno wave_header_of same_bytes load16 load32
directory_denied = refl
