-- ===== src/Server/Machine/Window.antt =====
-- What a session makes of the window that a packet announces.
use sas.Base.{ℕ, ◌≤◌, ◌≡◌, ◌⊎◌, refl, false, List, ◌∷◌, some, ok}
use sas.Transport.{State, Header, flag_isset, flag_rst}
use sas.Timeout.{Ptr}
use sas.Server.Session.{bytes, File, Wav, Session, Host, session_send_chunk, session_send}
use sas.Server.Sink.Delivery.{open_stream, reading}
use sas.Server.Table.{Server}
use sas.Server.Machine.{Files, accept, state_machine}
use sas.Server.Machine.Established.{sends_next_chunk}

module _ (host : Host) (files : Files) (s : Server) (p : Ptr) (session : Session)
    (known : s.store p ≡ some session) where
  -- Two packets that are not old and no resets and differ in the window that they announce, which
  -- may be 0, make a session in SACK_SENT or ESTABLSH, with nothing requested and bytes left in its
  -- file, send the same packet.
  pub window_ignored :
      (h : Header) (buffer : List ℕ) (w b : ℕ) (bs : List ℕ) (wav : Wav) (file : File)
      → session.ack ≤ h.seq
      → flag_isset h.flags flag_rst ≡ false
      → (session.state ≡ State.sack_sent) ⊎ (session.state ≡ State.establsh)
      → session.stream ≡ some (open_stream (reading wav (bytes (b ∷ bs) ∷ file)))
      → (r r' : Server) × (state_machine host files s p h buffer ≡ ok r)
        × (state_machine host files s p (record h { window = w }) buffer ≡ ok r')
        × (r.world ≡ r'.world)
  unfolding session_send_chunk session_send accept
  window_ignored h buffer w b bs wav file in_order plain ready stream = (
    _,
    _,
    sends_next_chunk host files s p session h buffer known in_order plain ready wav file b bs
        stream,
    sends_next_chunk host files s p session (record h { window = w }) buffer known in_order plain
        ready wav file b bs stream,
    refl,
  )
