-- ===== src/Meeting/Exchange/Answers.antt =====
-- What a session answers to an acknowledgement of the client.
use sas.Base.{
  ℕ, ◌+◌, ◌%◌, ◌≤◌, ◌<◌, ◌≡◌, refl, ◌⊎◌, true, false, List, [], ◌∷◌, some, ok, arith, length,
}
use sas.Base.Words.{u16_mod, u32_mod, add32}
use sas.Transport.{State, Header, flag_isset, flag_rst, flag_fin}
use sas.Timeout.{Ptr}
use sas.Server.Session.{
  bytes, File, Wav, Session, Sent, Host, advance, session_send_chunk, session_reset,
}
use sas.Server.Session.Sending.{packet_of, send-sent, send-session}
use sas.Server.Sink.Delivery.{open_stream, ended_stream, reading, with_stream, after_close}
use sas.Server.Table.{Server}
use sas.Server.Machine.{Files, accept, state_machine}
use sas.Server.Machine.Established.{acked, sends_next_chunk, sends_end}
use sas.Meeting.Packets.{chunk-session}

-- the session once a packet is accepted
abbrev pub hearing : Header → Session → Session
hearing h x = record x { ack = add32 h.seq (advance h.length) }

module _ (host : Host) (files : Files) (s : Server) (p : Ptr) (x : Session) (h : Header)
    (buffer : List ℕ) (known : s.store p ≡ some x) (in_order : x.ack ≤ h.seq)
    (not_reset : flag_isset h.flags flag_rst ≡ false)
    (ready : (x.state ≡ State.sack_sent) ⊎ (x.state ≡ State.establsh)) (wav : Wav) where
  -- one packet is sent, and the session is
  pub record Answer (packet : Sent) (s' : Server) (x' : Session) : Type 0 where
    pub run : state_machine host files s p h buffer ≡ ok s'
    pub live : s'.store p ≡ some x'
    pub sent : s'.world.sent ≡ packet ∷ s.world.sent
    pub state : x'.state ≡ State.establsh
    pub addr : x'.addr ≡ x.addr
    pub ack : x'.ack ≡ add32 h.seq (advance h.length)
    pub window : x'.receive_window ≡ x.receive_window

  pub chunk-Answer :
      (b : ℕ) (bs : List ℕ) (file : File)
      → x.stream ≡ some (open_stream (reading wav (bytes (b ∷ bs) ∷ file)))
      → length (b ∷ bs) ≤ 1024
      → x.seq + length (b ∷ bs) < u32_mod
      → (s' : Server) × (x' : Session) × Answer
          (packet_of host 0 (length (b ∷ bs) % u16_mod) (b ∷ bs) (hearing h x))
          s'
          x'
        × (x'.stream ≡ some (open_stream (reading wav file)))
        × (x'.seq ≡ x.seq + length (b ∷ bs))
  unfolding accept session_send_chunk
  chunk-Answer b bs file e fit small =
      let o =
        with_stream (open_stream (reading wav (bytes (b ∷ bs) ∷ file)))
          (acked host files s p x h buffer known) in
      let (moved, same_ack, same_window, handed) = chunk-session host b bs o fit small in
      let q = with_stream (open_stream (reading wav file)) (session_send_chunk host (b ∷ bs) o).1 in
      (
        _,
        q.session,
        record {
          run =
              sends_next_chunk host files s p x h buffer known in_order not_reset ready wav file b
                bs e;
          live = ground arith;
          sent = handed;
          state = (send-session host 0 (length (b ∷ bs) % u16_mod) (b ∷ bs) o).0;
          addr = (send-session host 0 (length (b ∷ bs) % u16_mod) (b ∷ bs) o).1;
          ack = same_ack;
          window = same_window;
        },
        refl,
        moved,
      )

  pub end-Answer :
      x.stream ≡ some (open_stream (reading wav []))
      → (s' : Server) × (x' : Session) × Answer
          (packet_of host (flag_rst + flag_fin) 0 [] (hearing h x))
          s'
          x'
        × (x'.stream ≡ some (ended_stream (record wav { file = []; finished = true })))
  unfolding accept session_reset
  end-Answer e =
      let o =
        after_close host wav
          (with_stream (open_stream (reading wav [])) (acked host files s p x h buffer known)) in
      let (state, addr, ack, window) = send-session host (flag_rst + flag_fin) 0 [] o in
      let q =
        with_stream (ended_stream (record wav { file = []; finished = true }))
          (session_reset host true o).1 in
      (
        _,
        q.session,
        record {
          run = sends_end host files s p x h buffer known in_order not_reset ready wav [] e;
          live = ground arith;
          sent = send-sent host (flag_rst + flag_fin) 0 [] o;
          state = state;
          addr = addr;
          ack = ack;
          window = window;
        },
        refl,
      )
