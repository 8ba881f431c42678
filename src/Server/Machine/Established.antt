-- ===== src/Server/Machine/Established.antt =====
-- How a session handles its packets once the handshake is done, and the packets that it drops.
use sas.Base.{
  ℕ, ◌≤◌, ◌<◌, ◌≡◌, ap, ◌∙◌, ◌⊎◌, inl, inr, true, false, List, [], ◌∷◌, Option, some, ok, ◌>>=◌,
  ltb, arith,
}
use sas.Transport.{State, Header, flag_isset, flag_rst}
use sas.Timeout.{Ptr}
use sas.Server.Session.{
  bytes, File, Wav, Stream, Session, Out, Host, session_send_chunk, session_reset,
}
use sas.Server.Sink.{pull_stream, session_pull}
use sas.Server.Sink.Delivery.{
  open_stream, ended_stream, reading, with_stream, pull_sends, pull_ends, pull_ended, after_close,
}
use sas.Server.Table.{Server, load, store_at}
use sas.Server.Machine.{Files, accept, out_at, commit, dispatch, state_machine}

module _ (host : Host) (files : Files) (s : Server) (p : Ptr) (session : Session) (h : Header)
    (buffer : List ℕ) (known : s.store p ≡ some session) where
  -- A packet whose sequence number is below the one that the session expects changes nothing.
  pub drops_old : h.seq < session.ack → state_machine host files s p h buffer ≡ ok s
  unfolding state_machine load
  drops_old old = rw (known, ◌>>=◌) (ground arith)

  -- the server, and the session, once a packet is accepted in the state SACK_SENT or ESTABLSH
  abbrev pub noted : Server
  noted = store_at s p (accept h session)

  abbrev pub acked : Out
  acked = out_at noted (record (accept h session) { state = State.establsh })

  module _ (in_order : session.ack ≤ h.seq) (not_reset : flag_isset h.flags flag_rst ≡ false) where
    pub accepted :
        state_machine host files s p h buffer
        ≡ dispatch host files session.state noted p (out_at noted (accept h session)) h buffer
    unfolding state_machine load
    accepted =
        let new : ltb h.seq session.ack ≡ false = ground arith in rw (known, ◌>>=◌, new, not_reset)

    module _ (ready : (session.state ≡ State.sack_sent) ⊎ (session.state ≡ State.establsh)) where
      -- Such a packet, whatever it is, makes one request on the session's pipeline.
      pub pulls_one :
          state_machine host files s p h buffer
          ≡ (session_pull host acked >>= λ r. ok (commit noted p r))
      unfolding dispatch accept
      pulls_one = accepted ∙ elim ready [
        | inl e ↦ rw e
        | inr e ↦
            ap (λ st. dispatch host files st noted p (out_at noted (accept h session)) h buffer) e
            ∙ ap
                (λ st.
                  session_pull host (out_at noted (record (accept h session) { state = st }))
                  >>= λ r. ok (commit noted p r))
                e
      ]

      pulls_from :
          (t : Stream) (r : Out)
          → session.stream ≡ some t
          → pull_stream host t (with_stream t acked) ≡ ok r
          → state_machine host files s p h buffer ≡ ok (commit noted p r)
      unfolding session_pull accept
      pulls_from t r e run =
          pulls_one
          ∙ ap
              (λ (st : Option Stream).
                session_pull host
                  (record acked { session = record (acked.session) { stream = st } })
                >>= λ q. ok (commit noted p q))
              e
          ∙ rw (run, ◌>>=◌)

      module _ (wav : Wav) (file : File) where
        -- A packet that is not old and no reset, at a session in SACK_SENT or ESTABLSH whose stream has
        -- nothing requested, makes it send one packet with the next bytes of its file, and no more,
        -- whatever the packet's other flags, its acknowledgement, its window and its payload. The
        -- session is then established.
        pub sends_next_chunk :
            (b : ℕ) (bs : List ℕ)
            → session.stream ≡ some (open_stream (reading wav (bytes (b ∷ bs) ∷ file)))
            → state_machine host files s p h buffer
              ≡ ok (
                  commit noted p (
                    with_stream
                      (open_stream (reading wav file))
                      (session_send_chunk host
                        (b ∷ bs)
                        (with_stream (open_stream (reading wav (bytes (b ∷ bs) ∷ file))) acked)).1))
        sends_next_chunk b bs e = pulls_from _ _ e (pull_sends host wav _ b bs file)

        -- A packet that is not old and no reset, at a session in SACK_SENT or ESTABLSH whose stream has
        -- nothing requested and whose file is at its end, makes the session close the file and send one
        -- packet with RST and FIN; its stream has then ended, and the session stays, established.
        pub sends_end :
            session.stream ≡ some (open_stream (reading wav []))
            → state_machine host files s p h buffer
              ≡ ok (
                  commit noted p (
                    with_stream
                      (ended_stream (record wav { file = []; finished = true }))
                      (session_reset host true (
                        after_close host wav
                          (with_stream (open_stream (reading wav [])) acked))).1))
        sends_end e = pulls_from _ _ e (pull_ends host wav _)

        -- once the stream has ended
        pub sends_nothing :
            session.stream ≡ some (ended_stream (record wav { file = file; finished = true }))
            → state_machine host files s p h buffer
              ≡ ok (
                  commit noted p (
                    with_stream (ended_stream (record wav { file = file; finished = true })) acked))
        sends_nothing e = pulls_from _ _ e (pull_ended host wav _ file)
