-- ===== src/Server/Machine/Handshake.antt =====
-- The first packet of a session, which the server answers by SYN-ACK, by an error or by a reset.
use sas.Base.{
  ℕ, ◌+◌, ◌-◌, ◌%◌, ◌≤◌, ◌≡◌, refl, ap, ◌∙◌, inl, inr, true, false, not, List, [], ◌∷◌, ◌++◌, none,
  some, Run, ok, ◌>>=◌, ◌==◌, if◌then◌else◌, arith, get_or, drop, Bool-cases, Option-cases,
}
use sas.Base.Words.{u64_mod}
use sas.Transport.{
  State, Header, flag_isset, flag_rst, flag_syn, flag_ack, cfg_size, cfg_ack_size, cfg_ack_encode,
}
use sas.Transport.Wire.{network32, cfg_ack_bytes, store32-htonl}
use sas.Timeout.{Ptr}
use sas.Server.Session.{Wav, Session, Out, Host, session_reset, session_syn_ack, session_send}
use sas.Server.Sink.Delivery.{
  open_stream, with_stream, payloads, payloads-session_send, start_opens,
}
use sas.Server.Wav.{formats_wav}
use sas.Server.Table.{Server, store_at}
use sas.Server.Table.Chains.{IsTable}
use sas.Server.Machine.{
  Opened, opened, refused, Files, einval, strndup, accept, out_at, commit, streaming, with_state,
  with_fd, with_errno, refuse, establish, after_open, initial_state, dispatch, state_machine,
}
use sas.Server.Machine.Established.{accepted}
use sas.Server.Machine.Forget.{Known, written-Known, refuse_forgets, accept_addr, error_packet}

-- what a SYN asks for comes to: an error code, or a file descriptor and its stream
pub data Verdict : Type 0 where
  deny : ℕ → Verdict
  admit : ℕ → Wav → Verdict

module _ (host : Host) (files : Files) where
  -- A file that is no WAVE file gets the error number of the read of its header, or the one that was
  -- there before if that read did not fail.
  abbrev pub verdict_of : ℕ → Opened → Verdict
  verdict_of errno (refused e) = deny e
  verdict_of errno (opened fd file) =
      let (e, source) = formats_wav host.endian files.junk fd file errno in
      elim source [ none ↦ deny e | some wav ↦ admit fd wav ]

  abbrev pub verdict : ℕ → ℕ → List ℕ → Verdict
  verdict errno codec name =
      if codec == 0 then verdict_of errno (files.open_file name) else deny einval

  -- the refusals of the file, by the error packet that is sent
  after_open_denied :
      (s : Server) (p : Ptr) (o : Out) (code : ℕ) (op : Opened)
      → verdict_of o.world.errno op ≡ deny code
      → (o' : Out) × (after_open host files s p o op ≡ refuse host files s p code o')
        × (o'.session.addr ≡ o.session.addr)
        × (o'.world.sent ≡ o.world.sent)
        × (error_packet host code o'.session ≡ error_packet host code o.session)
  unfolding after_open
  after_open_denied s p o code (refused e) v =
      (with_fd none (with_errno e o), ground arith, refl, refl, refl)
  after_open_denied s p o code (opened fd file) v =
      let r = formats_wav host.endian files.junk fd file o.world.errno in
      elim (Option-cases r.1) [
        | inl absent ↦ (with_errno r.0 (with_fd (some fd) o), ground arith, refl, refl, refl)
        | inr (wav, there) ↦ absurd (ground arith)
      ]

  pub after_open_admitted :
      (s : Server) (p : Ptr) (o : Out) (fd : ℕ) (wav : Wav) (op : Opened)
      → verdict_of o.world.errno op ≡ admit fd wav
      → (e : ℕ) × (after_open host files s p o op
          ≡ establish host files s p wav (with_errno e (with_fd (some fd) o)))
  unfolding after_open
  after_open_admitted s p o fd wav (refused e) v = absurd cc
  after_open_admitted s p o fd wav (opened fd' file) v =
      let r = formats_wav host.endian files.junk fd' file o.world.errno in
      elim (Option-cases r.1) [
        | inl absent ↦ absurd (ground arith)
        | inr (wav', there) ↦ (r.0, ground arith)
      ]

-- what an admitted handshake leaves: the session, streaming the file, and the SYN-ACK on the wire
pub record Admitted (host : Host) (s : Server) (p : Ptr) (fd : ℕ) (wav : Wav) (codec : ℕ)
    (s' : Server) : Type 0 where
  pub session : Session
  pub live : s'.store p ≡ some session
  pub handshaken : session.state ≡ State.sack_sent
  pub opened_fd : session.fd ≡ some fd
  pub stream : session.stream ≡ some (open_stream wav)
  pub answer :
      payloads s'.world.sent
      ≡ (network32 wav.sample_rate ++ (wav.sample_size ∷ wav.channels ∷ codec ∷ host.padding ∷ []))
        ∷ payloads s.world.sent

syn_ack_payload :
    (host : Host) (o : Out)
    → payloads (session_syn_ack host o).1.world.sent
      ≡ (network32 o.session.sample_rate
          ++ (o.session.sample_size ∷ o.session.channels ∷ o.session.codec ∷ host.padding ∷ []))
        ∷ payloads o.world.sent
unfolding session_syn_ack cfg_ack_bytes cfg_ack_encode
syn_ack_payload host o =
    payloads-session_send host (flag_syn + flag_ack) cfg_ack_size _ o
    ∙ rw (store32-htonl host.endian o.session.sample_rate)

syn_ack_fd : (host : Host) (o : Out) → (session_syn_ack host o).1.session.fd ≡ o.session.fd
unfolding session_syn_ack session_send
syn_ack_fd host o = refl

-- establish does not fail: the pipeline starts with nothing requested
pub establish_opens :
    (host : Host) (files : Files) (s : Server) (p : Ptr) (wav : Wav) (o : Out)
    → establish host files s p wav o
      ≡ ok (
          commit s p (
            with_stream
              (open_stream wav)
              (with_state State.sack_sent (session_syn_ack host (streaming wav o)).1)))
unfolding establish
establish_opens host files s p wav o = rw (
  start_opens host wav (with_state State.sack_sent (session_syn_ack host (streaming wav o)).1),
  ◌>>=◌,
)

establish_admits :
    (host : Host) (files : Files) (s : Server) (p : Ptr) (wav : Wav) (fd : ℕ) (o : Out)
    → (s' : Server) × (establish host files s p wav (with_fd (some fd) o) ≡ ok s')
      × Admitted host (record s { world = o.world }) p fd wav o.session.codec s'
establish_admits host files s p wav fd o =
    let o' = streaming wav (with_fd (some fd) o) in
    let r = with_state State.sack_sent (session_syn_ack host o').1 in
    (
      commit s p (with_stream (open_stream wav) r),
      establish_opens host files s p wav (with_fd (some fd) o),
      record {
        session = (with_stream (open_stream wav) r).session;
        live = ground arith;
        handshaken = refl;
        opened_fd = syn_ack_fd host o';
        stream = refl;
        answer = syn_ack_payload host o';
      },
    )

-- the packet's file name, which ends at a 0 or where the length says
abbrev pub named : Header → List ℕ → Run (List ℕ)
named h buffer = strndup (drop cfg_size buffer) ((h.length + u64_mod - cfg_size) % u64_mod)

-- a packet that a session in the state INITIAL accepts
pub record Opening (s : Server) (p : Ptr) (x : Session) (h : Header) : Type 0 where
  pub known : Known s p x
  pub first : x.state ≡ State.initial
  pub in_order : x.ack ≤ h.seq
  pub not_reset : flag_isset h.flags flag_rst ≡ false

module _ (host : Host) (files : Files) (s : Server) (p : Ptr) (x : Session) (h : Header)
    (buffer : List ℕ) (opening : Opening s p x h) where
  -- the packet is noted
  abbrev pub start : Server
  start = store_at s p (accept h x)

  handled :
      state_machine host files s p h buffer
      ≡ initial_state host files start p (out_at start (accept h x)) h buffer
  unfolding dispatch
  handled =
      accepted host files s p x h buffer opening.known.live opening.in_order opening.not_reset
      ∙ ap (λ st. dispatch host files st start p (out_at start (accept h x)) h buffer) opening.first

  -- A first packet without SYN is answered by a reset, and the session stays.
  pub no_syn_resets :
      flag_isset h.flags flag_syn ≡ false
      → state_machine host files s p h buffer
        ≡ ok (commit start p (session_reset host false (out_at start (accept h x))).1)
  unfolding initial_state
  no_syn_resets none_set = handled ∙ rw none_set

  module _ (syn : flag_isset h.flags flag_syn ≡ true) (name : List ℕ)
      (is_name : named h buffer ≡ ok name) where
    pub looked_up : state_machine host files s p h buffer ≡ (
        if not (get_or buffer 0 0 == 0)
        then refuse host files start p einval (out_at start (accept h x))
        else after_open host files start p (out_at start (accept h x)) (files.open_file name))
    unfolding initial_state
    looked_up = handled ∙ rw (syn, is_name, ◌>>=◌)

    -- At a known session in the state INITIAL, a SYN that is not old, for the codec 0 and a file that
    -- opens and holds a WAVE header, leaves the session in the state SACK_SENT with a pipeline that
    -- has requested nothing, and sends one packet: the parameters of the file's format, and a codec
    -- that is the one malloc left in the session.
    pub handshake-Admitted :
        (fd : ℕ) (wav : Wav)
        → verdict host files s.world.errno (get_or buffer 0 0) name ≡ admit fd wav
        → (s' : Server) × (state_machine host files s p h buffer ≡ ok s')
          × Admitted host s p fd wav x.codec s'
    unfolding accept
    handshake-Admitted fd wav v = elim (Bool-cases (get_or buffer 0 0 == 0)) [
      | inl e ↦
          let (errno, opens) =
            after_open_admitted host files start p (out_at start (accept h x)) fd wav
              (files.open_file name) (rw e at v) in
          let (s', run, a) =
            establish_admits host files start p wav fd
              (with_errno errno (out_at start (accept h x))) in
          (
            s',
            looked_up ∙ rw e (opens ∙ run),
            record {
              session = a.session;
              live = a.live;
              handshaken = a.handshaken;
              opened_fd = a.opened_fd;
              stream = a.stream;
              answer = a.answer;
            },
          )
      | inr e ↦ absurd (ground arith)
    ]

    pub handshake_denied :
        (code : ℕ)
        → verdict host files s.world.errno (get_or buffer 0 0) name ≡ deny code
        → (s' : Server) × (state_machine host files s p h buffer ≡ ok s')
          × (s'.store p ≡ none)
          × IsTable s'
          × (s'.world.sent ≡ error_packet host code (accept h x) ∷ s.world.sent)
    handshake_denied code v =
        let known' = written-Known s p x (accept h x) s.world (accept_addr h x) opening.known in
        elim (Bool-cases (get_or buffer 0 0 == 0)) [
          | inl e ↦
              let (o', same, addr, sent, packet) =
                after_open_denied host files start p (out_at start (accept h x)) code
                  (files.open_file name) (rw e at v) in
              let (s', run, freed, table, answer) =
                refuse_forgets host files start p (accept h x) known' code o' addr in
              (s', looked_up ∙ rw e (same ∙ run), freed, table, answer ∙ rw (sent, packet))
          | inr e ↦
              let is_einval : einval ≡ code = denied_codec (rw e at v) in
              let (s', run, freed, table, answer) =
                refuse_forgets host files start p (accept h x) known' einval
                  (out_at start (accept h x)) refl in
              (
                s',
                looked_up ∙ rw e run,
                freed,
                table,
                answer ∙ ap (λ c. error_packet host c (accept h x) ∷ s.world.sent) is_einval,
              )
        ]
      where
        denied_codec : deny einval ≡ deny code → einval ≡ code
        denied_codec q = cc
