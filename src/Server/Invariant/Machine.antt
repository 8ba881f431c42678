-- ===== src/Server/Invariant/Machine.antt =====
-- The invariant of the server, under state_machine.
use sas.Base.{
  ℕ, ◌≤◌, ◌≡◌, refl, sym, ap, ◌∙◌, ◌⊎◌, inl, inr, true, false, List, none, some, ok, ◌>>=◌, ltb,
  ◌==◌, arith, get_or, Bool-cases,
}
use sas.Transport.{State, Header, flag_isset, flag_rst, flag_syn}
use sas.Timeout.{Ptr}
use sas.Server.Session.{Wav, Session, Out, Host, session_reset, session_syn_ack}
use sas.Server.Sink.Delivery.{open_stream, with_stream}
use sas.Server.Table.{Server, store_at}
use sas.Server.Machine.{
  Files, accept, out_at, commit, dispatch, state_machine, streaming, with_state, with_fd,
  with_errno,
}
use sas.Server.Machine.Established.{drops_old, accepted, acked, pulls_one}
use sas.Server.Machine.Forget.{reset_forgets, accept_addr}
use sas.Server.Machine.Handshake.{
  admit, verdict, named, Opening, looked_up, no_syn_resets, after_open_admitted, establish_opens,
  handshake_denied,
}
use mathlib.Core.Path.{subst}
use sas.Server.Invariant.{IsSession, IsServer}
use sas.Server.Invariant.Tables.{same_session}
use sas.Server.Invariant.Sends.{SentTo, SentTo-refl, reset-SentTo, syn_ack-SentTo}
use sas.Server.Invariant.Streams.{pull_rests}
use sas.Server.Invariant.Forgotten.{
  Kept, IsServer-Known, denies, first_forgotten, forgotten, admits-IsRested, reset_state,
  syn_ack_addr, accept-IsSession, initial-IsSession, written-Kept, verdict-cases, bind_ok,
}

module _ (host : Host) (files : Files) (s : Server) (p : Ptr) (x : Session) (h : Header)
    (buffer : List ℕ) (k : IsServer s) (live : s.store p ≡ some x) where
  module _ (in_order : x.ack ≤ h.seq) (not_reset : flag_isset h.flags flag_rst ≡ false) where
    noted-Kept : Kept s p (store_at s p (accept h x))
    noted-Kept =
        written-Kept s p x (accept h x) s.world live (accept_addr h x) k
          (accept-IsSession h x (k.sessions p x live)) (SentTo-refl x.addr s.world.sent)

    -- what is written after the packet is noted
    commit-Kept :
        (o : Out)
        → o.session.addr ≡ x.addr
        → IsSession o.session
        → SentTo x.addr s.world.sent o.world.sent
        → Kept s p (commit (store_at s p (accept h x)) p o)
    commit-Kept o same good sends =
        let c =
          written-Kept (store_at s p (accept h x)) p (accept h x) o.session o.world (ground arith)
            (same ∙ sym (accept_addr h x)) noted-Kept.server good
            (subst (λ a. SentTo a s.world.sent o.world.sent) (sym (accept_addr h x)) sends) in
        record {
          server = c.server;
          live = c.live;
          timeouts = c.timeouts;
          others = λ q e. rw e;
          sends = λ z there.
              subst (λ (u : Session). SentTo u.addr s.world.sent o.world.sent)
                (same_session s.store p x z live there) sends;
        }

    -- a request on the stream
    pulls-Kept :
        (x.state ≡ State.sack_sent) ⊎ (x.state ≡ State.establsh)
        → (s' : Server) × (state_machine host files s p h buffer ≡ ok s') × Kept s p s'
    unfolding accept
    pulls-Kept ready =
        let (t, e, rested) = (k.sessions p x live).streams ready in
        let o = acked host files s p x h buffer live in
        let (q, run, pulled) = pull_rests host t o e rested in
        (
          _,
          pulls_one host files s p x h buffer live in_order not_reset ready ∙ rw (run, ◌>>=◌),
          commit-Kept q pulled.addr (record { streams = λ ready'. pulled.stream }) pulled.sends,
        )

    module _ (first : x.state ≡ State.initial) where
      opening : Opening s p x h
      opening = record {
        known = IsServer-Known s p x k live;
        first = first;
        in_order = in_order;
        not_reset = not_reset;
      }

      resets-Kept :
          flag_isset h.flags flag_syn ≡ false
          → (s' : Server) × (state_machine host files s p h buffer ≡ ok s') × Kept s p s'
      unfolding accept
      resets-Kept plain =
          let o = out_at (store_at s p (accept h x)) (accept h x) in
          let (st, addr) = reset_state host false o in
          (
            _,
            no_syn_resets host files s p x h buffer opening plain,
            commit-Kept (session_reset host false o).1 addr (initial-IsSession _ (st ∙ first))
                (reset-SentTo host false o),
          )

      admits-Kept :
          (syn : flag_isset h.flags flag_syn ≡ true) (name : List ℕ)
          (is_name : named h buffer ≡ ok name)
          → (fd : ℕ) (wav : Wav)
          → verdict host files s.world.errno (get_or buffer 0 0) name ≡ admit fd wav
          → (s' : Server) × (state_machine host files s p h buffer ≡ ok s') × Kept s p s'
      unfolding accept
      admits-Kept syn name is_name fd wav v = elim (Bool-cases (get_or buffer 0 0 == 0)) [
        | inl e ↦
            let noted = store_at s p (accept h x) in
            let o = out_at noted (accept h x) in
            let (errno, opens) =
              after_open_admitted host files noted p o fd wav (files.open_file name) (rw e at v) in
            let o' = streaming wav (with_errno errno (with_fd (some fd) o)) in
            let rested =
              admits-IsRested host files s.world.errno fd wav (files.open_file name) (rw e at v) in
            (
              _,
              looked_up host files s p x h buffer opening syn name is_name
                  ∙ rw e (
                      opens
                      ∙ establish_opens host files noted p wav
                          (with_errno errno (with_fd (some fd) o))),
              commit-Kept
                  (with_stream (open_stream wav)
                    (with_state State.sack_sent (session_syn_ack host o').1))
                  (syn_ack_addr host o')
                  (record { streams = λ ready. (open_stream wav, refl, rested) })
                  (syn_ack-SentTo host o'),
            )
        | inr e ↦ absurd (ground arith)
      ]

      -- a SYN that is not denied
      syn-Kept :
          flag_isset h.flags flag_syn ≡ true
          → (named h buffer >>= λ name.
              ok (denies (verdict host files s.world.errno (get_or buffer 0 0) name)))
            ≡ ok false
          → (s' : Server) × (state_machine host files s p h buffer ≡ ok s') × Kept s p s'
      syn-Kept syn stays =
          let (name, is_name, kept) = bind_ok (named h buffer) _ false stays in
          elim (verdict-cases (verdict host files s.world.errno (get_or buffer 0 0) name)) [
            | inl (code, v) ↦ absurd (ground (arith, rw v at kept))
            | inr (fd, wav, v) ↦ admits-Kept syn name is_name fd wav v
          ]

      syn_forgets :
          flag_isset h.flags flag_syn ≡ true
          → (named h buffer >>= λ name.
              ok (denies (verdict host files s.world.errno (get_or buffer 0 0) name)))
            ≡ ok true
          → (s' : Server) × (state_machine host files s p h buffer ≡ ok s') × (s'.store p ≡ none)
      syn_forgets syn gone =
          let (name, is_name, denied) = bind_ok (named h buffer) _ true gone in
          elim (verdict-cases (verdict host files s.world.errno (get_or buffer 0 0) name)) [
            | inl (code, v) ↦
                let (s', run, freed, table, answer) =
                  handshake_denied host files s p x h buffer opening syn name is_name code v in
                (s', run, freed)
            | inr (fd, wav, v) ↦ absurd (ground (arith, rw v at denied))
          ]

    -- the packets that none of the cases handles
    ignored-Kept :
        (st : State)
        → x.state ≡ st
        → dispatch host files st
            (store_at s p (accept h x))
            p
            (out_at (store_at s p (accept h x)) (accept h x))
            h
            buffer
          ≡ ok (store_at s p (accept h x))
        → (s' : Server) × (state_machine host files s p h buffer ≡ ok s') × Kept s p s'
    ignored-Kept st e same = (
      _,
      accepted host files s p x h buffer live in_order not_reset
          ∙ ap
              (λ st.
                dispatch host files st (store_at s p (accept h x)) p
                  (out_at (store_at s p (accept h x)) (accept h x)) h buffer)
              e
          ∙ same,
      noted-Kept,
    )

    by_state :
        (st : State)
        → x.state ≡ st
        → first_forgotten host files s.world.errno st h buffer ≡ ok false
        → (s' : Server) × (state_machine host files s p h buffer ≡ ok s') × Kept s p s'
    unfolding dispatch
    by_state State.initial e stays = elim (Bool-cases (flag_isset h.flags flag_syn)) [
      | inl syn ↦ syn-Kept e syn (rw syn at stays)
      | inr plain ↦ resets-Kept e plain
    ]
    by_state State.sack_sent e stays = pulls-Kept (inl e)
    by_state State.establsh e stays = pulls-Kept (inr e)
    by_state State.syn_rcvd e stays = ignored-Kept State.syn_rcvd e refl
    by_state State.syn_sent e stays = ignored-Kept State.syn_sent e refl
    by_state State.finished e stays = ignored-Kept State.finished e refl

    forgets_state :
        (st : State)
        → x.state ≡ st
        → first_forgotten host files s.world.errno st h buffer ≡ ok true
        → (s' : Server) × (state_machine host files s p h buffer ≡ ok s') × (s'.store p ≡ none)
    forgets_state State.initial e gone = elim (Bool-cases (flag_isset h.flags flag_syn)) [
      | inl syn ↦ syn_forgets e syn (rw syn at gone)
      | inr plain ↦ absurd (ground (arith, rw plain at gone))
    ]
    forgets_state State.sack_sent e gone = absurd cc
    forgets_state State.establsh e gone = absurd cc
    forgets_state State.syn_rcvd e gone = absurd cc
    forgets_state State.syn_sent e gone = absurd cc
    forgets_state State.finished e gone = absurd cc

  -- a packet that does not make the server forget its session
  pub machine-Kept :
      forgotten host files s.world.errno x h buffer ≡ ok false
      → (s' : Server) × (state_machine host files s p h buffer ≡ ok s') × Kept s p s'
  machine-Kept stays = elim (Bool-cases (ltb h.seq x.ack)) [
    | inl old ↦ (
      s,
      drops_old host files s p x h buffer live (ground arith),
      record {
        server = k;
        live = (x, live);
        timeouts = refl;
        others = λ q e. refl;
        sends = λ z there. SentTo-refl z.addr s.world.sent;
      },
    )
    | inr new ↦ elim (Bool-cases (flag_isset h.flags flag_rst)) [
      | inl rst ↦ absurd (ground (arith, rw (new, rst) at stays))
      | inr plain ↦ by_state (ground arith) plain x.state refl (rw (new, plain) at stays)
    ]
  ]

  -- a packet that makes it forget its session
  pub machine_forgets :
      forgotten host files s.world.errno x h buffer ≡ ok true
      → (s' : Server) × (state_machine host files s p h buffer ≡ ok s') × (s'.store p ≡ none)
  machine_forgets gone = elim (Bool-cases (ltb h.seq x.ack)) [
    | inl old ↦ absurd (ground (arith, rw old at gone))
    | inr new ↦ elim (Bool-cases (flag_isset h.flags flag_rst)) [
      | inl rst ↦
          let (s', run, d) =
            reset_forgets host files s p x (IsServer-Known s p x k live) h buffer (ground arith)
              rst in
          (s', run, d.freed)
      | inr plain ↦ forgets_state (ground arith) plain x.state refl (rw (new, plain) at gone)
    ]
  ]
