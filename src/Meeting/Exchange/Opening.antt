-- ===== src/Meeting/Exchange/Opening.antt =====
-- The handshake of the exchange: a session answers a SYN, and the client opens its audio device.
use sas.Base.{ℕ, ◌+◌, ◌≡◌, refl, ◌∙◌, true, List, ◌∷◌, some, ok, arith, get_or}
use sas.Base.Words.{add32}
use sas.Transport.{State, Header, flag_isset, flag_syn, flag_ack, cfg_ack_size, cfg_ack_encode}
use sas.Transport.Wire.{cfg_ack_bytes}
use sas.Timeout.{Ptr}
use sas.Server.Session.{Wav, Session, Host, advance, session_send, session_syn_ack}
use sas.Server.Session.Sending.{packet_of, send-sent}
use sas.Server.Sink.Delivery.{open_stream, with_stream}
use sas.Server.Table.{Server}
use sas.Server.Machine.{
  Files, accept, state_machine, streaming, with_fd, with_errno, with_state, out_at, commit,
}
use sas.Server.Machine.Handshake.{
  admit, verdict_of, named, Opening, start, looked_up, after_open_admitted, establish_opens,
}
use sas.Meeting.Exchange.Answers.{hearing}

-- the bytes of the parameters of a file's format
abbrev pub format_bytes : Host → Wav → ℕ → List ℕ
format_bytes host wav codec = cfg_ack_bytes host.endian host.padding (
    cfg_ack_encode host.endian (record {
      sample_rate = wav.sample_rate;
      sample_size = wav.sample_size;
      channels = wav.channels;
      codec = codec;
    }))

module _ (host : Host) (files : Files) (s : Server) (p : Ptr) (x : Session) (h : Header)
    (buffer : List ℕ) (opening : Opening s p x h) (syn : flag_isset h.flags flag_syn ≡ true)
    (name : List ℕ) (is_name : named h buffer ≡ ok name) (codec : get_or buffer 0 0 ≡ 0) where
  -- a session that has answered
  pub record Admits (wav : Wav) (s' : Server) (x' : Session) : Type 0 where
    pub run : state_machine host files s p h buffer ≡ ok s'
    pub live : s'.store p ≡ some x'
    pub sent :
        s'.world.sent
        ≡ packet_of host
            (flag_syn + flag_ack)
            cfg_ack_size
            (format_bytes host wav x.codec)
            (hearing h x)
          ∷ s.world.sent
    pub state : x'.state ≡ State.sack_sent
    pub stream : x'.stream ≡ some (open_stream wav)
    pub addr : x'.addr ≡ x.addr
    pub seq : x'.seq ≡ add32 x.seq cfg_ack_size
    pub ack : x'.ack ≡ add32 h.seq (advance h.length)
    pub window : x'.receive_window ≡ x.receive_window

  pub syn_answer :
      (fd : ℕ) (wav : Wav)
      → verdict_of host files s.world.errno (files.open_file name) ≡ admit fd wav
      → (s' : Server) × (x' : Session) × Admits wav s' x'
  unfolding accept session_syn_ack session_send
  syn_answer fd wav v =
      let begun = start host files s p x h buffer opening in
      let o = out_at begun (accept h x) in
      let (errno, opens) =
        after_open_admitted host files begun p o fd wav (files.open_file name) v in
      let o' = streaming wav (with_errno errno (with_fd (some fd) o)) in
      let q =
        with_stream (open_stream wav) (with_state State.sack_sent (session_syn_ack host o').1) in
      (
        commit begun p q,
        q.session,
        record {
          run =
              looked_up host files s p x h buffer opening syn name is_name
              ∙ rw codec (
                  opens
                  ∙ establish_opens host files begun p wav
                      (with_errno errno (with_fd (some fd) o)));
          live = ground arith;
          sent =
              send-sent host (flag_syn + flag_ack) cfg_ack_size (format_bytes host wav x.codec) o';
          state = refl;
          stream = refl;
          addr = refl;
          seq = refl;
          ack = refl;
          window = refl;
        },
      )
