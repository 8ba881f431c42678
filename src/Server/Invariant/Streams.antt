-- ===== src/Server/Invariant/Streams.antt =====
-- A request on a rested stream ends, and leaves the stream rested.
use sas.Base.{
  ℕ, ◌+◌, ◌≡◌, refl, ap, ◌∙◌, inl, inr, true, [], ◌∷◌, Option, some, ok, ◌>>=◌, or_fault, Fault,
  ◌%◌, length,
}
use sas.Base.Words.{u16_mod}
use sas.Rxc.Connection.{connection_pull, outlet_emit, outlet_complete, outlet_fail}
use sas.Rxc.Pipeline.{worker_loop, worker_enqueue, inlet_pull}
use sas.Server.Session.{
  bytes, failed, File, Wav, Stream, Out, Host, session_send, session_send_chunk, session_reset,
  session_error,
}
use sas.Server.Wav.{close_fd, wav_logic, pull_loop}
use sas.Transport.{flag_rst, flag_err, err_size, err_encode}
use sas.Transport.Wire.{err_bytes}
use sas.Server.Sink.{session_sink, pull_stream, session_pull}
use sas.Server.Sink.Delivery.{open_stream, ended_stream, reading}
use sas.Server.Invariant.{IsRested}
use sas.Server.Invariant.Sends.{SentTo, SentTo-refl, send-SentTo}

-- the world once the file is closed, or a read has failed
abbrev closing : Wav → Out → Out
closing wav o = record o { world = record (o.world) { closed = wav.fd ∷ o.world.closed } }

abbrev noting : ℕ → Out → Out
noting e o = record o { world = record (o.world) { errno = e } }

module _ (host : Host) where
  -- what a request leaves
  pub record Pulled (o q : Out) : Type 0 where
    pub addr : q.session.addr ≡ o.session.addr
    pub state : q.session.state ≡ o.session.state
    pub sends : SentTo o.session.addr o.world.sent q.world.sent
    pub stream : (t : Stream) × (q.session.stream ≡ some t) × IsRested t

  pull_open :
      (wav : Wav) (file : File) (o : Out)
      → (q : Out) × (pull_stream host (open_stream (reading wav file)) o ≡ ok q) × Pulled o q
  unfolding pull_stream worker_loop worker_enqueue inlet_pull connection_pull outlet_emit
      outlet_complete outlet_fail session_sink wav_logic pull_loop session_send session_send_chunk
      session_reset session_error close_fd
  pull_open wav [] o = (
    _,
    refl,
    record {
      addr = refl;
      state = refl;
      sends = send-SentTo host 5 0 [] (closing wav o);
      stream = (_, refl, (wav, [], inr refl));
    },
  )
  pull_open wav (bytes [] ∷ file) o = (
    _,
    refl,
    record {
      addr = refl;
      state = refl;
      sends = send-SentTo host 5 0 [] (closing wav o);
      stream = (_, refl, (wav, file, inr refl));
    },
  )
  pull_open wav (bytes (b ∷ bs) ∷ file) o = (
    _,
    refl,
    record {
      addr = refl;
      state = refl;
      sends = send-SentTo host 0 (length (b ∷ bs) % u16_mod) (b ∷ bs) o;
      stream = (_, refl, (wav, file, inl refl));
    },
  )
  pull_open wav (failed e ∷ file) o = (
    _,
    refl,
    record {
      addr = refl;
      state = refl;
      sends =
          send-SentTo host (flag_rst + flag_err) err_size
            (err_bytes host.endian (err_encode host.endian (record { err = e }))) (noting e o);
      stream = (_, refl, (wav, file, inr refl));
    },
  )

  pull_over :
      (wav : Wav) (file : File) (o : Out)
      → (q : Out) × (pull_stream host (ended_stream (record wav { file = file; finished = true })) o
          ≡ ok q)
        × Pulled o q
  unfolding pull_stream worker_loop worker_enqueue inlet_pull connection_pull session_sink
  pull_over wav file o = (
    _,
    refl,
    record {
      addr = refl;
      state = refl;
      sends = SentTo-refl o.session.addr o.world.sent;
      stream = (_, refl, (wav, file, inr refl));
    },
  )

  stream_is :
      (t u : Stream) (o : Out)
      → o.session.stream ≡ some t
      → t ≡ u
      → session_pull host o ≡ pull_stream host u o
  unfolding session_pull
  stream_is t u o e same =
      ap (λ (st : Option Stream). or_fault st Fault.null_pointer >>= λ s. pull_stream host s o)
        (e ∙ ap some same)

  -- any request on the pipeline of such a session
  pub pull_rests :
      (t : Stream) (o : Out)
      → o.session.stream ≡ some t
      → IsRested t
      → (q : Out) × (session_pull host o ≡ ok q) × Pulled o q
  pull_rests t o e (wav, file, inl is_open) =
      let (q, run, p) = pull_open wav file o in (q, stream_is t _ o e is_open ∙ run, p)
  pull_rests t o e (wav, file, inr is_over) =
      let (q, run, p) = pull_over wav file o in (q, stream_is t _ o e is_over ∙ run, p)
