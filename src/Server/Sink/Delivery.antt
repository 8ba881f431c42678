-- ===== src/Server/Sink/Delivery.antt =====
-- What a session's pipeline sends, request by request.
use sas.Base.{
  ℕ, zero, suc, ◌+◌, ◌%◌, ◌≤◌, ◌<◌, ◌≡◌, refl, ap, ◌∙◌, true, false, List, [], ◌∷◌, map, some, Run,
  ok, ◌>>=◌, arith, length, take,
}
use sas.Base.Words.{u16_mod, u32_mod}
use sas.Rxc.Long.{long_min}
use sas.Rxc.Connection.{connection_pull, outlet_emit, outlet_complete, outlet_fail}
use sas.Rxc.Pipeline.{worker_loop, worker_enqueue, inlet_pull, pipeline_start}
use sas.Server.Session.{
  bytes, failed, File, Wav, Stream, Sent, Out, Host, session_send_chunk, session_reset,
  session_error, session_send,
}
use sas.Server.Wav.{wav_logic, pull_loop}
use sas.Server.Sink.{session_sink, start_stream, pull_stream, session_pull}

-- a stream whose file is not at its end, with nothing requested
abbrev pub open_stream : Wav → Stream
open_stream wav = record { requested = 0; queue = []; wip = false; parent = true; wav = wav }

-- a stream that has ended
abbrev pub ended_stream : Wav → Stream
ended_stream wav = record (open_stream wav) { requested = long_min }

abbrev pub reading : Wav → File → Wav
reading wav file = record wav { file = file; finished = false }

abbrev pub with_stream : Stream → Out → Out
with_stream s o = record o { session = record (o.session) { stream = some s } }

module _ (host : Host) (wav : Wav) (o : Out) where
  -- the pipeline starts with nothing requested
  pub start_opens : start_stream host wav o ≡ ok (with_stream (open_stream wav) o)
  unfolding start_stream pipeline_start session_sink
  start_opens = refl

  pub pull_sends :
      (b : ℕ) (bs : List ℕ) (file : File)
      → pull_stream host (open_stream (reading wav (bytes (b ∷ bs) ∷ file))) o
        ≡ ok (with_stream (open_stream (reading wav file)) (session_send_chunk host (b ∷ bs) o).1)
  unfolding pull_stream worker_loop worker_enqueue inlet_pull connection_pull outlet_emit
      session_sink wav_logic pull_loop
  pull_sends b bs file = refl

  -- the world where the file is closed
  abbrev pub after_close : Out
  after_close = record o { world = record (o.world) { closed = wav.fd ∷ o.world.closed } }

  pub pull_ends :
      pull_stream host (open_stream (reading wav [])) o
      ≡ ok (
          with_stream
            (ended_stream (record wav { file = []; finished = true }))
            (session_reset host true after_close).1)
  unfolding pull_stream worker_loop worker_enqueue inlet_pull connection_pull outlet_complete
      session_sink wav_logic pull_loop
  pull_ends = refl

  pub pull_ended :
      (file : File)
      → pull_stream host (ended_stream (record wav { file = file; finished = true })) o
        ≡ ok (with_stream (ended_stream (record wav { file = file; finished = true })) o)
  unfolding pull_stream worker_loop worker_enqueue inlet_pull connection_pull session_sink
  pull_ended file = refl

  pub pull_fails :
      (e : ℕ) (file : File)
      → (q : Out) × (pull_stream host (open_stream (reading wav (failed e ∷ file))) o ≡ ok q)
        × (q.session
            ≡ (with_stream
                (ended_stream (record wav { file = file; finished = true }))
                (session_error host e
                  (record o { world = record (o.world) { errno = e } })).1).session)
        × (q.world.sent
            ≡ (session_error host e
                (record o { world = record (o.world) { errno = e } })).1.world.sent)
  unfolding pull_stream worker_loop worker_enqueue inlet_pull connection_pull outlet_fail
      session_sink wav_logic pull_loop
  pull_fails e file = (_, refl, refl, refl)

-- the chunks of a file, each of one byte or more
abbrev pub chunk_of : ℕ × List ℕ → List ℕ
chunk_of (b, bs) = b ∷ bs

abbrev pub file_of : List (ℕ × List ℕ) → File
file_of [] = []
file_of (c ∷ cs) = bytes (chunk_of c) ∷ file_of cs

-- a buffer of on_pull holds 1024 bytes
abbrev pub FitBuffer : List (ℕ × List ℕ) → Type 0
FitBuffer [] = Unit
FitBuffer (c ∷ cs) = (length (chunk_of c) ≤ 1024) × FitBuffer cs

unfoldable pub total : List (ℕ × List ℕ) → ℕ
total [] = 0
total (c ∷ cs) = length (chunk_of c) + total cs

-- The payloads of the packets sent, the latest first.
abbrev pub payloads : List Sent → List (List ℕ)
payloads = map (λ s. s.payload)

-- the chunks put in front of a list, the last chunk foremost
abbrev pub rev_onto : List (ℕ × List ℕ) → List (List ℕ) → List (List ℕ)
rev_onto [] acc = acc
rev_onto (c ∷ cs) acc = rev_onto cs (chunk_of c ∷ acc)

take-length : (xs : List ℕ) → take (length xs) xs ≡ xs
take-length [] = refl
take-length (x ∷ xs) = ap (◌∷◌ x) (take-length xs)

module _ (host : Host) where
  -- n requests of the client
  unfoldable pub pulls : ℕ → Out → Run Out
  pulls zero o = ok o
  pulls (suc n) o = session_pull host o >>= pulls n

  pub payloads-session_send :
      (flags n : ℕ) (payload : List ℕ) (o : Out)
      → payloads (session_send host flags n payload o).1.world.sent
        ≡ take n payload ∷ payloads o.world.sent
  unfolding session_send
  payloads-session_send flags n payload o = ground arith

  pub payloads-send_chunk :
      (c : List ℕ) (o : Out)
      → length c ≤ 1024
      → payloads (session_send_chunk host c o).1.world.sent ≡ c ∷ payloads o.world.sent
  unfolding session_send_chunk
  payloads-send_chunk c o h =
      let small : length c % u16_mod ≡ length c = omega arith in
      payloads-session_send 0 _ c o
      ∙ ap (λ xs. xs ∷ payloads o.world.sent) (ap (λ n. take n c) small ∙ take-length c)

  module _ (wav : Wav) where
    -- what is left when the file is at its end, the last packet sent and the sink told
    pub record Delivered (chunks : List (ℕ × List ℕ)) (o q : Out) : Type 0 where
      pub in_order : payloads q.world.sent ≡ [] ∷ rev_onto chunks (payloads o.world.sent)
      pub numbered : q.session.seq ≡ (o.session.seq + total chunks + 1) % u32_mod
      pub silent : (n : ℕ) → pulls n q ≡ ok q

    silent_ended :
        (n : ℕ) (o : Out)
        → let q = with_stream (ended_stream (record wav { file = []; finished = true })) o in
          pulls n q ≡ ok q
    unfolding pulls session_pull
    silent_ended zero o = refl
    silent_ended (suc n) o =
        let q = with_stream (ended_stream (record wav { file = []; finished = true })) o in
        rw (pull_ended host wav q [], ◌>>=◌) (silent_ended n o)

    -- A session whose file gives chunks of 1 to 1024 bytes and then ends sends, on one request for
    -- each chunk and one more, each chunk in order and then a packet with no payload; its sequence
    -- number counts every byte sent and the last packet once, modulo 2 ^ 32; and any requests that
    -- follow send nothing.
    pub stream_delivers :
        (chunks : List (ℕ × List ℕ)) (o : Out)
        → FitBuffer chunks
        → o.session.seq < u32_mod
        → (q : Out) × (pulls
              (suc (length chunks))
              (with_stream (open_stream (reading wav (file_of chunks))) o)
            ≡ ok q)
          × Delivered chunks o q
    unfolding pulls session_pull total session_reset session_send session_send_chunk
    stream_delivers [] o fit r =
        let p = with_stream (open_stream (reading wav [])) o in
        (
          with_stream (ended_stream (record wav { file = []; finished = true }))
              (session_reset host true (after_close host wav p)).1,
          rw (pull_ends host wav p, ◌>>=◌),
          record {
            in_order = payloads-session_send 5 0 [] (after_close host wav p);
            numbered = ground arith;
            silent = λ n. silent_ended n (session_reset host true (after_close host wav p)).1;
          },
        )
    stream_delivers ((b, bs) ∷ cs) o fit r =
        let p = with_stream (open_stream (reading wav (file_of ((b, bs) ∷ cs)))) o in
        let o' = (session_send_chunk host (b ∷ bs) p).1 in
        let (q, run, d) = stream_delivers cs o' fit.1 (omega arith) in
        (
          q,
          rw (pull_sends host wav p b bs (file_of cs), ◌>>=◌) run,
          record {
            in_order =
                d.in_order ∙ ap (λ l. [] ∷ rev_onto cs l) (payloads-send_chunk (b ∷ bs) p fit.0);
            numbered = ground (arith, d.numbered);
            silent = d.silent;
          },
        )
