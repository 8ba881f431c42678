-- ===== src/Meeting/Packets.antt =====
-- The packets that sas-server/src/session.c hands to sendto for a stream, and how the client's memory
-- holds them.
pub mod Offsets
use sas.Base.{
  ℕ, suc, ◌+◌, ◌*◌, ◌%◌, ◌≤◌, ◌<◌, ◌≡◌, refl, sym, ap, ◌∙◌, true, false, List, [], ◌∷◌, ◌++◌, map,
  none, ok, ◌>>=◌, arith, length, take,
}
use sas.Base.Words.{u16_mod, u32_mod, add32}
use sas.Rxc.Long.{long_max}
use sas.Transport.{
  State, Header, IsHeader, Endian, flag_isset, flag_rst, flag_fin, flag_err, header_encode,
  header_decode, header_size,
}
use sas.Transport.Wire.{header_bytes, header_of}
use sas.Transport.Exchange.{header_exchange}
use sas.Server.Session.{
  Session, Sent, Out, Host, Wav, advance, session_send, session_send_chunk, session_reset,
}
use sas.Server.Session.Sending.{plain, packet_of, send-sent}
use sas.Server.Sink.Delivery.{
  open_stream, ended_stream, reading, with_stream, file_of, FitBuffer, chunk_of, total, pulls,
  pull_sends, pull_ends, after_close,
}
use sas.Server.Sink.{session_pull}
use sas.Meeting.{take-length}
use sas.Client.{Client, Peer}
use sas.Client.Drivers.{driver_ignore}
use sas.Client.Machine.{Player, Arrival, arrived, returned, receive_loop}
use sas.Client.Machine.Acks.{playing, loop_step, after_chunk, after_chunk_state}
use sas.Client.Machine.Failures.{finish_step}

-- the numbers of a session are values of their types
pub record InRange (x : Session) : Type 0 where
  pub seq : x.seq < u32_mod
  pub ack : x.ack < u32_mod
  pub window : x.receive_window < u16_mod

-- a datagram of the server, as the client's memory holds it; `pad` is the padding of the header
abbrev pub on_wire : Host → Peer → List ℕ → Sent → Arrival
on_wire host peer pad s =
    arrived (header_of peer.endian (header_bytes host.endian pad s.header)) s.payload

-- a list in front of another, the last foremost
abbrev pub onto {ℓ} : {A : Type ℓ} → List A → List A → List A
onto [] ys = ys
onto (x ∷ xs) ys = onto xs (x ∷ ys)

pub advance_fits :
    (seq n : ℕ) → 0 < n → n ≤ 1024 → seq + n < u32_mod → add32 seq (advance (n % u16_mod)) ≡ seq + n
advance_fits seq n some_bytes fit small = ground arith

-- what a chunk that fits the buffer changes of the session
pub chunk-session :
    (host : Host) (b : ℕ) (bs : List ℕ) (o : Out)
    → length (b ∷ bs) ≤ 1024
    → o.session.seq + length (b ∷ bs) < u32_mod
    → ((session_send_chunk host (b ∷ bs) o).1.session.seq ≡ o.session.seq + length (b ∷ bs))
      × ((session_send_chunk host (b ∷ bs) o).1.session.ack ≡ o.session.ack)
      × ((session_send_chunk host (b ∷ bs) o).1.session.receive_window ≡ o.session.receive_window)
      × ((session_send_chunk host (b ∷ bs) o).1.world.sent
          ≡ packet_of host 0 (length (b ∷ bs) % u16_mod) (b ∷ bs) o.session ∷ o.world.sent)
unfolding session_send_chunk session_send
chunk-session host b bs o fit small = (ground arith, ground arith, ground arith, ground arith)

chunk-addr :
    (host : Host) (b : ℕ) (bs : List ℕ) (o : Out)
    → (session_send_chunk host (b ∷ bs) o).1.session.addr ≡ o.session.addr
unfolding session_send_chunk session_send
chunk-addr host b bs o = ground arith

module _ (host : Host) (peer : Peer) (pad : List ℕ) where
  pub arrives :
      (flags n : ℕ) (payload : List ℕ) (x : Session)
      → InRange x
      → flags < 256
      → n < u16_mod
      → header_decode peer.endian (
          header_of peer.endian
            (header_bytes host.endian pad (packet_of host flags n payload x).header))
        ≡ plain flags n x
  arrives flags n payload x v f h =
      header_exchange host.endian peer.endian pad (plain flags n x) (record {
        seq_in = v.seq;
        ack_in = v.ack;
        reserved_in = omega arith;
        flags_in = f;
        window_in = v.window;
        length_in = h;
      })

-- the packets of a stream that starts at a sequence number: one for each chunk, then the reset
abbrev pub stream_packets : Host → Session → List (ℕ × List ℕ) → ℕ → List Sent
stream_packets host x [] seq =
    packet_of host (flag_rst + flag_fin) 0 [] (record x { seq = seq }) ∷ []
stream_packets host x (c ∷ cs) seq =
    packet_of host 0 (length (chunk_of c) % u16_mod) (chunk_of c) (record x { seq = seq })
    ∷ stream_packets host x cs (seq + length (chunk_of c))

pub length-stream_packets :
    (host : Host) (x : Session) (cs : List (ℕ × List ℕ)) (seq : ℕ)
    → length (stream_packets host x cs seq) ≡ suc (length cs)
length-stream_packets host x [] seq = refl
length-stream_packets host x (c ∷ cs) seq =
    ap suc (length-stream_packets host x cs (seq + length (chunk_of c)))

stream_packets_same :
    (host : Host) (x y : Session)
    → x.addr ≡ y.addr
    → x.ack ≡ y.ack
    → x.receive_window ≡ y.receive_window
    → (cs : List (ℕ × List ℕ)) (seq : ℕ)
    → stream_packets host x cs seq ≡ stream_packets host y cs seq
stream_packets_same host x y addr ack window [] seq = rw (addr, ack, window)
stream_packets_same host x y addr ack window (c ∷ cs) seq =
    rw (
      addr,
      ack,
      window,
      stream_packets_same host x y addr ack window cs (seq + length (chunk_of c)),
    )

-- as many requests as there are chunks and one more hand exactly these to sendto
pub pulls_packets :
    (host : Host) (wav : Wav) (chunks : List (ℕ × List ℕ)) (o : Out)
    → FitBuffer chunks
    → o.session.seq + total chunks < u32_mod
    → (q : Out) × (pulls host
          (suc (length chunks))
          (with_stream (open_stream (reading wav (file_of chunks))) o)
        ≡ ok q)
      × (q.world.sent ≡ onto (stream_packets host o.session chunks o.session.seq) o.world.sent)
unfolding pulls session_pull session_reset total
pulls_packets host wav [] o fit small =
    let p = with_stream (open_stream (reading wav [])) o in
    (
      with_stream (ended_stream (record wav { file = []; finished = true }))
          (session_reset host true (after_close host wav p)).1,
      rw (pull_ends host wav p, ◌>>=◌),
      send-sent host 5 0 [] (after_close host wav p),
    )
pulls_packets host wav ((b, bs) ∷ cs) o fit small =
    let p = with_stream (open_stream (reading wav (file_of ((b, bs) ∷ cs)))) o in
    let o' = (session_send_chunk host (b ∷ bs) p).1 in
    let (moved, same_ack, same_window, handed) =
      chunk-session host b bs p fit.0 (omega (arith, small)) in
    let (q, run, sent) = pulls_packets host wav cs o' fit.1 (omega (arith, moved, small)) in
    let same =
      stream_packets_same host o'.session o.session (chunk-addr host b bs p) same_ack same_window cs
        o'.session.seq
      ∙ ap (stream_packets host o.session cs) moved in
    (
      q,
      rw (pull_sends host wav p b bs (file_of cs), ◌>>=◌) run,
      sent
          ∙ ap (λ packets. onto packets o'.world.sent) same
          ∙ ap (onto (stream_packets host o.session cs (o.session.seq + length (b ∷ bs)))) handed,
    )
