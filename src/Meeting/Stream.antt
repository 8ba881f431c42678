-- ===== src/Meeting/Stream.antt =====
-- A stream from a session of the server to an established client: the packets of
-- sas-server/src/session.c as sas_client_receive of sas-client/src/client.c takes them.
mod Tests
use sas.Base.{
  ℕ, suc, ◌+◌, ◌*◌, ◌%◌, ◌≤◌, ◌<◌, ◌≡◌, refl, sym, ap, ◌∙◌, true, false, List, [], ◌∷◌, ◌++◌, map,
  none, ok, ◌>>=◌, arith, length, take,
}
use sas.Base.Words.{u16_mod, u32_mod, add32}
use sas.Rxc.Long.{long_max}
use sas.Transport.{
  State, Header, IsHeader, Endian, flag_isset, flag_rst, flag_fin, flag_err, header_encode,
  header_decode, header_size,
}
use sas.Transport.Wire.{header_bytes, header_of}
use sas.Transport.Exchange.{header_exchange}
use sas.Server.Session.{
  Session, Sent, Out, Host, Wav, advance, session_send, session_send_chunk, session_reset,
}
use sas.Server.Sink.Delivery.{
  open_stream, ended_stream, reading, with_stream, file_of, FitBuffer, chunk_of, total, pulls,
  pull_sends, pull_ends, after_close,
}
use sas.Server.Sink.{session_pull}
use sas.Meeting.{take-length}
use sas.Client.{Client, Peer}
use sas.Client.Drivers.{driver_ignore}
use sas.Client.Machine.{Player, Arrival, arrived, returned, receive_loop}
use sas.Client.Machine.Acks.{playing, loop_step, after_chunk, after_chunk_state}
use sas.Client.Machine.Failures.{finish_step}
use sas.Server.Session.Sending.{plain, packet_of, send-sent}
use sas.Meeting.Packets.{InRange, on_wire, onto, advance_fits, chunk-session, arrives}

module _ (host : Host) (peer : Peer) (pad : List ℕ) where
  module _ (wav : Wav) where
    -- A session whose numbers are values of their types, whose file gives chunks of 1 to 1024 bytes
    -- and then ends, and whose sequence number stays below 2 ^ 32 all the while, hands one packet for
    -- each chunk and one more to sendto, on as many requests: their payloads are the chunks in order,
    -- and then nothing. An established client that expects no later sequence number, on a host of any
    -- byte order, whose sink has made r requests that are open, with r and the number of chunks
    -- together at most long_max, which plays through driver_ignore and to which these packets come in
    -- order, returns 0, whatever comes after them; it is then finished, and has sent two
    -- acknowledgements for each chunk.
    pub stream_meets :
        (chunks : List (ℕ × List ℕ)) (o : Out) (rest : List Arrival) (r : ℕ) (c : Client)
        → FitBuffer chunks
        → InRange o.session
        → o.session.seq + total chunks < u32_mod
        → c.session.state ≡ State.establsh
        → c.session.ack ≤ o.session.seq
        → r + length chunks ≤ long_max
        → (q : Out) × (packets : List Sent) × (w : Player (Unit {0})) × (pulls host
              (suc (length chunks))
              (with_stream (open_stream (reading wav (file_of chunks))) o)
            ≡ ok q)
          × (q.world.sent ≡ onto packets o.world.sent)
          × (map (λ s. s.payload) packets ≡ map chunk_of chunks ++ [] ∷ [])
          × (receive_loop peer driver_ignore 2
                (map (on_wire host peer pad) packets ++ rest)
                (playing r c)
              ≡ ok (returned 0 w))
          × (w.pipe.source.session.state ≡ State.finished)
          × (length w.pipe.source.sent ≡ length c.sent + 2 * length chunks)
    unfolding pulls session_pull session_reset total flag_isset
    stream_meets [] o rest r c fit v small st old fits =
        let p = with_stream (open_stream (reading wav [])) o in
        let packet = packet_of host 5 0 [] o.session in
        let d = arrives host peer pad 5 0 [] o.session v (omega arith) (omega arith) in
        let (w, run, ended, sent, sink) =
          finish_step peer driver_ignore 2 (playing r c)
            (header_of peer.endian (header_bytes host.endian pad packet.header)) packet.payload rest
            st (omega (arith, old, ap (λ (h : Header). h.seq) d))
            (ap (λ (h : Header). flag_isset h.flags flag_rst) d)
            (ap (λ (h : Header). flag_isset h.flags flag_err) d)
            (ap (λ (h : Header). flag_isset h.flags flag_fin) d) in
        (
          with_stream (ended_stream (record wav { file = []; finished = true }))
              (session_reset host true (after_close host wav p)).1,
          packet ∷ [],
          w,
          rw (pull_ends host wav p, ◌>>=◌),
          send-sent host 5 0 [] (after_close host wav p),
          refl,
          run,
          ended,
          omega (arith, ap length sent),
        )
    stream_meets ((b, bs) ∷ cs) o rest r c fit v small st old fits =
        let n = length (b ∷ bs) in
        let p = with_stream (open_stream (reading wav (file_of ((b, bs) ∷ cs)))) o in
        let packet = packet_of host 0 (n % u16_mod) (b ∷ bs) o.session in
        let whole : n % u16_mod ≡ n = omega (arith, fit.0) in
        let wire = header_of peer.endian (header_bytes host.endian pad packet.header) in
        let h = header_decode peer.endian wire in
        let d =
          arrives host peer pad 0 (n % u16_mod) (b ∷ bs) o.session v (omega arith) (omega arith) in
        let o' = (session_send_chunk host (b ∷ bs) p).1 in
        let (moved, same_ack, same_window, handed) =
          chunk-session host b bs p fit.0 (omega (arith, small)) in
        let c' = after_chunk peer h packet.payload c in
        let (st', ack', sent', size') = after_chunk_state peer h packet.payload c in
        let next : c'.session.ack ≡ o'.session.seq =
          ack'
          ∙ ap (λ (g : Header). add32 g.seq (advance g.length)) d
          ∙ advance_fits o.session.seq n (omega arith) fit.0 (omega (arith, small))
          ∙ sym moved in
        let (q, packets, w, run, sent, carried, plays, ended, acks) =
          stream_meets cs o' rest (r + 1) c' fit.1
            (record {
              seq = omega (arith, moved, small);
              ack = omega (arith, same_ack, v.ack);
              window = omega (arith, same_window, v.window);
            })
            (omega (arith, moved, small)) (st' ∙ st) (omega (arith, next)) (omega arith) in
        (
          q,
          packet ∷ packets,
          w,
          rw (pull_sends host wav p b bs (file_of cs), ◌>>=◌) run,
          sent ∙ ap (onto packets) handed,
          ap (λ x. x ∷ map (λ s. s.payload) packets)
                (ap (λ k. take k (b ∷ bs)) whole ∙ take-length (b ∷ bs))
              ∙ ap (◌∷◌ (b ∷ bs)) carried,
          loop_step peer wire packet.payload (map (on_wire host peer pad) packets ++ rest) r c st
                (omega (arith, old, ap (λ (g : Header). g.seq) d))
                (ap (λ (g : Header). flag_isset g.flags flag_rst) d) (omega arith)
              ∙ plays,
          ended,
          omega (arith, acks, sent'),
        )
