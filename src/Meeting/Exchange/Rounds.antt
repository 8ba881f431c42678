-- ===== src/Meeting/Exchange/Rounds.antt =====
-- One round of a stream: the server sends a chunk or the end, and the client takes it.
use sas.Base.{
  ℕ, suc, ◌+◌, ◌≤◌, ◌<◌, ◌≡◌, ap, ◌∙◌, inr, true, false, List, [], ◌∷◌, ◌++◌, Option, some, ok,
  arith, length, length-append,
}
use sas.Rxc.Long.{long_max}
use sas.Transport.{State, Header, flag_isset, flag_rst, flag_fin, flag_err}
use sas.Transport.Wire.{header_bytes, header_of}
use sas.Timeout.{Ptr}
use sas.Server.Session.{Wav, Session, Host, World}
use sas.Server.Session.Sending.{packet_of}
use sas.Server.Sink.Delivery.{ended_stream, file_of, total}
use sas.Server.Table.{Server}
use sas.Server.Machine.{Files}
use sas.Client.{Chunk, Client, Datagram, Peer}
use sas.Client.Drivers.{Oss, Audio, driver_oss, write_failed}
use sas.Client.Machine.{Player, returned}
use sas.Client.Machine.Device.{sounding}
use sas.Client.Machine.Failures.{finish_step}
use sas.Client.Machine.Sound.{device}
use sas.Meeting.Packets.{InRange, arrives}
use sas.Meeting.Network.{heard}
use sas.Meeting.Exchange.{to_server, told_of, converse}
use sas.Meeting.Exchange.Answers.{hearing, chunk-Answer, end-Answer}
use sas.Meeting.Exchange.Asks.{AreAsks-two}
use sas.Meeting.Exchange.Turns.{goes_on, ends, one_answer, ask_counts, takes}
use sas.Server.Address.{Addr}
use sas.Server.Loop.{session_timeout}
use sas.Server.Invariant.{IsServer}
use sas.Meeting.Exchange.Talking.{Talking, served_turn}

module _ (host : Host) (files : Files) (junk : Session) (addr : Addr) (clock : ℕ → ℕ) (peer : Peer)
    (pad stale : List ℕ) (audio : Audio) (p : Ptr) where
  -- one round, in which the server sends a chunk and the client plays it
  module _ (wav : Wav) (b : ℕ) (bs : List ℕ) (cs : List (ℕ × List ℕ)) where
    pub chunk_round :
        (k : ℕ) (s : Server) (x : Session) (c : Client) (d : Datagram) (asks : List Datagram)
        (r fd : ℕ) (n : Option ℕ) (writes : List (Option ℕ)) (played : List Chunk) (closed : List ℕ)
        → Talking host peer pad addr p wav ((b, bs) ∷ cs) s x c (d ∷ asks)
        → length (b ∷ bs) ≤ 1024
        → r < long_max
        → write_failed n ≡ false
        → (s' : Server) × (x' : Session) × (c' : Client) × (chunk : Chunk) × (more : List Datagram)
          × (converse host files junk addr clock peer pad stale audio
                (suc k)
                (d ∷ asks)
                s
                (sounding peer audio r c (device fd (n ∷ writes) played closed))
              ≡ converse host files junk addr clock peer pad stale audio k more s'
                  (sounding peer audio (r + 1) c' (device fd writes (chunk ∷ played) closed)))
          × (heard chunk ≡ told_of (b, bs))
          × Talking host peer pad addr p wav cs s' x' c' more
    unfolding total
    chunk_round k s x c d asks r fd n writes played closed t fit fits good =
        let h = to_server host peer pad d in
        let first = t.asked.0 in
        let count =
          ask_counts host files junk addr clock peer pad stale audio d x.ack first
            (omega (arith, t.counted, t.room)) in
        let (s', x', a, stream, seq) =
          chunk-Answer host files s p x h (d.payload ++ stale) t.live (omega (arith, first.seq_is))
            first.plain t.ready wav b bs (file_of cs) t.stream fit (omega (arith, t.small)) in
        let (q, handled, kept, now_live, world) =
          served_turn host files junk addr clock peer pad stale audio p (clock k) wav ((b, bs) ∷ cs)
            s s' x x' c d asks t a.run a.live in
        let now : InRange (hearing h x) = record {
          seq = t.numbers.seq;
          ack = omega (arith, count, t.counted, t.room);
          window = t.numbers.window;
        } in
        let (c', chunk, a1, a2, run, told, st, expects, counted, sends, is1, is2) =
          takes host files junk addr clock peer pad stale audio (hearing h x) b bs r fd c n writes
            played closed now fit (omega (arith, t.small)) t.plays t.expects (omega (arith, t.room))
            fits good in
        let w = sounding peer audio r c (device fd (n ∷ writes) played closed) in
        let w' = sounding peer audio (r + 1) c' (device fd writes (chunk ∷ played) closed) in
        let grown = length-append asks (a1 ∷ a2 ∷ []) in
        let place : c.session.seq ≡ suc x.ack + length asks = omega (arith, t.counted) in
        let next : x'.ack ≡ suc x.ack = omega (arith, a.ack, count) in
        (
          q,
          record x' { timeout = clock k + session_timeout },
          c',
          chunk,
          asks ++ a1 ∷ a2 ∷ [],
          goes_on host files junk addr clock peer pad stale audio k d asks (a1 ∷ a2 ∷ []) s q w w' _
              handled
              (one_answer host files junk addr clock peer pad stale audio s q _
                (ap (λ (u : World). u.sent) world ∙ a.sent))
              run sends,
          told,
          record {
            served = kept;
            home = a.addr ∙ t.home;
            live = now_live;
            ready = inr a.state;
            stream = stream;
            numbers = record {
              seq = omega (arith, seq, t.small);
              ack = omega (arith, a.ack, count, t.counted, t.room);
              window = omega (arith, a.window, t.numbers.window);
            };
            small = omega (arith, seq, t.small);
            plays = st;
            expects = omega (arith, expects, seq);
            some_ask = omega (arith, grown);
            asked =
                AreAsks-two host peer pad x'.ack (suc x.ack) c.session.seq asks a1 a2 next place
                  t.asked.1 is1 is2;
            counted = omega (arith, counted, next, grown, t.counted);
            room = omega (arith, counted, t.room);
          },
        )

  -- the round in which the file is at its end
  pub end_round :
      (k : ℕ) (wav : Wav) (s : Server) (x : Session) (c : Client) (d : Datagram)
      (asks : List Datagram) (r : ℕ) (oss : Oss)
      → Talking host peer pad addr p wav [] s x c (d ∷ asks)
      → (s' : Server) × (x' : Session) × (w : Player Oss) × (converse host files junk addr clock
            peer pad stale audio
            (suc k)
            (d ∷ asks)
            s
            (sounding peer audio r c oss)
          ≡ ok (returned 0 w, s'))
        × (w.pipe.source.session.state ≡ State.finished)
        × (w.pipe.sink ≡ oss)
        × IsServer s'
        × (s'.store p ≡ some x')
        × (x'.stream ≡ some (ended_stream (record wav { file = []; finished = true })))
  unfolding flag_isset
  end_round k wav s x c d asks r oss t =
      let h = to_server host peer pad d in
      let first = t.asked.0 in
      let count =
        ask_counts host files junk addr clock peer pad stale audio d x.ack first
          (omega (arith, t.counted, t.room)) in
      let (s', x', a, stream) =
        end-Answer host files s p x h (d.payload ++ stale) t.live (omega (arith, first.seq_is))
          first.plain t.ready wav t.stream in
      let (q, handled, kept, now_live, world) =
        served_turn host files junk addr clock peer pad stale audio p (clock k) wav [] s s' x x' c d
          asks t a.run a.live in
      let packet = packet_of host (flag_rst + flag_fin) 0 [] (hearing h x) in
      let now : InRange (hearing h x) = record {
        seq = t.numbers.seq;
        ack = omega (arith, count, t.counted, t.room);
        window = t.numbers.window;
      } in
      let g =
        arrives host peer pad (flag_rst + flag_fin) 0 [] (hearing h x) now (omega arith)
          (omega arith) in
      let (w, run, finished, sent, sink) =
        finish_step peer (driver_oss audio) 2 (sounding peer audio r c oss)
          (header_of peer.endian (header_bytes host.endian pad packet.header)) packet.payload []
          t.plays (omega (arith, t.expects, ap (λ (g : Header). g.seq) g))
          (ap (λ (g : Header). flag_isset g.flags flag_rst) g)
          (ap (λ (g : Header). flag_isset g.flags flag_err) g)
          (ap (λ (g : Header). flag_isset g.flags flag_fin) g) in
      (
        q,
        record x' { timeout = clock k + session_timeout },
        w,
        ends host files junk addr clock peer pad stale audio k d asks s q
            (sounding peer audio r c oss) w (packet ∷ []) handled
            (one_answer host files junk addr clock peer pad stale audio s q packet
              (ap (λ (u : World). u.sent) world ∙ a.sent))
            run,
        finished,
        sink,
        kept,
        now_live,
        stream,
      )
