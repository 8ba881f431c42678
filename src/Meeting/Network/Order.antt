-- ===== src/Meeting/Network/Order.antt =====
-- What is played of a stream, whatever the network does to its packets.
use sas.Base.{
  ℕ, suc, ◌+◌, ◌*◌, ◌≤◌, ◌<◌, ◌≡◌, inl, inr, ◌≢◌, refl, sym, ap, ◌∙◌, List, [], ◌∷◌, map, Option,
  some, Run, ok, arith, length, get_elem?,
}
use sas.Base.Words.{u32_mod}
use sas.Rxc.Long.{long_max}
use sas.Transport.{State}
use sas.Server.Session.{Session, Sent, Out, Host, Wav}
use sas.Server.Sink.Delivery.{open_stream, reading, with_stream, file_of, FitBuffer, total, pulls}
use sas.Meeting.Packets.{
  InRange, on_wire, onto, stream_packets, pulls_packets, length-stream_packets,
}
use sas.Meeting.Packets.Offsets.{chunk_packet, last_packet, no_packet}
use sas.Meeting.Network.Steps.{Expects, behind, played_next, ends_stream}
use sas.Client.{Chunk, Client, Peer}
use sas.Client.Drivers.{Oss, Audio, driver_oss}
use sas.Client.Machine.{Player, Arrival, Received, is_finished, receive_loop}
use sas.Client.Machine.Device.{sounding}
use sas.Client.Machine.Sound.{device, Takes, Takes-less}
use sas.Meeting.Network.{brought, network, picked, comes, heard, told, verdict}
use sas.Meeting.Network.Picked.{
  place-cases, picked_behind, picked_ahead, picked_last, picked_beyond, comes_later, comes_now,
  Rising, picked-Rising,
}

module _ (host : Host) (peer : Peer) (pad : List ℕ) (audio : Audio) (chunks : List (ℕ × List ℕ))
    (x : Session) where
  abbrev run : List Arrival → Player Oss → Run (Received Oss)
  run arrivals w = receive_loop peer (driver_oss audio) 2 arrivals w

  abbrev coming : List ℕ → List Arrival
  coming places = network host peer pad (stream_packets host x chunks x.seq) places

  -- what the client comes to from a state in which it expects place `next`
  abbrev Hears : ℕ → List ℕ → Player Oss → Type 0
  Hears next places w =
      (w' : Player Oss) × (run (coming places) w ≡ ok (verdict (comes (length chunks) places) w'))
      × (map heard w'.pipe.sink.played
          ≡ onto (map (told chunks) (picked (length chunks) next places))
              (map heard w.pipe.sink.played))
      × (length w'.pipe.source.sent
          ≡ length w.pipe.source.sent + 2 * length (picked (length chunks) next places))

  Hears-nothing :
      (next : ℕ) (w : Player Oss) → w.pipe.source.session.state ≡ State.establsh → Hears next [] w
  unfolding receive_loop picked comes is_finished
  Hears-nothing next w st = (w, rw (ap is_finished st), refl, omega arith)

  -- a packet that the client drops, or that there is not
  Hears-same :
      (next i : ℕ) (places : List ℕ) (w : Player Oss)
      → run (coming (i ∷ places)) w ≡ run (coming places) w
      → picked (length chunks) next (i ∷ places) ≡ picked (length chunks) next places
      → i ≢ length chunks
      → Hears next places w
      → Hears next (i ∷ places) w
  Hears-same next i places w step same other (w', runs, plays, acks) = (
    w',
    step ∙ runs ∙ ap (λ b. ok (verdict b w')) (sym (comes_later (length chunks) i places other)),
    plays ∙ ap (λ p. onto (map (told chunks) p) (map heard w.pipe.sink.played)) (sym same),
    acks ∙ ap (λ p. length w.pipe.source.sent + 2 * length p) (sym same),
  )

  module _ (v : InRange x) (fit : FitBuffer chunks) (small : x.seq + total chunks < u32_mod) where
    first_comes :
        (i : ℕ) (places : List ℕ) (p : Sent) (w : Player Oss)
        → get_elem? (stream_packets host x chunks x.seq) i ≡ some p
        → run (coming (i ∷ places)) w ≡ run (on_wire host peer pad p ∷ coming places) w
    first_comes i places p w e = ap (λ b. run (brought host peer pad b (coming places)) w) e

    Hears-end :
        (next : ℕ) (places : List ℕ) (w : Player Oss)
        → next ≤ length chunks
        → w.pipe.source.session.state ≡ State.establsh
        → Expects x.seq chunks next w.pipe.source.session.ack
        → Hears next (length chunks ∷ places) w
    Hears-end next places w h st e =
        let (w', runs, ended, sent, sink) =
          ends_stream host peer pad x v chunks fit small audio next (coming places) w h st e in
        let none_more = picked_last (length chunks) next places h in
        (
          w',
          first_comes (length chunks) places _ w (last_packet host x chunks x.seq)
              ∙ runs
              ∙ ap (λ b. ok (verdict b w')) (sym (comes_now (length chunks) places)),
          ap (λ (d : Oss). map heard d.played) sink
              ∙ ap (λ p. onto (map (told chunks) p) (map heard w.pipe.sink.played)) (sym none_more),
          omega (arith, ap length sent, ap length none_more),
        )

    hears :
        (places : List ℕ) (next r fd : ℕ) (c : Client) (writes : List (Option ℕ))
        (played : List Chunk) (closed : List ℕ)
        → next ≤ length chunks
        → c.session.state ≡ State.establsh
        → Expects x.seq chunks next c.session.ack
        → r + length places ≤ long_max
        → Takes (length places) writes
        → Hears next places (sounding peer audio r c (device fd writes played closed))
    hears [] next r fd c writes played closed h st e fits good =
        Hears-nothing next (sounding peer audio r c (device fd writes played closed)) st
    hears (i ∷ places) next r fd c [] played closed h st e fits good = elim good [ ]
    hears (i ∷ places) next r fd c (n ∷ writes) played closed h st e fits good =
        let w = sounding peer audio r c (device fd (n ∷ writes) played closed) in
        let skipped : Hears next places w =
          hears places next r fd c (n ∷ writes) played closed h st e (omega arith)
            (Takes-less (length places) (n ∷ writes) good) in
        elim (place-cases i next (length chunks) h) [
          | inl (old, more) ↦
              Hears-same next i places w
                (first_comes i places _ w (chunk_packet host x chunks x.seq i more)
                  ∙ behind host peer pad x v chunks fit small audio i next (coming places) w old st
                      e)
                (picked_behind (length chunks) i next places old) (omega arith) skipped
          | inr (inl (new, more)) ↦
              let (c', chunk, step, size, buffer, st', e', sent) =
                played_next host peer pad x v chunks fit small audio i next r fd c n writes played
                  closed (coming places) new more st e (omega arith) good.0 in
              let (w', runs, plays, acks) =
                hears places (i + 1) (r + 1) fd c' writes (chunk ∷ played) closed (omega arith) st'
                  e' (omega arith) good.1 in
              let taken = picked_ahead (length chunks) i next places new more in
              (
                w',
                first_comes i places _ w (chunk_packet host x chunks x.seq i more)
                    ∙ step
                    ∙ runs
                    ∙ ap (λ b. ok (verdict b w'))
                        (sym (comes_later (length chunks) i places (omega arith))),
                plays
                    ∙ (λ k.
                        onto (map (told chunks) (picked (length chunks) (i + 1) places))
                          ((size k, buffer k) ∷ map heard played))
                    ∙ ap (λ p. onto (map (told chunks) p) (map heard played)) (sym taken),
                omega (arith, acks, sent, ap length taken),
              )
          | inr (inr (inl same)) ↦ rw same (Hears-end next places w h st e)
          | inr (inr (inr past)) ↦
              Hears-same next i places w
                (ap (λ b. run (brought host peer pad b (coming places)) w)
                  (no_packet host x chunks x.seq i past))
                (picked_beyond (length chunks) i next places h past) (omega arith) skipped
        ]

module _ (host : Host) (peer : Peer) (pad : List ℕ) (audio : Audio) (wav : Wav) where
  -- A session whose numbers are values of their types, whose file gives chunks of 1 to 1024 bytes
  -- and then ends, and whose sequence number stays below 2 ^ 32 all the while, hands one packet for
  -- each chunk and one more to sendto, on as many requests. Let a network bring any of these packets,
  -- in any order and any number of times, to an established client that expects no later sequence
  -- number, on a host of any byte order, whose pipeline has r requests that are open, with r and the
  -- number of the packets that come together at most long_max, and whose audio device is open at a
  -- descriptor other than 0 and takes as many writes. The client writes the bytes of those chunks
  -- that come before the last packet and lie beyond every chunk that came before them, once each and
  -- in the order of the file, each with a length that is 8 less than it is, modulo 2 ^ 64. It sends
  -- two acknowledgements for each of them. It returns 0 if the last packet comes, and else waits.
  pub stream_plays :
      (chunks : List (ℕ × List ℕ)) (o : Out) (places : List ℕ) (r fd : ℕ) (c : Client)
      (writes : List (Option ℕ)) (played : List Chunk) (closed : List ℕ)
      → FitBuffer chunks
      → InRange o.session
      → o.session.seq + total chunks < u32_mod
      → c.session.state ≡ State.establsh
      → c.session.ack ≤ o.session.seq
      → r + length places ≤ long_max
      → Takes (length places) writes
      → (q : Out) × (packets : List Sent) × (w : Player Oss) × (pulls host
            (suc (length chunks))
            (with_stream (open_stream (reading wav (file_of chunks))) o)
          ≡ ok q)
        × (q.world.sent ≡ onto packets o.world.sent)
        × (length packets ≡ suc (length chunks))
        × (receive_loop peer
              (driver_oss audio)
              2
              (network host peer pad packets places)
              (sounding peer audio r c (device fd writes played closed))
            ≡ ok (verdict (comes (length chunks) places) w))
        × (map heard w.pipe.sink.played
            ≡ onto (map (told chunks) (picked (length chunks) 0 places)) (map heard played))
        × Rising (length chunks) 0 (picked (length chunks) 0 places)
        × (length w.pipe.source.sent ≡ length c.sent + 2 * length (picked (length chunks) 0 places))
  stream_plays chunks o places r fd c writes played closed fit v small st old fits good =
      let (q, pulled, sent) = pulls_packets host wav chunks o fit small in
      let e : Expects o.session.seq chunks 0 c.session.ack = record {
        fresh = omega (arith, old);
        stale = λ i h. absurd (omega (arith, h));
      } in
      let (w, runs, plays, acks) =
        hears host peer pad audio chunks o.session v fit small places 0 r fd c writes played closed
          (omega arith) st e fits good in
      (
        q,
        stream_packets host o.session chunks o.session.seq,
        w,
        pulled,
        sent,
        length-stream_packets host o.session chunks o.session.seq,
        runs,
        plays,
        picked-Rising (length chunks) 0 places (omega arith),
        acks,
      )
