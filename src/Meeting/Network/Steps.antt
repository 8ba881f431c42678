-- ===== src/Meeting/Network/Steps.antt =====
-- What one packet that the network brings does to the client.
use sas.Base.{
  ℕ, suc, ◌+◌, ◌-◌, ◌%◌, ◌≤◌, ◌<◌, ◌≡◌, ap, ◌∙◌, false, List, [], ◌∷◌, Option, ok, arith, length,
  take,
}
use sas.Base.Words.{u16_mod, u32_mod, u64_mod, add32}
use sas.Rxc.Long.{long_max}
use sas.Transport.{
  State, Header, flag_isset, flag_rst, flag_fin, flag_err, header_decode, cfg_ack_size,
}
use sas.Transport.Wire.{header_bytes, header_of}
use sas.Server.Session.{Session, Sent, Host, advance}
use sas.Server.Sink.Delivery.{FitBuffer, total}
use sas.Meeting.{take-length}
use sas.Server.Session.Sending.{plain, packet_of}
use sas.Meeting.Packets.{InRange, arrives, advance_fits}
use sas.Meeting.Packets.Offsets.{
  chunk_at, offset, offset_step, offset_mono, offset-le-total, offset-lt, chunk_fits,
}
use sas.Client.{Chunk, Client, Peer}
use sas.Client.Drivers.{Oss, Audio, driver_oss, write_failed}
use sas.Client.Machine.{Player, Arrival, arrived, returned, receive_loop, chunk_size}
use sas.Client.Machine.Acks.{after_chunk, after_chunk_state}
use sas.Client.Machine.Device.{sounding}
use sas.Client.Machine.Failures.{finish_step}
use sas.Client.Machine.Sound.{device, old_step, sound_step, chunk_in}

-- The acknowledgement of a client that has taken every packet before place `next` or passed it over.
pub record Expects (seq : ℕ) (chunks : List (ℕ × List ℕ)) (next ack : ℕ) : Type 0 where
  pub fresh : ack ≤ seq + offset chunks next
  pub stale : (i : ℕ) → i < next → seq + offset chunks i < ack

module _ (host : Host) (peer : Peer) (pad : List ℕ) (x : Session) (v : InRange x)
    (chunks : List (ℕ × List ℕ)) (fit : FitBuffer chunks)
    (small : x.seq + total chunks < u32_mod) where
  -- chunk i on the wire, and what the client decodes from it
  abbrev pub begins : ℕ → Session
  begins i = record x { seq = x.seq + offset chunks i }

  abbrev pub carrier : ℕ → Sent
  carrier i = packet_of host 0 (length (chunk_at chunks i) % u16_mod) (chunk_at chunks i) (begins i)

  abbrev pub wired : Sent → Header
  wired p = header_of peer.endian (header_bytes host.endian pad p.header)

  begins-InRange : (i : ℕ) → InRange (begins i)
  begins-InRange i = record {
    seq = omega (arith, offset-le-total chunks i, small);
    ack = v.ack;
    window = v.window;
  }

  carrier_decodes :
      (i : ℕ)
      → header_decode peer.endian (wired (carrier i))
        ≡ plain 0 (length (chunk_at chunks i) % u16_mod) (begins i)
  carrier_decodes i =
      arrives host peer pad 0 (length (chunk_at chunks i) % u16_mod) (chunk_at chunks i) (begins i)
        (begins-InRange i) (omega arith) (omega arith)

  carried : (i : ℕ) → i < length chunks → (carrier i).payload ≡ chunk_at chunks i
  carried i h =
      let whole : length (chunk_at chunks i) % u16_mod ≡ length (chunk_at chunks i) =
        omega (arith, (chunk_fits chunks i fit h).1) in
      ap (λ k. take k (chunk_at chunks i)) whole ∙ take-length (chunk_at chunks i)

  -- what the client then expects
  after_chunk_at :
      (i : ℕ)
      → i < length chunks
      → add32 (x.seq + offset chunks i) (advance (length (chunk_at chunks i) % u16_mod))
        ≡ x.seq + offset chunks (suc i)
  after_chunk_at i h =
      let (some_bytes, fits) = chunk_fits chunks i fit h in
      let step = offset_step chunks i h in
      advance_fits (x.seq + offset chunks i) (length (chunk_at chunks i)) some_bytes fits
        (omega (arith, step, offset-le-total chunks (suc i), small))
      ∙ omega (arith, step)

  Expects-after :
      (i : ℕ) (ack : ℕ)
      → i < length chunks
      → ack ≡ x.seq + offset chunks (suc i)
      → Expects x.seq chunks (i + 1) ack
  Expects-after i ack h e =
      let plus : i + 1 ≡ suc i = omega arith in
      record {
        fresh = rw plus (omega (arith, e));
        stale =
            λ j below. omega (arith, e, offset-lt chunks j (suc i) fit (omega (arith, below)) h);
      }

  module _ (audio : Audio) where
    -- a chunk that is behind changes nothing
    pub behind :
        (i next : ℕ) (rest : List Arrival) (w : Player Oss)
        → i < next
        → w.pipe.source.session.state ≡ State.establsh
        → Expects x.seq chunks next w.pipe.source.session.ack
        → receive_loop peer
            (driver_oss audio)
            2
            (arrived (wired (carrier i)) (carrier i).payload ∷ rest)
            w
          ≡ receive_loop peer (driver_oss audio) 2 rest w
    behind i next rest w h st e =
        old_step peer (driver_oss audio) 2 w (wired (carrier i)) (carrier i).payload rest st
          (omega (arith, ap (λ (g : Header). g.seq) (carrier_decodes i), e.stale i h))

    -- a chunk that is not behind is played
    pub played_next :
        (i next r fd : ℕ) (c : Client) (n : Option ℕ) (writes : List (Option ℕ))
        (played : List Chunk) (closed : List ℕ) (rest : List Arrival)
        → next ≤ i
        → i < length chunks
        → c.session.state ≡ State.establsh
        → Expects x.seq chunks next c.session.ack
        → r < long_max
        → write_failed n ≡ false
        → (c' : Client) × (chunk : Chunk) × (receive_loop peer
              (driver_oss audio)
              2
              (arrived (wired (carrier i)) (carrier i).payload ∷ rest)
              (sounding peer audio r c (device fd (n ∷ writes) played closed))
            ≡ receive_loop peer
                (driver_oss audio)
                2
                rest
                (sounding peer audio (r + 1) c' (device fd writes (chunk ∷ played) closed)))
          × (chunk.size ≡ (length (chunk_at chunks i) + u64_mod - cfg_ack_size) % u64_mod)
          × (chunk.buffer ≡ chunk_at chunks i)
          × (c'.session.state ≡ State.establsh)
          × Expects x.seq chunks (i + 1) c'.session.ack
          × (length c'.sent ≡ length c.sent + 2)
    unfolding chunk_size flag_isset
    played_next i next r fd c n writes played closed rest new h st e fits good =
        let p = carrier i in
        let g = header_decode peer.endian (wired p) in
        let d = carrier_decodes i in
        let (same, ack, sent, size) = after_chunk_state peer g p.payload c in
        let whole : length (chunk_at chunks i) % u16_mod ≡ length (chunk_at chunks i) =
          omega (arith, (chunk_fits chunks i fit h).1) in
        (
          after_chunk peer g p.payload c,
          chunk_in peer audio g p.payload c,
          sound_step peer audio r fd c n writes played closed (wired p) p.payload rest st
              (omega (arith, ap (λ (g : Header). g.seq) d, e.fresh, offset_mono chunks next i new))
              (ap (λ (g : Header). flag_isset g.flags flag_rst) d) fits good,
          ap chunk_size d ∙ ap (λ k. (k + u64_mod - cfg_ack_size) % u64_mod) whole,
          carried i h,
          same ∙ st,
          Expects-after i _ h
              (ack ∙ ap (λ (g : Header). add32 g.seq (advance g.length)) d ∙ after_chunk_at i h),
          sent,
        )

    -- the packet behind the last chunk
    abbrev pub final : Sent
    final = packet_of host (flag_rst + flag_fin) 0 [] (begins (length chunks))

    final_decodes :
        header_decode peer.endian (wired final)
        ≡ plain (flag_rst + flag_fin) 0 (begins (length chunks))
    final_decodes =
        arrives host peer pad (flag_rst + flag_fin) 0 [] (begins (length chunks))
          (begins-InRange (length chunks)) (omega arith) (omega arith)

    -- ends the stream
    pub ends_stream :
        (next : ℕ) (rest : List Arrival) (w : Player Oss)
        → next ≤ length chunks
        → w.pipe.source.session.state ≡ State.establsh
        → Expects x.seq chunks next w.pipe.source.session.ack
        → (w' : Player Oss) × (receive_loop peer
              (driver_oss audio)
              2
              (arrived (wired final) final.payload ∷ rest)
              w
            ≡ ok (returned 0 w'))
          × (w'.pipe.source.session.state ≡ State.finished)
          × (w'.pipe.source.sent ≡ w.pipe.source.sent)
          × (w'.pipe.sink ≡ w.pipe.sink)
    unfolding flag_isset
    ends_stream next rest w h st e =
        let d = final_decodes in
        finish_step peer (driver_oss audio) 2 w (wired final) final.payload rest st
          (omega (
            arith,
            ap (λ (g : Header). g.seq) d,
            e.fresh,
            offset_mono chunks next (length chunks) h,
          ))
          (ap (λ (h : Header). flag_isset h.flags flag_rst) d)
          (ap (λ (h : Header). flag_isset h.flags flag_err) d)
          (ap (λ (h : Header). flag_isset h.flags flag_fin) d)
