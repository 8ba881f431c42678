-- ===== src/Meeting/Packets/Offsets.antt =====
-- Where each chunk of a stream begins, and the packet that carries it.
use sas.Base.{
  ℕ, zero, suc, ◌+◌, ◌%◌, ◌≤◌, ◌<◌, ◌≡◌, refl, ap, ◌∙◌, List, [], ◌∷◌, none, some, arith, length,
  get_elem?,
}
use sas.Base.Words.{u16_mod}
use sas.Transport.{flag_rst, flag_fin}
use sas.Server.Session.{Session, Host}
use sas.Server.Sink.Delivery.{FitBuffer, chunk_of, total}
use sas.Server.Session.Sending.{packet_of}
use sas.Meeting.Packets.{stream_packets}

-- the bytes of chunk i, and the number of bytes before it
abbrev pub chunk_at : List (ℕ × List ℕ) → ℕ → List ℕ
chunk_at [] i = []
chunk_at (c ∷ cs) zero = chunk_of c
chunk_at (c ∷ cs) (suc i) = chunk_at cs i

abbrev pub offset : List (ℕ × List ℕ) → ℕ → ℕ
offset [] i = 0
offset (c ∷ cs) zero = 0
offset (c ∷ cs) (suc i) = length (chunk_of c) + offset cs i

pub offset_step :
    (cs : List (ℕ × List ℕ)) (i : ℕ)
    → i < length cs
    → offset cs (suc i) ≡ offset cs i + length (chunk_at cs i)
offset_step [] i h = absurd (omega arith)
offset_step (c ∷ []) zero h = omega arith
offset_step (c ∷ d ∷ cs) zero h = omega arith
offset_step (c ∷ cs) (suc i) h = omega (arith, offset_step cs i (omega arith))

pub offset_mono : (cs : List (ℕ × List ℕ)) (i j : ℕ) → i ≤ j → offset cs i ≤ offset cs j
offset_mono [] i j h = omega arith
offset_mono (c ∷ cs) zero j h = omega arith
offset_mono (c ∷ cs) (suc i) (suc j) h = omega (arith, offset_mono cs i j (omega arith))
offset_mono (c ∷ cs) (suc i) zero h = absurd (omega arith)

pub offset-le-total : (cs : List (ℕ × List ℕ)) (i : ℕ) → offset cs i ≤ total cs
unfolding total
offset-le-total [] i = omega arith
offset-le-total (c ∷ cs) zero = omega arith
offset-le-total (c ∷ cs) (suc i) = omega (arith, offset-le-total cs i)

pub chunk_fits :
    (cs : List (ℕ × List ℕ)) (i : ℕ)
    → FitBuffer cs
    → i < length cs
    → (0 < length (chunk_at cs i)) × (length (chunk_at cs i) ≤ 1024)
chunk_fits [] i fit h = absurd (omega arith)
chunk_fits (c ∷ cs) zero fit h = (omega arith, fit.0)
chunk_fits (c ∷ cs) (suc i) fit h = chunk_fits cs i fit.1 (omega arith)

pub offset-lt :
    (cs : List (ℕ × List ℕ)) (i j : ℕ)
    → FitBuffer cs
    → i < j
    → j ≤ length cs
    → offset cs i < offset cs j
offset-lt cs i j fit h last = omega (
  arith,
  offset_step cs i (omega arith),
  (chunk_fits cs i fit (omega arith)).0,
  offset_mono cs (suc i) j (omega arith),
)

module _ (host : Host) (x : Session) where
  pub chunk_packet :
      (cs : List (ℕ × List ℕ)) (seq i : ℕ)
      → i < length cs
      → get_elem? (stream_packets host x cs seq) i
        ≡ some (
            packet_of host 0
              (length (chunk_at cs i) % u16_mod)
              (chunk_at cs i)
              (record x { seq = seq + offset cs i }))
  chunk_packet [] seq i h = absurd (omega arith)
  chunk_packet (c ∷ cs) seq zero h =
      let start : seq ≡ seq + 0 = omega arith in
      ap
        (λ n.
          some
            (packet_of host 0 (length (chunk_of c) % u16_mod) (chunk_of c) (record x { seq = n })))
        start
  chunk_packet (c ∷ cs) seq (suc i) h =
      let more : seq + length (chunk_of c) + offset cs i
          ≡ seq + (length (chunk_of c) + offset cs i) =
        omega arith in
      chunk_packet cs (seq + length (chunk_of c)) i (omega arith)
      ∙ ap
          (λ n. some (
            packet_of host 0 (length (chunk_at cs i) % u16_mod) (chunk_at cs i)
              (record x { seq = n })))
          more

  pub last_packet :
      (cs : List (ℕ × List ℕ)) (seq : ℕ)
      → get_elem? (stream_packets host x cs seq) (length cs)
        ≡ some (
            packet_of host
              (flag_rst + flag_fin)
              0
              []
              (record x { seq = seq + offset cs (length cs) }))
  last_packet [] seq =
      let start : seq ≡ seq + 0 = omega arith in
      ap (λ n. some (packet_of host (flag_rst + flag_fin) 0 [] (record x { seq = n }))) start
  last_packet (c ∷ cs) seq =
      let more : seq + length (chunk_of c) + offset cs (length cs)
          ≡ seq + (length (chunk_of c) + offset cs (length cs)) =
        omega arith in
      last_packet cs (seq + length (chunk_of c))
      ∙ ap (λ n. some (packet_of host (flag_rst + flag_fin) 0 [] (record x { seq = n }))) more

  pub no_packet :
      (cs : List (ℕ × List ℕ)) (seq i : ℕ)
      → length cs < i
      → get_elem? (stream_packets host x cs seq) i ≡ none
  no_packet [] seq zero h = absurd (omega arith)
  no_packet [] seq (suc i) h = refl
  no_packet (c ∷ cs) seq zero h = absurd (omega arith)
  no_packet (c ∷ cs) seq (suc i) h = no_packet cs (seq + length (chunk_of c)) i (omega arith)
