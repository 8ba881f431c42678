-- ===== src/Transport/Wire.antt =====
-- The packet structures of transport.h as bytes in memory, which is what the sockets carry.
use sas.Base.{ℕ, ◌+◌, ◌*◌, ◌/◌, ◌%◌, ◌^◌, ◌≡◌, refl, List, [], ◌∷◌, ◌++◌, arith, get_or}
use sas.Transport.{Header, CfgAck, Err, Endian, htonl, htons}

-- The bytes of a word, the most significant first.
abbrev pub network16 : ℕ → List ℕ
network16 x = x / 256 % 256 ∷ x % 256 ∷ []

abbrev pub network32 : ℕ → List ℕ
network32 x = x / 2 ^ 24 % 256 ∷ x / 2 ^ 16 % 256 ∷ x / 2 ^ 8 % 256 ∷ x % 256 ∷ []

-- The bytes of a word in the memory of a host.
unfoldable pub store16 : Endian → ℕ → List ℕ
store16 Endian.little x = x % 256 ∷ x / 256 % 256 ∷ []
store16 Endian.big x = network16 x

unfoldable pub store32 : Endian → ℕ → List ℕ
store32 Endian.little x = x % 256 ∷ x / 2 ^ 8 % 256 ∷ x / 2 ^ 16 % 256 ∷ x / 2 ^ 24 % 256 ∷ []
store32 Endian.big x = network32 x

-- The word at an offset of a buffer.
unfoldable pub load16 : Endian → List ℕ → ℕ → ℕ
load16 Endian.little b i = get_or b i 0 + get_or b (i + 1) 0 * 256
load16 Endian.big b i = get_or b i 0 * 256 + get_or b (i + 1) 0

unfoldable pub load32 : Endian → List ℕ → ℕ → ℕ
load32 Endian.little b i =
    get_or b i 0
    + get_or b (i + 1) 0 * 2 ^ 8
    + get_or b (i + 2) 0 * 2 ^ 16
    + get_or b (i + 3) 0 * 2 ^ 24
load32 Endian.big b i =
    get_or b i 0 * 2 ^ 24
    + get_or b (i + 1) 0 * 2 ^ 16
    + get_or b (i + 2) 0 * 2 ^ 8
    + get_or b (i + 3) 0

-- `struct sas_transport_packet_header`: the fields in order, then two bytes of padding, whose
-- values `pad` the C standard leaves open.
unfoldable pub header_bytes : Endian → List ℕ → Header → List ℕ
header_bytes e pad h =
    store32 e h.seq
    ++ (store32 e h.ack
        ++ (h.reserved ∷ h.flags ∷ (store16 e h.window ++ (store16 e h.length ++ pad))))

unfoldable pub header_of : Endian → List ℕ → Header
header_of e b = record {
  seq = load32 e b 0;
  ack = load32 e b 4;
  reserved = get_or b 8 0;
  flags = get_or b 9 0;
  window = load16 e b 10;
  length = load16 e b 12;
}

-- `struct sas_transport_packet_cfg_ack`, with one byte of padding at its end.
unfoldable pub cfg_ack_bytes : Endian → ℕ → CfgAck → List ℕ
cfg_ack_bytes e pad p = store32 e p.sample_rate ++ (p.sample_size ∷ p.channels ∷ p.codec ∷ pad ∷ [])

unfoldable pub cfg_ack_of : Endian → List ℕ → CfgAck
cfg_ack_of e b = record {
  sample_rate = load32 e b 0;
  sample_size = get_or b 4 0;
  channels = get_or b 5 0;
  codec = get_or b 6 0;
}

unfoldable pub err_bytes : Endian → Err → List ℕ
err_bytes e p = store32 e p.err

unfoldable pub err_of : Endian → List ℕ → Err
err_of e b = record { err = load32 e b 0 }

-- The header's layout in PROTOCOL.txt, up to its Length field.
abbrev pub protocol_header : Header → List ℕ
protocol_header h =
    network32 h.seq
    ++ (network32 h.ack ++ (h.reserved ∷ h.flags ∷ (network16 h.window ++ network16 h.length)))

pub store32-htonl : (e : Endian) (x : ℕ) → store32 e (htonl e x) ≡ network32 x
unfolding store32 htonl
store32-htonl Endian.little x = ground arith
store32-htonl Endian.big x = refl

pub store16-htons : (e : Endian) (x : ℕ) → store16 e (htons e x) ≡ network16 x
unfolding store16 htons
store16-htons Endian.little x = ground arith
store16-htons Endian.big x = refl
