-- ===== src/Transport/Exchange.antt =====
-- What transport.c's conversions promise between two hosts, whatever their byte order.
use sas.Base.{ℕ, ◌+◌, ◌/◌, ◌%◌, ◌^◌, ◌<◌, ◌≡◌, refl, List, [], ◌∷◌, ◌++◌, arith, get_or}
use sas.Base.Words.{u16_mod, u32_mod}
use sas.Transport.{
  Header, IsHeader, CfgAck, Err, Endian, htonl, htons, header_encode, header_decode, cfg_ack_encode,
  cfg_ack_decode, err_encode, err_decode,
}
use sas.Transport.Wire.{
  network32, load16, load32, header_bytes, header_of, cfg_ack_bytes, cfg_ack_of, err_bytes, err_of,
  protocol_header, store32-htonl, store16-htons,
}

-- On a host of either byte order, the bytes of an encoded header are the header of PROTOCOL.txt,
-- most significant byte first, followed by the structure's padding.
pub header_encode_wire :
    (e : Endian) (pad : List ℕ) (h : Header)
    → header_bytes e pad (header_encode e h) ≡ protocol_header h ++ pad
unfolding header_bytes header_encode
header_encode_wire e pad h = simp (store32-htonl, store16-htons)

-- the word that a receiver converts back, from four bytes in network order at an offset
ntohl-load32 :
    (e : Endian) (b : List ℕ) (i x : ℕ)
    → x < u32_mod
    → get_or b i 0 ≡ x / 2 ^ 24 % 256
    → get_or b (i + 1) 0 ≡ x / 2 ^ 16 % 256
    → get_or b (i + 2) 0 ≡ x / 2 ^ 8 % 256
    → get_or b (i + 3) 0 ≡ x % 256
    → htonl e (load32 e b i) ≡ x
unfolding htonl load32
ntohl-load32 Endian.little b i x h p q r s = rw (p, q, r, s) (omega arith)
ntohl-load32 Endian.big b i x h p q r s = omega arith

ntohs-load16 :
    (e : Endian) (b : List ℕ) (i x : ℕ)
    → x < u16_mod
    → get_or b i 0 ≡ x / 256 % 256
    → get_or b (i + 1) 0 ≡ x % 256
    → htons e (load16 e b i) ≡ x
unfolding htons load16
ntohs-load16 Endian.little b i x h p q = rw (p, q) (omega arith)
ntohs-load16 Endian.big b i x h p q = omega arith

-- A header with each field in the range of its type that one host encodes and sends is the header
-- that another decodes, whatever the byte order of the two hosts and the padding of the structure.
pub header_exchange :
    (s r : Endian) (pad : List ℕ) (h : Header)
    → IsHeader h
    → header_decode r (header_of r (header_bytes s pad (header_encode s h))) ≡ h
unfolding header_decode header_of
header_exchange s r pad h v =
    let b = protocol_header h ++ pad in
    rw (header_encode_wire s pad h) (λ i. record {
      seq = ntohl-load32 r b 0 h.seq v.seq_in refl refl refl refl i;
      ack = ntohl-load32 r b 4 h.ack v.ack_in refl refl refl refl i;
      reserved = h.reserved;
      flags = h.flags;
      window = ntohs-load16 r b 10 h.window v.window_in refl refl i;
      length = ntohs-load16 r b 12 h.length v.length_in refl refl i;
    })

-- The payload of a SYN-ACK that one host encodes and sends, with a sample rate below 2 ^ 32, is the
-- one that another decodes, whatever the byte order of the two hosts and the byte of padding.
pub cfg_ack_exchange :
    (s r : Endian) (pad : ℕ) (p : CfgAck)
    → p.sample_rate < u32_mod
    → cfg_ack_decode r (cfg_ack_of r (cfg_ack_bytes s pad (cfg_ack_encode s p))) ≡ p
unfolding cfg_ack_decode cfg_ack_of cfg_ack_bytes cfg_ack_encode
cfg_ack_exchange s r pad p h =
    let b = network32 p.sample_rate ++ (p.sample_size ∷ p.channels ∷ p.codec ∷ pad ∷ []) in
    simp store32-htonl (λ i. record {
      sample_rate = ntohl-load32 r b 0 p.sample_rate h refl refl refl refl i;
      sample_size = p.sample_size;
      channels = p.channels;
      codec = p.codec;
    })

-- An error code below 2 ^ 32 that one host encodes and sends is the code that another decodes,
-- whatever the byte order of the two hosts.
pub err_exchange :
    (s r : Endian) (p : Err)
    → p.err < u32_mod
    → err_decode r (err_of r (err_bytes s (err_encode s p))) ≡ p
unfolding err_decode err_of err_bytes err_encode
err_exchange s r p h =
    simp store32-htonl
      (λ i. record { err = ntohl-load32 r (network32 p.err) 0 p.err h refl refl refl refl i })
