-- ===== src/Transport.antt =====
-- sas-core/include/sas/transport.h and sas-core/src/transport.c: the packet structures, and their
-- conversion in place between host and network byte order.
pub mod Wire
pub mod Exchange
mod Tests
use Prim.Native.Nat.{bit_and}
use sas.Base.{ℕ, ◌+◌, ◌*◌, ◌/◌, ◌%◌, ◌^◌, ◌<◌, Bool, ◌==◌}
use sas.Base.Words.{u8_mod, u16_mod, u32_mod}

-- The control bits: `1 << 0` up to `1 << 4`.
abbrev pub flag_fin : ℕ
flag_fin = 1

abbrev pub flag_syn : ℕ
flag_syn = 2

abbrev pub flag_rst : ℕ
flag_rst = 4

abbrev pub flag_ack : ℕ
flag_ack = 8

abbrev pub flag_err : ℕ
flag_err = 16

-- The macro `sas_transport_packet_flag_isset`.
unfoldable pub flag_isset : ℕ → ℕ → Bool
flag_isset flags flag = bit_and flags flag == flag

-- The session states `SAS_TRANSPORT_STATE_*`, numbered from 0. A field of that type holds no other
-- value, since the code only ever stores one of these.
pub data State : Type 0 where
  initial syn_rcvd syn_sent sack_sent establsh finished : State

pub record Header : Type 0 where
  pub seq : ℕ
  pub ack : ℕ
  pub reserved : ℕ
  pub flags : ℕ
  pub window : ℕ
  pub length : ℕ

-- Every field is a value of its C type.
pub record IsHeader (h : Header) : Type 0 where
  pub seq_in : h.seq < u32_mod
  pub ack_in : h.ack < u32_mod
  pub reserved_in : h.reserved < u8_mod
  pub flags_in : h.flags < u8_mod
  pub window_in : h.window < u16_mod
  pub length_in : h.length < u16_mod

pub record Cfg : Type 0 where
  pub codec : ℕ

-- `int32_t` and `int8_t` fields hold bit patterns.
pub record CfgAck : Type 0 where
  pub sample_rate : ℕ
  pub sample_size : ℕ
  pub channels : ℕ
  pub codec : ℕ

pub record Err : Type 0 where
  pub err : ℕ

-- How the host lays a word out in memory.
pub data Endian : Type 0 where
  little big : Endian

unfoldable pub swap16 : ℕ → ℕ
swap16 x = x % 256 * 256 + x / 256 % 256

unfoldable pub swap32 : ℕ → ℕ
swap32 x = x % 256 * 2 ^ 24 + x / 2 ^ 8 % 256 * 2 ^ 16 + x / 2 ^ 16 % 256 * 2 ^ 8 + x / 2 ^ 24 % 256

-- `htonl` and `ntohl` of the C library are one function, and so are `htons` and `ntohs`.
unfoldable pub htonl : Endian → ℕ → ℕ
unfolding swap32
htonl Endian.little x = swap32 x
htonl Endian.big x = x

unfoldable pub htons : Endian → ℕ → ℕ
unfolding swap16
htons Endian.little x = swap16 x
htons Endian.big x = x

module _ (e : Endian) where
  unfoldable pub header_encode : Header → Header
  header_encode h = record h {
    seq = htonl e h.seq;
    ack = htonl e h.ack;
    window = htons e h.window;
    length = htons e h.length;
  }

  unfoldable pub header_decode : Header → Header
  header_decode h = record h {
    seq = htonl e h.seq;
    ack = htonl e h.ack;
    window = htons e h.window;
    length = htons e h.length;
  }

  unfoldable pub cfg_ack_encode : CfgAck → CfgAck
  cfg_ack_encode p = record p { sample_rate = htonl e p.sample_rate }

  unfoldable pub cfg_ack_decode : CfgAck → CfgAck
  cfg_ack_decode p = record p { sample_rate = htonl e p.sample_rate }

  unfoldable pub err_encode : Err → Err
  err_encode p = record { err = htonl e p.err }

  unfoldable pub err_decode : Err → Err
  err_decode p = record { err = htonl e p.err }

-- No field of this structure needs conversion.
unfoldable pub cfg_encode : Cfg → Cfg
cfg_encode p = p

unfoldable pub cfg_decode : Cfg → Cfg
cfg_decode p = p

-- `sizeof`, where a uint32_t is aligned to four bytes: the header and the SYN-ACK payload end in
-- padding.
abbrev pub header_size : ℕ
header_size = 16

abbrev pub cfg_size : ℕ
cfg_size = 1

abbrev pub cfg_ack_size : ℕ
cfg_ack_size = 8

abbrev pub err_size : ℕ
err_size = 4
