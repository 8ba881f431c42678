-- ===== src/Transport/Tests.antt =====
-- Tests of the packet structures, and their theorems at concrete packets.
use sas.Base.{ℕ, ◌≡◌, refl, List, [], ◌∷◌, ◌++◌, true, false, arith}
use sas.Transport.{
  Header, IsHeader, CfgAck, Err, Endian, flag_isset, flag_rst, flag_err, htonl, htons,
  header_encode, header_decode, cfg_ack_encode, cfg_ack_decode, err_encode, err_decode,
}
use sas.Transport.Wire.{
  store16, store32, header_bytes, header_of, cfg_ack_bytes, cfg_ack_of, err_bytes, err_of,
}
use sas.Transport.Exchange.{header_exchange, cfg_ack_exchange, err_exchange, header_encode_wire}

abbrev sample : Header
sample = record { seq = 0x01020304; ack = 7; reserved = 0; flags = 20; window = 1024; length = 4 }

sample_bytes :
    header_bytes Endian.little (0 ∷ 0 ∷ []) (header_encode Endian.little sample)
    ≡ 1 ∷ 2 ∷ 3 ∷ 4 ∷ 0 ∷ 0 ∷ 0 ∷ 7 ∷ 0 ∷ 20 ∷ 4 ∷ 0 ∷ 0 ∷ 4 ∷ 0 ∷ 0 ∷ []
unfolding header_bytes header_encode store16 store32 htonl htons
sample_bytes = refl

sample_flags : (flag_isset 20 flag_rst ≡ true) × (flag_isset 4 flag_err ≡ false)
unfolding flag_isset
sample_flags = (refl, refl)

sample-IsHeader : IsHeader sample
sample-IsHeader = omega arith

abbrev padding : List ℕ
padding = 0xaa ∷ 0xbb ∷ []

header_encode_wire_example :
    header_bytes Endian.little padding (header_encode Endian.little sample)
    ≡ (1 ∷ 2 ∷ 3 ∷ 4 ∷ 0 ∷ 0 ∷ 0 ∷ 7 ∷ 0 ∷ 20 ∷ 4 ∷ 0 ∷ 0 ∷ 4 ∷ []) ++ padding
header_encode_wire_example = header_encode_wire Endian.little padding sample

header_exchange_example :
    header_decode Endian.big (
      header_of Endian.big
        (header_bytes Endian.little padding (header_encode Endian.little sample)))
    ≡ sample
header_exchange_example = header_exchange Endian.little Endian.big padding sample sample-IsHeader

abbrev stereo : CfgAck
stereo = record { sample_rate = 44100; sample_size = 16; channels = 2; codec = 0 }

parameters_arrive :
    cfg_ack_decode Endian.little
      (cfg_ack_of Endian.little (cfg_ack_bytes Endian.big 0 (cfg_ack_encode Endian.big stereo)))
    ≡ stereo
parameters_arrive = cfg_ack_exchange Endian.big Endian.little 0 stereo (omega arith)

abbrev not_found : Err
not_found = record { err = 2 }

error_arrives :
    err_decode Endian.big
      (err_of Endian.big (err_bytes Endian.little (err_encode Endian.little not_found)))
    ≡ not_found
error_arrives = err_exchange Endian.little Endian.big not_found (omega arith)
