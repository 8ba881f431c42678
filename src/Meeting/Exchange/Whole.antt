-- ===== src/Meeting/Exchange/Whole.antt =====
-- The whole exchange, from the SYN to the end of the stream.
mod Tests
use sas.Base.{ℕ, ◌-◌, ◌%◌, ◌≤◌, sym, get_or}
use sas.Base.Words.{u16_mod}
use sas.Rxc.Long.{long_max}
use sas.Transport.{CfgAck, cfg_ack_size}
use sas.Timeout.{Ptr}
use sas.Server.Session.{Wav, Session}
use sas.Server.Sink.Delivery.{open_stream}
use sas.Server.Table.{Server}
use sas.Server.Machine.Handshake.{Opening}
use sas.Client.{Client}
use sas.Client.Drivers.{oss_create}
use sas.Meeting.Exchange.Handshake.{syn_header}
use sas.Meeting.Exchange.Talking.{Talking}

-- the parameters of a stream
abbrev pub cfg_of : Wav → ℕ → CfgAck
cfg_of wav codec = record {
  sample_rate = wav.sample_rate;
  sample_size = wav.sample_size;
  channels = wav.channels;
  codec = codec;
}
