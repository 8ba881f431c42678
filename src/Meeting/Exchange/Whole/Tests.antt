-- ===== src/Meeting/Exchange/Whole/Tests.antt =====
-- The theorem on the whole exchange at a file of one chunk and a server that is new.
use sas.Base.{ℕ, true, List, [], ◌∷◌, none, some}
use sas.Transport.{Endian}
use sas.Server.Session.{Session}
use sas.Server.Table.{Server, server_alloc}
use sas.Server.Samples.{no_world}
use sas.Client.{Chunk, Client, Peer}
use sas.Client.Drivers.{Audio}

abbrev peer : Peer
peer = record { endian = Endian.big; send = λ packet. none }

abbrev audio : Audio
audio = record { open_device = some 3; ioctl = λ request value. true }

abbrev junk_chunk : Chunk
junk_chunk = record {
  size = 9;
  buffer = [];
  sample_rate = 9;
  sample_size = 9;
  channels = 9;
  codec = 9;
}

abbrev chunks : List (ℕ × List ℕ)
chunks = (7, 8 ∷ []) ∷ []

abbrev pad : List ℕ
pad = 0 ∷ 0 ∷ []

abbrev server : Server
server = server_alloc no_world
