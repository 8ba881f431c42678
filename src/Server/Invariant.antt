-- ===== src/Server/Invariant.antt =====
-- What holds of the server between two packets.
pub mod Expired
pub mod Forgotten
pub mod Isolation
pub mod Machine
pub mod Packet
pub mod Rounds
pub mod Sends
pub mod Settled
pub mod Streams
pub mod Tables
mod Tests
pub mod Waiting
use sas.Base.{ℕ, ◌<◌, ◌≡◌, ◌⊎◌, true, some, ok}
use sas.Transport.{State}
use sas.Timeout.{Ptr}
use sas.Timeout.Order.{count}
use sas.Server.Session.{File, Wav, Stream, Session}
use sas.Server.Sink.Delivery.{open_stream, ended_stream, reading}
use sas.Server.Table.{Server, session_find}
use sas.Server.Table.Chains.{IsTable}

-- between two requests a stream has met what was requested, or it has ended
abbrev pub IsRested : Stream → Type 0
IsRested t =
    (wav : Wav) × (file : File) × ((t ≡ open_stream (reading wav file))
      ⊎ (t ≡ ended_stream (record wav { file = file; finished = true })))

-- a session that has sent its SYN-ACK has a stream
pub record IsSession (x : Session) : Type 0 where
  pub streams :
      (x.state ≡ State.sack_sent) ⊎ (x.state ≡ State.establsh)
      → (t : Stream) × (x.stream ≡ some t) × IsRested t

-- The table is well-formed, find returns every live session for its own address, the sessions are
-- well-formed, and only live sessions wait in the heap.
pub record IsServer (s : Server) : Type 0 where
  pub table : IsTable s
  pub found : (p : Ptr) (x : Session) → s.store p ≡ some x → session_find s x.addr ≡ ok (some p)
  pub sessions : (p : Ptr) (x : Session) → s.store p ≡ some x → IsSession x
  pub waiting : (p : Ptr) → 0 < count p s.timeouts.heap → (x : Session) × (s.store p ≡ some x)
