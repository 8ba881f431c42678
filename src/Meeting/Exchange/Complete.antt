-- ===== src/Meeting/Exchange/Complete.antt =====
-- A whole stream, on the exchange between a session and a client that are past the handshake.
use sas.Base.{
  ℕ, suc, ◌+◌, ◌≤◌, ◌≡◌, ap, ◌∙◌, true, List, [], ◌∷◌, map, Option, some, ok, arith, length,
}
use sas.Rxc.Long.{long_max}
use sas.Transport.{State}
use sas.Timeout.{Ptr}
use sas.Server.Session.{Wav, Session, Host}
use sas.Server.Sink.Delivery.{ended_stream, FitBuffer}
use sas.Server.Table.{Server}
use sas.Server.Machine.{Files}
use sas.Client.{Chunk, Client, Datagram, Peer}
use sas.Client.Drivers.{Oss, Audio}
use sas.Client.Machine.{Player, returned}
use sas.Client.Machine.Device.{sounding}
use sas.Client.Machine.Sound.{device, Takes}
use sas.Meeting.Packets.{onto}
use sas.Meeting.Network.{heard}
use sas.Meeting.Exchange.{told_of, converse}
use sas.Server.Address.{Addr}
use sas.Server.Invariant.{IsServer}
use sas.Meeting.Exchange.Talking.{Talking}
use sas.Meeting.Exchange.Rounds.{chunk_round, end_round}

module _ (host : Host) (files : Files) (junk : Session) (addr : Addr) (clock : ℕ → ℕ) (peer : Peer)
    (pad stale : List ℕ) (audio : Audio) (p : Ptr) where
  pub stream_completes :
      (wav : Wav) (chunks : List (ℕ × List ℕ)) (s : Server) (x : Session) (c : Client)
      (asks : List Datagram) (r fd : ℕ) (writes : List (Option ℕ)) (played : List Chunk)
      (closed : List ℕ)
      → Talking host peer pad addr p wav chunks s x c asks
      → FitBuffer chunks
      → r + length chunks ≤ long_max
      → Takes (length chunks) writes
      → (s' : Server) × (x' : Session) × (w : Player Oss) × (converse host files junk addr clock
            peer pad stale audio
            (suc (length chunks))
            asks
            s
            (sounding peer audio r c (device fd writes played closed))
          ≡ ok (returned 0 w, s'))
        × (w.pipe.source.session.state ≡ State.finished)
        × (map heard w.pipe.sink.played ≡ onto (map told_of chunks) (map heard played))
        × IsServer s'
        × (s'.store p ≡ some x')
        × (x'.stream ≡ some (ended_stream (record wav { file = []; finished = true })))
  stream_completes wav chunks s x c [] r fd writes played closed t fit fits good =
      absurd (omega (arith, t.some_ask))
  stream_completes wav [] s x c (d ∷ asks) r fd writes played closed t fit fits good =
      let (s', x', w, run, finished, sink, kept, live, stream) =
        end_round host files junk addr clock peer pad stale audio p 0 wav s x c d asks r
          (device fd writes played closed) t in
      (s', x', w, run, finished, ap (λ (o : Oss). map heard o.played) sink, kept, live, stream)
  stream_completes wav (chunk ∷ cs) s x c (d ∷ asks) r fd [] played closed t fit fits good =
      elim good [ ]
  stream_completes wav ((b, bs) ∷ cs) s x c (d ∷ asks) r fd (n ∷ writes) played closed t fit fits
        good =
      let (s2, x2, c2, chunk, more, round, told, t2) =
        chunk_round host files junk addr clock peer pad stale audio p wav b bs cs (suc (length cs))
          s x c d asks r fd n writes played closed t fit.0 (omega arith) good.0 in
      let (s', x', w, run, finished, plays, kept, live, stream) =
        stream_completes wav cs s2 x2 c2 more (r + 1) fd writes (chunk ∷ played) closed t2 fit.1
          (omega arith) good.1 in
      (
        s',
        x',
        w,
        round ∙ run,
        finished,
        plays ∙ ap (λ q. onto (map told_of cs) (q ∷ map heard played)) told,
        kept,
        live,
        stream,
      )
