-- ===== src/Client/Machine/Failures.antt =====
-- How the client ends: resets, errors and a failing audio device.
use sas.Base.{
  ℕ, ◌+◌, ◌-◌, ◌*◌, ◌≤◌, ◌<◌, ◌≡◌, refl, ap, ◌∙◌, true, false, List, [], ◌∷◌, ◌++◌, ok, ◌>>=◌, ltb,
  if◌then◌else◌, arith, length,
}
use sas.Base.Words.{u16_mod, u32_mod, u64_mod}
use sas.Rxc.Long.{long_max}
use sas.Rxc.Connection.{Pipe, SinkLogic}
use sas.Transport.{
  State, Header, Err, Endian, flag_isset, flag_fin, flag_rst, flag_err, header_decode, err_encode,
}
use sas.Transport.Wire.{err_bytes}
use sas.Transport.Exchange.{err_exchange}
use sas.Client.{Chunk, Client, Peer, set_state}
use sas.Client.Drivers.{driver_ignore}
use sas.Client.Machine.{
  Player, Arrival, arrived, returned, chunk_size, client_accept, client_reset, client_state_machine,
  is_finished, receive_loop,
}
use sas.Client.Machine.Acks.{
  playing, InOrder, arrivals, ack_after, stream_demand, takes_chunk, after_chunk, after_chunk_state,
}

module _ (peer : Peer) {D : Type 0} (sink : SinkLogic Chunk (Pipe Client D)) (fuel : ℕ) where
  -- a reset that is not old
  resets :
      (w : Player D) (h : Header) (buffer : List ℕ)
      → w.pipe.source.session.ack ≤ h.seq
      → flag_isset h.flags flag_rst ≡ true
      → let r = client_reset peer h buffer (client_accept h w.pipe.source) in
        client_state_machine peer sink fuel w h buffer
        ≡ ok (r.0, record w { pipe = record (w.pipe) { source = r.1 } })
  unfolding client_state_machine
  resets w h buffer in_order rst =
      let fresh : ltb h.seq w.pipe.source.session.ack ≡ false = ground arith in rw (fresh, rst)

  -- A client in any state, with any sink, to which a server of any byte order sends an error packet
  -- that is not old, gives back the error code that the server encoded.
  pub error_reaches :
      (w : Player D) (h : Header) (server : Endian) (e : Err)
      → w.pipe.source.session.ack ≤ h.seq
      → flag_isset h.flags flag_rst ≡ true
      → flag_isset h.flags flag_err ≡ true
      → e.err < u32_mod
      → (w' : Player D) × (client_state_machine peer sink fuel w h
            (err_bytes server (err_encode server e))
          ≡ ok (e.err, w'))
  unfolding client_reset
  error_reaches w h server e in_order rst err fits =
      let same = ap (λ (x : Err). x.err) (err_exchange server peer.endian e fits) in
      let kept = record w { pipe = record (w.pipe) { source = client_accept h w.pipe.source } } in
      (
        kept,
        resets w h (err_bytes server (err_encode server e)) in_order rst
            ∙ rw err (ap (λ n. ok (n, kept)) same),
      )

  pub finish_step :
      (w : Player D) (h : Header) (buffer : List ℕ) (rest : List Arrival)
      → w.pipe.source.session.state ≡ State.establsh
      → w.pipe.source.session.ack ≤ (header_decode peer.endian h).seq
      → flag_isset (header_decode peer.endian h).flags flag_rst ≡ true
      → flag_isset (header_decode peer.endian h).flags flag_err ≡ false
      → flag_isset (header_decode peer.endian h).flags flag_fin ≡ true
      → (w' : Player D) × (receive_loop peer sink fuel (arrived h buffer ∷ rest) w
          ≡ ok (returned 0 w'))
        × (w'.pipe.source.session.state ≡ State.finished)
        × (w'.pipe.source.sent ≡ w.pipe.source.sent)
        × (w'.pipe.sink ≡ w.pipe.sink)
  unfolding receive_loop is_finished client_reset client_accept
  finish_step w h buffer rest st in_order rst err fin =
      let going : is_finished w.pipe.source.session.state ≡ false = ap is_finished st in
      let d = header_decode peer.endian h in
      let c = set_state State.finished (client_accept d w.pipe.source) in
      let w' = record w { pipe = record (w.pipe) { source = c } } in
      (
        w',
        rw (going, resets w d buffer in_order rst, ◌>>=◌, err, fin) (ends w' rest refl),
        refl,
        refl,
        refl,
      )
    where
      ends :
          (w : Player D) (rest : List Arrival)
          → w.pipe.source.session.state ≡ State.finished
          → receive_loop peer sink fuel rest w ≡ ok (returned 0 w)
      ends w [] st = rw (ap is_finished st)
      ends w (a ∷ rest) st = rw (ap is_finished st)

module _ (peer : Peer) where
  -- An established client that plays through driver_ignore, to which come any number of packets in
  -- order and then a packet with RST and FIN and without ERR that is not old, returns 0, whatever
  -- comes after it. It has sent two acknowledgements for each packet before that one.
  pub stream_finishes :
      (packets : List (Header × List ℕ)) (h : Header) (buffer : List ℕ) (rest : List Arrival)
      (r : ℕ) (c : Client)
      → c.session.state ≡ State.establsh
      → InOrder peer c.session.ack packets
      → r + length packets ≤ long_max
      → ack_after peer c.session.ack packets ≤ (header_decode peer.endian h).seq
      → flag_isset (header_decode peer.endian h).flags flag_rst ≡ true
      → flag_isset (header_decode peer.endian h).flags flag_err ≡ false
      → flag_isset (header_decode peer.endian h).flags flag_fin ≡ true
      → (w : Player (Unit {0})) × (receive_loop peer driver_ignore 2
            (arrivals peer packets ++ arrived h buffer ∷ rest)
            (playing r c)
          ≡ ok (returned 0 w))
        × (w.pipe.source.session.state ≡ State.finished)
        × (length w.pipe.source.sent ≡ length c.sent + 2 * length packets)
  stream_finishes packets h buffer rest r c st in_order fits last rst err fin =
      let (c', run, st', ack', sent') =
        stream_demand peer packets (arrived h buffer ∷ rest) r c st in_order fits in
      let (w, ended, finished, sent, sink) =
        finish_step peer driver_ignore 2 (playing (r + length packets) c') h buffer rest st'
          (omega (arith, ack')) rst err fin in
      (w, run ∙ ended, finished, ap length sent ∙ sent')

  -- The chunk that an established client hands to driver_ignore never has the length of the packet
  -- that carried it: its size is 8 less, or, of a packet shorter than 8 bytes, 2 ^ 64 - 8 or more.
  pub chunk_size_wrong :
      (r : ℕ) (c : Client) (h : Header) (buffer : List ℕ)
      → c.session.state ≡ State.establsh
      → c.session.ack ≤ h.seq
      → flag_isset h.flags flag_rst ≡ false
      → r < long_max
      → h.length < u16_mod
      → (w : Player (Unit {0})) × (client_state_machine peer driver_ignore 2 (playing r c) h buffer
          ≡ ok (0, w))
        × (w.pipe.source.session.chunk.size
            ≡ (if ltb h.length 8 then u64_mod - 8 + h.length else h.length - 8))
  unfolding chunk_size
  chunk_size_wrong r c h buffer st in_order not_reset fits short = (
    playing (r + 1) (after_chunk peer h buffer c),
    takes_chunk peer r c h buffer st in_order not_reset fits,
    (after_chunk_state peer h buffer c).3 ∙ ground arith,
  )
