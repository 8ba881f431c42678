-- ===== src/Client/Machine/Acks.antt =====
-- The demand and the acknowledgements of the client that plays through driver_ignore.
use sas.Base.{
  ℕ, suc, ◌+◌, ◌*◌, ◌≤◌, ◌<◌, ◌≡◌, refl, ap, ◌∙◌, true, false, List, [], ◌∷◌, ◌++◌, ok, ◌>>=◌, ltb,
  ◌==◌, arith, length,
}
use sas.Base.Words.{add32, add64}
use sas.Rxc.Long.{long_max, long_min, is_negative}
use sas.Rxc.Connection.{Pipe, SinkLogic, connection_pull}
use sas.Rxc.Pipeline.{worker_loop, worker_enqueue, inlet_pull, inlet_of}
use sas.Server.Session.{advance}
use sas.Transport.{State, Header, flag_isset, flag_rst, header_decode}
use sas.Client.{Chunk, Client, Peer, client_window_size, client_send, client_ack, set_window}
use sas.Client.Drivers.{driver_ignore}
use sas.Client.Machine.{
  Player, Arrival, arrived, chunk_size, client_accept, set_chunk, session_source, push_chunk,
  establsh_state, client_dispatch, client_state_machine, is_finished, receive_loop,
}

-- a pipe at rest, for any state of the sink
abbrev pub at_rest : {D : Type 0} → ℕ → Client → D → Pipe Client D
at_rest r c d = record {
  requested = r;
  queue = [];
  wip = false;
  parent = true;
  source = c;
  sink = d;
}

-- a player with driver_ignore whose pipeline has `r` requests that were never met
abbrev pub playing : ℕ → Client → Player (Unit {0})
playing r c = record { running = true; pipe = at_rest r c tt }

module _ (peer : Peer) where
  -- a request of the sink, as the client's source meets it
  abbrev pub asked : Client → Client
  asked c = (client_ack peer (set_window client_window_size c)).1

  pub pull_asks :
      {D : Type 0} (sink : SinkLogic Chunk (Pipe Client D)) (r : ℕ) (c : Client) (d : D)
      → r < long_max
      → inlet_pull (worker_loop (session_source peer) sink 2) 1 (at_rest r c d)
        ≡ ok (at_rest (r + 1) (asked c) d)
  unfolding inlet_pull worker_enqueue worker_loop connection_pull session_source
  pull_asks sink r c d h =
      let open_now : (r == long_min) ≡ false = ground arith in
      let sum : add64 r 1 ≡ r + 1 = omega arith in
      let fits : is_negative (r + 1) ≡ false = ground arith in rw (open_now, sum, fits)

  sent-ack : (c : Client) → length (client_ack peer c).1.sent ≡ length c.sent + 1
  unfolding client_ack client_send
  sent-ack c = ground arith

  abbrev chunk_set : Header → List ℕ → Client → Client
  chunk_set h buffer c =
      set_chunk (record (c.session.chunk) { size = chunk_size h; buffer = buffer }) c

  -- the client once it has taken a packet of the stream
  abbrev pub after_chunk : Header → List ℕ → Client → Client
  after_chunk h buffer c =
      (client_ack peer (set_window 0 (asked (chunk_set h buffer (client_accept h c))))).1

  establsh_takes :
      (r : ℕ) (c : Client) (h : Header) (buffer : List ℕ)
      → r < long_max
      → establsh_state peer driver_ignore 2 (playing r (client_accept h c)) h buffer
        ≡ ok (0, playing (r + 1) (after_chunk h buffer c))
  unfolding establsh_state push_chunk driver_ignore inlet_of
  establsh_takes r c h buffer fits =
      rw (pull_asks driver_ignore r (chunk_set h buffer (client_accept h c)) tt fits, ◌>>=◌)

  -- a packet that is not old and no reset
  pub dispatched :
      {D : Type 0} (sink : SinkLogic Chunk (Pipe Client D)) (fuel : ℕ) (w : Player D) (h : Header)
      (buffer : List ℕ)
      → w.pipe.source.session.ack ≤ h.seq
      → flag_isset h.flags flag_rst ≡ false
      → client_state_machine peer sink fuel w h buffer
        ≡ client_dispatch peer sink fuel w.pipe.source.session.state
            (record w { pipe = record (w.pipe) { source = client_accept h w.pipe.source } })
            h
            buffer
  unfolding client_state_machine
  dispatched sink fuel w h buffer in_order not_reset =
      let fresh : ltb h.seq w.pipe.source.session.ack ≡ false = ground arith in
      rw (fresh, not_reset)

  pub takes_chunk :
      (r : ℕ) (c : Client) (h : Header) (buffer : List ℕ)
      → c.session.state ≡ State.establsh
      → c.session.ack ≤ h.seq
      → flag_isset h.flags flag_rst ≡ false
      → r < long_max
      → client_state_machine peer driver_ignore 2 (playing r c) h buffer
        ≡ ok (0, playing (r + 1) (after_chunk h buffer c))
  unfolding client_dispatch
  takes_chunk r c h buffer st in_order not_reset fits =
      dispatched driver_ignore 2 (playing r c) h buffer in_order not_reset
      ∙ ap (λ st. client_dispatch peer driver_ignore 2 st (playing r (client_accept h c)) h buffer)
          st
      ∙ establsh_takes r c h buffer fits

  pub after_chunk_state :
      (h : Header) (buffer : List ℕ) (c : Client)
      → ((after_chunk h buffer c).session.state ≡ c.session.state)
        × ((after_chunk h buffer c).session.ack ≡ add32 h.seq (advance h.length))
        × (length (after_chunk h buffer c).sent ≡ length c.sent + 2)
        × ((after_chunk h buffer c).session.chunk.size ≡ chunk_size h)
  unfolding client_ack client_send client_accept
  after_chunk_state h buffer c = (ground arith, ground arith, ground arith, ground arith)

  -- packets of a stream, decoded: none is old when its turn comes, and none is a reset
  abbrev pub InOrder : ℕ → List (Header × List ℕ) → Type 0
  InOrder ack [] = Unit
  InOrder ack ((h, buffer) ∷ rest) =
      (ack ≤ (header_decode peer.endian h).seq)
      × (flag_isset (header_decode peer.endian h).flags flag_rst ≡ false)
      × InOrder
          (add32 (header_decode peer.endian h).seq (advance (header_decode peer.endian h).length))
          rest

  abbrev pub arrivals : List (Header × List ℕ) → List Arrival
  arrivals [] = []
  arrivals ((h, buffer) ∷ rest) = arrived h buffer ∷ arrivals rest

  pub loop_step :
      (h : Header) (buffer : List ℕ) (rest : List Arrival) (r : ℕ) (c : Client)
      → c.session.state ≡ State.establsh
      → c.session.ack ≤ (header_decode peer.endian h).seq
      → flag_isset (header_decode peer.endian h).flags flag_rst ≡ false
      → r < long_max
      → receive_loop peer driver_ignore 2 (arrived h buffer ∷ rest) (playing r c)
        ≡ receive_loop peer driver_ignore 2 rest
            (playing (r + 1) (after_chunk (header_decode peer.endian h) buffer c))
  unfolding receive_loop is_finished
  loop_step h buffer rest r c st next not_reset fits =
      let going : is_finished c.session.state ≡ false = ap is_finished st in
      rw (going, takes_chunk r c (header_decode peer.endian h) buffer st next not_reset fits, ◌>>=◌)

  -- the acknowledgement that the packets leave
  abbrev pub ack_after : ℕ → List (Header × List ℕ) → ℕ
  ack_after ack [] = ack
  ack_after ack ((h, buffer) ∷ rest) =
      ack_after
        (add32 (header_decode peer.endian h).seq (advance (header_decode peer.endian h).length))
        rest

  -- An established client that plays through driver_ignore takes any number of packets that come in
  -- order, and goes on with what comes next. It has sent two acknowledgements for each, and its
  -- connection counts one more request for each, since no packet meets a request.
  pub stream_demand :
      (packets : List (Header × List ℕ)) (next : List Arrival) (r : ℕ) (c : Client)
      → c.session.state ≡ State.establsh
      → InOrder c.session.ack packets
      → r + length packets ≤ long_max
      → (c' : Client) × (receive_loop peer driver_ignore 2 (arrivals packets ++ next) (playing r c)
          ≡ receive_loop peer driver_ignore 2 next (playing (r + length packets) c'))
        × (c'.session.state ≡ State.establsh)
        × (c'.session.ack ≡ ack_after c.session.ack packets)
        × (length c'.sent ≡ length c.sent + 2 * length packets)
  stream_demand [] next r c st in_order fits =
      let none_more : r ≡ r + 0 = omega arith in
      (
        c,
        ap (λ n. receive_loop peer driver_ignore 2 next (playing n c)) none_more,
        st,
        refl,
        omega arith,
      )
  stream_demand ((h, buffer) ∷ rest) next r c st (new, not_reset, in_order) fits =
      let d = header_decode peer.endian h in
      let moved : r + 1 + length rest ≡ r + suc (length rest) = omega arith in
      let (same, ack, sent, size) = after_chunk_state d buffer c in
      let (c', run, st', ack', sent') =
        stream_demand rest next (r + 1) (after_chunk d buffer c) (same ∙ st) (rw ack in_order)
          (omega arith) in
      (
        c',
        loop_step h buffer (arrivals rest ++ next) r c st new not_reset (omega arith)
            ∙ run
            ∙ ap (λ n. receive_loop peer driver_ignore 2 next (playing n c')) moved,
        st',
        ack' ∙ ap (λ n. ack_after n rest) ack,
        omega (arith, sent, sent'),
      )
