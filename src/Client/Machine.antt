-- ===== src/Client/Machine.antt =====
-- sas_client_session_state_machine and sas_client_receive of sas-client/src/client.c, and the source
-- of sas-client/src/source.c.
pub mod Acks
pub mod Configuration
pub mod Device
pub mod Failures
pub mod Opened
pub mod Sound
mod Tests
use sas.Base.{
  ℕ, ◌+◌, ◌-◌, ◌%◌, Bool, true, false, List, [], ◌∷◌, Option, none, some, Run, ok, fault, Fault,
  ◌>>=◌, ltb, ◌==◌, drop, if◌then◌else◌,
}
use sas.Base.Words.{u64_mod, add32}
use sas.Rxc.Connection.{Pipe, SinkLogic, SourceLogic, connection_create}
use sas.Rxc.Pipeline.{inlet_of, pipeline_start}
use sas.Server.Session.{advance}
use sas.Transport.{
  State, Header, CfgAck, flag_isset, flag_fin, flag_rst, flag_err, cfg_ack_size, header_decode,
  cfg_ack_decode, err_decode,
}
use sas.Transport.Wire.{cfg_ack_of, err_of}
use sas.Client.{
  Chunk, ClientSession, Client, Peer, client_window_size, client_ack, client_syn, set_state,
  set_window,
}

-- The client with its sink. While there is no pipeline, the pipe only holds the two.
pub record Player (D : Type 0) : Type 0 where
  pub running : Bool
  pub pipe : Pipe Client D

-- ECONNRESET and ETIMEDOUT
abbrev pub econnreset : ℕ
econnreset = 104

abbrev pub etimedout : ℕ
etimedout = 110

-- `header->length - sizeof(struct sas_transport_packet_cfg_ack)`, a size_t
unfoldable pub chunk_size : Header → ℕ
chunk_size h = (h.length + u64_mod - cfg_ack_size) % u64_mod

-- the send window and the acknowledgement that a packet leaves
unfoldable pub client_accept : Header → Client → Client
client_accept h c = record c {
  session = record (c.session) { send_window = h.window; ack = add32 h.seq (advance h.length) };
}

abbrev pub set_chunk : Chunk → Client → Client
set_chunk chunk c = record c { session = record (c.session) { chunk = chunk } }

-- what select(2) and then recv(2) give: an error number of select, no packet in time, an error
-- number of recv, or a header as it came with the bytes behind it in the buffer
pub data Arrival : Type 0 where
  select_failed : ℕ → Arrival
  timed_out : Arrival
  recv_failed : ℕ → Arrival
  arrived : Header → List ℕ → Arrival

-- sas_client_receive returns an error number, or waits for the next packet
pub data Received (D : Type 0) : Type 0 where
  returned : ℕ → Player D → Received D
  waiting : Player D → Received D

-- `session.state != SAS_TRANSPORT_STATE_FINISHED` fails
unfoldable pub is_finished : State → Bool
is_finished State.finished = true
is_finished State.initial = false
is_finished State.syn_rcvd = false
is_finished State.syn_sent = false
is_finished State.sack_sent = false
is_finished State.establsh = false

module _ (peer : Peer) where
  -- the source: a request opens the window and sends an acknowledgement
  unfoldable pub session_source : {D : Type 0} → SourceLogic Chunk (Pipe Client D)
  session_source = record {
    on_pull = λ out n p.
        ok (record p { source = (client_ack peer (set_window client_window_size p.source)).1 });
    on_downstream_finish = λ p. ok p;
  }

  -- the chunk that describes the stream, from the payload of a SYN-ACK
  unfoldable pub configured : Header → List ℕ → Chunk
  unfolding chunk_size
  configured h buffer =
      let cfg = cfg_ack_decode peer.endian (cfg_ack_of peer.endian buffer) in
      record {
        size = chunk_size h;
        buffer = drop cfg_ack_size buffer;
        sample_rate = cfg.sample_rate;
        sample_size = cfg.sample_size;
        channels = cfg.channels;
        codec = cfg.codec;
      }

  -- what a reset makes the client return, and its session
  unfoldable pub client_reset : Header → List ℕ → Client → ℕ × Client
  client_reset h buffer c =
      if flag_isset h.flags flag_err
      then ((err_decode peer.endian (err_of peer.endian buffer)).err, c)
      else if flag_isset h.flags flag_fin
      then (0, set_state State.finished c)
      else (econnreset, c)

  -- `fuel` bounds the requests that the sink makes at a time
  module _ {D : Type 0} (sink : SinkLogic Chunk (Pipe Client D)) (fuel : ℕ) where
    -- `sink_logic->on_push(sink_logic, &chunk)`, past the connection
    unfoldable pub push_chunk : Player D → Run (Player D)
    push_chunk w =
        let pushed =
          sink.on_push (inlet_of session_source sink fuel) w.pipe.source.session.chunk w.pipe in
        if w.running then (pushed >>= λ p. ok (record w { pipe = p })) else fault Fault.null_pointer

    -- the case SAS_TRANSPORT_STATE_SYN_SENT
    unfoldable pub syn_sent_state : Player D → Header → List ℕ → Run (ℕ × Player D)
    syn_sent_state w h buffer = do
      p ←
          pipeline_start session_source sink fuel (set_chunk (configured h buffer) w.pipe.source)
            w.pipe.sink
      let c = set_state State.establsh (client_ack peer p.source).1
      w' ← push_chunk (record { running = true; pipe = record p { source = c } })
      ok (0, w')

    -- the case SAS_TRANSPORT_STATE_ESTABLSH
    unfoldable pub establsh_state : Player D → Header → List ℕ → Run (ℕ × Player D)
    establsh_state w h buffer =
        let c = w.pipe.source in
        let chunk = record (c.session.chunk) { size = chunk_size h; buffer = buffer } in
        (do
          w' ← push_chunk (record w { pipe = record (w.pipe) { source = set_chunk chunk c } })
          let c' = (client_ack peer (set_window 0 w'.pipe.source)).1
          ok (0, record w' { pipe = record (w'.pipe) { source = c' } }))

    -- the `switch`
    unfoldable pub client_dispatch : State → Player D → Header → List ℕ → Run (ℕ × Player D)
    client_dispatch State.syn_sent w h buffer = syn_sent_state w h buffer
    client_dispatch State.establsh w h buffer = establsh_state w h buffer
    client_dispatch State.initial w h buffer = ok (0, w)
    client_dispatch State.syn_rcvd w h buffer = ok (0, w)
    client_dispatch State.sack_sent w h buffer = ok (0, w)
    client_dispatch State.finished w h buffer = ok (0, w)

    unfoldable pub client_state_machine : Player D → Header → List ℕ → Run (ℕ × Player D)
    client_state_machine w h buffer =
        let c = w.pipe.source in
        let c' = client_accept h c in
        let w' = record w { pipe = record (w.pipe) { source = c' } } in
        let handled = client_dispatch c.session.state w' h buffer in
        let (err, reset) = client_reset h buffer c' in
        if ltb h.seq c.session.ack
        then ok (0, w)
        else if flag_isset h.flags flag_rst
        then ok (err, record w { pipe = record (w.pipe) { source = reset } })
        else handled

    -- The `while` of sas_client_receive on the arrivals in turn.
    unfoldable pub receive_loop : List Arrival → Player D → Run (Received D)
    unfolding is_finished
    receive_loop [] w =
        ok (if is_finished w.pipe.source.session.state then returned 0 w else waiting w)
    receive_loop (a ∷ rest) w =
        let handled : Run (Received D) = elim a [
          | select_failed e ↦ ok (returned e w)
          | timed_out ↦ ok (returned etimedout w)
          | recv_failed e ↦ ok (returned e w)
          | arrived h buffer ↦ (do
            (err, w') ← client_state_machine w (header_decode peer.endian h) buffer
            let next = receive_loop rest w'
            if err == 0 then next else ok (returned err w'))
        ] in
        if is_finished w.pipe.source.session.state then ok (returned 0 w) else handled

    -- sas_client_receive
    unfoldable pub client_receive : List ℕ → List Arrival → Player D → Run (Received D)
    client_receive name arrivals w = do
      (err, c) ← client_syn peer name w.pipe.source
      let w' = record w { pipe = record (w.pipe) { source = c } }
      let received = receive_loop arrivals w'
      if err == 0 then received else ok (returned err w')
