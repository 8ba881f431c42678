-- ===== src/Client/Machine/Device.antt =====
-- What the sink of drivers/oss.c does when the audio device stops taking chunks.
use sas.Base.{
  ℕ, suc, ◌≤◌, ◌≡◌, refl, ap, ◌∙◌, true, false, List, [], ◌∷◌, Option, some, ok, fault, Fault,
  ◌>>=◌, ◌==◌, arith,
}
use sas.Base.Words.{add32}
use sas.Server.Session.{advance}
use sas.Rxc.Long.{long_max, long_min}
use sas.Rxc.Connection.{connection_cancel}
use sas.Rxc.Pipeline.{inlet_cancel, inlet_of}
use sas.Transport.{State, Header, header_decode}
use sas.Client.{Chunk, Client, Peer, client_ack, client_send, set_window}
use sas.Client.Drivers.{
  Oss, Audio, driver_oss, oss_push, is_unset, write_chunk, write_failed, finish_device,
}
use sas.Client.Machine.{
  Player, Arrival, arrived, chunk_size, client_accept, set_chunk, session_source, push_chunk,
  establsh_state, client_dispatch, is_finished, receive_loop,
}
use sas.Client.Machine.Acks.{at_rest, dispatched, InOrder}

module _ (peer : Peer) (audio : Audio) where
  -- a player whose device is open
  abbrev pub sounding : ℕ → Client → Oss → Player Oss
  sounding r c oss = record { running = true; pipe = at_rest r c oss }

  -- a player whose connection is closed
  abbrev cut : Client → Oss → Player Oss
  cut c oss = record { running = true; pipe = record (at_rest long_min c oss) { parent = false } }

  abbrev taking : Header → List ℕ → Client → Client
  taking h buffer c =
      set_chunk (record (c.session.chunk) { size = chunk_size h; buffer = buffer })
        (client_accept h c)

  abbrev after_cut : Header → List ℕ → Client → Client
  after_cut h buffer c = (client_ack peer (set_window 0 (taking h buffer c))).1

  after_cut_state :
      (h : Header) (buffer : List ℕ) (c : Client)
      → ((after_cut h buffer c).session.state ≡ c.session.state)
        × ((after_cut h buffer c).session.ack ≡ add32 h.seq (advance h.length))
  unfolding client_ack client_send client_accept
  after_cut_state h buffer c = (ground arith, ground arith)

  first_failure :
      (r fd : ℕ) (c : Client) (n : Option ℕ) (writes : List (Option ℕ)) (played : List Chunk)
      (closed : List ℕ) (h : Header) (buffer : List ℕ)
      → r ≤ long_max
      → write_failed n ≡ true
      → establsh_state peer
          (driver_oss audio)
          2
          (sounding r (client_accept h c) (record {
            fd = some (suc fd);
            finished = false;
            writes = n ∷ writes;
            played = played;
            closed = closed;
          }))
          h
          buffer
        ≡ ok (
          0,
          cut (after_cut h buffer c) (record {
            fd = some (suc fd);
            finished = true;
            writes = writes;
            played = (taking h buffer c).session.chunk ∷ played;
            closed = suc fd ∷ closed;
          }),
        )
  unfolding establsh_state push_chunk driver_oss oss_push inlet_of inlet_cancel connection_cancel
      is_unset write_chunk finish_device session_source client_ack chunk_size client_accept
  first_failure r fd c n writes played closed h buffer fits failed =
      let shut : (r == long_min) ≡ false = ground arith in
      let open_fd : (suc fd == 0) ≡ false = ground arith in rw (failed, shut, ◌>>=◌, open_fd)

  established :
      (h : Header) (buffer : List ℕ) (w : Player Oss)
      → client_dispatch peer (driver_oss audio) 2 State.establsh w h buffer
        ≡ establsh_state peer (driver_oss audio) 2 w h buffer
  unfolding client_dispatch
  established h buffer w = refl

  second_failure :
      (fd : ℕ) (c : Client) (n : Option ℕ) (writes : List (Option ℕ)) (played : List Chunk)
      (closed : List ℕ) (h : Header) (buffer : List ℕ)
      → write_failed n ≡ true
      → establsh_state peer
          (driver_oss audio)
          2
          (cut (client_accept h c) (record {
            fd = some (suc fd);
            finished = true;
            writes = n ∷ writes;
            played = played;
            closed = closed;
          }))
          h
          buffer
        ≡ fault Fault.null_pointer
  unfolding establsh_state push_chunk driver_oss oss_push inlet_of inlet_cancel write_chunk
      finish_device is_unset
  second_failure fd c n writes played closed h buffer failed =
      let open_fd : (suc fd == 0) ≡ false = ground arith in rw (failed, open_fd)

  -- An established client with a pipeline, whose audio device is open at a descriptor other than 0
  -- and gives -1 or 0 to the next two writes, dereferences a null pointer at the second of two
  -- packets that come in order.
  pub second_failure_faults :
      (r fd : ℕ) (c : Client) (n n' : Option ℕ) (writes : List (Option ℕ)) (closed : List ℕ)
      (h h' : Header) (buffer buffer' : List ℕ) (rest : List Arrival)
      → c.session.state ≡ State.establsh
      → InOrder peer c.session.ack ((h, buffer) ∷ (h', buffer') ∷ [])
      → r ≤ long_max
      → write_failed n ≡ true
      → write_failed n' ≡ true
      → receive_loop peer (driver_oss audio) 2 (arrived h buffer ∷ arrived h' buffer' ∷ rest) (
          sounding r c (record {
            fd = some (suc fd);
            finished = false;
            writes = n ∷ n' ∷ writes;
            played = [];
            closed = closed;
          }))
        ≡ fault Fault.null_pointer
  unfolding receive_loop is_finished
  second_failure_faults r fd c n n' writes closed h h' buffer buffer' rest st
        (new, plain, (new', plain', _)) fits failed failed' =
      let d = header_decode peer.endian h in
      let d' = header_decode peer.endian h' in
      let c' = after_cut d buffer c in
      let (same, ack) = after_cut_state d buffer c in
      let oss : Oss = record {
        fd = some (suc fd);
        finished = false;
        writes = n ∷ n' ∷ writes;
        played = [];
        closed = closed;
      } in
      let oss' : Oss = record {
        fd = some (suc fd);
        finished = true;
        writes = n' ∷ writes;
        played = (taking d buffer c).session.chunk ∷ [];
        closed = suc fd ∷ closed;
      } in
      let going : is_finished c.session.state ≡ false = ap is_finished st in
      let going' : is_finished c'.session.state ≡ false = ap is_finished (same ∙ st) in
      let first =
        dispatched peer (driver_oss audio) 2 (sounding r c oss) d buffer new plain
        ∙ ap
            (λ s.
              client_dispatch peer (driver_oss audio) 2 s (sounding r (client_accept d c) oss) d
                buffer)
            st
        ∙ established d buffer (sounding r (client_accept d c) oss)
        ∙ first_failure r fd c n (n' ∷ writes) [] closed d buffer fits failed in
      let second =
        dispatched peer (driver_oss audio) 2 (cut c' oss') d' buffer' (rw ack new') plain'
        ∙ ap
            (λ s.
              client_dispatch peer (driver_oss audio) 2 s (cut (client_accept d' c') oss') d'
                buffer')
            (same ∙ st)
        ∙ established d' buffer' (cut (client_accept d' c') oss')
        ∙ second_failure fd c' n' writes oss'.played oss'.closed d' buffer' failed' in
      rw (going, first, ◌>>=◌, going', second)
