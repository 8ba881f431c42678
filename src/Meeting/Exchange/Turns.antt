-- ===== src/Meeting/Exchange/Turns.antt =====
-- One turn of the exchange: what the server answers is what the client hears.
use sas.Base.{
  ℕ, suc, ◌+◌, ◌-◌, ◌%◌, ◌≤◌, ◌<◌, ◌≡◌, ap, ◌∙◌, false, List, [], ◌∷◌, ◌++◌, map, Option, Run, ok,
  ◌>>=◌, arith, length, take,
}
use sas.Base.Words.{u16_mod, u32_mod, u64_mod, add32}
use sas.Rxc.Long.{long_max}
use sas.Transport.{State, Header, flag_isset, flag_rst, header_decode, cfg_ack_size}
use sas.Transport.Wire.{header_bytes, header_of}
use sas.Server.Session.{Session, Sent, Host, advance}
use sas.Server.Session.Sending.{packet_of}
use sas.Server.Table.{Server}
use sas.Server.Loop.{handle_packet}
use sas.Server.Address.{Addr}
use sas.Server.Machine.{Files}
use sas.Client.{Chunk, Client, Datagram, Peer, client_window_size}
use sas.Client.Drivers.{Oss, Audio, driver_oss, write_failed}
use sas.Client.Machine.{Player, Received, returned, waiting, is_finished, chunk_size, receive_loop}
use sas.Client.Machine.Acks.{after_chunk, after_chunk_state}
use sas.Client.Machine.Device.{sounding}
use sas.Client.Machine.Sound.{device, chunk_in, sound_step}
use sas.Meeting.{take-length}
use sas.Meeting.Packets.{InRange, on_wire, arrives, advance_fits}
use sas.Meeting.Network.{heard}
use sas.Meeting.Exchange.{newly, received, to_server, told_of, converse}
use sas.Meeting.Exchange.Asks.{ask, IsAsk, ask-IsAsk, chunk_asks, newly_one, newly_two}

module _ (host : Host) (files : Files) (junk : Session) (addr : Addr) (clock : ℕ → ℕ) (peer : Peer)
    (pad stale : List ℕ) (audio : Audio) where
  abbrev pub hears : List Sent → Player Oss → Run (Received Oss)
  hears answers w = receive_loop peer (driver_oss audio) 2 (map (on_wire host peer pad) answers) w

  pub goes_on :
      (k : ℕ) (d : Datagram) (asks more : List Datagram) (s s' : Server) (w w' : Player Oss)
      (answers : List Sent)
      → handle_packet host files junk
          (clock k)
          s
          addr
          (received host peer pad d)
          (d.payload ++ stale)
        ≡ ok s'
      → newly s.world.sent s'.world.sent ≡ answers
      → hears answers w ≡ ok (waiting w')
      → newly w.pipe.source.sent w'.pipe.source.sent ≡ more
      → converse host files junk addr clock peer pad stale audio (suc k) (d ∷ asks) s w
        ≡ converse host files junk addr clock peer pad stale audio k (asks ++ more) s' w'
  unfolding converse
  goes_on k d asks more s s' w w' answers run fresh heard next = rw (run, ◌>>=◌, fresh, heard, next)

  pub ends :
      (k : ℕ) (d : Datagram) (asks : List Datagram) (s s' : Server) (w w' : Player Oss)
      (answers : List Sent)
      → handle_packet host files junk
          (clock k)
          s
          addr
          (received host peer pad d)
          (d.payload ++ stale)
        ≡ ok s'
      → newly s.world.sent s'.world.sent ≡ answers
      → hears answers w ≡ ok (returned 0 w')
      → converse host files junk addr clock peer pad stale audio (suc k) (d ∷ asks) s w
        ≡ ok (returned 0 w', s')
  unfolding converse
  ends k d asks s s' w w' answers run fresh heard = rw (run, ◌>>=◌, fresh, heard)

  -- a client that has heard all packets waits
  pub waits :
      (w : Player Oss) → w.pipe.source.session.state ≡ State.establsh → hears [] w ≡ ok (waiting w)
  unfolding receive_loop is_finished
  waits w st = rw (ap is_finished st)

  pub one_answer :
      (s s' : Server) (packet : Sent)
      → s'.world.sent ≡ packet ∷ s.world.sent
      → newly s.world.sent s'.world.sent ≡ packet ∷ []
  one_answer s s' packet e = ap (newly s.world.sent) e ∙ newly_one packet s.world.sent

  -- the number that the session expects after an acknowledgement
  pub ask_counts :
      (d : Datagram) (seq : ℕ)
      → IsAsk host peer pad seq d
      → seq + 1 < u32_mod
      → add32 (to_server host peer pad d).seq (advance (to_server host peer pad d).length) ≡ seq + 1
  ask_counts d seq a fits =
      ap (λ n. add32 (to_server host peer pad d).seq (advance n)) a.no_payload
      ∙ omega (arith, a.seq_is)

  -- the client on the packet of a chunk
  pub takes :
      (x : Session) (b : ℕ) (bs : List ℕ) (r fd : ℕ) (c : Client) (n : Option ℕ)
      (writes : List (Option ℕ)) (played : List Chunk) (closed : List ℕ)
      → InRange x
      → length (b ∷ bs) ≤ 1024
      → x.seq + length (b ∷ bs) < u32_mod
      → c.session.state ≡ State.establsh
      → c.session.ack ≤ x.seq
      → c.session.seq + 2 < u32_mod
      → r < long_max
      → write_failed n ≡ false
      → (c' : Client) × (chunk : Chunk) × (a1 : Datagram) × (a2 : Datagram) × (hears
            (packet_of host 0 (length (b ∷ bs) % u16_mod) (b ∷ bs) x ∷ [])
            (sounding peer audio r c (device fd (n ∷ writes) played closed))
          ≡ ok
              (waiting (sounding peer audio (r + 1) c' (device fd writes (chunk ∷ played) closed))))
        × (heard chunk ≡ told_of (b, bs))
        × (c'.session.state ≡ State.establsh)
        × (c'.session.ack ≡ x.seq + length (b ∷ bs))
        × (c'.session.seq ≡ c.session.seq + 2)
        × (newly c.sent c'.sent ≡ a1 ∷ a2 ∷ [])
        × IsAsk host peer pad c.session.seq a1
        × IsAsk host peer pad (c.session.seq + 1) a2
  unfolding chunk_size flag_isset
  takes x b bs r fd c n writes played closed v fit small st old room fits good =
      let len = length (b ∷ bs) in
      let packet = packet_of host 0 (len % u16_mod) (b ∷ bs) x in
      let wire = header_of peer.endian (header_bytes host.endian pad packet.header) in
      let g = header_decode peer.endian wire in
      let d = arrives host peer pad 0 (len % u16_mod) (b ∷ bs) x v (omega arith) (omega arith) in
      let whole : len % u16_mod ≡ len = omega (arith, fit) in
      let c' = after_chunk peer g packet.payload c in
      let chunk = chunk_in peer audio g packet.payload c in
      let ack = add32 g.seq (advance g.length) in
      let (same, acks, sent, size) = after_chunk_state peer g packet.payload c in
      let (sends, seq) = chunk_asks peer g packet.payload c room in
      let next : ack ≡ x.seq + len =
        ap (λ (g : Header). add32 g.seq (advance g.length)) d
        ∙ advance_fits x.seq len (omega arith) fit small in
      let bound : ack < u32_mod = omega (arith, next) in
      (
        c',
        chunk,
        ask peer c.session.seq ack client_window_size,
        ask peer (c.session.seq + 1) ack 0,
        sound_step peer audio r fd c n writes played closed wire packet.payload [] st
              (omega (arith, old, ap (λ (g : Header). g.seq) d))
              (ap (λ (g : Header). flag_isset g.flags flag_rst) d) fits good
            ∙ waits (sounding peer audio (r + 1) c' (device fd writes (chunk ∷ played) closed))
                (same ∙ st),
        told (ap chunk_size d ∙ ap (λ k. (k + u64_mod - cfg_ack_size) % u64_mod) whole)
            (ap (λ k. take k (b ∷ bs)) whole ∙ take-length (b ∷ bs)),
        same ∙ st,
        acks ∙ next,
        seq,
        ap (newly c.sent) sends
            ∙ newly_two (ask peer c.session.seq ack client_window_size)
                (ask peer (c.session.seq + 1) ack 0) c.sent,
        ask-IsAsk host peer pad c.session.seq ack client_window_size (omega arith) bound
            (omega arith),
        ask-IsAsk host peer pad (c.session.seq + 1) ack 0 (omega arith) bound (omega arith),
      )
    where
      told : {n m : ℕ} {u v : List ℕ} → n ≡ m → u ≡ v → ◌≡◌ {A = ℕ × List ℕ} (n, u) (m, v)
      told e f = λ i. (e i, f i)
