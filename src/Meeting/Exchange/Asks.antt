-- ===== src/Meeting/Exchange/Asks.antt =====
-- The acknowledgements of the client, as a session of the server takes them.
use sas.Base.{ℕ, suc, ◌+◌, ◌-◌, ◌<◌, ◌≡◌, sym, ap, false, List, [], ◌∷◌, ◌++◌, arith, length}
use mathlib.Core.Path.{subst}
use sas.Base.Words.{u16_mod, u32_mod, add32}
use sas.Transport.{Header, flag_isset, flag_rst, flag_ack, header_encode}
use sas.Transport.Exchange.{header_exchange}
use sas.Server.Session.{Host, advance}
use sas.Client.{Client, Datagram, Peer, client_ack, client_send, client_window_size}
use sas.Client.Machine.{client_accept}
use sas.Client.Machine.Acks.{after_chunk}
use sas.Client.Machine.Configuration.{after_syn_ack}
use sas.Meeting.Exchange.{newly, to_server}

-- the header of an acknowledgement before it is encoded, and the packet
abbrev pub ask_header : ℕ → ℕ → ℕ → Header
ask_header seq ack window = record {
  seq = seq;
  ack = ack;
  reserved = 0;
  flags = flag_ack;
  window = window;
  length = 0;
}

abbrev pub ask : Peer → ℕ → ℕ → ℕ → Datagram
ask peer seq ack window = record {
  header = header_encode peer.endian (ask_header seq ack window);
  payload = [];
}

module _ (host : Host) (peer : Peer) (pad : List ℕ) where
  -- packets that the server takes one after the other
  pub record IsAsk (seq : ℕ) (d : Datagram) : Type 0 where
    pub seq_is : (to_server host peer pad d).seq ≡ seq
    pub plain : flag_isset (to_server host peer pad d).flags flag_rst ≡ false
    pub no_payload : (to_server host peer pad d).length ≡ 0

  abbrev pub AreAsks : ℕ → List Datagram → Type 0
  AreAsks seq [] = Unit
  AreAsks seq (d ∷ asks) = IsAsk seq d × AreAsks (suc seq) asks

  pub AreAsks-append :
      (seq : ℕ) (asks more : List Datagram)
      → AreAsks seq asks
      → AreAsks (seq + length asks) more
      → AreAsks seq (asks ++ more)
  AreAsks-append seq [] more h k = let none_yet : seq + 0 ≡ seq = omega arith in rw none_yet at k
  AreAsks-append seq (d ∷ asks) more (first, h) k =
      let moved : seq + suc (length asks) ≡ suc seq + length asks = omega arith in
      (first, AreAsks-append (suc seq) asks more h (rw moved at k))

  -- two more, numbered from the number m of the first of them
  pub AreAsks-two :
      (seq start m : ℕ) (asks : List Datagram) (a1 a2 : Datagram)
      → seq ≡ start
      → m ≡ start + length asks
      → AreAsks start asks
      → IsAsk m a1
      → IsAsk (m + 1) a2
      → AreAsks seq (asks ++ a1 ∷ a2 ∷ [])
  AreAsks-two seq start m asks a1 a2 same place h first second =
      let after : m + 1 ≡ suc m = omega arith in
      subst (λ k. AreAsks k (asks ++ a1 ∷ a2 ∷ [])) (sym same)
        (AreAsks-append start asks (a1 ∷ a2 ∷ []) h (
          subst (λ k. AreAsks k (a1 ∷ a2 ∷ [])) place
            (first, (subst (λ k. IsAsk k a2) after second, tt))))

  -- three, numbered from m
  pub three_asks :
      (seq m : ℕ) (a1 a2 a3 : Datagram)
      → seq ≡ m
      → IsAsk m a1
      → IsAsk (m + 1) a2
      → IsAsk (m + 2) a3
      → AreAsks seq (a1 ∷ a2 ∷ a3 ∷ [])
  three_asks seq m a1 a2 a3 same first second third =
      let after : m + 1 ≡ suc m = omega arith in
      let last : m + 2 ≡ suc (suc m) = omega arith in
      subst (λ k. AreAsks k (a1 ∷ a2 ∷ a3 ∷ [])) (sym same)
        (first, (subst (λ k. IsAsk k a2) after second, (subst (λ k. IsAsk k a3) last third, tt)))

  ask_decodes :
      (seq ack window : ℕ)
      → seq < u32_mod
      → ack < u32_mod
      → window < u16_mod
      → to_server host peer pad (ask peer seq ack window) ≡ ask_header seq ack window
  ask_decodes seq ack window s a w =
      header_exchange peer.endian host.endian pad (ask_header seq ack window) (record {
        seq_in = s;
        ack_in = a;
        reserved_in = omega arith;
        flags_in = omega arith;
        window_in = w;
        length_in = omega arith;
      })

  pub ask-IsAsk :
      (seq ack window : ℕ)
      → seq < u32_mod
      → ack < u32_mod
      → window < u16_mod
      → IsAsk seq (ask peer seq ack window)
  unfolding flag_isset
  ask-IsAsk seq ack window s a w =
      let d = ask_decodes seq ack window s a w in
      record {
        seq_is = ap (λ (h : Header). h.seq) d;
        plain = ap (λ (h : Header). flag_isset h.flags flag_rst) d;
        no_payload = ap (λ (h : Header). h.length) d;
      }

-- the client's packets on a chunk, and its sequence number after them
pub chunk_asks :
    (peer : Peer) (h : Header) (buffer : List ℕ) (c : Client)
    → c.session.seq + 2 < u32_mod
    → ((after_chunk peer h buffer c).sent
        ≡ ask peer (c.session.seq + 1) (add32 h.seq (advance h.length)) 0
          ∷ ask peer c.session.seq (add32 h.seq (advance h.length)) client_window_size
          ∷ c.sent)
      × ((after_chunk peer h buffer c).session.seq ≡ c.session.seq + 2)
unfolding client_ack client_send client_accept
chunk_asks peer h buffer c small =
    let once : add32 c.session.seq 1 ≡ c.session.seq + 1 = omega arith in
    let twice : add32 (c.session.seq + 1) 1 ≡ c.session.seq + 2 = omega arith in
    (ground arith, ground arith)

pub newly_two : {A : Type 0} (a b : A) (sent : List A) → newly sent (b ∷ a ∷ sent) ≡ a ∷ b ∷ []
newly_two a b sent = let two : suc (suc (length sent)) - length sent ≡ 2 = omega arith in rw two

pub newly_one : {A : Type 0} (a : A) (sent : List A) → newly sent (a ∷ sent) ≡ a ∷ []
newly_one a sent = let one : suc (length sent) - length sent ≡ 1 = omega arith in rw one

-- the client's packets on a SYN-ACK, and its sequence number after them
pub syn_ack_asks :
    (peer : Peer) (h : Header) (buffer : List ℕ) (c : Client)
    → c.session.seq + 3 < u32_mod
    → let ack = add32 h.seq (advance h.length) in
      ((after_syn_ack peer h buffer c).sent
        ≡ ask peer (c.session.seq + 2) ack client_window_size
          ∷ ask peer (c.session.seq + 1) ack client_window_size
          ∷ ask peer c.session.seq ack client_window_size
          ∷ c.sent)
      × ((after_syn_ack peer h buffer c).session.seq ≡ c.session.seq + 3)
      × ((after_syn_ack peer h buffer c).session.ack ≡ ack)
unfolding client_ack client_send client_accept
syn_ack_asks peer h buffer c small =
    let once : add32 c.session.seq 1 ≡ c.session.seq + 1 = omega arith in
    let twice : add32 (c.session.seq + 1) 1 ≡ c.session.seq + 2 = omega arith in
    let thrice : add32 (c.session.seq + 2) 1 ≡ c.session.seq + 3 = omega arith in
    (ground arith, ground arith, ground arith)

pub newly_three :
    {A : Type 0} (a b d : A) (sent : List A) → newly sent (d ∷ b ∷ a ∷ sent) ≡ a ∷ b ∷ d ∷ []
newly_three a b d sent =
    let three : suc (suc (suc (length sent))) - length sent ≡ 3 = omega arith in rw three
