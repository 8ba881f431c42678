-- ===== src/Meeting.antt =====
-- Where the client and the server meet: here the SYN of sas-client/src/client.c as
-- sas_server_session_state_machine of sas-server/src/session.c reads it.
pub mod Exchange
pub mod Network
pub mod Packets
pub mod Stream
mod Tests
use sas.Base.{
  ℕ, zero, suc, ◌-◌, ◌≡◌, ◌≢◌, refl, sym, ap, ◌∙◌, Bool, false, List, [], ◌∷◌, ◌++◌, Option, none,
  some, Run, ok, ◌>>=◌, ◌==◌, ◌||◌, if◌then◌else◌, arith, length, take, drop, Option-cases, inl,
  inr,
}
use sas.Transport.{header_encode, htons, swap16, flag_syn}
use sas.Server.Machine.{strndup}
use sas.Client.{Client, Datagram, Peer, client_send}

-- a C string holds no 0
abbrev pub NonZero : List ℕ → Type 0
NonZero [] = Unit
NonZero (b ∷ bs) = (b ≢ 0) × NonZero bs

pub strndup-name :
    (name rest : List ℕ) → NonZero name → strndup (name ++ rest) (length name) ≡ ok name
unfolding strndup
strndup-name [] [] v = refl
strndup-name [] (b ∷ bs) v = refl
strndup-name (b ∷ bs) rest (some_b, v) =
    let more : (suc (length bs) == 0) ≡ false = ground arith in
    let byte : (b == 0) ≡ false = ground arith in
    let left : suc (length bs) - 1 ≡ length bs = omega arith in
    rw (more, byte, left, strndup-name bs rest v, ◌>>=◌)

take-length : (xs : List ℕ) → take (length xs) xs ≡ xs
take-length [] = refl
take-length (x ∷ xs) = ap (◌∷◌ x) (take-length xs)

-- the packet of a SYN
abbrev pub syn_datagram : Peer → ℕ → List ℕ → Client → Datagram
syn_datagram peer length payload c = record {
  header = header_encode peer.endian (record {
    seq = c.session.seq;
    ack = c.session.ack;
    reserved = 0;
    flags = flag_syn;
    window = c.session.receive_window;
    length = length;
  });
  payload = take length payload;
}

pub client_send-sent :
    (peer : Peer) (n : ℕ) (payload : List ℕ) (c : Client)
    → (client_send peer flag_syn n payload c).1.sent ≡ syn_datagram peer n payload c ∷ c.sent
unfolding client_send
client_send-sent peer n payload c = ground arith
