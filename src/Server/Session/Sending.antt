-- ===== src/Server/Session/Sending.antt =====
-- The packet that sas_server_session_send of sas-server/src/session.c hands to sendto.
use sas.Base.{ℕ, ◌+◌, ◌≡◌, refl, List, ◌∷◌, arith, take}
use sas.Transport.{Header, header_encode, header_size}
use sas.Server.Session.{Session, Sent, Out, Host, session_send}

-- the header of a packet before it is encoded, and the packet
abbrev pub plain : ℕ → ℕ → Session → Header
plain flags n x = record {
  seq = x.seq;
  ack = x.ack;
  reserved = 0;
  flags = flags;
  window = x.receive_window;
  length = n;
}

abbrev pub packet_of : Host → ℕ → ℕ → List ℕ → Session → Sent
packet_of host flags n payload x = record {
  to = x.addr;
  header = header_encode host.endian (plain flags n x);
  payload = take n payload;
  size = header_size + n;
}

pub send-sent :
    (host : Host) (flags n : ℕ) (payload : List ℕ) (o : Out)
    → (session_send host flags n payload o).1.world.sent
      ≡ packet_of host flags n payload o.session ∷ o.world.sent
unfolding session_send
send-sent host flags n payload o = ground arith

-- what a send leaves of the session
pub send-session :
    (host : Host) (flags n : ℕ) (payload : List ℕ) (o : Out)
    → ((session_send host flags n payload o).1.session.state ≡ o.session.state)
      × ((session_send host flags n payload o).1.session.addr ≡ o.session.addr)
      × ((session_send host flags n payload o).1.session.ack ≡ o.session.ack)
      × ((session_send host flags n payload o).1.session.receive_window ≡ o.session.receive_window)
unfolding session_send
send-session host flags n payload o = (refl, refl, refl, refl)
