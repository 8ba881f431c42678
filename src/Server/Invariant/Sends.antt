-- ===== src/Server/Invariant/Sends.antt =====
-- Which client the packets of a session go to.
use sas.Base.{ℕ, ◌+◌, Bool, if◌then◌else◌, ◌≡◌, refl, List, [], ◌∷◌, ◌++◌}
use sas.Server.Address.{Addr}
use sas.Server.Session.Sending.{packet_of, send-sent}
use sas.Server.Session.{Sent, Out, Host, session_send, session_reset, session_syn_ack}
use sas.Transport.{flag_rst, flag_fin, flag_syn, flag_ack, cfg_ack_size}

abbrev pub AllTo : Addr → List Sent → Type 0
AllTo a [] = Unit
AllTo a (p ∷ packets) = (p.to ≡ a) × AllTo a packets

-- more packets have been sent, all to one address
pub record SentTo (a : Addr) (before after : List Sent) : Type 0 where
  pub packets : List Sent
  pub sent : after ≡ packets ++ before
  pub to : AllTo a packets

pub SentTo-refl : (a : Addr) (sent : List Sent) → SentTo a sent sent
SentTo-refl a sent = record { packets = []; sent = refl; to = tt }

module _ (host : Host) where
  pub send-SentTo :
      (flags n : ℕ) (payload : List ℕ) (o : Out)
      → SentTo o.session.addr o.world.sent (session_send host flags n payload o).1.world.sent
  send-SentTo flags n payload o = record {
    packets = packet_of host flags n payload o.session ∷ [];
    sent = send-sent host flags n payload o;
    to = (refl, tt);
  }

  pub reset-SentTo :
      (fin : Bool) (o : Out)
      → SentTo o.session.addr o.world.sent (session_reset host fin o).1.world.sent
  unfolding session_reset
  reset-SentTo fin o = send-SentTo (if fin then flag_rst + flag_fin else flag_rst) 0 [] o

  pub syn_ack-SentTo :
      (o : Out) → SentTo o.session.addr o.world.sent (session_syn_ack host o).1.world.sent
  unfolding session_syn_ack
  syn_ack-SentTo o = send-SentTo (flag_syn + flag_ack) cfg_ack_size _ o
