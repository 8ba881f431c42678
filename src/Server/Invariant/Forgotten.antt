-- ===== src/Server/Invariant/Forgotten.antt =====
-- The packets that make the server forget a session, and lemmas on the steps of state_machine.
use mathlib.Core.Path.{subst}
use sas.Base.{
  ℕ, ◌≡◌, refl, ap, ◌⊎◌, inl, inr, Bool, true, false, List, some, Run, ok, fault, out_of_fuel,
  ◌>>=◌, ltb, ◌==◌, if◌then◌else◌, arith, get_or, Option-cases,
}
use sas.Transport.{State, Header, Endian, flag_isset, flag_rst, flag_syn}
use sas.Timeout.{Ptr}
use sas.Server.Session.{
  File, Wav, Session, World, Out, Host, session_reset, session_send, session_syn_ack,
}
use sas.Server.Wav.{formats_wav}
use sas.Server.Sink.Delivery.{open_stream}
use sas.Server.Table.{Server}
use sas.Server.Table.Update.{written}
use sas.Server.Machine.{Files, Opened, opened, refused, accept}
use sas.Server.Machine.Forget.{Known}
use sas.Server.Machine.Handshake.{Verdict, deny, admit, verdict, verdict_of, named}
use sas.Server.Invariant.{IsSession, IsServer, IsRested}
use sas.Server.Invariant.Tables.{same_session, written-IsServer}
use sas.Server.Invariant.Sends.{SentTo}

abbrev pub denies : Verdict → Bool
denies (deny code) = true
denies (admit fd wav) = false

-- What a packet does to its session: it is forgotten (true) or it stays, and the name of a SYN's file
-- may run past the buffer. `errno` is the error number before the packet.
abbrev pub first_forgotten : Host → Files → ℕ → State → Header → List ℕ → Run Bool
first_forgotten host files errno State.initial h buffer =
    let looked_up =
      named h buffer >>= λ name. ok (denies (verdict host files errno (get_or buffer 0 0) name)) in
    if flag_isset h.flags flag_syn then looked_up else ok false
first_forgotten host files errno State.sack_sent h buffer = ok false
first_forgotten host files errno State.establsh h buffer = ok false
first_forgotten host files errno State.syn_rcvd h buffer = ok false
first_forgotten host files errno State.syn_sent h buffer = ok false
first_forgotten host files errno State.finished h buffer = ok false

abbrev pub forgotten : Host → Files → ℕ → Session → Header → List ℕ → Run Bool
forgotten host files errno x h buffer =
    let fresh =
      if flag_isset h.flags flag_rst
      then ok true
      else first_forgotten host files errno x.state h buffer in
    if ltb h.seq x.ack then ok false else fresh

-- what a packet leaves of the server where the session stays
pub record Kept (s : Server) (p : Ptr) (s' : Server) : Type 0 where
  pub server : IsServer s'
  pub live : (x : Session) × (s'.store p ≡ some x)
  pub timeouts : s'.timeouts ≡ s.timeouts
  pub others : (q : Ptr) → (p == q) ≡ false → s'.store q ≡ s.store q
  pub sends : (x : Session) → s.store p ≡ some x → SentTo x.addr s.world.sent s'.world.sent

pub IsServer-Known :
    (s : Server) (p : Ptr) (x : Session) → IsServer s → s.store p ≡ some x → Known s p x
IsServer-Known s p x k live = record { table = k.table; live = live; found = k.found p x live }

-- a session that is written for the one that was there
pub written-Kept :
    (s : Server) (p : Ptr) (x y : Session) (w : World) (live : s.store p ≡ some x)
    (same : y.addr ≡ x.addr)
    → IsServer s
    → IsSession y
    → SentTo x.addr s.world.sent w.sent
    → Kept s p (written s p x y w live same)
written-Kept s p x y w live same k good sends = record {
  server = written-IsServer s p x y w live same k good;
  live = (y, ground arith);
  timeouts = refl;
  others = λ q e. rw e;
  sends = λ z there.
      subst (λ (u : Session). SentTo u.addr s.world.sent w.sent)
        (same_session s.store p x z live there) sends;
}

-- a file that is a WAVE file is read from, and not at its end
formats_open :
    (e : Endian) (junk : List ℕ) (fd : ℕ) (file : File) (errno : ℕ) (wav : Wav)
    → (formats_wav e junk fd file errno).1 ≡ some wav
    → wav.finished ≡ false
unfolding formats_wav
formats_open e junk fd file errno wav h = ground arith

formats-IsRested :
    (e : Endian) (junk : List ℕ) (fd : ℕ) (file : File) (errno : ℕ) (wav : Wav)
    → (formats_wav e junk fd file errno).1 ≡ some wav
    → IsRested (open_stream wav)
formats-IsRested e junk fd file errno wav h = (
  wav,
  wav.file,
  inl (
      ap (λ b. open_stream (record wav { finished = b }))
        (formats_open e junk fd file errno wav h)),
)

pub reset_state :
    (host : Host) (fin : Bool) (o : Out)
    → ((session_reset host fin o).1.session.state ≡ o.session.state)
      × ((session_reset host fin o).1.session.addr ≡ o.session.addr)
unfolding session_reset session_send
reset_state host fin o = (refl, refl)

pub syn_ack_addr :
    (host : Host) (o : Out) → (session_syn_ack host o).1.session.addr ≡ o.session.addr
unfolding session_syn_ack session_send
syn_ack_addr host o = refl

-- what an accepted packet notes leaves the session well-formed
pub accept-IsSession : (h : Header) (x : Session) → IsSession x → IsSession (accept h x)
unfolding accept
accept-IsSession h x good = record { streams = good.streams }

-- a session in the state INITIAL needs no stream
pub initial-IsSession : (y : Session) → y.state ≡ State.initial → IsSession y
initial-IsSession y e = record { streams = λ h. absurd (grind arith) }

same_wav : (fd fd' : ℕ) (w w' : Wav) → admit fd w ≡ admit fd' w' → w ≡ w'
same_wav fd fd' w w' e = cc

pub admits-IsRested :
    (host : Host) (files : Files) (errno fd : ℕ) (wav : Wav) (op : Opened)
    → verdict_of host files errno op ≡ admit fd wav
    → IsRested (open_stream wav)
admits-IsRested host files errno fd wav (refused e) v = absurd cc
admits-IsRested host files errno fd wav (opened fd' file) v =
    elim (Option-cases (formats_wav host.endian files.junk fd' file errno).1) [
      | inl absent ↦ absurd (ground arith)
      | inr (wav', there) ↦
          subst (λ w. IsRested (open_stream w))
            (same_wav fd' fd wav' wav (rw (verdict_of, there) at v))
            (formats-IsRested host.endian files.junk fd' file errno wav' there)
    ]

pub verdict-cases :
    (v : Verdict) → ((code : ℕ) × (v ≡ deny code)) ⊎ ((fd : ℕ) × (wav : Wav) × (v ≡ admit fd wav))
verdict-cases (deny code) = inl (code, refl)
verdict-cases (admit fd wav) = inr (fd, wav, refl)

-- a call that goes on has returned
pub bind_ok :
    {A B : Type 0} (r : Run A) (f : A → Run B) (b : B)
    → (r >>= f) ≡ ok b
    → (a : A) × (r ≡ ok a) × (f a ≡ ok b)
bind_ok (ok a) f b e = (a, refl, e)
bind_ok (fault x) f b e = absurd cc
bind_ok out_of_fuel f b e = absurd cc
