-- ===== src/Meeting/Exchange/Serving.antt =====
-- A packet of the client at the server: its table, its state machine and its heap.
use sas.Base.{
  ◌≤◌, true, arith, get_or, Option, ◌⊎◌, inl, inr, Bool-cases, ltb, ℕ, ◌+◌, ◌≡◌, ap, ◌∙◌, false,
  List, some, none, Run, ok, ◌>>=◌,
}
use mathlib.Core.Path.{subst}
use sas.Transport.{State, flag_isset, flag_rst, flag_syn, Header, header_decode}
use sas.Timeout.{Ptr}
use sas.Server.Address.{Addr}
use sas.Server.Session.{Session, Wav, Host}
use sas.Server.Table.{Server, session_find, session_get, index_of}
use sas.Server.Machine.{Files, state_machine}
use sas.Server.Machine.Handshake.{admit, verdict_of, named}
use sas.Server.Table.Chains.{IsTable}
use sas.Server.Table.Lookup.{inserted, session_get_cases}
use sas.Server.Loop.{handle_packet, session_timeout}
use sas.Server.Invariant.{IsServer}
use sas.Server.Invariant.Forgotten.{forgotten, first_forgotten}
use sas.Server.Invariant.Packet.{sender-reads, packet-Handled}

one_result : {A : Type 0} (r : Run A) (a b : A) → r ≡ ok a → r ≡ ok b → a ≡ b
one_result r a b h k = cc

-- get returns what find returns
pub get_found :
    (junk : Session) (s : Server) (addr : Addr) (p : Ptr)
    → session_find s addr ≡ ok (some p)
    → session_get junk s addr ≡ ok (p, s)
unfolding session_get session_find index_of
get_found junk s addr p e = rw (e, ◌>>=◌)

-- and inserts a session where find returns nothing
pub get_absent :
    (junk : Session) (s : Server) (addr : Addr)
    → IsTable s
    → session_find s addr ≡ ok none
    → session_get junk s addr ≡ ok (s.fresh, inserted junk s addr)
get_absent junk s addr v absent = elim (session_get_cases junk s addr v) [
  | inl (p, x, found, live, same, got) ↦ absurd cc
  | inr (none_there, got) ↦ got
]

-- a packet of a stream does not make the server forget the session
pub streams_stay :
    (host : Host) (files : Files) (errno : ℕ) (x : Session) (h : Header) (buffer : List ℕ)
    → flag_isset h.flags flag_rst ≡ false
    → (x.state ≡ State.sack_sent) ⊎ (x.state ≡ State.establsh)
    → forgotten host files errno x h buffer ≡ ok false
streams_stay host files errno x h buffer plain ready = elim (Bool-cases (ltb h.seq x.ack)) [
  | inl old ↦ rw old
  | inr new ↦
      rw (new, plain)
        (elim ready [
          | inl e ↦ ap (λ st. first_forgotten host files errno st h buffer) e
          | inr e ↦ ap (λ st. first_forgotten host files errno st h buffer) e
        ])
]

-- a SYN that the session admits does not either
pub syn_stays :
    (host : Host) (files : Files) (errno : ℕ) (x : Session) (h : Header) (buffer : List ℕ)
    (name : List ℕ) (fd : ℕ) (wav : Wav)
    → x.state ≡ State.initial
    → x.ack ≤ h.seq
    → flag_isset h.flags flag_rst ≡ false
    → flag_isset h.flags flag_syn ≡ true
    → named h buffer ≡ ok name
    → get_or buffer 0 0 ≡ 0
    → verdict_of host files errno (files.open_file name) ≡ admit fd wav
    → forgotten host files errno x h buffer ≡ ok false
syn_stays host files errno x h buffer name fd wav first in_order plain syn is_name codec admitted =
    let fresh : ltb h.seq x.ack ≡ false = ground arith in
    rw (fresh, plain)
      (ap (λ st. first_forgotten host files errno st h buffer) first
        ∙ rw (syn, is_name, ◌>>=◌, codec, admitted))

module _ (host : Host) (files : Files) (junk : Session) (addr : Addr) where
  -- What handle_packet does where the session stays: what state_machine does, and a new timeout.
  pub serves :
      (time : ℕ) (s s0 s' : Server) (p : Ptr) (x x' : Session) (wire : Header) (buffer : List ℕ)
      → IsServer s
      → session_get junk s addr ≡ ok (p, s0)
      → s0.store p ≡ some x
      → forgotten host files s0.world.errno x (header_decode host.endian wire) buffer ≡ ok false
      → state_machine host files s0 p (header_decode host.endian wire) buffer ≡ ok s'
      → s'.store p ≡ some x'
      → (r : Server) × (handle_packet host files junk time s addr wire buffer ≡ ok r)
        × IsServer r
        × (r.store p ≡ some (record x' { timeout = time + session_timeout }))
        × (r.world ≡ s'.world)
  serves time s s0 s' p x x' wire buffer k got live stays run there =
      let (p2, s2, r, got2, handled, d) =
        packet-Handled host files junk s addr wire buffer time k
          (sender-reads host files junk addr wire buffer s s0 p x got live ∙ stays) in
      let same = one_result (session_get junk s addr) (p2, s2) (p, s0) got2 got in
      let (s3, y, run3, there3, now, world) = d.made in
      let same_run =
        one_result (state_machine host files s0 p (header_decode host.endian wire) buffer) s3 s'
          (subst
            (λ (t : Ptr × Server).
              state_machine host files t.1 t.0 (header_decode host.endian wire) buffer ≡ ok s3)
            same run3)
          run in
      let same_p : p2 ≡ p = ap (λ (t : Ptr × Server). t.0) same in
      let here : s'.store p ≡ some y =
        subst (λ q. s'.store q ≡ some y) same_p
          (subst (λ (t : Server). t.store p2 ≡ some y) same_run there3) in
      let same_session : y ≡ x' = some_one (s'.store p) y x' here there in
      (
        r,
        handled,
        d.server,
        subst (λ (u : Session). r.store p ≡ some (record u { timeout = time + session_timeout }))
            same_session
            (subst (λ q. r.store q ≡ some (record y { timeout = time + session_timeout })) same_p
              now),
        world ∙ ap (λ (t : Server). t.world) same_run,
      )
    where
      some_one : (o : Option Session) (a b : Session) → o ≡ some a → o ≡ some b → a ≡ b
      some_one o a b h k = cc
