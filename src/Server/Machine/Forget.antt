-- ===== src/Server/Machine/Forget.antt =====
-- The packets on which the server forgets a session.
use sas.Base.{
  ℕ, ◌+◌, ◌≤◌, ◌≡◌, refl, ap, ◌∙◌, true, false, List, ◌∷◌, Option, none, some, ok, ◌>>=◌, ltb,
  arith,
}
use sas.Transport.{Header, flag_isset, flag_rst, flag_err, err_size, err_encode}
use sas.Transport.Wire.{network32, err_bytes, store32-htonl}
use sas.Timeout.{Ptr}
use sas.Server.Session.Sending.{packet_of, send-sent}
use sas.Server.Session.{Sent, Session, World, Out, Host, Stream, session_error, session_send}
use sas.Server.Table.{
  Server, load, store_at, session_find, session_delete, dealloc_stream, close_session_fd,
}
use sas.Server.Table.Chains.{IsTable}
use sas.Server.Table.Removal.{Deleted, session_delete_correct}
use sas.Server.Table.Update.{written, written-IsTable, session_find-written}
use sas.Server.Machine.{Files, accept, refuse, state_machine}

-- a well-formed table in which find returns the live session `p` for its own address
pub record Known (s : Server) (p : Ptr) (x : Session) : Type 0 where
  pub table : IsTable s
  pub live : s.store p ≡ some x
  pub found : session_find s x.addr ≡ ok (some p)

-- a write that keeps the address
pub written-Known :
    (s : Server) (p : Ptr) (x y : Session) (w : World) (same : y.addr ≡ x.addr) (k : Known s p x)
    → Known (written s p x y w k.live same) p y
written-Known s p x y w same k = record {
  table = written-IsTable s p x y w k.live same k.table;
  live = ground arith;
  found =
      session_find-written s p x y w k.live same y.addr k.table
      ∙ ap (session_find s) same
      ∙ k.found;
}

pub forgets :
    (s : Server) (p : Ptr) (x : Session)
    → Known s p x
    → (s' : Server) × (session_delete s p ≡ ok s') × Deleted s p x s'
forgets s p x k = session_delete_correct s p x k.table k.live k.found

-- closing files sends nothing
sent-closed :
    (fd : Option ℕ) (stream : Option Stream) (w : World)
    → (close_session_fd fd (dealloc_stream stream w)).sent ≡ w.sent
unfolding close_session_fd dealloc_stream
sent-closed none none w = refl
sent-closed none (some t) w = refl
sent-closed (some fd) none w = refl
sent-closed (some fd) (some t) w = refl

error_addr :
    (host : Host) (code : ℕ) (o : Out) → (session_error host code o).1.session.addr ≡ o.session.addr
unfolding session_error session_send
error_addr host code o = refl

pub accept_addr : (h : Header) (x : Session) → (accept h x).addr ≡ x.addr
unfolding accept
accept_addr h x = refl

-- the error packet of a session: its payload is the code, most significant byte first
abbrev pub error_packet : Host → ℕ → Session → Sent
error_packet host code x = packet_of host (flag_rst + flag_err) err_size (network32 code) x

error_sent :
    (host : Host) (code : ℕ) (o : Out)
    → (session_error host code o).1.world.sent ≡ error_packet host code o.session ∷ o.world.sent
unfolding session_error err_bytes err_encode
error_sent host code o =
    send-sent host (flag_rst + flag_err) err_size _ o ∙ rw (store32-htonl host.endian code)

module _ (host : Host) (files : Files) (s : Server) (p : Ptr) (x : Session) (k : Known s p x) where
  -- an error packet is sent, and the session is then freed
  pub refuse_forgets :
      (code : ℕ) (o : Out) (same : o.session.addr ≡ x.addr)
      → (s' : Server) × (refuse host files s p code o ≡ ok s')
        × (s'.store p ≡ none)
        × IsTable s'
        × (s'.world.sent ≡ error_packet host code o.session ∷ o.world.sent)
  unfolding refuse
  refuse_forgets code o same =
      let e = (session_error host code o).1 in
      let kept : e.session.addr ≡ x.addr = error_addr host code o ∙ same in
      let (s', run, d) = forgets _ p e.session (written-Known s p x e.session e.world kept k) in
      (
        s',
        run,
        d.freed,
        d.table,
        ap (λ (w : World). w.sent) d.closed
            ∙ sent-closed e.session.fd e.session.stream e.world
            ∙ error_sent host code o,
      )

  -- A packet with RST that is not old, for a live session that find returns in a well-formed table,
  -- frees the session, takes it out of the table and closes its files, whatever its state; every
  -- other session stays, and the table stays well-formed.
  pub reset_forgets :
      (h : Header) (buffer : List ℕ)
      → x.ack ≤ h.seq
      → flag_isset h.flags flag_rst ≡ true
      → (s' : Server) × (state_machine host files s p h buffer ≡ ok s')
        × Deleted (store_at s p (accept h x)) p (accept h x) s'
  unfolding state_machine load
  reset_forgets h buffer in_order rst =
      let fresh : ltb h.seq x.ack ≡ false = ground arith in
      let (s', run, d) =
        forgets (store_at s p (accept h x)) p (accept h x)
          (written-Known s p x (accept h x) s.world (accept_addr h x) k) in
      (s', rw (k.live, ◌>>=◌, fresh, rst) run, d)
