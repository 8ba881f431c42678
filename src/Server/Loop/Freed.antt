-- ===== src/Server/Loop/Freed.antt =====
-- What the main loop does with a session that state_machine has freed.
use sas.Base.{ℕ, ◌≤◌, ◌≡◌, true, List, ok, fault, Fault, ◌>>=◌}
use sas.Transport.{Header, flag_isset, flag_rst, header_decode}
use sas.Timeout.{Ptr}
use sas.Server.Session.{Session, Host}
use sas.Server.Table.{Server, load, session_find, session_get}
use sas.Server.Machine.{Files}
use sas.Server.Machine.Forget.{Known, reset_forgets}
use sas.Server.Loop.{handle_packet}

module _ (host : Host) (files : Files) (junk : Session) (s : Server) (p : Ptr) (x : Session)
    (k : Known s p x) where
  pub get_known : session_get junk s x.addr ≡ ok (p, s)
  unfolding session_get session_find
  get_known = rw (k.found, ◌>>=◌)

  -- A packet with RST from a known client, if it is not old, makes the server use the session after
  -- state_machine has freed it.
  pub reset_use_after_free :
      (time : ℕ) (wire : Header) (buffer : List ℕ)
      → x.ack ≤ (header_decode host.endian wire).seq
      → flag_isset (header_decode host.endian wire).flags flag_rst ≡ true
      → handle_packet host files junk time s x.addr wire buffer ≡ fault Fault.use_after_free
  unfolding handle_packet load
  reset_use_after_free time wire buffer in_order rst =
      let (s', run, d) =
        reset_forgets host files s p x k (header_decode host.endian wire) buffer in_order rst in
      rw (get_known, ◌>>=◌, run, d.freed)
