-- ===== src/Server/Loop.antt =====
-- The main loop of the server: sas_server_run of sas-server/src/server.c, with sas_server_timeout of
-- sas-server/src/timeout.c.
pub mod Expiry
pub mod Freed
use sas.Base.{
  ℕ, zero, suc, ◌+◌, ◌-◌, Bool, List, Option, none, some, Run, ok, fault, out_of_fuel, Fault, ◌>>=◌,
  ltb, leb, if◌then◌else◌, length,
}
use sas.Transport.{Header, header_decode}
use sas.Timeout.{Ptr, TimeoutHeap, timeout_add, timeout_pop}
use sas.Server.Address.{Addr}
use sas.Server.Session.{Session, World, Host}
use sas.Server.Table.{Server, load, store_at, session_get, session_delete}
use sas.Server.Machine.{Files, state_machine}

-- what select(2) and then recvfrom(2) give: an error number of select, no packet in time, a failed
-- receipt, or a packet: its sender, its header as it came, and the bytes behind it in the buffer
pub data Event : Type 0 where
  select_failed : ℕ → Event
  timed_out recv_failed : Event
  received : Addr → Header → List ℕ → Event

-- the loop returns an error number, or goes on
pub data Next : Type 0 where
  stopped : ℕ → Next
  running : Server → Next

-- SAS_SERVER_SESSION_TIMEOUT, in seconds
abbrev pub session_timeout : ℕ
session_timeout = 30

-- `session->timeout`
unfoldable pub timeout_of : Server → Ptr → Run ℕ
timeout_of s p = load s p >>= λ x. ok x.timeout

unfoldable pub pop_timeout : Server → Run (Option Ptr × Server)
pop_timeout s =
    timeout_pop (timeout_of s) s.timeouts >>= λ (p, heap). ok (p, record s { timeouts = heap })

unfoldable pub add_timeout : Server → Ptr → Run Server
add_timeout s p =
    timeout_add (timeout_of s) s.timeouts p >>= λ heap. ok (record s { timeouts = heap })

-- `time` is the time that the call reads
unfoldable pub server_timeout : ℕ → Server → Ptr → Run Server
server_timeout time s p = do
  at ← timeout_of s p
  let deleted = session_delete s p
  if leb at time then deleted else ok s

-- The first pop and the inner `while`: `now` is read once, `later` by sas_server_timeout. A round
-- takes an entry off the heap, which bounds the fuel.
unfoldable pub expire : ℕ → ℕ → ℕ → Server → Run (Option Ptr × Server)
expire zero now later s = out_of_fuel
expire (suc k) now later s = do
  (first, s') ← pop_timeout s
  elim first [
    | none ↦ ok (none, s')
    | some p ↦ (do
      at ← timeout_of s' p
      let rest = server_timeout later s' p >>= expire k now later
      if leb at now then rest else ok (some p, s'))
  ]

-- `timeval.tv_sec`, or no limit
unfoldable pub select_limit : ℕ → Server → Option Ptr → Run (Option ℕ)
select_limit now s none = ok none
select_limit now s (some p) = timeout_of s p >>= λ at. ok (some (at - now))

-- the session that waited goes back to the heap
unfoldable pub re_add : Server → Option Ptr → Run Server
re_add s none = ok s
re_add s (some p) = add_timeout s p

module _ (host : Host) (files : Files) (junk : Session) where
  -- From sas_server_session_get to the end of the round. The session is used after state_machine.
  unfoldable pub handle_packet : ℕ → Server → Addr → Header → List ℕ → Run Server
  handle_packet time s addr h buffer = do
    (p, s') ← session_get junk s addr
    s'' ← state_machine host files s' p (header_decode host.endian h) buffer
    session ← load s'' p
    add_timeout (store_at s'' p (record session { timeout = time + session_timeout })) p

  unfoldable pub handle : ℕ → Server → Option Ptr → Event → Run Next
  unfolding handle_packet
  handle time s waiting (select_failed e) = ok (stopped e)
  handle time s none timed_out = fault Fault.null_pointer
  handle time s (some p) timed_out = server_timeout time s p >>= λ r. ok (running r)
  handle time s waiting recv_failed = re_add s waiting >>= λ r. ok (running r)
  handle time s waiting (received addr h buffer) = do
    s' ← re_add s waiting
    r ← handle_packet time s' addr h buffer
    ok (running r)

  -- one round of `while (1)`; `event` may depend on the limit given to select
  unfoldable pub round : ℕ → ℕ → Server → (Option ℕ → Event) → Run Next
  unfolding expire select_limit handle
  round now later s event = do
    (waiting, s') ← expire (length s.timeouts.heap + 1) now later s
    limit ← select_limit now s' waiting
    handle later s' waiting (event limit)
