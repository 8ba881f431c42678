-- ===== src/Server/Table.antt =====
-- The server's memory and its table of sessions: sas-server/src/server.h, and
-- sas_server_session_find, _get and _delete of sas-server/src/session.c.
pub mod Chains
pub mod Lookup
pub mod Removal
pub mod Unlink
pub mod Update
use sas.Base.{
  ℕ, zero, suc, ◌+◌, ◌-◌, ◌%◌, Bool, true, false, List, [], ◌∷◌, ◌++◌, Option, none, some, Run, ok,
  Fault, ◌>>=◌, or_fault, ◌==◌, if◌then◌else◌, length, get_or, set, replicate,
}
use sas.Transport.{State}
use sas.Timeout.{Ptr, TimeoutHeap}
use sas.Server.Address.{Addr, addr_hash, addr_eq}
use sas.Server.Session.{Session, Stream, World}
use sas.Server.Wav.{close_fd}

-- `struct sas_server` with the memory that its pointers point to. A chain of the table is the list
-- of its nodes in the order of `next`. A pointer is a number; `store` gives the session behind it,
-- `none` if it was never allocated or is freed, and `fresh` is the next that malloc returns, which
-- it never returns again. malloc does not fail.
pub record Server : Type 0 where
  pub count : ℕ
  pub table : List (List Ptr)
  pub timeouts : TimeoutHeap
  pub store : Ptr → Option Session
  pub fresh : Ptr
  pub world : World

-- the function changed at one pointer
abbrev pub update : (Ptr → Option Session) → Ptr → Option Session → Ptr → Option Session
update f p v q = if p == q then v else f q

-- `*p`
unfoldable pub load : Server → Ptr → Run Session
load s p = or_fault (s.store p) Fault.use_after_free

abbrev pub store_at : Server → Ptr → Session → Server
store_at s p v = record s { store = update s.store p (some v) }

abbrev pub table_capacity : ℕ
table_capacity = 32

abbrev pub heap_capacity : ℕ
heap_capacity = 32

-- sas_server_alloc
unfoldable pub server_alloc : World → Server
server_alloc world = record {
  count = 0;
  table = replicate table_capacity [];
  timeouts = record { capacity = heap_capacity; heap = [] };
  store = λ p. none;
  fresh = 0;
  world = world;
}

-- `addr_hash(addr) % capacity`
unfoldable pub index_of : Server → Addr → ℕ
index_of s addr = addr_hash addr % length s.table

-- The `while` of find and of get: the first node of a chain whose address compares equal.
unfoldable pub find_in : Server → Addr → List Ptr → Run (Option Ptr)
unfolding load
find_in s addr [] = ok none
find_in s addr (p ∷ chain) = do
  session ← load s p
  let rest = find_in s addr chain
  if addr_eq session.addr addr then ok (some p) else rest

unfoldable pub session_find : Server → Addr → Run (Option Ptr)
session_find s addr = find_in s addr (get_or s.table (index_of s addr) [])

-- SAS_SERVER_SESSION_WINDOW_SIZE
abbrev pub session_window_size : ℕ
session_window_size = 1024

-- The session that get initialises. It leaves the other fields as malloc gave them, which is `junk`.
unfoldable pub new_session : Session → Addr → Session
new_session junk addr = record junk {
  addr = addr;
  state = State.initial;
  seq = 0;
  ack = 0;
  send_window = 0;
  receive_window = session_window_size;
  stream = none;
  fd = none;
}

unfoldable pub session_get : Session → Server → Addr → Run (Ptr × Server)
unfolding new_session
session_get junk s addr =
    let index = index_of s addr in
    let chain = get_or s.table index [] in
    find_in s addr chain >>= elim [
      | some p ↦ ok (p, s)
      | none ↦ ok (
        s.fresh,
        record s {
          count = s.count + 1;
          table = set s.table index (chain ++ s.fresh ∷ []);
          store = update s.store s.fresh (some (new_session junk addr));
          fresh = s.fresh + 1;
        },
      )
    ]

-- the chain without its first node whose address compares equal, if there is one
unfoldable pub unlink : Server → Addr → List Ptr → Run (Option (List Ptr))
unfolding load
unlink s addr [] = ok none
unlink s addr (p ∷ chain) = do
  session ← load s p
  let rest = unlink s addr chain >>= elim [ none ↦ ok none | some c ↦ ok (some (p ∷ c)) ]
  if addr_eq session.addr addr then ok (some chain) else rest

-- `rxc_pipeline_dealloc(session->pipeline)`, which closes the file of the source
unfoldable pub dealloc_stream : Option Stream → World → World
unfolding close_fd
dealloc_stream none world = world
dealloc_stream (some s) world = close_fd s.wav.fd world

-- `close(session->fd)`
unfoldable pub close_session_fd : Option ℕ → World → World
unfolding close_fd
close_session_fd none world = world
close_session_fd (some fd) world = close_fd fd world

-- sas_server_session_delete: it unlinks a node whose address compares equal, and frees the session
-- that it was given.
unfoldable pub session_delete : Server → Ptr → Run Server
unfolding load dealloc_stream close_session_fd
session_delete s p = do
  session ← load s p
  let index = index_of s session.addr
  found ← unlink s session.addr (get_or s.table index [])
  ok (elim found [
    | none ↦ s
    | some chain ↦ record s {
      count = s.count - 1;
      table = set s.table index chain;
      store = update s.store p none;
      world = close_session_fd session.fd (dealloc_stream session.stream s.world);
    }
  ])
