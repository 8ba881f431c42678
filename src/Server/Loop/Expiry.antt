-- ===== src/Server/Loop/Expiry.antt =====
-- What the main loop does with a session that stands in the heap of timeouts twice.
use sas.Base.{
  ℕ, ◌+◌, ◌*◌, ◌≤◌, ◌<◌, ◌≡◌, refl, ap, ◌∙◌, true, false, List, [], ◌∷◌, some, none, ok, fault,
  Fault, ◌>>=◌, arith, ltb, leb, ◌==◌, if◌then◌else◌, length,
}
use sas.Transport.{Header, header_decode}
use sas.Timeout.{Ptr, TimeoutHeap, timeout_add, timeout_pop, up_loop, below, heapify, lowest_of}
use sas.Server.Address.{Addr}
use sas.Server.Session.{Session, Host}
use sas.Server.Table.{Server, load, store_at, index_of, find_in, session_find}
use sas.Server.Table.Removal.{Deleted}
use sas.Server.Machine.{Files}
use sas.Server.Machine.Established.{drops_old}
use sas.Server.Machine.Forget.{Known, written-Known, forgets}
use sas.Server.Loop.{
  timeout_of, pop_timeout, add_timeout, server_timeout, expire, handle_packet, session_timeout,
}
use sas.Server.Loop.Freed.{get_known}

-- the server with another heap
abbrev pub with_heap : TimeoutHeap → Server → Server
with_heap h s = record s { timeouts = h }

find_in-heap :
    (h : TimeoutHeap) (s : Server) (addr : Addr) (chain : List Ptr)
    → find_in (with_heap h s) addr chain ≡ find_in s addr chain
unfolding find_in load
find_in-heap h s addr [] = refl
find_in-heap h s addr (p ∷ chain) = rw (find_in-heap h s addr chain)

pub session_find-heap :
    (h : TimeoutHeap) (s : Server) (addr : Addr)
    → session_find (with_heap h s) addr ≡ session_find s addr
unfolding session_find index_of
session_find-heap h s addr = find_in-heap h s addr _

pub heap-Known :
    (h : TimeoutHeap) (s : Server) (p : Ptr) (x : Session) → Known s p x → Known (with_heap h s) p x
unfolding session_find index_of
heap-Known h s p x k = record {
  table = record { wide = k.table.wide; chains = k.table.chains };
  live = k.live;
  found = session_find-heap h s x.addr ∙ k.found;
}

-- the heap that holds one session twice, and once
abbrev pub twice : ℕ → Ptr → TimeoutHeap
twice capacity p = record { capacity = capacity; heap = p ∷ p ∷ [] }

abbrev pub once : ℕ → Ptr → TimeoutHeap
once capacity p = record { capacity = capacity; heap = p ∷ [] }

pop_twice :
    (s : Server) (capacity : ℕ) (p : Ptr)
    → pop_timeout (with_heap (twice capacity p) s) ≡ ok (some p, with_heap (once capacity p) s)
unfolding pop_timeout timeout_pop heapify lowest_of
pop_twice s capacity p = refl

pop_once :
    (s : Server) (capacity : ℕ) (p : Ptr)
    → s.timeouts ≡ once capacity p
    → (h : TimeoutHeap) × (pop_timeout s ≡ ok (some p, with_heap h s))
unfolding pop_timeout timeout_pop heapify lowest_of
pop_once s capacity p e = (record { capacity = capacity; heap = [] }, rw e)

abbrev pub emptied : ℕ → TimeoutHeap
emptied capacity = record { capacity = capacity; heap = [] }

pop_last :
    (s : Server) (capacity : ℕ) (p : Ptr)
    → s.timeouts ≡ once capacity p
    → pop_timeout s ≡ ok (some p, with_heap (emptied capacity) s)
unfolding pop_timeout timeout_pop heapify lowest_of
pop_last s capacity p e = rw e

pop_none :
    (s : Server) (capacity : ℕ) → s.timeouts ≡ emptied capacity → pop_timeout s ≡ ok (none, s)
unfolding pop_timeout timeout_pop
pop_none s capacity e = rw e

-- a session in the heap twice is used after it is freed, once its time is over
expire-twice :
    (now later capacity : ℕ) (s : Server) (p : Ptr) (x : Session)
    → Known s p x
    → x.timeout ≤ now
    → x.timeout ≤ later
    → expire 3 now later (with_heap (twice capacity p) s) ≡ fault Fault.use_after_free
unfolding expire server_timeout timeout_of load
expire-twice now later capacity s p x k over over' =
    let s' = with_heap (once capacity p) s in
    let due : leb x.timeout now ≡ true = ground arith in
    let due' : leb x.timeout later ≡ true = ground arith in
    let (r, run, d) = forgets s' p x (heap-Known (once capacity p) s p x k) in
    let (h, popped) = pop_once r capacity p d.timeouts in
    rw (pop_twice s capacity p, k.live, ◌>>=◌, due, due', run, popped, d.freed)

-- adding a session to the heap that holds it already
add_again :
    (s : Server) (p : Ptr) (y : Session) (capacity : ℕ)
    → s.store p ≡ some y
    → add_timeout (with_heap (once capacity p) s) p
      ≡ ok (with_heap (twice (if 1 == capacity then capacity * 2 else capacity) p) s)
unfolding add_timeout timeout_add up_loop below timeout_of load
add_again s p y capacity live =
    let same : ltb y.timeout y.timeout ≡ false = ground arith in rw (live, ◌>>=◌, same)

module _ (host : Host) (files : Files) (junk : Session) (s : Server) (p : Ptr) (x : Session)
    (k : Known s p x) (capacity : ℕ) (waits : s.timeouts ≡ once capacity p) where
  -- Where the session of a known client is the only entry of the heap, and stands there once, an old
  -- packet of that client, which is dropped, puts the session into the heap a second time. When its
  -- new time is over, the loop that frees the sessions that have expired frees it and then uses it
  -- again.
  pub old_packet_dooms :
      (time now later : ℕ) (wire : Header) (buffer : List ℕ)
      → (header_decode host.endian wire).seq < x.ack
      → time + session_timeout ≤ now
      → time + session_timeout ≤ later
      → (r : Server) × (handle_packet host files junk time s x.addr wire buffer ≡ ok r)
        × (length r.timeouts.heap ≡ 2)
        × (expire 3 now later r ≡ fault Fault.use_after_free)
  unfolding handle_packet load
  old_packet_dooms time now later wire buffer old over over' =
      let y = record x { timeout = time + session_timeout } in
      let s' = store_at s p y in
      let wide = if 1 == capacity then capacity * 2 else capacity in
      let dropped = drops_old host files s p x (header_decode host.endian wire) buffer k.live old in
      let k' = written-Known s p x y s.world refl k in
      let added =
        ap (λ h. add_timeout (with_heap h s') p) waits ∙ add_again s' p y capacity k'.live in
      (
        with_heap (twice wide p) s',
        rw (get_known host files junk s p x k, ◌>>=◌, dropped, k.live) added,
        refl,
        expire-twice now later wide s' p y k' over over',
      )

  -- The session of a known client that stands in the heap once, and whose time is over, is freed by
  -- the loop that frees the expired sessions: the heap is then empty, the table well-formed and
  -- every other session as it was, and no session is left to wait for.
  pub session_expires :
      (now later : ℕ)
      → x.timeout ≤ now
      → x.timeout ≤ later
      → (r : Server) × (expire 2 now later s ≡ ok (none, r))
        × Deleted (with_heap (emptied capacity) s) p x r
        × (r.timeouts ≡ emptied capacity)
  unfolding expire server_timeout timeout_of load
  session_expires now later over over' =
      let s' = with_heap (emptied capacity) s in
      let due : leb x.timeout now ≡ true = ground arith in
      let due' : leb x.timeout later ≡ true = ground arith in
      let (r, run, d) = forgets s' p x (heap-Known (emptied capacity) s p x k) in
      (
        r,
        rw (
          pop_last s capacity p waits,
          k.live,
          ◌>>=◌,
          due,
          due',
          run,
          pop_none r capacity d.timeouts,
        ),
        d,
        d.timeouts,
      )
