-- ===== src/Timeout.antt =====
-- sas-server/src/timeout.h and timeout.c: the heap of sessions, ordered by the time at which they
-- time out. An entry is a pointer to a session; `timeout` reads the field `timeout` through it, and
-- faults where the session is freed. `sas_server_timeout`, which deletes a session, is in Server.
pub mod Live
pub mod Order
pub mod Add
pub mod Pop
mod Tests
use sas.Base.{
  ℕ, zero, suc, ◌+◌, ◌-◌, ◌*◌, ◌/◌, Bool, not, List, [], ◌∷◌, ◌++◌, Option, none, some, Run, ok,
  fault, out_of_fuel, Fault, ◌>>=◌, or_fault, ltb, ◌==◌, if◌then◌else◌, length, get_elem?, get_or,
  set, take,
}

abbrev pub Ptr : Type 0
Ptr = ℕ

-- `heap` holds the entries below `count`, which is its length: the code reads no other.
pub record TimeoutHeap : Type 0 where
  pub capacity : ℕ
  pub heap : List Ptr

abbrev pub parent : ℕ → ℕ
parent i = (i - 1) / 2

-- `tmp = heap[i]; heap[i] = heap[j]; heap[j] = tmp`, with both indices in range
abbrev pub swap : List Ptr → ℕ → ℕ → List Ptr
swap a i j = set (set a i (get_or a j 0)) j (get_or a i 0)

module _ (timeout : Ptr → Run ℕ) where
  -- `heap[i]->timeout < heap[j]->timeout`
  unfoldable pub below : List Ptr → ℕ → ℕ → Run Bool
  below a i j = do
    p ← or_fault (get_elem? a i) Fault.out_of_bounds
    s ← timeout p
    q ← or_fault (get_elem? a j) Fault.out_of_bounds
    t ← timeout q
    ok (ltb s t)

  -- the `while` of sas_server_timeout_add, with fuel above the index
  unfoldable pub up_loop : ℕ → List Ptr → ℕ → Run (List Ptr)
  up_loop zero a i = out_of_fuel
  up_loop (suc k) a i =
      let rise = up_loop k (swap a i (parent i)) (parent i) in
      let step = below a (parent i) i >>= λ ordered. if ordered then ok a else rise in
      if ltb 0 i then step else ok a

  unfoldable pub timeout_add : TimeoutHeap → Ptr → Run TimeoutHeap
  timeout_add h session = do
    let count = length h.heap
    let capacity = if count == h.capacity then h.capacity * 2 else h.capacity
    a ← up_loop (count + 1) (h.heap ++ session ∷ []) count
    ok (record { capacity = capacity; heap = a })

  -- The index that sas_server_timeout_heapify calls `lowest`. Where the right child is below it,
  -- the code takes `left`.
  unfoldable pub lowest_of : List Ptr → ℕ → Run ℕ
  lowest_of a index = do
    let left = 2 * index + 1
    let right = left + 1
    let try_left = below a left index >>= λ b. ok (if b then left else index)
    lowest ← if ltb left (length a) then try_left else ok index
    let try_right = below a right lowest >>= λ b. ok (if b then left else lowest)
    if ltb right (length a) then try_right else ok lowest

  unfoldable pub heapify : ℕ → List Ptr → ℕ → Run (List Ptr)
  heapify zero a index = out_of_fuel
  heapify (suc k) a index = lowest_of a index >>= λ lowest.
      (let rest = heapify k (swap a lowest index) lowest in if lowest == index then ok a else rest)

  -- `none` is the NULL of an empty heap. The last entry replaces the first, and the count falls.
  unfoldable pub timeout_pop : TimeoutHeap → Run (Option Ptr × TimeoutHeap)
  timeout_pop h = elim h.heap [
    | [] ↦ ok (none, h)
    | min ∷ rest ↦ (do
      let a = min ∷ rest
      let last = length a - 1
      b ← heapify (suc (length a)) (take last (set a 0 (get_or a last 0))) 0
      ok (some min, record h { heap = b }))
  ]
