-- ===== src/Timeout/Tests.antt =====
-- Tests of the timeout heap, and its theorems at concrete heaps.
use sas.Base.{
  ℕ, ◌*◌, ◌≡◌, ◌<◌, refl, [], ◌∷◌, some, Run, ok, fault, Fault, ◌==◌, if◌then◌else◌, arith,
}
use sas.Timeout.{Ptr, TimeoutHeap, timeout_add, up_loop, below, heapify, lowest_of, timeout_pop}
use sas.Timeout.Order.{IsHeap, at}
use sas.Timeout.Add.{Added, timeout_add_correct}
use sas.Timeout.Pop.{heap_of, Popped, timeout_pop_correct, timeout_pop_misorders}

-- A session's pointer times ten is its timeout.
abbrev tenfold : Ptr → ℕ
tenfold p = p * 10

abbrev live : Ptr → Run ℕ
live p = ok (tenfold p)

-- pointer 4 is freed
abbrev freed : Ptr → Run ℕ
freed p = if p == 4 then fault Fault.use_after_free else ok (tenfold p)

add_to_full : timeout_add live (heap_of 2 (2 ∷ 3 ∷ [])) 1 ≡ ok (heap_of 4 (1 ∷ 3 ∷ 2 ∷ []))
unfolding timeout_add up_loop below
add_to_full = refl

pop_right_child_ignored :
    timeout_pop live (heap_of 4 (1 ∷ 3 ∷ 2 ∷ 4 ∷ [])) ≡ ok (some 1, heap_of 4 (3 ∷ 4 ∷ 2 ∷ []))
unfolding timeout_pop heapify lowest_of below
pop_right_child_ignored = refl

pop_freed_entry : timeout_pop freed (heap_of 4 (1 ∷ 3 ∷ 2 ∷ 4 ∷ [])) ≡ fault Fault.use_after_free
unfolding timeout_pop heapify lowest_of below
pop_freed_entry = refl

timeout_add_correct_example :
    (r : TimeoutHeap) × (timeout_add live (heap_of 2 (2 ∷ 3 ∷ [])) 1 ≡ ok r)
    × Added tenfold live (heap_of 2 (2 ∷ 3 ∷ [])) 1 r
timeout_add_correct_example =
    timeout_add_correct tenfold live (heap_of 2 (2 ∷ 3 ∷ [])) 1 pair_ordered (λ i h. refl) refl
      (omega arith) (omega arith)
  where
    pair_ordered : IsHeap tenfold (2 ∷ 3 ∷ [])
    pair_ordered = grind arith

timeout_pop_correct_example :
    (r : TimeoutHeap) × (timeout_pop live (heap_of 4 (1 ∷ 2 ∷ 3 ∷ [])) ≡ ok (some 1, r))
    × Popped tenfold live (heap_of 4 (1 ∷ 2 ∷ 3 ∷ [])) 1 r
timeout_pop_correct_example =
    timeout_pop_correct tenfold live 1 (2 ∷ 3 ∷ []) 4 triple_ordered (λ i h. refl)
  where
    triple_ordered : IsHeap tenfold (1 ∷ 2 ∷ 3 ∷ [])
    triple_ordered = grind arith

timeout_pop_misorders_example :
    (q : TimeoutHeap) × (timeout_pop live (heap_of 4 (1 ∷ 3 ∷ 2 ∷ 4 ∷ [])) ≡ ok (some 1, q))
    × (at tenfold q.heap 2 < at tenfold q.heap 0)
    × ¬ IsHeap tenfold q.heap
timeout_pop_misorders_example =
    timeout_pop_misorders tenfold live 1 3 2 4 [] 4 (λ i h. refl) (omega arith) (omega arith)
