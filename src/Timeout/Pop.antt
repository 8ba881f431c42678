-- ===== src/Timeout/Pop.antt =====
-- sas_server_timeout_pop and sas_server_timeout_heapify.
use sas.Base.{
  ℕ, zero, suc, ◌+◌, ◌*◌, ◌-◌, ◌≤◌, ◌<◌, ◌≡◌, ◌≢◌, ◌⊎◌, refl, ap, ◌∙◌, inl, inr, false, List, [],
  ◌∷◌, some, Run, ok, ◌>>=◌, ltb, ◌==◌, if◌then◌else◌, arith, length, get_or, take,
}
use sas.Timeout.{Ptr, TimeoutHeap, swap, lowest_of, heapify, timeout_pop}
use sas.Timeout.Order.{
  count, SameEntries, swap-SameEntries, length-swap, get_or-swap, at, IsHeap, IsLive, swap-IsLive,
  below-ok, root_first,
}

module _ (key : Ptr → ℕ) (timeout : Ptr → Run ℕ) where
  -- What the code computes for `lowest` where every entry is live.
  abbrev lowest : List Ptr → ℕ → ℕ
  lowest a i =
      let left = 2 * i + 1 in
      let first =
        if ltb left (length a) then (if ltb (at key a left) (at key a i) then left else i) else i in
      if ltb (left + 1) (length a)
      then (if ltb (at key a (left + 1)) (at key a first) then left else first)
      else first

  lowest_of-ok :
      (a : List Ptr) (i : ℕ)
      → IsLive key timeout a
      → i < length a
      → lowest_of timeout a i ≡ ok (lowest a i)
  unfolding lowest_of
  lowest_of-ok a i live hi = ground (
    arith,
    below-ok key timeout a (2 * i + 1) i live,
    below-ok key timeout a (2 * i + 1 + 1) (2 * i + 1) live,
    below-ok key timeout a (2 * i + 1 + 1) i live,
  )

  lowest_cases :
      (a : List Ptr) (i : ℕ)
      → i < length a
      → (lowest a i ≡ i) ⊎ ((lowest a i ≡ 2 * i + 1) × (2 * i + 1 < length a))
  lowest_cases a i hi = ground arith

  -- one round: `lowest` is the entry itself, or its left child
  heapify_stays :
      (k : ℕ) (a : List Ptr) (i : ℕ)
      → IsLive key timeout a
      → i < length a
      → lowest a i ≡ i
      → heapify timeout (suc k) a i ≡ ok a
  unfolding heapify
  heapify_stays k a i live hi e = rw (lowest_of-ok a i live hi, ◌>>=◌, e) (ground arith)

  heapify_sinks :
      (k : ℕ) (a : List Ptr) (i : ℕ)
      → IsLive key timeout a
      → i < length a
      → lowest a i ≡ 2 * i + 1
      → heapify timeout (suc k) a i ≡ heapify timeout k (swap a (2 * i + 1) i) (2 * i + 1)
  unfolding heapify
  heapify_sinks k a i live hi e =
      let moved : (2 * i + 1 == i) ≡ false = ground arith in
      rw (lowest_of-ok a i live hi, ◌>>=◌, e, moved)

  swap_apart :
      (a : List Ptr) (i c : ℕ)
      → 2 * i + 1 < length a
      → i < length a
      → c ≢ i
      → c < 2 * i + 1
      → get_or (swap a (2 * i + 1) i) c 0 ≡ get_or a c 0
  swap_apart a i c l hi n m = ground (arith, get_or-swap a (2 * i + 1) i c l hi)

  -- heapify ends, permutes the entries, and leaves alone what is not on its way down
  pub heapify_keeps :
      (k : ℕ) (a : List Ptr) (i : ℕ)
      → length a < k + i
      → i < length a
      → IsLive key timeout a
      → (b : List Ptr) × (heapify timeout k a i ≡ ok b)
        × SameEntries b a
        × (length b ≡ length a)
        × ((c : ℕ) → c ≢ i → c < 2 * i + 1 → get_or b c 0 ≡ get_or a c 0)
  heapify_keeps zero a i f hi live = absurd (omega arith)
  heapify_keeps (suc k) a i f hi live = elim (lowest_cases a i hi) [
    | inl e ↦ (a, heapify_stays k a i live hi e, λ p. refl, refl, λ c n l. refl)
    | inr (e, l) ↦
        let left = 2 * i + 1 in
        let size = length-swap a left i in
        let (b, rest, s, n, frame) =
          heapify_keeps k (swap a left i) left (omega (arith, size)) (omega (arith, size))
            (swap-IsLive key timeout a left i l hi live) in
        (
          b,
          heapify_sinks k a i live hi e ∙ rest,
          λ p. s p ∙ swap-SameEntries a left i l hi p,
          n ∙ size,
          λ c u v. frame c (omega arith) (omega arith) ∙ swap_apart a i c l hi u v,
        )
  ]

abbrev pub heap_of : ℕ → List Ptr → TimeoutHeap
heap_of capacity a = record { capacity = capacity; heap = a }

-- the entries without the last, which is put first, are the same entries
cut-SameEntries :
    (xs : List Ptr) (n : ℕ) → length xs ≡ suc n → SameEntries (get_or xs n 0 ∷ take n xs) xs
unfolding count
cut-SameEntries [] n h p = absurd (omega arith)
cut-SameEntries (x ∷ []) zero h p = refl
cut-SameEntries (x ∷ y ∷ xs) zero h p = absurd (omega arith)
cut-SameEntries (x ∷ xs) (suc n) h p = omega (arith, cut-SameEntries xs n (omega arith) p)

get_or-take : (n : ℕ) (xs : List Ptr) (i : ℕ) → i < n → get_or (take n xs) i 0 ≡ get_or xs i 0
get_or-take zero xs i h = absurd (omega arith)
get_or-take (suc n) [] i h = refl
get_or-take (suc n) (x ∷ xs) zero h = refl
get_or-take (suc n) (x ∷ xs) (suc i) h = get_or-take n xs i (omega arith)

pub length-take_lt : (n : ℕ) (xs : List Ptr) → n ≤ length xs → length (take n xs) ≡ n
length-take_lt zero xs h = refl
length-take_lt (suc n) [] h = absurd (omega arith)
length-take_lt (suc n) (x ∷ xs) h = ap suc (length-take_lt n xs (omega arith))

module _ (key : Ptr → ℕ) (timeout : Ptr → Run ℕ) where
  -- what pop hands to heapify, for two entries or more
  pub cut_of_pop :
      (min y : Ptr) (ys : List Ptr) (capacity : ℕ)
      → let a = min ∷ y ∷ ys in
        timeout_pop timeout (record { capacity = capacity; heap = a }) ≡ (
          heapify timeout
            (suc (length a))
            (get_or (y ∷ ys) (length ys) 0 ∷ take (length ys) (y ∷ ys))
            0
          >>= λ b. ok (some min, record { capacity = capacity; heap = b }))
  unfolding timeout_pop
  cut_of_pop min y ys capacity =
      let e : length (min ∷ y ∷ ys) - 1 ≡ suc (length ys) = omega arith in rw e

  pub pop_single :
      (min : Ptr) (capacity : ℕ)
      → timeout_pop timeout (record { capacity = capacity; heap = min ∷ [] })
        ≡ ok (some min, record { capacity = capacity; heap = [] })
  unfolding timeout_pop heapify lowest_of
  pop_single min capacity = refl

  pub pop_entries :
      (min : Ptr) (xs b : List Ptr) (n : ℕ)
      → length xs ≡ suc n
      → SameEntries b (get_or xs n 0 ∷ take n xs)
      → SameEntries (min ∷ b) (min ∷ xs)
  unfolding count
  pop_entries min xs b n e s p = ground (arith, s p, cut-SameEntries xs n e p)

  pub cut-IsLive :
      (min : Ptr) (xs : List Ptr) (n : ℕ)
      → length xs ≡ suc n
      → IsLive key timeout (min ∷ xs)
      → IsLive key timeout (get_or xs n 0 ∷ take n xs)
  cut-IsLive min xs n e live zero h = live (suc n) (omega arith)
  cut-IsLive min xs n e live (suc i) h =
      let size = length-take_lt n xs (omega arith) in
      rw (get_or-take n xs i (omega arith)) (live (suc i) (omega arith))

  -- what sas_server_timeout_pop leaves once it has returned `min`
  pub record Popped (h : TimeoutHeap) (min : Ptr) (r : TimeoutHeap) : Type 0 where
    pub same : SameEntries (min ∷ r.heap) h.heap
    pub shrunk : length r.heap + 1 ≡ length h.heap
    pub least : (i : ℕ) → i < length h.heap → key min ≤ at key h.heap i
    pub kept : r.capacity ≡ h.capacity

  -- On an ordered heap of live sessions that is not empty, pop ends without a fault, returns the
  -- entry that times out first, and keeps all the others.
  pub timeout_pop_correct :
      (min : Ptr) (rest : List Ptr) (capacity : ℕ)
      → IsHeap key (min ∷ rest)
      → IsLive key timeout (min ∷ rest)
      → (r : TimeoutHeap) × (timeout_pop timeout (heap_of capacity (min ∷ rest)) ≡ ok (some min, r))
        × Popped (heap_of capacity (min ∷ rest)) min r
  timeout_pop_correct min [] capacity heap live = (
    record { capacity = capacity; heap = [] },
    pop_single min capacity,
    record {
      same = λ p. refl;
      shrunk = omega arith;
      least = λ i l. root_first key (min ∷ []) i heap l;
      kept = refl;
    },
  )
  timeout_pop_correct min (y ∷ ys) capacity heap live =
      let xs = y ∷ ys in
      let n = length ys in
      let a = get_or xs n 0 ∷ take n xs in
      let size = length-take_lt n xs (omega arith) in
      let (b, run, s, len, frame) =
        heapify_keeps key timeout (suc (length (min ∷ xs))) a 0 (omega (arith, size)) (omega arith)
          (cut-IsLive min xs n refl live) in
      (
        record { capacity = capacity; heap = b },
        cut_of_pop min y ys capacity ∙ rw (run, ◌>>=◌),
        record {
          same = λ p. pop_entries min xs b n refl s p;
          shrunk = omega (arith, size, len);
          least = λ i l. root_first key (min ∷ xs) i heap l;
          kept = refl;
        },
      )

  -- The right child is never chosen. Where the right child of the root times out before the left
  -- child and before the last entry, pop leaves a heap that is not ordered: its root times out
  -- after its right child.
  pub timeout_pop_misorders :
      (min l r x : Ptr) (rest : List Ptr) (capacity : ℕ)
      → IsLive key timeout (min ∷ l ∷ r ∷ x ∷ rest)
      → key r < key l
      → key r < at key (x ∷ rest) (length rest)
      → (q : TimeoutHeap) × (timeout_pop timeout (heap_of capacity (min ∷ l ∷ r ∷ x ∷ rest))
          ≡ ok (some min, q))
        × (at key q.heap 2 < at key q.heap 0)
        × ¬ IsHeap key q.heap
  timeout_pop_misorders min l r x rest capacity live below_l below_last =
      let xs = l ∷ r ∷ x ∷ rest in
      let n = length (r ∷ x ∷ rest) in
      let v = get_or (x ∷ rest) (length rest) 0 in
      let tail = take (length rest) (x ∷ rest) in
      let a = v ∷ l ∷ r ∷ tail in
      let b = l ∷ v ∷ r ∷ tail in
      let size = length-take_lt (length rest) (x ∷ rest) (omega arith) in
      let la : IsLive key timeout a = cut-IsLive min xs n refl live in
      let lb : IsLive key timeout b =
        swap-IsLive key timeout a 1 0 (omega (arith, size)) (omega (arith, size)) la in
      let first : lowest key timeout a 0 ≡ 2 * 0 + 1 = ground arith in
      let (c, run, s, len, frame) =
        heapify_keeps key timeout (length (min ∷ xs)) b 1 (omega (arith, size))
          (omega (arith, size)) lb in
      let left = frame 0 (omega arith) (omega arith) in
      let right = frame 2 (omega arith) (omega arith) in
      let worse : at key c 2 < at key c 0 = rw (left, right) below_l in
      (
        heap_of capacity c,
        cut_of_pop min l (r ∷ x ∷ rest) capacity
            ∙ rw (
              heapify_sinks key timeout (length (min ∷ xs)) a 0 la (omega arith) first,
              run,
              ◌>>=◌,
            ),
        worse,
        λ h. absurd (omega (arith, h 2 (omega arith) (omega (arith, len, size)))),
      )
