-- ===== src/Timeout/Live.antt =====
-- The timeout heap where its sessions are live and their order is not known: the main loop changes
-- the timeout of a session that is in the heap.
use sas.Base.{
  ℕ, zero, suc, ◌+◌, ◌*◌, ◌<◌, ◌≡◌, refl, ap, ◌∙◌, inl, inr, true, List, [], ◌∷◌, ◌++◌, some, Run,
  ok, ◌>>=◌, ltb, ◌==◌, if◌then◌else◌, arith, length, get_or, take, Bool-cases, length-append,
}
use sas.Timeout.{Ptr, TimeoutHeap, parent, swap, up_loop, timeout_add, timeout_pop}
use sas.Timeout.Order.{
  count, SameEntries, count-append, swap-SameEntries, length-swap, at, IsLive, swap-IsLive,
  below-ok,
}
use sas.Timeout.Pop.{
  heap_of, heapify_keeps, cut_of_pop, pop_single, pop_entries, cut-IsLive, length-take_lt,
}

count-get_or : (a : List Ptr) (i : ℕ) → i < length a → 0 < count (get_or a i 0) a
unfolding count
count-get_or [] i h = absurd (omega arith)
count-get_or (q ∷ a) zero h = ground arith
count-get_or (q ∷ a) (suc i) h = omega (arith, count-get_or a i (omega arith))

module _ (key : Ptr → ℕ) (timeout : Ptr → Run ℕ) where
  -- the timeout of every entry can be read
  abbrev pub AllLive : List Ptr → Type 0
  AllLive a = (p : Ptr) → 0 < count p a → timeout p ≡ ok (key p)

  AllLive-IsLive : (a : List Ptr) → AllLive a → IsLive key timeout a
  AllLive-IsLive a live i h = live (get_or a i 0) (count-get_or a i h)

  up_loop_keeps :
      (k : ℕ) (a : List Ptr) (i : ℕ)
      → i < k
      → i < length a
      → IsLive key timeout a
      → (b : List Ptr) × (up_loop timeout k a i ≡ ok b) × SameEntries b a
  unfolding up_loop
  up_loop_keeps zero a i f h live = absurd (omega arith)
  up_loop_keeps (suc k) a zero f h live = (a, refl, λ p. refl)
  up_loop_keeps (suc k) a (suc i) f h live =
      let p = parent (suc i) in
      let pl : p < length a = omega arith in
      let pos : ltb 0 (suc i) ≡ true = ground arith in
      let test = below-ok key timeout a p (suc i) live pl h in
      elim (Bool-cases (ltb (at key a p) (at key a (suc i)))) [
        | inl ordered ↦ (a, rw (pos, test, ◌>>=◌, ordered), λ q. refl)
        | inr rises ↦
            let (b, run, s) =
              up_loop_keeps k (swap a (suc i) p) p (omega arith)
                (omega (arith, length-swap a (suc i) p))
                (swap-IsLive key timeout a (suc i) p h pl live) in
            (b, rw (pos, test, ◌>>=◌, rises) run, λ q. s q ∙ swap-SameEntries a (suc i) p h pl q)
      ]

  append-AllLive :
      (a : List Ptr) (session : Ptr)
      → AllLive a
      → timeout session ≡ ok (key session)
      → AllLive (a ++ session ∷ [])
  unfolding count
  append-AllLive a session live fresh p h = elim (Bool-cases (p == session)) [
    | inl e ↦ let same : session ≡ p = ground arith in cc (ap timeout same, ap key same)
    | inr e ↦ live p (ground (arith, count-append p a (session ∷ [])))
  ]

  -- add ends without a fault, and the heap then holds the old entries and the new one
  pub add_keeps :
      (h : TimeoutHeap) (session : Ptr)
      → AllLive h.heap
      → timeout session ≡ ok (key session)
      → (r : TimeoutHeap) × (timeout_add timeout h session ≡ ok r)
        × SameEntries r.heap (session ∷ h.heap)
  unfolding timeout_add count
  add_keeps h session live fresh =
      let a = h.heap in
      let n = length a in
      let (b, run, same) =
        up_loop_keeps (n + 1) (a ++ session ∷ []) n (omega arith)
          (omega (arith, length-append a (session ∷ [])))
          (AllLive-IsLive (a ++ session ∷ []) (append-AllLive a session live fresh)) in
      (
        record { capacity = if n == h.capacity then h.capacity * 2 else h.capacity; heap = b },
        rw (run, ◌>>=◌),
        λ p. ground (arith, same p, count-append p a (session ∷ [])),
      )

  -- pop of a heap that is not empty ends without a fault, and leaves the other entries
  pub pop_keeps :
      (min : Ptr) (rest : List Ptr) (capacity : ℕ)
      → AllLive (min ∷ rest)
      → (b : List Ptr) × (timeout_pop timeout (heap_of capacity (min ∷ rest))
          ≡ ok (some min, heap_of capacity b))
        × SameEntries (min ∷ b) (min ∷ rest)
        × (length b ≡ length rest)
  pop_keeps min [] capacity live = ([], pop_single key timeout min capacity, λ p. refl, refl)
  pop_keeps min (y ∷ ys) capacity live =
      let n = length ys in
      let cut = get_or (y ∷ ys) n 0 ∷ take n (y ∷ ys) in
      let size = length-take_lt n (y ∷ ys) (omega arith) in
      let (b, run, same, len, frame) =
        heapify_keeps key timeout (suc (length (min ∷ y ∷ ys))) cut 0 (omega (arith, size))
          (omega arith)
          (cut-IsLive key timeout min (y ∷ ys) n refl (AllLive-IsLive (min ∷ y ∷ ys) live)) in
      (
        b,
        cut_of_pop key timeout min y ys capacity ∙ rw (run, ◌>>=◌),
        pop_entries key timeout min (y ∷ ys) b n refl same,
        omega (arith, len, size),
      )
