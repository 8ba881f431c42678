-- ===== src/Timeout/Add.antt =====
-- sas_server_timeout_add.
use sas.Base.{
  ℕ, zero, suc, ◌+◌, ◌*◌, ◌≤◌, ◌<◌, ◌≡◌, ◌≢◌, ◌⊎◌, refl, ◌∙◌, inl, inr, true, List, [], ◌∷◌, ◌++◌,
  Run, ok, ◌>>=◌, ltb, ◌==◌, if◌then◌else◌, arith, length, get_or, Bool-cases, length-append,
  get_or-append, get_or-append_last,
}
use sas.Timeout.{Ptr, TimeoutHeap, parent, swap, up_loop, timeout_add}
use sas.Timeout.Order.{
  count, SameEntries, count-append, swap-SameEntries, length-swap, get_or-swap, at, IsHeap, IsLive,
  swap-IsLive, below-ok,
}

module _ (key : Ptr → ℕ) (timeout : Ptr → Run ℕ) where
  -- ordered but for the edge above `i`, past which the order holds
  record Rising (a : List Ptr) (i : ℕ) : Type 0 where
    inside : i < length a
    live : IsLive key timeout a
    edges : (c : ℕ) → 0 < c → c < length a → c ≢ i → at key a (parent c) ≤ at key a c
    bridged :
        (c : ℕ) → 0 < c → c < length a → parent c ≡ i → 0 < i → at key a (parent i) ≤ at key a c

  Rising-swap :
      (a : List Ptr) (i : ℕ)
      → Rising a i
      → 0 < i
      → at key a i ≤ at key a (parent i)
      → Rising (swap a i (parent i)) (parent i)
  Rising-swap a i v pos le =
      let p = parent i in
      let pl : p < length a = omega (arith, v.inside) in
      record {
        inside = omega (arith, length-swap a i p);
        live = swap-IsLive key timeout a i p v.inside pl v.live;
        edges = λ c h l n. ground (
          arith,
          length-swap a i p,
          get_or-swap a i p c v.inside pl,
          get_or-swap a i p (parent c) v.inside pl,
          v.edges c,
          v.edges i,
          v.bridged c,
        );
        bridged = λ c h l e q. ground (
          arith,
          length-swap a i p,
          get_or-swap a i p c v.inside pl,
          get_or-swap a i p (parent p) v.inside pl,
          v.edges c,
          v.edges p,
        );
      }

  -- The loop ends with an ordered heap of the same entries.
  up_loop_orders :
      (k : ℕ) (a : List Ptr) (i : ℕ)
      → i < k
      → Rising a i
      → (b : List Ptr) × (up_loop timeout k a i ≡ ok b)
        × IsHeap key b
        × SameEntries b a
        × (length b ≡ length a)
  unfolding up_loop
  up_loop_orders zero a i f v = absurd (omega arith)
  up_loop_orders (suc k) a zero f v =
      (a, refl, λ c h l. v.edges c h l (omega arith), λ p. refl, refl)
  up_loop_orders (suc k) a (suc i) f v =
      let p = parent (suc i) in
      let pl : p < length a = omega (arith, v.inside) in
      let pos : ltb 0 (suc i) ≡ true = ground arith in
      let test = below-ok key timeout a p (suc i) v.live pl v.inside in
      elim (Bool-cases (ltb (at key a p) (at key a (suc i)))) [
        | inl ordered ↦
            (a, rw (pos, test, ◌>>=◌, ordered), λ c h l. ground (arith, v.edges c), λ q. refl, refl)
        | inr rises ↦
            let (b, run, h, s, n) =
              up_loop_orders k (swap a (suc i) p) p (omega arith)
                (Rising-swap a (suc i) v (omega arith) (ground arith)) in
            (
              b,
              rw (pos, test, ◌>>=◌, rises) run,
              h,
              λ q. s q ∙ swap-SameEntries a (suc i) p v.inside pl q,
              n ∙ length-swap a (suc i) p,
            )
      ]

  append-IsLive :
      (a : List Ptr) (session : Ptr)
      → IsLive key timeout a
      → timeout session ≡ ok (key session)
      → IsLive key timeout (a ++ session ∷ [])
  append-IsLive a session live fresh i l = elim (Bool-cases (ltb i (length a))) [
    | inl old ↦ rw (get_or-append a (session ∷ []) i 0 (ground arith)) (live i (ground arith))
    | inr new ↦
        let e : i ≡ length a = ground (arith, length-append a (session ∷ [])) in
        rw (e, get_or-append_last a [] session 0) fresh
  ]

  -- what sas_server_timeout_add leaves: an ordered heap of one more entry, and room for it
  pub record Added (h : TimeoutHeap) (session : Ptr) (r : TimeoutHeap) : Type 0 where
    pub ordered : IsHeap key r.heap
    pub same : SameEntries r.heap (session ∷ h.heap)
    pub grown : length r.heap ≡ length h.heap + 1
    pub room : length r.heap ≤ r.capacity
    pub doubled :
        ((length h.heap ≡ h.capacity) × (r.capacity ≡ h.capacity * 2)) ⊎ (r.capacity ≡ h.capacity)

  -- Adding a live session to an ordered heap of live sessions, with a capacity that is not 0 and
  -- not below the count, ends without a fault. It leaves an ordered heap of the old entries and
  -- the new one, within the capacity, which is doubled only if the heap was full.
  pub timeout_add_correct :
      (h : TimeoutHeap) (session : Ptr)
      → IsHeap key h.heap
      → IsLive key timeout h.heap
      → timeout session ≡ ok (key session)
      → 0 < h.capacity
      → length h.heap ≤ h.capacity
      → (r : TimeoutHeap) × (timeout_add timeout h session ≡ ok r) × Added h session r
  unfolding timeout_add count
  timeout_add_correct h session heap live fresh pos fits =
      let a = h.heap in
      let n = length a in
      let size = length-append a (session ∷ []) in
      let old = λ (c : ℕ). get_or-append a (session ∷ []) c 0 in
      let last : get_or (a ++ session ∷ []) n 0 ≡ session = get_or-append_last a [] session 0 in
      let start : Rising (a ++ session ∷ []) n = record {
        inside = omega (arith, size);
        live = append-IsLive a session live fresh;
        edges = λ c p l q. ground (arith, size, heap c, old c, old (parent c));
        bridged = λ c p l e q. omega (arith, size);
      } in
      let (b, run, ordered, same, len) = up_loop_orders (n + 1) _ n (omega arith) start in
      (
        record { capacity = if n == h.capacity then h.capacity * 2 else h.capacity; heap = b },
        rw (run, ◌>>=◌),
        record {
          ordered = ordered;
          same = λ p. ground (arith, same p, count-append p a (session ∷ []));
          grown = omega (arith, len, size);
          room = ground (arith, len, size);
          doubled = ground arith;
        },
      )
