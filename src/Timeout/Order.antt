-- ===== src/Timeout/Order.antt =====
-- The heap order, the entries that a heap holds, and the code's steps where every entry is live.
use sas.Base.{
  ℕ, zero, suc, ◌+◌, ◌≤◌, ◌<◌, ◌≡◌, refl, some, List, [], ◌∷◌, ◌++◌, Run, ok, ltb, ◌==◌,
  if◌then◌else◌, arith, length, get_elem?, get_or, set, length-set, get_or-set,
}
use sas.Timeout.{Ptr, parent, swap, below}

-- how often an entry occurs
unfoldable pub count : Ptr → List Ptr → ℕ
count p [] = 0
count p (q ∷ a) = (if p == q then 1 else 0) + count p a

-- the same entries, as often
abbrev pub SameEntries : List Ptr → List Ptr → Type 0
SameEntries a b = (p : Ptr) → count p a ≡ count p b

pub count-append : (p : Ptr) (a b : List Ptr) → count p (a ++ b) ≡ count p a + count p b
unfolding count
count-append p [] b = omega arith
count-append p (q ∷ a) b = omega (arith, count-append p a b)

count-set :
    (p : Ptr) (a : List Ptr) (i : ℕ) (v : Ptr)
    → i < length a
    → count p (set a i v) + count p (get_or a i 0 ∷ []) ≡ count p a + count p (v ∷ [])
unfolding count
count-set p [] i v h = absurd (omega arith)
count-set p (q ∷ a) zero v h = omega arith
count-set p (q ∷ a) (suc i) v h = omega (arith, count-set p a i v (omega arith))

pub swap-SameEntries :
    (a : List Ptr) (i j : ℕ) → i < length a → j < length a → SameEntries (swap a i j) a
unfolding count
swap-SameEntries a i j hi hj p =
    let b = set a i (get_or a j 0) in
    ground (
      arith,
      get_or-set a i j (get_or a j 0) 0,
      count-set p a i (get_or a j 0),
      count-set p b j (get_or a i 0),
      length-set a i (get_or a j 0),
    )

pub length-swap : (a : List Ptr) (i j : ℕ) → length (swap a i j) ≡ length a
length-swap a i j = simp length-set

pub get_or-swap :
    (a : List Ptr) (i j c : ℕ)
    → i < length a
    → j < length a
    → get_or (swap a i j) c 0
      ≡ (if j == c then get_or a i 0 else if i == c then get_or a j 0 else get_or a c 0)
get_or-swap a i j c hi hj = rw (
  get_or-set (set a i (get_or a j 0)) j c (get_or a i 0) 0 (rw length-set hj),
  get_or-set a i c (get_or a j 0) 0 hi,
)

module _ (key : Ptr → ℕ) where
  -- the time at which the entry at an index times out
  abbrev pub at : List Ptr → ℕ → ℕ
  at a i = key (get_or a i 0)

  -- no child times out before its parent
  abbrev pub IsHeap : List Ptr → Type 0
  IsHeap a = (c : ℕ) → 0 < c → c < length a → at a (parent c) ≤ at a c

  -- the root of an ordered heap times out first
  root_first_below :
      (k : ℕ) (a : List Ptr) (i : ℕ) → IsHeap a → i < k → i < length a → at a 0 ≤ at a i
  root_first_below zero a i h f p = absurd (omega arith)
  root_first_below (suc k) a i h f p = ground (arith, h i, root_first_below k a (parent i) h)

  pub root_first : (a : List Ptr) (i : ℕ) → IsHeap a → i < length a → at a 0 ≤ at a i
  root_first a i h p = root_first_below (suc i) a i h (omega arith) p

  module _ (timeout : Ptr → Run ℕ) where
    -- every entry points to a session that is not freed
    abbrev pub IsLive : List Ptr → Type 0
    IsLive a = (i : ℕ) → i < length a → timeout (get_or a i 0) ≡ ok (at a i)

    pub swap-IsLive :
        (a : List Ptr) (i j : ℕ) → i < length a → j < length a → IsLive a → IsLive (swap a i j)
    swap-IsLive a i j hi hj live c hc =
        ground (arith, get_or-swap a i j c, live i, live j, live c, length-swap a i j)

    get_elem?-in : (a : List Ptr) (i : ℕ) → i < length a → get_elem? a i ≡ some (get_or a i 0)
    get_elem?-in [] i h = absurd (omega arith)
    get_elem?-in (x ∷ a) zero h = refl
    get_elem?-in (x ∷ a) (suc i) h = get_elem?-in a i (omega arith)

    pub below-ok :
        (a : List Ptr) (i j : ℕ)
        → IsLive a
        → i < length a
        → j < length a
        → below timeout a i j ≡ ok (ltb (at a i) (at a j))
    unfolding below
    below-ok a i j live hi hj = rw (get_elem?-in a i hi, live i hi, get_elem?-in a j hj, live j hj)
