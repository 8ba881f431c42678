-- ===== src/Server/Table/Lookup.antt =====
-- sas_server_session_get and _find on a well-formed table.
use sas.Base.{
  ℕ, ◌+◌, ◌%◌, ◌<◌, ◌≡◌, ◌≢◌, refl, ◌∙◌, ◌⊎◌, inl, inr, true, false, List, [], ◌∷◌, ◌++◌, none,
  some, ok, ◌>>=◌, ◌==◌, arith, length, set, length-set, get_or-set, Bool-cases,
}
use mathlib.Core.Path.{subst}
use sas.Timeout.{Ptr}
use sas.Server.Address.{Addr, addr_hash, addr_eq, addr_eq_refl, same_bytes}
use sas.Server.Session.{Session}
use sas.Server.Table.{
  Server, load, update, index_of, find_in, session_find, session_get, new_session,
}
use sas.Server.Table.Chains.{NotIn, IsChain, chain_at, IsTable, find_in_cases}

-- a store that keeps what was allocated before `fresh`, and has one session more
abbrev pub Grown : Server → Session → Server → Type 0
Grown s y s' =
    (s'.store s.fresh ≡ some y)
    × ((q : Ptr) → q < s.fresh → s'.store q ≡ s.store q)
    × (s'.fresh ≡ s.fresh + 1)

pub find_in-appended :
    (s s' : Server) (addr : Addr) (y : Session) (n i : ℕ) (chain : List Ptr)
    → IsChain s.store s.fresh n i chain
    → Grown s y s'
    → addr_eq y.addr addr ≡ true
    → find_in s addr chain ≡ ok none
    → find_in s' addr (chain ++ s.fresh ∷ []) ≡ ok (some s.fresh)
unfolding find_in load
find_in-appended s s' addr y n i [] v g e absent = rw (g.0, ◌>>=◌, e)
find_in-appended s s' addr y n i (p ∷ chain) ((x, live, home), below, once, v) g e absent =
    elim (Bool-cases (addr_eq x.addr addr)) [
      | inl same ↦ cc (rw (live, ◌>>=◌, same) at absent)
      | inr other ↦
          rw (g.1 p below, live, ◌>>=◌, other)
            (find_in-appended s s' addr y n i chain v g e (rw (live, ◌>>=◌, other) at absent))
    ]

IsChain-Grown :
    (s s' : Server) (y : Session) (n i : ℕ) (chain : List Ptr)
    → Grown s y s'
    → IsChain s.store s.fresh n i chain
    → IsChain s'.store s'.fresh n i chain
IsChain-Grown s s' y n i [] g v = tt
IsChain-Grown s s' y n i (p ∷ chain) g ((x, live, home), below, once, v) =
    ((x, g.1 p below ∙ live, home), omega (arith, g.2), once, IsChain-Grown s s' y n i chain g v)

NotIn-appended : (p q : Ptr) (chain : List Ptr) → NotIn p chain → p ≢ q → NotIn p (chain ++ q ∷ [])
NotIn-appended p q [] v h = (h, tt)
NotIn-appended p q (r ∷ chain) v h = (v.0, NotIn-appended p q chain v.1 h)

IsChain-appended :
    (s s' : Server) (y : Session) (n i : ℕ) (chain : List Ptr)
    → Grown s y s'
    → addr_hash y.addr % n ≡ i
    → IsChain s.store s.fresh n i chain
    → IsChain s'.store s'.fresh n i (chain ++ s.fresh ∷ [])
IsChain-appended s s' y n i [] g e v = ((y, g.0, e), omega (arith, g.2), tt, tt)
IsChain-appended s s' y n i (p ∷ chain) g e ((x, live, home), below, once, v) = (
  (x, g.1 p below ∙ live, home),
  omega (arith, g.2),
  NotIn-appended p s.fresh chain once (omega arith),
  IsChain-appended s s' y n i chain g e v,
)

-- the server once get has made a session
abbrev pub inserted : Session → Server → Addr → Server
inserted junk s addr =
    let i = addr_hash addr % length s.table in
    record s {
      count = s.count + 1;
      table = set s.table i (chain_at s i ++ s.fresh ∷ []);
      store = update s.store s.fresh (some (new_session junk addr));
      fresh = s.fresh + 1;
    }

pub inserted-Grown :
    (junk : Session) (s : Server) (addr : Addr)
    → Grown s (new_session junk addr) (inserted junk s addr)
inserted-Grown junk s addr = (ground arith, λ q h. ground arith, refl)

same_index : (i : ℕ) → (i == i) ≡ true
same_index i = ground arith

new_eq : (junk : Session) (addr : Addr) → addr_eq (new_session junk addr).addr addr ≡ true
unfolding new_session
new_eq junk addr = addr_eq_refl addr

new_hash :
    (junk : Session) (addr : Addr) (n : ℕ)
    → addr_hash (new_session junk addr).addr % n ≡ addr_hash addr % n
unfolding new_session
new_hash junk addr n = refl

pub inserted-IsTable :
    (junk : Session) (s : Server) (addr : Addr) → IsTable s → IsTable (inserted junk s addr)
inserted-IsTable junk s addr v =
    let n = length s.table in
    let i = addr_hash addr % n in
    let inside : i < n = omega (arith, v.wide) in
    let s' = inserted junk s addr in
    let g = inserted-Grown junk s addr in
    record {
      wide = rw length-set v.wide;
      chains = λ j h.
          rw
            (
              length-set s.table i (chain_at s i ++ s.fresh ∷ []),
              get_or-set s.table i j (chain_at s i ++ s.fresh ∷ []) [] inside,
            )
            (elim (Bool-cases (i == j)) [
              | inl e ↦
                  let same : i ≡ j = ground arith in
                  rw e (
                    IsChain-appended s s' (new_session junk addr) n j (chain_at s i) g
                      (new_hash junk addr n ∙ same)
                      (subst (λ k. IsChain s.store s.fresh n k (chain_at s i)) same
                        (v.chains i inside)))
              | inr e ↦ rw e (
                  IsChain-Grown s s' (new_session junk addr) n j (chain_at s j) g
                    (v.chains j (rw (length-set s.table i (chain_at s i ++ s.fresh ∷ [])) at h)))
            ]);
    }

-- get returns what find finds, or it inserts a new session
pub session_get_cases :
    (junk : Session) (s : Server) (addr : Addr)
    → IsTable s
    → ((p : Ptr) × (x : Session) × (session_find s addr ≡ ok (some p))
        × (s.store p ≡ some x)
        × (addr_eq x.addr addr ≡ true)
        × (session_get junk s addr ≡ ok (p, s)))
      ⊎ ((session_find s addr ≡ ok none)
          × (session_get junk s addr ≡ ok (s.fresh, inserted junk s addr)))
unfolding session_get session_find index_of
session_get_cases junk s addr v =
    let n = length s.table in
    let i = addr_hash addr % n in
    elim (find_in_cases s addr s.fresh n i (chain_at s i) (v.chains i (omega (arith, v.wide)))) [
      | inr (p, x, run, live, same) ↦ inl (p, x, run, live, same, rw (run, ◌>>=◌))
      | inl absent ↦ inr (absent, rw (absent, ◌>>=◌))
    ]

-- find then returns the new session
pub session_find-inserted :
    (junk : Session) (s : Server) (addr : Addr)
    → IsTable s
    → session_find s addr ≡ ok none
    → session_find (inserted junk s addr) addr ≡ ok (some s.fresh)
unfolding session_find index_of
session_find-inserted junk s addr v absent =
    let n = length s.table in
    let i = addr_hash addr % n in
    let chain = chain_at s i in
    let inside : i < n = omega (arith, v.wide) in
    rw
      (
        length-set s.table i (chain ++ s.fresh ∷ []),
        get_or-set s.table i i (chain ++ s.fresh ∷ []) [] inside,
        same_index i,
      )
      (find_in-appended s (inserted junk s addr) addr (new_session junk addr) n i chain
        (v.chains i inside) (inserted-Grown junk s addr) (new_eq junk addr) absent)

-- what get returns
pub record Got (s : Server) (addr : Addr) (p : Ptr) (s' : Server) : Type 0 where
  pub table : IsTable s'
  pub found : session_find s' addr ≡ ok (some p)
  pub session : (x : Session) × (s'.store p ≡ some x) × (addr_eq x.addr addr ≡ true)
  pub counted :
      ((s'.count ≡ s.count) × (s' ≡ s))
      ⊎ ((s'.count ≡ s.count + 1) × (session_find s addr ≡ ok none))

-- On a well-formed table get ends without a fault and leaves a well-formed table. It returns a live
-- session whose address compares equal, which find then returns too. It either changes nothing, or
-- counts one session more where find found none.
pub session_get_correct :
    (junk : Session) (s : Server) (addr : Addr)
    → IsTable s
    → (p : Ptr) × (s' : Server) × (session_get junk s addr ≡ ok (p, s')) × Got s addr p s'
session_get_correct junk s addr v = elim (session_get_cases junk s addr v) [
  | inl (p, x, run, live, same, got) ↦ (
    p,
    s,
    got,
    record { table = v; found = run; session = (x, live, same); counted = inl (refl, refl) },
  )
  | inr (absent, got) ↦ (
    s.fresh,
    inserted junk s addr,
    got,
    record {
      table = inserted-IsTable junk s addr v;
      found = session_find-inserted junk s addr v absent;
      session = (new_session junk addr, (inserted-Grown junk s addr).0, new_eq junk addr);
      counted = inr (refl, absent);
    },
  )
]

-- Where the first session of the chain for an address has another IP address, get returns that
-- session, makes none for the address, and changes nothing.
pub session_get_shares :
    (junk : Session) (s : Server) (addr : Addr) (p : Ptr) (rest : List Ptr) (x : Session)
    → chain_at s (index_of s addr) ≡ p ∷ rest
    → s.store p ≡ some x
    → same_bytes x.addr.ip addr.ip ≡ false
    → session_get junk s addr ≡ ok (p, s)
unfolding session_get find_in load addr_eq
session_get_shares junk s addr p rest x e live other = rw (e, find_in, live, ◌>>=◌, other)
