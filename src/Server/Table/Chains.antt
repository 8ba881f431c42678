-- ===== src/Server/Table/Chains.antt =====
-- Well-formed chains and tables of sessions.
use sas.Base.{
  ℕ, zero, suc, ◌%◌, ◌<◌, ◌≡◌, ◌≢◌, refl, ◌⊎◌, inl, inr, true, List, [], ◌∷◌, Option, none, some,
  ok, ◌>>=◌, arith, length, get_or, Bool-cases, replicate,
}
use sas.Timeout.{Ptr}
use sas.Server.Address.{Addr, addr_hash, addr_eq}
use sas.Server.Session.{Session, World}
use sas.Server.Table.{Server, load, server_alloc, find_in, table_capacity}

abbrev pub NotIn : Ptr → List Ptr → Type 0
NotIn p [] = Unit
NotIn p (q ∷ chain) = (p ≢ q) × NotIn p chain

-- every node of a chain is live, has the chain's index, and stands there once
abbrev pub IsChain : (Ptr → Option Session) → Ptr → ℕ → ℕ → List Ptr → Type 0
IsChain store fresh capacity i [] = Unit
IsChain store fresh capacity i (p ∷ chain) =
    ((x : Session) × (store p ≡ some x) × (addr_hash x.addr % capacity ≡ i))
    × (p < fresh)
    × NotIn p chain
    × IsChain store fresh capacity i chain

-- the chain at an index
abbrev pub chain_at : Server → ℕ → List Ptr
chain_at s i = get_or s.table i []

pub record IsTable (s : Server) : Type 0 where
  pub wide : 0 < length s.table
  pub chains :
      (i : ℕ) → i < length s.table → IsChain s.store s.fresh (length s.table) i (chain_at s i)

get_or-replicate_nil : (n i : ℕ) → get_or {A = List Ptr} (replicate n []) i [] ≡ []
get_or-replicate_nil zero i = refl
get_or-replicate_nil (suc n) zero = refl
get_or-replicate_nil (suc n) (suc i) = get_or-replicate_nil n i

-- The table of a new server is well-formed.
pub server_alloc-IsTable : (world : World) → IsTable (server_alloc world)
unfolding server_alloc
server_alloc-IsTable world = record {
  wide = omega arith;
  chains = λ i h. rw (get_or-replicate_nil table_capacity i) tt;
}

-- find on a chain of live nodes ends with none, or with a live node that compares equal
pub find_in_cases :
    (s : Server) (addr : Addr) (fresh n i : ℕ) (chain : List Ptr)
    → IsChain s.store fresh n i chain
    → (find_in s addr chain ≡ ok none)
      ⊎ ((p : Ptr) × (x : Session) × (find_in s addr chain ≡ ok (some p))
          × (s.store p ≡ some x)
          × (addr_eq x.addr addr ≡ true))
unfolding find_in load
find_in_cases s addr fresh n i [] v = inl refl
find_in_cases s addr fresh n i (p ∷ chain) ((x, live, home), below, once, v) =
    elim (Bool-cases (addr_eq x.addr addr)) [
      | inl same ↦ inr (p, x, rw (live, ◌>>=◌, same), live, same)
      | inr other ↦ elim (find_in_cases s addr fresh n i chain v) [
        | inl absent ↦ inl (rw (live, ◌>>=◌, other) absent)
        | inr (q, y, found, at, e) ↦ inr (q, y, rw (live, ◌>>=◌, other) found, at, e)
      ]
    ]
