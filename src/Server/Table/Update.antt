-- ===== src/Server/Table/Update.antt =====
-- A write to a session that keeps its address keeps the table well-formed, and what find returns.
use sas.Base.{
  ℕ, ◌%◌, ◌≡◌, refl, sym, ap, ◌∙◌, inl, inr, List, [], ◌∷◌, some, ok, ◌>>=◌, ◌==◌, if◌then◌else◌,
  arith, length, Bool-cases,
}
use sas.Timeout.{Ptr}
use sas.Server.Address.{Addr, addr_hash, addr_eq}
use sas.Server.Session.{Session, World}
use sas.Server.Table.{Server, load, update, index_of, find_in, session_find}
use sas.Server.Table.Chains.{IsChain, chain_at, IsTable}

module _ (s : Server) (p : Ptr) (x y : Session) (w : World) (live : s.store p ≡ some x)
    (same : y.addr ≡ x.addr) where
  -- the server with `y` for `x`, and another world
  abbrev pub written : Server
  written = record s { store = update s.store p (some y); world = w }

  found_at : (q : Ptr) → p ≡ q → (z : Session) → s.store q ≡ some z → z.addr ≡ y.addr
  found_at q e z there = ap (λ (t : Session). t.addr) (one q e z there) ∙ sym same
    where
      one : (q : Ptr) → p ≡ q → (z : Session) → s.store q ≡ some z → z ≡ x
      one q e z there = cc (ap s.store e)

  IsChain-written :
      (fresh n i : ℕ) (chain : List Ptr)
      → IsChain s.store fresh n i chain
      → IsChain written.store fresh n i chain
  IsChain-written fresh n i [] v = tt
  IsChain-written fresh n i (q ∷ chain) ((z, there, home), below, once, v) =
      let rest = IsChain-written fresh n i chain v in
      elim (Bool-cases (p == q)) [
        | inl e ↦
            let moved : z.addr ≡ y.addr = found_at q (ground arith) z there in
            ((y, rw e, ap (λ a. addr_hash a % n) (sym moved) ∙ home), below, once, rest)
        | inr e ↦ ((z, rw e there, home), below, once, rest)
      ]

  pub written-IsTable : IsTable s → IsTable written
  written-IsTable v = record {
    wide = v.wide;
    chains = λ i h. IsChain-written s.fresh (length s.table) i (chain_at s i) (v.chains i h);
  }

  find_in-written :
      (addr : Addr) (fresh n i : ℕ) (chain : List Ptr)
      → IsChain s.store fresh n i chain
      → find_in written addr chain ≡ find_in s addr chain
  unfolding find_in load
  find_in-written addr fresh n i [] v = refl
  find_in-written addr fresh n i (q ∷ chain) ((z, there, home), below, once, v) =
      let rest = find_in-written addr fresh n i chain v in
      elim (Bool-cases (p == q)) [
        | inl e ↦
            let moved : z.addr ≡ y.addr = found_at q (ground arith) z there in
            rw (e, there, ◌>>=◌, rest)
              (ap (λ a. if addr_eq a addr then ok (some q) else find_in s addr chain) (sym moved))
        | inr e ↦ rw (e, there, ◌>>=◌, rest)
      ]

  pub session_find-written :
      (addr : Addr) → IsTable s → session_find written addr ≡ session_find s addr
  unfolding session_find index_of
  session_find-written addr v =
      let i = addr_hash addr % length s.table in
      find_in-written addr s.fresh (length s.table) i (chain_at s i)
        (v.chains i (omega (arith, v.wide)))
