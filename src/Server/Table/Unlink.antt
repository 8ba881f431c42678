-- ===== src/Server/Table/Unlink.antt =====
-- The search for a session in its chain, and the chain without it.
use mathlib.Core.Path.{subst}
use sas.Base.{
  ℕ, ◌+◌, ◌%◌, ◌≡◌, ◌≢◌, refl, sym, ap, ◌∙◌, inl, inr, false, List, [], ◌∷◌, Option, none, some, ok,
  ◌>>=◌, ◌==◌, arith, length, Bool-cases,
}
use sas.Timeout.{Ptr}
use sas.Server.Address.{Addr, addr_hash, addr_eq}
use sas.Server.Session.{Session, World}
use sas.Server.Table.{Server, load, update, find_in, unlink}
use sas.Server.Table.Chains.{NotIn, IsChain}

head_is : (r p : Ptr) → ok (some r) ≡ ok (some p) → r ≡ p
head_is r p e = cc

-- a node that find returns stands in the chain
pub find_in-ne :
    (s : Server) (addr : Addr) (fresh n i : ℕ) (chain : List Ptr) (p q : Ptr)
    → IsChain s.store fresh n i chain
    → find_in s addr chain ≡ ok (some p)
    → NotIn q chain
    → q ≢ p
unfolding find_in load
find_in-ne s addr fresh n i [] p q v e absent = cc
find_in-ne s addr fresh n i (r ∷ chain) p q ((x, live, home), below, once, v) e absent =
    elim (Bool-cases (addr_eq x.addr addr)) [
      | inl same ↦ λ h. absurd (absent.0 (h ∙ sym (head_is r p (rw (live, ◌>>=◌, same) at e))))
      | inr other ↦ find_in-ne s addr fresh n i chain p q v (rw (live, ◌>>=◌, other) at e) absent.1
    ]

-- freeing a node that is not in a chain leaves the chain well-formed
pub IsChain-freed :
    (store : Ptr → Option Session) (fresh n i : ℕ) (p : Ptr) (chain : List Ptr)
    → NotIn p chain
    → IsChain store fresh n i chain
    → IsChain (update store p none) fresh n i chain
IsChain-freed store fresh n i p [] absent v = tt
IsChain-freed store fresh n i p (q ∷ chain) absent ((x, live, home), below, once, v) =
    let other : (p == q) ≡ false = ground (arith, absent.0) in
    ((x, rw other live, home), below, once, IsChain-freed store fresh n i p chain absent.1 v)

same_session :
    (store : Ptr → Option Session) (p q : Ptr) (x y : Session)
    → store p ≡ some x
    → store q ≡ some y
    → p ≡ q
    → x ≡ y
same_session store p q x y live there e = cc (ap store e)

-- a node whose home is another chain
pub NotIn-elsewhere :
    (store : Ptr → Option Session) (fresh n i : ℕ) (p : Ptr) (x : Session) (chain : List Ptr)
    → store p ≡ some x
    → addr_hash x.addr % n ≢ i
    → IsChain store fresh n i chain
    → NotIn p chain
NotIn-elsewhere store fresh n i p x [] live away v = tt
NotIn-elsewhere store fresh n i p x (q ∷ chain) live away ((y, there, home), below, once, v) = (
  λ e.
      away (
        ap (λ (z : Session). addr_hash z.addr % n) (same_session store p q x y live there e)
        ∙ home),
  NotIn-elsewhere store fresh n i p x chain live away v,
)

-- what unlink leaves of a chain in which find returns `p`
pub record Unlinked (s : Server) (fresh n i : ℕ) (chain : List Ptr) (p : Ptr) (c : List Ptr)
    : Type 0 where
  pub formed : IsChain s.store fresh n i c
  pub gone : NotIn p c
  pub shorter : length c + 1 ≡ length chain
  pub finds :
      (a : Addr) (q : Ptr) → p ≢ q → find_in s a chain ≡ ok (some q) → find_in s a c ≡ ok (some q)

pub unlink-found :
    (s : Server) (addr : Addr) (fresh n i : ℕ) (chain : List Ptr) (p : Ptr)
    → IsChain s.store fresh n i chain
    → find_in s addr chain ≡ ok (some p)
    → (c : List Ptr) × (unlink s addr chain ≡ ok (some c))
      × Unlinked s fresh n i chain p c
      × ((q : Ptr) → NotIn q chain → NotIn q c)
unfolding find_in unlink load
unlink-found s addr fresh n i [] p v e = cc
unlink-found s addr fresh n i (r ∷ chain) p ((x, live, home), below, once, v) e =
    elim (Bool-cases (addr_eq x.addr addr)) [
      | inl same ↦
          let is : r ≡ p = head_is r p (rw (live, ◌>>=◌, same) at e) in
          (
            chain,
            rw (live, ◌>>=◌, same),
            record {
              formed = v;
              gone = subst (λ q. NotIn q chain) is once;
              shorter = omega arith;
              finds = λ a q ne f. elim (Bool-cases (addr_eq x.addr a)) [
                | inl hit ↦ absurd (ne (sym is ∙ head_is r q (rw (live, ◌>>=◌, hit) at f)))
                | inr miss ↦ rw (live, ◌>>=◌, miss) at f
              ];
            },
            λ q absent. absent.1,
          )
      | inr other ↦
          let e' = rw (live, ◌>>=◌, other) at e in
          let (c, run, u, sub) = unlink-found s addr fresh n i chain p v e' in
          (
            r ∷ c,
            rw (live, ◌>>=◌, other, run),
            record {
              formed = ((x, live, home), below, sub r once, u.formed);
              gone = (λ h. find_in-ne s addr fresh n i chain p r v e' once (sym h), u.gone);
              shorter = omega (arith, u.shorter);
              finds = λ a q ne f. elim (Bool-cases (addr_eq x.addr a)) [
                | inl hit ↦ rw (live, ◌>>=◌, hit) (rw (live, ◌>>=◌, hit) at f)
                | inr miss ↦ rw (live, ◌>>=◌, miss) (u.finds a q ne (rw (live, ◌>>=◌, miss) at f))
              ];
            },
            λ q absent. (absent.0, sub q absent.1),
          )
    ]

-- find is as before on a chain without a node that is freed
pub find_in-freed :
    (s : Server) (count : ℕ) (table : List (List Ptr)) (world : World) (p : Ptr) (a : Addr)
    (chain : List Ptr)
    → NotIn p chain
    → find_in
        (record s { count = count; table = table; store = update s.store p none; world = world })
        a
        chain
      ≡ find_in s a chain
unfolding find_in load
find_in-freed s count table world p a [] away = refl
find_in-freed s count table world p a (q ∷ chain) away =
    let other : (p == q) ≡ false = ground (arith, away.0) in
    rw (other, find_in-freed s count table world p a chain away.1)
