-- ===== src/Server/Table/Removal.antt =====
-- sas_server_session_delete on a well-formed table.
use mathlib.Core.Path.{subst}
use sas.Base.{
  ℕ, ◌-◌, ◌%◌, ◌<◌, ◌≡◌, ◌≢◌, refl, sym, ap, ◌∙◌, inl, inr, List, [], none, some, ok, ◌>>=◌, ◌==◌,
  arith, length, set, length-set, get_or-set, Bool-cases,
}
use sas.Timeout.{Ptr}
use sas.Server.Address.{Addr, addr_hash}
use sas.Server.Session.{Session}
use sas.Server.Table.{
  Server, load, update, index_of, find_in, session_find, session_delete, dealloc_stream,
  close_session_fd,
}
use sas.Server.Table.Unlink.{Unlinked, IsChain-freed, NotIn-elsewhere, unlink-found, find_in-freed}
use sas.Server.Table.Chains.{NotIn, IsChain, chain_at, IsTable}

-- what delete leaves of the session `p`
pub record Deleted (s : Server) (p : Ptr) (x : Session) (s' : Server) : Type 0 where
  pub table : IsTable s'
  pub freed : s'.store p ≡ none
  pub others : (q : Ptr) → p ≢ q → s'.store q ≡ s.store q
  pub unreachable : (i : ℕ) → i < length s.table → NotIn p (chain_at s' i)
  pub finds :
      (q : Ptr) (a : Addr)
      → p ≢ q
      → session_find s a ≡ ok (some q)
      → session_find s' a ≡ ok (some q)
  pub counted : s'.count ≡ s.count - 1
  pub timeouts : s'.timeouts ≡ s.timeouts
  pub closed : s'.world ≡ close_session_fd x.fd (dealloc_stream x.stream s.world)

module _ (s : Server) (p : Ptr) (x : Session) (v : IsTable s) (live : s.store p ≡ some x)
    (found : session_find s x.addr ≡ ok (some p)) where
  home : ℕ
  home = addr_hash x.addr % length s.table

  -- the server without the session
  abbrev without : List Ptr → Server
  without c = record s {
    count = s.count - 1;
    table = set s.table (addr_hash x.addr % length s.table) c;
    store = update s.store p none;
    world = close_session_fd x.fd (dealloc_stream x.stream s.world);
  }

  IsChain-without :
      (c : List Ptr) (j : ℕ)
      → Unlinked s s.fresh (length s.table) home (chain_at s home) p c
      → j < length s.table
      → NotIn p (chain_at (without c) j)
        × IsChain (update s.store p none) s.fresh (length s.table) j (chain_at (without c) j)
  unfolding home
  IsChain-without c j u h =
      let n = length s.table in
      rw (get_or-set s.table home j c [] (omega (arith, v.wide))) (elim (Bool-cases (home == j)) [
        | inl e ↦
            let same : home ≡ j = ground arith in
            rw e (
              u.gone,
              IsChain-freed s.store s.fresh n j p c u.gone
                  (subst (λ k. IsChain s.store s.fresh n k c) same u.formed),
            )
        | inr e ↦
            let away =
              NotIn-elsewhere s.store s.fresh n j p x (chain_at s j) live (ground arith)
                (v.chains j h) in
            rw e (away, IsChain-freed s.store s.fresh n j p (chain_at s j) away (v.chains j h))
      ])

  session_find-without :
      (c : List Ptr)
      → Unlinked s s.fresh (length s.table) home (chain_at s home) p c
      → (q : Ptr) (a : Addr) → p ≢ q
      → session_find s a ≡ ok (some q)
      → session_find (without c) a ≡ ok (some q)
  unfolding home session_find index_of
  session_find-without c u q a ne f =
      let n = length s.table in
      let j = addr_hash a % n in
      let same = find_in-freed s (s.count - 1) (set s.table home c) (without c).world p a in
      rw (length-set s.table home c, get_or-set s.table home j c [] (omega (arith, v.wide)))
        (elim (Bool-cases (home == j)) [
          | inl e ↦
              let here : j ≡ home = ground arith in
              rw e (
                same c u.gone
                ∙ u.finds a q ne (ap (λ k. find_in s a (chain_at s k)) (sym here) ∙ f))
          | inr e ↦
              let away =
                NotIn-elsewhere s.store s.fresh n j p x (chain_at s j) live (ground arith)
                  (v.chains j (omega (arith, v.wide))) in
              rw e (same (chain_at s j) away ∙ f)
        ])

  -- On a well-formed table delete, of a live session that find returns for its own address, ends
  -- without a fault: the session is freed and stands in no chain, every other session is as it was
  -- and is found as before, the count is one less, the files of the session are closed, the heap of
  -- timeouts is as it was, and the table is well-formed.
  pub session_delete_correct : (s' : Server) × (session_delete s p ≡ ok s') × Deleted s p x s'
  unfolding session_delete load session_find index_of home
  session_delete_correct =
      let n = length s.table in
      let (c, run, u, sub) =
        unlink-found s x.addr s.fresh n home (chain_at s home) p
          (v.chains home (omega (arith, v.wide))) found in
      (
        without c,
        rw (live, ◌>>=◌, run),
        record {
          table = record {
            wide = rw length-set v.wide;
            chains = λ j h.
                rw (length-set s.table home c)
                  (IsChain-without c j u (rw (length-set s.table home c) at h)).1;
          };
          freed = ground arith;
          others = λ q e. ground arith;
          unreachable = λ j h. (IsChain-without c j u h).0;
          finds = λ q a ne f. session_find-without c u q a ne f;
          counted = refl;
          timeouts = refl;
          closed = refl;
        },
      )
