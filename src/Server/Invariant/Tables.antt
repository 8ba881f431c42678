-- ===== src/Server/Invariant/Tables.antt =====
-- The invariant of the server, under a write to a session and under sas_server_session_get.
use sas.Base.{
  ℕ, ◌%◌, ◌<◌, ◌≡◌, refl, sym, ap, ◌∙◌, inl, inr, false, List, [], ◌∷◌, ◌++◌, Option, none, some,
  ok, ◌>>=◌, ◌==◌, arith, length, Option-cases, length-set, get_or-set, Bool-cases,
}
use mathlib.Core.Path.{subst}
use sas.Timeout.{Ptr, TimeoutHeap}
use sas.Timeout.Order.{count}
use sas.Server.Address.{Addr, addr_hash, addr_eq}
use sas.Server.Session.{Session, World}
use sas.Server.Table.{Server, load, index_of, find_in, session_find, session_get, new_session}
use sas.Server.Table.Chains.{IsChain, chain_at, IsTable}
use sas.Server.Table.Lookup.{
  Grown, inserted, inserted-Grown, inserted-IsTable, session_get_cases, session_find-inserted,
}
use sas.Server.Table.Update.{written, written-IsTable, session_find-written}
use sas.Server.Loop.Expiry.{with_heap, session_find-heap}
use sas.Server.Invariant.{IsSession, IsServer}

pub same_session :
    (store : Ptr → Option Session) (p : Ptr) (x y : Session)
    → store p ≡ some x
    → store p ≡ some y
    → x ≡ y
same_session store p x y a b = cc

module _ (s : Server) (p : Ptr) (x y : Session) (w : World) (live : s.store p ≡ some x)
    (same : y.addr ≡ x.addr) where
  -- a write that keeps the address, and leaves a well-formed session
  pub written-IsServer : IsServer s → IsSession y → IsServer (written s p x y w live same)
  written-IsServer v good = record {
    table = written-IsTable s p x y w live same v.table;
    found = λ q z there.
        session_find-written s p x y w live same z.addr v.table ∙ elim (Bool-cases (p == q)) [
          | inl e ↦
              let pq : p ≡ q = ground arith in
              let yz : y ≡ z = cc (rw e at there) in
              ap (session_find s) (ap (λ (u : Session). u.addr) (sym yz) ∙ same)
              ∙ v.found p x live
              ∙ ap (λ u. ok (some u)) pq
          | inr e ↦ v.found q z (rw e at there)
        ];
    sessions = λ q z there. elim (Bool-cases (p == q)) [
      | inl e ↦ let yz : y ≡ z = cc (rw e at there) in subst IsSession yz good
      | inr e ↦ v.sessions q z (rw e at there)
    ];
    waiting = λ q h. elim (Bool-cases (p == q)) [
      | inl e ↦ (y, rw e)
      | inr e ↦ let (z, there) = v.waiting q h in (z, rw e there)
    ];
  }

find_in-Grown :
    (s s' : Server) (y : Session) (a : Addr) (n i : ℕ) (chain : List Ptr)
    → Grown s y s'
    → IsChain s.store s.fresh n i chain
    → find_in s' a chain ≡ find_in s a chain
unfolding find_in load
find_in-Grown s s' y a n i [] g v = refl
find_in-Grown s s' y a n i (q ∷ chain) g ((x, live, home), below, once, v) =
    rw (g.1 q below, find_in-Grown s s' y a n i chain g v)

-- a node that find returns is still returned when others stand behind it
find_in-append :
    (s : Server) (a : Addr) (p : Ptr) (chain more : List Ptr)
    → find_in s a chain ≡ ok (some p)
    → find_in s a (chain ++ more) ≡ ok (some p)
unfolding find_in load
find_in-append s a p [] more e = cc
find_in-append s a p (q ∷ chain) more e = elim (Option-cases (s.store q)) [
  | inl freed ↦ cc (rw (freed, ◌>>=◌) at e)
  | inr (x, live) ↦ elim (Bool-cases (addr_eq x.addr a)) [
    | inl hit ↦ rw (live, ◌>>=◌, hit) (rw (live, ◌>>=◌, hit) at e)
    | inr miss ↦
        rw (live, ◌>>=◌, miss) (find_in-append s a p chain more (rw (live, ◌>>=◌, miss) at e))
  ]
]

module _ (junk : Session) (s : Server) (addr : Addr) (v : IsTable s) where
  -- a session that find returns is still returned after another is inserted
  find-inserted :
      (a : Addr) (p : Ptr)
      → session_find s a ≡ ok (some p)
      → session_find (inserted junk s addr) a ≡ ok (some p)
  unfolding session_find index_of
  find-inserted a p e =
      let n = length s.table in
      let i = addr_hash addr % n in
      let j = addr_hash a % n in
      let s' = inserted junk s addr in
      let more = chain_at s i ++ s.fresh ∷ [] in
      let chain = chain_at s j in
      let g = inserted-Grown junk s addr in
      let inside : i < n = omega (arith, v.wide) in
      let kept =
        find_in-Grown s s' (new_session junk addr) a n j chain g
          (v.chains j (omega (arith, v.wide)))
        ∙ e in
      rw (length-set s.table i more, get_or-set s.table i j more [] inside)
        (elim (Bool-cases (i == j)) [
          | inl same ↦
              let ij : j ≡ i = ground arith in
              rw same (
                find_in-append s' a p (chain_at s i) (s.fresh ∷ [])
                  (ap (λ k. find_in s' a (chain_at s k)) (sym ij) ∙ kept))
          | inr other ↦ rw other kept
        ])

  pub inserted-IsServer :
      IsServer s → session_find s addr ≡ ok none → IsServer (inserted junk s addr)
  unfolding new_session
  inserted-IsServer k absent = record {
    table = inserted-IsTable junk s addr v;
    found = λ q z there. elim (Bool-cases (s.fresh == q)) [
      | inl e ↦
          let here : s.fresh ≡ q = ground arith in
          let new : new_session junk addr ≡ z = cc (rw e at there) in
          ap (λ (u : Session). session_find (inserted junk s addr) u.addr) (sym new)
          ∙ session_find-inserted junk s addr v absent
          ∙ ap (λ u. ok (some u)) here
      | inr e ↦ find-inserted z.addr q (k.found q z (rw e at there))
    ];
    sessions = λ q z there. elim (Bool-cases (s.fresh == q)) [
      | inl e ↦
          let new : new_session junk addr ≡ z = cc (rw e at there) in
          subst IsSession new (record { streams = λ h. absurd (ground arith) })
      | inr e ↦ k.sessions q z (rw e at there)
    ];
    waiting = λ q h. elim (Bool-cases (s.fresh == q)) [
      | inl e ↦ (new_session junk addr, rw e)
      | inr e ↦ let (z, there) = k.waiting q h in (z, rw e there)
    ];
  }

-- what get leaves alone
pub record Fetched (s : Server) (p : Ptr) (s' : Server) : Type 0 where
  pub others : (q : Ptr) → (p == q) ≡ false → s'.store q ≡ s.store q
  pub timeouts : s'.timeouts ≡ s.timeouts
  pub world : s'.world ≡ s.world

-- get ends, and keeps the invariant; the session that it returns is live
pub get-IsServer :
    (junk : Session) (s : Server) (addr : Addr)
    → IsServer s
    → (p : Ptr) × (x : Session) × (s' : Server) × (session_get junk s addr ≡ ok (p, s'))
      × (s'.store p ≡ some x)
      × IsServer s'
      × Fetched s p s'
get-IsServer junk s addr k = elim (session_get_cases junk s addr k.table) [
  | inl (p, x, run, live, same, got) ↦
      (p, x, s, got, live, k, record { others = λ q e. refl; timeouts = refl; world = refl })
  | inr (absent, got) ↦ (
    s.fresh,
    new_session junk addr,
    inserted junk s addr,
    got,
    (inserted-Grown junk s addr).0,
    inserted-IsServer junk s addr k.table k absent,
    record { others = λ q e. rw e; timeouts = refl; world = refl },
  )
]

-- another heap, of live sessions
pub heap-IsServer :
    (h : TimeoutHeap) (s : Server)
    → IsServer s
    → ((p : Ptr) → 0 < count p h.heap → (x : Session) × (s.store p ≡ some x))
    → IsServer (with_heap h s)
heap-IsServer h s k live = record {
  table = record { wide = k.table.wide; chains = k.table.chains };
  found = λ p x there. session_find-heap h s x.addr ∙ k.found p x there;
  sessions = k.sessions;
  waiting = live;
}
