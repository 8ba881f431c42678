-- ===== src/Server/Invariant/Expired.antt =====
-- The invariant of the server, under the loop that frees the sessions that have expired.
use mathlib.Core.Path.{subst}
use sas.Base.{
  ℕ, zero, suc, ◌<◌, ◌≤◌, ◌≡◌, ◌≢◌, refl, sym, ap, ◌∙◌, inl, inr, List, [], ◌∷◌, Option, none, some,
  ok, ◌>>=◌, arith, leb, length, ◌==◌, Bool-cases,
}
use sas.Timeout.{Ptr, TimeoutHeap, timeout_pop}
use sas.Timeout.Order.{count, SameEntries}
use sas.Server.Session.{Session}
use sas.Server.Table.{Server, load, session_delete}
use sas.Server.Table.Removal.{Deleted, session_delete_correct}
use sas.Server.Loop.{timeout_of, pop_timeout, server_timeout, expire}
use sas.Server.Loop.Expiry.{with_heap}
use sas.Server.Invariant.{IsServer}
use sas.Server.Invariant.Waiting.{pop-IsServer}

-- no session waits twice
abbrev pub IsDistinct : Server → Type 0
IsDistinct s = (p : Ptr) → count p s.timeouts.heap ≤ 1

-- a session that is live after another is deleted
still_live :
    (s s' : Server) (p q : Ptr) (x z : Session)
    → Deleted s p x s'
    → s'.store q ≡ some z
    → (p ≢ q) × (s.store q ≡ some z)
still_live s s' p q x z d there = elim (Bool-cases (p == q)) [
  | inl e ↦
      let same : q ≡ p = ground arith in
      let freed : s'.store q ≡ none = ap s'.store same ∙ d.freed in absurd cc
  | inr e ↦ let ne : p ≢ q = ground arith in (ne, sym (d.others q ne) ∙ there)
]

-- a session that does not wait is deleted
pub delete-IsServer :
    (s : Server) (p : Ptr) (x : Session)
    → IsServer s
    → s.store p ≡ some x
    → count p s.timeouts.heap ≡ 0
    → (s' : Server) × (session_delete s p ≡ ok s') × IsServer s' × (s'.timeouts ≡ s.timeouts)
delete-IsServer s p x k live gone =
    let (s', run, d) = session_delete_correct s p x k.table live (k.found p x live) in
    (
      s',
      run,
      record {
        table = d.table;
        found = λ q z there.
            let (ne, before) = still_live s s' p q x z d there in
            d.finds q z.addr ne (k.found q z before);
        sessions = λ q z there. k.sessions q z (still_live s s' p q x z d there).1;
        waiting = λ q h.
            let waits : 0 < count q s.timeouts.heap =
              subst (λ (t : TimeoutHeap). 0 < count q t.heap) d.timeouts h in
            elim (Bool-cases (p == q)) [
              | inl e ↦
                  let same : p ≡ q = ground arith in
                  absurd (omega (arith, ap (λ r. count r s.timeouts.heap) same))
              | inr e ↦
                  let ne : p ≢ q = ground arith in
                  let (z, there) = k.waiting q waits in (z, d.others q ne ∙ there)
            ];
      },
      d.timeouts,
    )

head_counts : (p : Ptr) (rest : List Ptr) → 0 < count p (p ∷ rest)
unfolding count
head_counts p rest = ground arith

-- what is left of a server whose expired sessions are freed: the session to wait for, if there is one,
-- is live, is not due, and stands in the heap no more
pub record Settled (now : ℕ) (waiting : Option Ptr) (r : Server) : Type 0 where
  pub server : IsServer r
  pub distinct : IsDistinct r
  pub left :
      (p : Ptr)
      → waiting ≡ some p
      → (x : Session) × (r.store p ≡ some x) × (now < x.timeout) × (count p r.timeouts.heap ≡ 0)

expire-none :
    (now later fuel : ℕ) (s : Server)
    → s.timeouts.heap ≡ []
    → expire (suc fuel) now later s ≡ ok (none, s)
unfolding expire pop_timeout timeout_pop
expire-none now later fuel s empty = rw empty

module _ (s : Server) (p : Ptr) (rest : List Ptr) (once : IsDistinct s)
    (shape : s.timeouts.heap ≡ p ∷ rest) (h : TimeoutHeap)
    (same : SameEntries (p ∷ h.heap) (p ∷ rest)) where
  entries : (q : Ptr) → count q (p ∷ h.heap) ≤ 1
  entries q = omega (arith, same q, ap (count q) shape, once q)

  popped_gone : count p h.heap ≡ 0
  unfolding count
  popped_gone = ground (arith, entries p)

  popped-IsDistinct : IsDistinct (with_heap h s)
  unfolding count
  popped-IsDistinct q = ground (arith, entries q)

module _ (now later : ℕ) where
  -- one session is popped, and is freed, kept or left to wait for
  expire_pops :
      (fuel : ℕ) (s : Server) (heap : List Ptr)
      → s.timeouts.heap ≡ heap
      → IsServer s
      → IsDistinct s
      → length heap ≤ fuel
      → (waiting : Option Ptr) × (r : Server) × (expire (suc fuel) now later s ≡ ok (waiting, r))
        × Settled now waiting r
  unfolding expire server_timeout timeout_of load
  expire_pops fuel s [] shape k once f = (
    none,
    s,
    expire-none now later fuel s shape,
    record { server = k; distinct = once; left = λ p e. absurd cc },
  )
  expire_pops zero s (p ∷ rest) shape k once f = absurd (omega arith)
  expire_pops (suc fuel) s (p ∷ rest) shape k once f =
      let (h, popped, k1, same, shorter) = pop-IsServer s p rest k shape in
      let (x, live) = k.waiting p (rw shape (head_counts p rest)) in
      let gone = popped_gone s p rest once shape h same in
      let once1 = popped-IsDistinct s p rest once shape h same in
      elim (Bool-cases (leb x.timeout now)) [
        | inr early ↦ (
          some p,
          with_heap h s,
          rw (popped, ◌>>=◌, live, early),
          record {
            server = k1;
            distinct = once1;
            left = λ q e.
                let pq : p ≡ q = cc in
                (
                  x,
                  ap s.store (sym pq) ∙ live,
                  ground arith,
                  ap (λ r. count r h.heap) (sym pq) ∙ gone,
                );
          },
        )
        | inl due ↦ elim (Bool-cases (leb x.timeout later)) [
          | inl over ↦
              let (s2, run, k2, kept) = delete-IsServer (with_heap h s) p x k1 live gone in
              let once2 : IsDistinct s2 =
                λ q. omega (arith, once1 q, ap (λ (t : TimeoutHeap). count q t.heap) kept) in
              let (w, r, rest_runs, settled) =
                expire_pops fuel s2 s2.timeouts.heap refl k2 once2
                  (omega (arith, shorter, ap (λ (t : TimeoutHeap). length t.heap) kept)) in
              (w, r, rw (popped, ◌>>=◌, live, due, over, run) rest_runs, settled)
          | inr not_over ↦
              let (w, r, rest_runs, settled) =
                expire_pops fuel (with_heap h s) h.heap refl k1 once1 (omega (arith, shorter)) in
              (w, r, rw (popped, ◌>>=◌, live, due, not_over) rest_runs, settled)
        ]
      ]

  -- The loop that frees the sessions that have expired ends, at a server that satisfies the invariant
  -- and in whose heap no session stands twice, on fuel of the number of waiting sessions and one or
  -- more. The server then satisfies the invariant, no session stands twice in its heap, and where a
  -- session is left to wait for, it is live, is not due, and stands in the heap no more.
  pub expire_safe :
      (fuel : ℕ) (s : Server)
      → IsServer s
      → IsDistinct s
      → length s.timeouts.heap < fuel
      → (waiting : Option Ptr) × (r : Server) × (expire fuel now later s ≡ ok (waiting, r))
        × Settled now waiting r
  expire_safe zero s k once f = absurd (omega arith)
  expire_safe (suc fuel) s k once f = expire_pops fuel s s.timeouts.heap refl k once (omega arith)
