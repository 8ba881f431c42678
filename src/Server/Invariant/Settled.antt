-- ===== src/Server/Invariant/Settled.antt =====
-- The invariant of the server, over the rounds that first free the sessions that have expired.
use sas.Base.{
  ℕ, ◌+◌, ◌-◌, ◌≡◌, refl, sym, ap, ◌∙◌, inl, inr, false, List, Option, none, some, Run, ok, ◌>>=◌,
  arith, leb, length, Bool-cases,
}
use mathlib.Core.Path.{subst}
use sas.Transport.{Header}
use sas.Timeout.{Ptr, TimeoutHeap}
use sas.Timeout.Order.{count}
use sas.Server.Address.{Addr}
use sas.Server.Session.{Session, Host}
use sas.Server.Table.{Server, load}
use sas.Server.Machine.{Files}
use sas.Server.Loop.{
  timeout_of, handle_packet, expire, select_limit, re_add, server_timeout, received, timed_out,
  running, handle, round,
}
use sas.Server.Loop.Expiry.{with_heap}
use sas.Server.Invariant.{IsServer}
use sas.Server.Invariant.Expired.{IsDistinct, Settled, expire_safe, delete-IsServer}
use sas.Server.Invariant.Waiting.{add-IsServer}
use sas.Server.Invariant.Packet.{forgets_sender, sender-heap, packet_safe}

abbrev answer : Option Ptr → Server → Run (Option Ptr × Server)
answer w s = ok (w, s)

left_is : (w w' : Option Ptr) (s s' : Server) → answer w s ≡ answer w' s' → (w ≡ w') × (s ≡ s')
left_is w w' s s' e = (cc, cc)

module _ (host : Host) (files : Files) (junk : Session) (now later : ℕ) (s : Server)
    (k : IsServer s) (once : IsDistinct s) where
  expire-Settled :
      (waiting : Option Ptr) (s1 : Server)
      → expire (length s.timeouts.heap + 1) now later s ≡ ok (waiting, s1)
      → Settled now waiting s1
  expire-Settled waiting s1 popped =
      let (w, r, run, settled) =
        expire_safe now later (length s.timeouts.heap + 1) s k once (omega arith) in
      let (same_w, same_r) = left_is w waiting r s1 (sym run ∙ popped) in
      subst (λ u. Settled now u s1) same_w (subst (λ u. Settled now w u) same_r settled)

  -- the session that is left goes back to the heap
  back :
      (waiting : Option Ptr) (s1 : Server)
      → Settled now waiting s1
      → (limit : Option ℕ) × (h : TimeoutHeap) × (select_limit now s1 waiting ≡ ok limit)
        × (re_add s1 waiting ≡ ok (with_heap h s1))
        × IsServer (with_heap h s1)
  unfolding select_limit re_add timeout_of load
  back none s1 settled = (none, s1.timeouts, refl, refl, settled.server)
  back (some p) s1 settled =
      let (x, live, early, gone) = settled.left p refl in
      let (h, added, k1, same) = add-IsServer s1 p x settled.server live in
      (some (x.timeout - now), h, rw (live, ◌>>=◌), added, k1)

  pub expiring_round :
      (addr : Addr) (wire : Header) (buffer : List ℕ) (waiting : Option Ptr) (s1 : Server)
      → expire (length s.timeouts.heap + 1) now later s ≡ ok (waiting, s1)
      → forgets_sender host files junk s1 addr wire buffer ≡ ok false
      → (r : Server) × (round host files junk now later s (λ limit. received addr wire buffer)
          ≡ ok (running r))
        × IsServer r
  unfolding round handle handle_packet
  expiring_round addr wire buffer waiting s1 popped stays =
      let settled = expire-Settled waiting s1 popped in
      let (limit, h, selected, added, k1) = back waiting s1 settled in
      let (r, run, safe, waits) =
        packet_safe host files junk (with_heap h s1) addr wire buffer later k1
          (sender-heap host files junk addr wire buffer h s1 settled.server k1 ∙ stays) in
      (
        r,
        rw (popped, ◌>>=◌, selected)
            (ap
                (λ u. u >>= λ s2.
                  handle_packet host files junk later s2 addr wire buffer >>= λ v. ok (running v))
                added
              ∙ ap (λ u. u >>= λ v. ok (running v)) run),
        safe,
      )

  pub timed_out_round :
      (p : Ptr) (s1 : Server)
      → expire (length s.timeouts.heap + 1) now later s ≡ ok (some p, s1)
      → (r : Server) × (round host files junk now later s (λ limit. timed_out) ≡ ok (running r))
        × IsServer r
        × IsDistinct r
  unfolding round handle server_timeout timeout_of load
  timed_out_round p s1 popped =
      let settled = expire-Settled (some p) s1 popped in
      let (x, live, early, gone) = settled.left p refl in
      let (limit, h, selected, added, k1) = back (some p) s1 settled in
      elim (Bool-cases (leb x.timeout later)) [
        | inl over ↦
            let (r, run, safe, kept) = delete-IsServer s1 p x settled.server live gone in
            (
              r,
              rw (popped, ◌>>=◌, selected, live, over, run),
              safe,
              λ q. omega (arith, settled.distinct q, ap (λ (t : TimeoutHeap). count q t.heap) kept),
            )
        | inr not_over ↦
            (s1, rw (popped, ◌>>=◌, selected, live, not_over), settled.server, settled.distinct)
      ]
