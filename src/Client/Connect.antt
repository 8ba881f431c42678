-- ===== src/Client/Connect.antt =====
-- sas_client_connect_hostname of sas-client/src/client.c.
mod Tests
use sas.Base.{
  ℕ, zero, suc, ◌+◌, ◌-◌, ◌*◌, map, ◌/◌, ◌%◌, ◌^◌, ◌<◌, ◌≤◌, ◌≡◌, refl, ap, ◌∙◌, inl, inr, Bool,
  true, false, List, [], ◌∷◌, ◌++◌, Option, none, some, Run, ok, fault, Fault, ◌>>=◌, ltb, leb,
  ◌==◌, if◌then◌else◌, length, arith, Bool-cases, Option-cases, length-append,
}
use sas.Sockets.{Descriptors, close, close_if}

-- `struct addrinfo`, less the fields that are not read
pub record Address : Type 0 where
  pub family : ℕ
  pub socktype : ℕ
  pub protocol : ℕ
  pub addr : List ℕ

-- the fields of `hints` that are not 0
pub record Hints : Type 0 where
  pub family : ℕ
  pub socktype : ℕ
  pub flags : ℕ

-- PF_UNSPEC, SOCK_DGRAM and AI_ADDRCONFIG
abbrev pub hints : Hints
hints = record { family = 0; socktype = 2; flags = 32 }

-- EAI_NONAME, -2, as an int of 32 bits
abbrev pub eai_noname : ℕ
eai_noname = 2 ^ 32 - 2

-- The resolver and the kernel: getaddrinfo(3) gives an error number, 0 for none, and the addresses;
-- socket(2) a descriptor, which may depend on those that are open, or `none`; and connect(2) succeeds
-- or not.
pub record Network : Type 0 where
  pub getaddrinfo : List ℕ → List ℕ → Hints → ℕ × List Address
  pub socket : Descriptors → Address → Option ℕ
  pub connect : ℕ → Address → Bool

-- `sprintf(port_str, "%d", port)` for a port that is not negative: the fuel bounds the digits, and an
-- int has at most ten
unfoldable pub decimal : ℕ → ℕ → List ℕ
decimal zero n = []
decimal (suc k) n =
    let front = decimal k (n / 10) in
    if ltb n 10 then (48 + n) ∷ [] else front ++ (48 + n % 10) ∷ []

abbrev pub port_string : ℕ → Run (List ℕ)
port_string port =
    let s = decimal 10 port in if ltb (length s) 6 then ok s else fault Fault.out_of_bounds

abbrev pow10 : ℕ → ℕ
pow10 zero = 1
pow10 (suc j) = 10 * pow10 j

-- the first that there is
abbrev or_else {ℓ} : {A : Type ℓ} → Option A → Option A → Option A
or_else none b = b
or_else (some a) b = some a

abbrev first {ℓ} : {A : Type ℓ} → List (Option A) → Option A
first [] = none
first (a ∷ rest) = or_else a (first rest)

module _ (net : Network) where
  -- the body of the `for`, on what socket gives; `next` is the loop on the next addresses
  unfoldable pub try_address :
      (Descriptors → Option ℕ × Descriptors)
      → Address
      → Descriptors
      → Option ℕ
      → Option ℕ × Descriptors
  try_address next a fds none = next fds
  try_address next a fds (some fd) =
      let rest = next (close fd (fd ∷ fds)) in
      if net.connect fd a then (some fd, fd ∷ fds) else rest

  -- the `for`: the descriptor that is connected, or `none` at the end of the addresses
  unfoldable pub connect_loop : List Address → Descriptors → Option ℕ × Descriptors
  unfolding try_address
  connect_loop [] fds = (none, fds)
  connect_loop (a ∷ rest) fds = try_address (connect_loop rest) a fds (net.socket fds a)

  -- What follows the loop: the error number, `client->fd`, and the open descriptors.
  abbrev pub set_fd : Option ℕ × Descriptors → ℕ × Option ℕ × Descriptors
  set_fd (none, fds) = (eai_noname, none, fds)
  set_fd (some fd, fds) = (0, some fd, fds)

  -- what follows the call of getaddrinfo
  unfoldable pub connect_targets : ℕ → List Address → Descriptors → ℕ × Option ℕ × Descriptors
  unfolding connect_loop
  connect_targets err target fds =
      let connected = set_fd (connect_loop target fds) in
      if err == 0 then connected else (err, none, fds)

  unfoldable pub connect_hostname :
      Option ℕ → List ℕ → ℕ → Descriptors → Run (ℕ × Option ℕ × Descriptors)
  unfolding connect_targets
  connect_hostname fd hostname port fds = do
    let fds' = close_if fd fds
    port_str ← port_string port
    let (err, target) = net.getaddrinfo hostname port_str hints
    ok (connect_targets err target fds')

  -- what an address comes to: a descriptor that is connected, or none
  abbrev tried : Address → Option ℕ → Option ℕ
  tried a none = none
  tried a (some fd) = if net.connect fd a then some fd else none

  abbrev attempt : Descriptors → Address → Option ℕ
  attempt fds a = tried a (net.socket fds a)

  -- the specification: the answer of the first address that connects
  abbrev pub connected_to : List Address → Descriptors → Option ℕ
  connected_to target fds = first (map (attempt fds) target)

  -- with the descriptor, if there is one, open
  abbrev pub holding : Option ℕ → Descriptors → Option ℕ × Descriptors
  holding none fds = (none, fds)
  holding (some fd) fds = (some fd, fd ∷ fds)

  try_address_first :
      (a : Address) (rest : List Address) (fds : Descriptors) (o : Option ℕ)
      → ((f : Descriptors) → connect_loop rest f ≡ holding (connected_to rest f) f)
      → try_address (connect_loop rest) a fds o
        ≡ holding (or_else (tried a o) (connected_to rest fds)) fds
  unfolding try_address
  try_address_first a rest fds none h = h fds
  try_address_first a rest fds (some fd) h = elim (Bool-cases (net.connect fd a)) [
    | inl joined ↦ rw joined
    | inr refused ↦ let same : (fd == fd) ≡ true = ground arith in rw (refused, same) (h fds)
  ]

  connect_loop_first :
      (target : List Address) (fds : Descriptors)
      → connect_loop target fds ≡ holding (connected_to target fds) fds
  unfolding connect_loop
  connect_loop_first [] fds = refl
  connect_loop_first (a ∷ rest) fds =
      try_address_first a rest fds (net.socket fds a) (λ f. connect_loop_first rest f)

  -- what the call gives, by the error of the resolver and by the address that connects
  abbrev pub outcome : ℕ → Option ℕ → Descriptors → ℕ × Option ℕ × Descriptors
  outcome err none fds = (if err == 0 then eai_noname else err, none, fds)
  outcome err (some fd) fds = if err == 0 then (0, some fd, fd ∷ fds) else (err, none, fds)

  found_outcome :
      (err : ℕ) (found : Option ℕ) (fds : Descriptors)
      → (if err == 0 then set_fd (holding found fds) else (err, none, fds)) ≡ outcome err found fds
  found_outcome err none fds = elim (Bool-cases (err == 0)) [
    | inl fine ↦ rw fine
    | inr bad ↦ rw bad
  ]
  found_outcome err (some fd) fds = refl

  targets_outcome :
      (err : ℕ) (target : List Address) (fds : Descriptors)
      → connect_targets err target fds ≡ outcome err (connected_to target fds) fds
  unfolding connect_targets
  targets_outcome err target fds =
      ap (λ found. if err == 0 then set_fd found else (err, none, fds))
        (connect_loop_first target fds)
      ∙ found_outcome err (connected_to target fds) fds

  length-decimal : (k j n : ℕ) → n < pow10 (suc j) → length (decimal k n) ≤ suc j
  unfolding decimal
  length-decimal zero j n h = omega arith
  length-decimal (suc k) zero n h = let one : ltb n 10 ≡ true = ground arith in rw one (omega arith)
  length-decimal (suc k) (suc j) n h = elim (Bool-cases (ltb n 10)) [
    | inl one ↦ rw one (omega arith)
    | inr more ↦
        let rest = length-decimal k j (n / 10) (omega arith) in
        rw more (omega (arith, rest, length-append (decimal k (n / 10)) ((48 + n % 10) ∷ [])))
  ]

  -- For a port of at most five digits, connect_hostname closes the socket that the client had, asks
  -- for the addresses of the host name and the port's decimal digits, and gives the error of the
  -- resolver; or else the client holds the socket of the first address that connects, and every other
  -- that was opened for it is closed; or else the error is EAI_NONAME. The socket that it holds is the
  -- only one that is then open besides those before.
  pub connect_hostname_first :
      (fd : Option ℕ) (hostname : List ℕ) (port : ℕ) (fds : Descriptors)
      → port < 100_000
      → let (err, target) = net.getaddrinfo hostname (decimal 10 port) hints in
        connect_hostname fd hostname port fds
        ≡ ok (outcome err (connected_to target (close_if fd fds)) (close_if fd fds))
  unfolding connect_hostname
  connect_hostname_first fd hostname port fds small =
      let five : length (decimal 10 port) ≤ 5 = length-decimal 10 4 port (omega arith) in
      let fits : ltb (length (decimal 10 port)) 6 ≡ true = ground arith in
      rw (fits, ◌>>=◌)
        (ap ok (
          targets_outcome (net.getaddrinfo hostname (decimal 10 port) hints).0
            (net.getaddrinfo hostname (decimal 10 port) hints).1 (close_if fd fds)))
