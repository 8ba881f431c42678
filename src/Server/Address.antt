-- ===== src/Server/Address.antt =====
-- The hash and the comparison of client addresses in sas-server/src/session.c.
use sas.Base.{
  ℕ, ◌+◌, ◌-◌, ◌*◌, ◌≡◌, refl, Bool, true, false, List, [], ◌∷◌, ◌++◌, ltb, ◌==◌, ◌&&◌,
  if◌then◌else◌, arith,
}
use sas.Base.Words.{u64_mod, add64}
use sas.Transport.Wire.{network16}

-- `struct sockaddr_in6`, as far as the server reads it: the bytes of the address, and the port,
-- which memory holds in network order.
pub record Addr : Type 0 where
  pub ip : List ℕ
  pub port : ℕ

-- `bytes[i]` as an unsigned long: `char` is signed, so a byte from 128 up stands for a negative
-- number.
unfoldable pub char_value : ℕ → ℕ
char_value b = if ltb b 128 then b else u64_mod - 256 + b

-- `hash = ((hash << 5) + hash) + bytes[i]`
unfoldable pub djb2 : ℕ → List ℕ → ℕ
unfolding char_value
djb2 hash [] = hash
djb2 hash (b ∷ bytes) = djb2 (add64 (add64 (hash * 32) hash) (char_value b)) bytes

unfoldable pub addr_hash : Addr → ℕ
unfolding djb2
addr_hash addr = djb2 5381 (addr.ip ++ network16 addr.port)

-- whether memcmp gives 0
unfoldable pub same_bytes : List ℕ → List ℕ → Bool
same_bytes [] [] = true
same_bytes [] (y ∷ ys) = false
same_bytes (x ∷ xs) [] = false
same_bytes (x ∷ xs) (y ∷ ys) = x == y && same_bytes xs ys

-- Whether the result of `addr_eq` is not 0, which is how its callers read it: where memcmp finds a
-- difference, its result is returned.
unfoldable pub addr_eq : Addr → Addr → Bool
addr_eq a b = if same_bytes a.ip b.ip then a.port == b.port else true

same_bytes_refl : (xs : List ℕ) → same_bytes xs xs ≡ true
unfolding same_bytes
same_bytes_refl [] = refl
same_bytes_refl (x ∷ xs) = ground (arith, same_bytes_refl xs)

pub addr_eq_refl : (a : Addr) → addr_eq a a ≡ true
unfolding addr_eq
addr_eq_refl a = ground (arith, same_bytes_refl a.ip)
