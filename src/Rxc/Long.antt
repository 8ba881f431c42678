-- ===== src/Rxc/Long.antt =====
-- The C type `long` of 64 bits, as its bit pattern: a number from 2 ^ 63 up is negative. A sum wraps
-- (the code relies on that, though C leaves the overflow of a signed sum undefined).
use sas.Base.{ℕ, ◌-◌, ◌^◌, Bool, ltb, leb, ◌&&◌}
use sas.Base.Words.{add64}

abbrev pub long_max : ℕ
long_max = 2 ^ 63 - 1

abbrev pub long_min : ℕ
long_min = 2 ^ 63

-- `x < 0` and `x > 0`
abbrev pub is_negative : ℕ → Bool
is_negative x = leb long_min x

abbrev pub is_positive : ℕ → Bool
is_positive x = ltb 0 x && ltb x long_min

-- The place of a value in the order of the type, from 0 for LONG_MIN.
abbrev pub rank : ℕ → ℕ
rank x = add64 x long_min
