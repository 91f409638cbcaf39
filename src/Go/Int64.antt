-- ===== src/Go/Int64.antt =====
-- `int` and `int64`, a number of 64 bits with its sign in the top one.
use m3_repoworker.Prelude.{ℕ, ◌+◌, ◌-◌, ◌%◌, ◌<◌, ◌≤◌, ◌≡◌, Bool, ltb, arith}

abbrev modulus : ℕ
modulus = 18446744073709551616

abbrev pub half : ℕ
half = 9223372036854775808

unfoldable pub add : ℕ → ℕ → ℕ
add a b = (a + b) % modulus

unfoldable pub sub : ℕ → ℕ → ℕ
sub a b = (a + (modulus - b)) % modulus

-- `a < b`, with the sign.
unfoldable pub less : ℕ → ℕ → Bool
less a b = ltb ((a + half) % modulus) ((b + half) % modulus)

-- Half of what is not negative, so that two of them have a sum that does not wrap.
abbrev pub quarter : ℕ
quarter = 4611686018427387904

pub add_small : (a b : ℕ) → a < quarter → b < quarter → add a b ≡ a + b
unfolding add
add_small a b h k = omega (arith, h, k)

pub sub_small : (a b : ℕ) → a < half → b ≤ a → sub a b ≡ a - b
unfolding sub
sub_small a b h k = omega (arith, h, k)

pub less_small : (a b : ℕ) → a < half → b < half → less a b ≡ ltb a b
unfolding less
less_small a b h k =
    let left : (a + half) % modulus ≡ a + half = omega (arith, h) in
    let right : (b + half) % modulus ≡ b + half = omega (arith, k) in
    rw left (rw right (ground arith))
