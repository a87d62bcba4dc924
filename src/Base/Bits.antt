-- ===== src/Base/Bits.antt =====
-- Single bits of a machine word: what `|`, `&`, `1 << k` and `~` do to them, at every width.
use Prim.Native.Nat.{
  ℕ, zero, suc, ◌+◌, ◌-◌, ◌*◌, ◌/◌, ◌%◌, ◌^◌, ◌≤◌, ◌<◌, min, max, digits, bitwise, bit_and, bit_or,
  bit_xor, differ, bit_and-bitwise, bit_or-bitwise, bit_xor-bitwise,
}
use mathlib.Core.Path.{◌≡◌, refl, ap}
use mathlib.Core.Logic.{◌≢◌}
use native.Mathlib.Nat.{le_refl, pow-suc}
use native.Mathlib.Omega.{arith}

module _ (z : ℕ → ℕ) (f : ℕ → ℕ → ℕ) where
  digits_enough : (n m a b : ℕ) → a ≤ n → a ≤ m → digits z f n a b ≡ digits z f m a b
  digits_enough zero zero a b p q = refl
  digits_enough zero (suc m) zero b p q = refl
  digits_enough zero (suc m) (suc a) b p q = absurd (omega arith)
  digits_enough (suc n) zero zero b p q = refl
  digits_enough (suc n) zero (suc a) b p q = absurd (omega arith)
  digits_enough (suc n) (suc m) zero b p q = refl
  digits_enough (suc n) (suc m) (suc a) b p q =
      rw (digits_enough n m (suc a / 2) (b / 2) (omega arith) (omega arith))

  bitwise_halve :
      (a b : ℕ)
      → bitwise z f (suc a) b ≡ bitwise z f (suc a / 2) (b / 2) * 2 + f (suc a % 2) (b % 2)
  bitwise_halve a b =
      omega (arith, digits_enough a (suc a / 2) (suc a / 2) (b / 2) (omega arith) (le_refl _))

pub or_halve : (a b : ℕ) → bit_or a b ≡ bit_or (a / 2) (b / 2) * 2 + max (a % 2) (b % 2)
or_halve zero b = simp bit_or-bitwise (omega arith)
or_halve (suc a) b = simp bit_or-bitwise (bitwise_halve (λ y. y) max a b)

pub xor_halve : (a b : ℕ) → bit_xor a b ≡ bit_xor (a / 2) (b / 2) * 2 + differ (a % 2) (b % 2)
xor_halve zero b = simp bit_xor-bitwise (ground (arith))
xor_halve (suc a) b = simp bit_xor-bitwise (bitwise_halve (λ y. y) differ a b)

pub and_halve : (a b : ℕ) → bit_and a b ≡ bit_and (a / 2) (b / 2) * 2 + min (a % 2) (b % 2)
and_halve zero b = simp bit_and-bitwise (omega arith)
and_halve (suc a) b = simp bit_and-bitwise (bitwise_halve (λ y. 0) min a b)

-- Bit `k` of `w`, as 0 or 1.
unfoldable pub bit_at : ℕ → ℕ → ℕ
bit_at zero w = w % 2
bit_at (suc k) w = bit_at k (w / 2)

pub bit_at-lt : (k w : ℕ) → bit_at k w < 2
unfolding bit_at
bit_at-lt zero w = omega arith
bit_at-lt (suc k) w = bit_at-lt k (w / 2)

or_half : (a b : ℕ) → bit_or a b / 2 ≡ bit_or (a / 2) (b / 2)
or_half a b = omega (arith, or_halve a b)

and_half : (a b : ℕ) → bit_and a b / 2 ≡ bit_and (a / 2) (b / 2)
and_half a b = omega (arith, and_halve a b)

pub bit_at-or : (k a b : ℕ) → bit_at k (bit_or a b) ≡ max (bit_at k a) (bit_at k b)
unfolding bit_at
bit_at-or zero a b = omega (arith, or_halve a b)
bit_at-or (suc k) a b = rw (or_half a b) (bit_at-or k (a / 2) (b / 2))

pub bit_at-and : (k a b : ℕ) → bit_at k (bit_and a b) ≡ min (bit_at k a) (bit_at k b)
unfolding bit_at
bit_at-and zero a b = omega (arith, and_halve a b)
bit_at-and (suc k) a b = rw (and_half a b) (bit_at-and k (a / 2) (b / 2))

pow_half : (k : ℕ) → 2 ^ suc k / 2 ≡ 2 ^ k
pow_half k = omega (arith, pow-suc 2 k)

bit_at-zero : (k : ℕ) → bit_at k 0 ≡ 0
unfolding bit_at
bit_at-zero zero = refl
bit_at-zero (suc k) = bit_at-zero k

pub bit_at-pow_self : (k : ℕ) → bit_at k (2 ^ k) ≡ 1
unfolding bit_at
bit_at-pow_self zero = refl
bit_at-pow_self (suc k) = rw (pow_half k) (bit_at-pow_self k)

pub bit_at-pow_ne : (j k : ℕ) → j ≢ k → bit_at j (2 ^ k) ≡ 0
unfolding bit_at
bit_at-pow_ne zero zero h = absurd (h refl)
bit_at-pow_ne zero (suc k) h = omega (arith, pow-suc 2 k)
bit_at-pow_ne (suc j) zero h = bit_at-zero j
bit_at-pow_ne (suc j) (suc k) h = rw (pow_half k) (bit_at-pow_ne j k (λ e. h (ap suc e)))

-- `~x` in a word of `n` bits.
abbrev pub complement : ℕ → ℕ → ℕ
complement n x = 2 ^ n - 1 - x

pub bit_at-complement : (j n x : ℕ) → j < n → x < 2 ^ n → bit_at j (complement n x) ≡ 1 - bit_at j x
unfolding bit_at
bit_at-complement j zero x h fits = elim h [ ]
bit_at-complement zero (suc n) x h fits = omega (arith, pow-suc 2 n)
bit_at-complement (suc j) (suc n) x h fits =
    let halved : complement (suc n) x / 2 ≡ complement n (x / 2) = omega (arith, pow-suc 2 n) in
    rw halved (bit_at-complement j n (x / 2) (omega arith) (omega (arith, pow-suc 2 n)))

pub and-zero : (k a : ℕ) → a ≤ k → bit_and a 0 ≡ 0
and-zero k zero h = refl
and-zero zero (suc a) h = absurd (omega arith)
and-zero (suc k) (suc a) h =
    omega (arith, and_halve (suc a) 0, and-zero k (suc a / 2) (omega arith))

-- `w & (1 << k)` is nonzero exactly when bit `k` is set.
pub and_pow : (k w : ℕ) → bit_and w (2 ^ k) ≡ bit_at k w * 2 ^ k
unfolding bit_at
and_pow zero w = omega (arith, and_halve w 1, and-zero (w / 2) (w / 2) (le_refl _))
and_pow (suc k) w = omega (
  arith,
  and_halve w (2 ^ suc k),
  pow-suc 2 k,
  ap (bit_and (w / 2)) (pow_half k),
  and_pow k (w / 2),
  ap (λ (t : ℕ). bit_at k (w / 2) * t) (pow-suc 2 k),
)
