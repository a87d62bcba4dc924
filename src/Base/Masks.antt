-- ===== src/Base/Masks.antt =====
-- Masks: `&` with low bits or with one bit, and `|` of numbers that have no bit in common.
use Prim.Native.Nat.{
  ℕ, zero, suc, ◌+◌, ◌-◌, ◌*◌, ◌/◌, ◌%◌, ◌^◌, ◌≤◌, ◌<◌, bit_and, bit_or, bit_xor, differ,
}
use mathlib.Core.Path.{◌≡◌, refl, ap, sym, ◌∙◌}
use native.Mathlib.Nat.{
  pow-suc, pow-succ', one-le-pow, div-div-eq-div-mul, mul-add-mod_self_right, mod-eq_of_lt,
  div-add-mod, mod-lt, mul_assoc,
}
use native.Mathlib.Omega.{arith}
use osproject.Base.Bits.{and_halve, or_halve, xor_halve, and-zero, bit_at}

pub mod_unique : (m q r : ℕ) → r < m → (q * m + r) % m ≡ r
mod_unique m q r h = mul-add-mod_self_right q m r ∙ mod-eq_of_lt h

-- The lowest bit of a remainder by an even number, and the rest.
pub mod_double : (n x : ℕ) → 0 < n → x % (n * 2) ≡ x % 2 + 2 * (x / 2 % n)
mod_double n x h =
    let small : x / 2 % n < n = mod-lt (x / 2) h in
    let parts : x ≡ x / 2 / n * (n * 2) + (x % 2 + 2 * (x / 2 % n)) =
      grind (arith, div-add-mod (x / 2) n) in
    ap (λ y. y % (n * 2)) parts ∙ mod_unique (n * 2) (x / 2 / n) _ (omega arith)

pub and_low : (k x : ℕ) → bit_and x (2 ^ k - 1) ≡ x % 2 ^ k
and_low zero x = omega (arith, and-zero x x)
and_low (suc k) x =
    let p : 2 ^ suc k ≡ 2 ^ k * 2 = pow-suc 2 k in
    let one : 1 ≤ 2 ^ k = one-le-pow k 2 (omega arith) in
    let e : (2 ^ suc k - 1) / 2 ≡ 2 ^ k - 1 = omega arith in
    omega (
      arith,
      and_halve x (2 ^ suc k - 1),
      ap (bit_and (x / 2)) e,
      and_low k (x / 2),
      mod_double (2 ^ k) x one,
      ap (λ m. x % m) p,
    )

pub bit_at-div : (k w : ℕ) → bit_at k w ≡ w / 2 ^ k % 2
unfolding bit_at
bit_at-div zero w = omega arith
bit_at-div (suc k) w =
    bit_at-div k (w / 2)
    ∙ ap (λ q. q % 2) (div-div-eq-div-mul w 2 (2 ^ k) ∙ ap (λ m. w / m) (sym (pow-succ' 2 k)))

or_zero : (k y : ℕ) → y ≤ k → bit_or y 0 ≡ y
or_zero k zero h = refl
or_zero zero (suc y) h = absurd (omega arith)
or_zero (suc k) (suc y) h = omega (arith, or_halve (suc y) 0, or_zero k (suc y / 2) (omega arith))

-- `x` shifted to the left, and a number of the bits that this has freed.
pub or_add : (k x y : ℕ) → y < 2 ^ k → bit_or (x * 2 ^ k) y ≡ x * 2 ^ k + y
or_add zero x zero h = or_zero (x * 1) (x * 1) (omega arith) ∙ omega arith
or_add zero x (suc y) h = absurd (omega arith)
or_add (suc k) x y h =
    let p : x * 2 ^ suc k ≡ x * 2 ^ k * 2 =
      ap (λ m. x * m) (pow-suc 2 k) ∙ sym (mul_assoc x (2 ^ k) 2) in
    let half : x * 2 ^ suc k / 2 ≡ x * 2 ^ k = omega arith in
    omega (
      arith,
      or_halve (x * 2 ^ suc k) y,
      ap (λ z. bit_or z (y / 2)) half,
      or_add k x (y / 2) (omega (arith, pow-suc 2 k)),
    )

differ-bits : (a b : ℕ) → a < 2 → b < 2 → differ a b ≡ (a + b) % 2
differ-bits zero b ha hb = omega arith
differ-bits (suc zero) zero ha hb = refl
differ-bits (suc zero) (suc zero) ha hb = refl
differ-bits (suc zero) (suc (suc b)) ha hb = absurd (omega arith)
differ-bits (suc (suc a)) b ha hb = absurd (omega arith)

xor_parts : (a b : ℕ) → bit_xor a b ≡ bit_xor (a / 2) (b / 2) * 2 + (a + b) % 2
xor_parts a b =
    omega (arith, xor_halve a b, differ-bits (a % 2) (b % 2) (omega arith) (omega arith))

xor_half : (a b : ℕ) → bit_xor a b / 2 ≡ bit_xor (a / 2) (b / 2)
xor_half a b = omega (arith, xor_parts a b)

pub bit_at-xor : (k a b : ℕ) → bit_at k (bit_xor a b) ≡ (bit_at k a + bit_at k b) % 2
unfolding bit_at
bit_at-xor zero a b = omega (arith, xor_parts a b)
bit_at-xor (suc k) a b = rw (xor_half a b) (bit_at-xor k (a / 2) (b / 2))

pub xor-lt : (k a b : ℕ) → a < 2 ^ k → b < 2 ^ k → bit_xor a b < 2 ^ k
xor-lt zero zero zero ha hb = omega arith
xor-lt zero zero (suc b) ha hb = absurd (omega arith)
xor-lt zero (suc a) b ha hb = absurd (omega arith)
xor-lt (suc k) a b ha hb = omega (
  arith,
  xor_parts a b,
  pow-suc 2 k,
  xor-lt k (a / 2) (b / 2) (omega (arith, pow-suc 2 k)) (omega (arith, pow-suc 2 k)),
)

or_self : (k a : ℕ) → a ≤ k → bit_or a a ≡ a
or_self k zero h = refl
or_self zero (suc a) h = absurd (omega arith)
or_self (suc k) (suc a) h =
    omega (arith, or_halve (suc a) (suc a), or_self k (suc a / 2) (omega arith))

pub or_idem : (a : ℕ) → bit_or a a ≡ a
or_idem a = or_self a a (omega arith)

or_comm_to : (k a b : ℕ) → a ≤ k → b ≤ k → bit_or a b ≡ bit_or b a
or_comm_to k zero zero ha hb = refl
or_comm_to zero (suc a) b ha hb = absurd (omega arith)
or_comm_to zero a (suc b) ha hb = absurd (omega arith)
or_comm_to (suc k) a b ha hb =
    omega
      (arith, or_halve a b, or_halve b a, or_comm_to k (a / 2) (b / 2) (omega arith) (omega arith))

pub or_comm : (a b : ℕ) → bit_or a b ≡ bit_or b a
or_comm a b = or_comm_to (a + b) a b (omega arith) (omega arith)
