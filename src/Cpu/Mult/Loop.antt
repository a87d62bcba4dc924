-- ===== src/Cpu/Mult/Loop.antt =====
-- The loop of `Mult` computes a product of 64 bits.
use Prim.Native.Nat.{bit_and, bit_or}
use native.Mathlib.Nat.{
  pow-suc, one-le-pow, add-mul-mod_self_right, mod-add-mod, add-mul-mod_self_left, div-add-mod,
  mod-eq_of_lt,
}
use osproject.Base.{
  ℕ, zero, suc, ◌+◌, ◌-◌, ◌*◌, ◌/◌, ◌%◌, ◌^◌, ◌≤◌, ◌<◌, ◌≡◌, refl, sym, ap, ap₂, ◌∙◌, inl, inr, not,
  ◌==◌, ltb, leb, arith, Bool-cases,
}
use osproject.Base.Masks.{and_low, bit_at-div, or_add, mod_double}
use osproject.Base.Bits.{and_pow, and_halve}
use osproject.Cpu.Word.{word_mod, sign_bit, add32, shl32, sar32, sign_set, negative}
use osproject.Cpu.Mult.{mult_loop, next_b_hi, sum_hi}

abbrev pub double_mod : ℕ
double_mod = 18446744073709551616

-- The number of a double word.
abbrev pub double : ℕ → ℕ → ℕ
double hi lo = hi * word_mod + lo

pub sign_set_lem : (w : ℕ) → w < word_mod → sign_set w ≡ leb sign_bit w
sign_set_lem w h =
    let e : bit_and w sign_bit ≡ w / sign_bit % 2 * sign_bit =
      and_pow 31 w ∙ ap (λ b. b * sign_bit) (bit_at-div 31 w) in
    ground (arith, e)

pub odd_lem : (a : ℕ) → not (bit_and a 1 == 0) ≡ (a % 2 == 1)
odd_lem a = ground (arith, and_low 1 a)

or_one : (b : ℕ) → bit_or (shl32 b 1) 1 ≡ shl32 b 1 + 1
or_one b =
    let even : shl32 b 1 ≡ b % sign_bit * 2 = omega arith in
    ap (λ x. bit_or x 1) even ∙ or_add 1 (b % sign_bit) 1 (omega arith) ∙ omega arith

next_b_lem :
    (b_lo b_hi : ℕ)
    → b_lo < word_mod
    → b_hi < word_mod
    → (double (next_b_hi b_lo b_hi) (shl32 b_lo 1) ≡ 2 * double b_hi b_lo % double_mod)
      × (next_b_hi b_lo b_hi < word_mod)
next_b_lem b_lo b_hi hl hh =
    rw (sign_set_lem b_lo hl, or_one b_hi)
      (elim (Bool-cases (leb sign_bit b_lo)) [
        | inl top ↦ let big : sign_bit ≤ b_lo = ground arith in rw top (omega arith, omega arith)
        | inr low ↦ let small : b_lo < sign_bit = ground arith in rw low (omega arith, omega arith)
      ])

sum_lem :
    (b_lo b_hi lo hi : ℕ)
    → b_lo < word_mod
    → b_hi < word_mod
    → lo < word_mod
    → hi < word_mod
    → double (sum_hi b_lo b_hi (add32 lo b_lo) hi) (add32 lo b_lo)
      ≡ (double hi lo + double b_hi b_lo) % double_mod
sum_lem b_lo b_hi lo hi h1 h2 h3 h4 = elim (Bool-cases (ltb (add32 lo b_lo) b_lo)) [
  | inl carry ↦ let c : add32 lo b_lo < b_lo = ground arith in rw carry (omega arith)
  | inr none_carried ↦ let c : b_lo ≤ add32 lo b_lo = ground arith in rw none_carried (omega arith)
]

pow_add : (m n : ℕ) → 2 ^ m * 2 ^ n ≡ 2 ^ (m + n)
pow_add zero n = let none_more : n ≡ 0 + n = omega arith in omega (arith, ap (λ k. 2 ^ k) none_more)
pow_add (suc m) n =
    let more : suc (m + n) ≡ suc m + n = omega arith in
    grind (arith, pow-suc 2 m, pow-suc 2 (m + n), pow_add m n, ap (λ k. 2 ^ k) more)

high_bit : (n x : ℕ) → n < 32 → (x + sign_bit) % 2 ^ n ≡ x % 2 ^ n
high_bit n x h =
    let exponent : 31 - n + n ≡ 31 = omega arith in
    let e : 2 ^ (31 - n) * 2 ^ n ≡ sign_bit = pow_add (31 - n) n ∙ ap (λ k. 2 ^ k) exponent in
    ap (λ y. (x + y) % 2 ^ n) (sym e) ∙ add-mul-mod_self_right x (2 ^ (31 - n)) (2 ^ n)

sar_low : (n a : ℕ) → n < 32 → a < word_mod → sar32 a 1 % 2 ^ n ≡ a / 2 % 2 ^ n
sar_low n a h fits = elim (Bool-cases (negative a)) [
  | inl neg ↦
      let big : sign_bit ≤ a = ground arith in
      let e : 4294967295 - (4294967295 - a) / 2 ≡ a / 2 + sign_bit = omega arith in
      rw neg (ap (λ y. y % 2 ^ n) e ∙ high_bit n (a / 2) h)
  | inr nonneg ↦ rw nonneg refl
]

-- The bit that is looked at, and those that are left.
step_lem : (n a : ℕ) → n < 32 → a < word_mod → a % 2 ^ suc n ≡ a % 2 + 2 * (sar32 a 1 % 2 ^ n)
step_lem n a h fits =
    ap (λ m. a % m) (pow-suc 2 n)
    ∙ mod_double (2 ^ n) a (one-le-pow n 2 (omega arith))
    ∙ ap (λ y. a % 2 + 2 * y) (sym (sar_low n a h fits))

sar-lt : (a : ℕ) → a < word_mod → sar32 a 1 < word_mod
sar-lt a h = ground arith

last_lem : (a : ℕ) → a < word_mod → (bit_and a 4294967294 == 0) ≡ ltb a 2
last_lem a h =
    let e : bit_and a 4294967294 ≡ 2 * (a / 2) =
      omega (arith, and_halve a 4294967294, and_low 31 (a / 2)) in
    ground (arith, e)

mod_inside : (m r x q : ℕ) → (r + x % m * q) % m ≡ (r + x * q) % m
mod_inside m r x q =
    let e : r + x * q ≡ r + x % m * q + m * (x / m * q) = grind (arith, div-add-mod x m) in
    sym (ap (λ y. y % m) e ∙ add-mul-mod_self_left (r + x % m * q) m (x / m * q))

-- One bit of `a` and the rest of it.
mod_step : (m r b c q : ℕ) → ((r + b * c) % m + 2 * b % m * q) % m ≡ (r + b * (c + 2 * q)) % m
mod_step m r b c q =
    let e : r + b * c + 2 * b * q ≡ r + b * (c + 2 * q) = grind arith in
    mod-add-mod (r + b * c) m (2 * b % m * q)
    ∙ mod_inside m (r + b * c) (2 * b) q
    ∙ ap (λ y. y % m) e

low_one : (n a : ℕ) → a ≡ 1 → a % 2 ^ suc n ≡ 1
low_one n a e =
    let big : 1 < 2 ^ suc n = omega (arith, pow-suc 2 n, one-le-pow n 2 (omega arith)) in
    ap (λ x. x % 2 ^ suc n) e ∙ mod-eq_of_lt big

-- A pair of words that represents a number modulo 2 ^ 64.
abbrev pub Represents : ℕ × ℕ → ℕ → Type 0
Represents (hi, lo) value = (double hi lo ≡ value % double_mod) × (hi < word_mod) × (lo < word_mod)

-- A round of the loop, after which (hi', lo') has the product with bit `c` of `a` added.
round_lem :
    (n a b_lo b_hi r r' c : ℕ) (result : ℕ × ℕ)
    → n < 32
    → a < word_mod
    → b_lo < word_mod
    → b_hi < word_mod
    → a % 2 ≡ c
    → r' ≡ (r + double b_hi b_lo * c) % double_mod
    → Represents result (r' + double (next_b_hi b_lo b_hi) (shl32 b_lo 1) * (sar32 a 1 % 2 ^ n))
    → Represents result (r + double b_hi b_lo * (a % 2 ^ suc n))
round_lem n a b_lo b_hi r r' c result few ha h1 h2 bit added (e, small_hi, small_lo) =
    let b = double b_hi b_lo in
    let q = sar32 a 1 % 2 ^ n in
    let split : a % 2 ^ suc n ≡ c + 2 * q = step_lem n a few ha ∙ ap (λ x. x + 2 * q) bit in
    (
      e
          ∙ ap₂ (λ x y. (x + y * q) % double_mod) added (next_b_lem b_lo b_hi h1 h2).0
          ∙ mod_step double_mod r b c q
          ∙ ap (λ x. (r + b * x) % double_mod) (sym split),
      small_hi,
      small_lo,
    )

-- What the loop adds to the double word (hi, lo): the lowest `n` bits of `a` times the double word
-- of `b`.
pub mult_loop_lem :
    (n a b_lo b_hi lo hi : ℕ)
    → n ≤ 32
    → a < word_mod
    → b_lo < word_mod
    → b_hi < word_mod
    → lo < word_mod
    → hi < word_mod
    → Represents (mult_loop n a b_lo b_hi lo hi) (double hi lo + double b_hi b_lo * (a % 2 ^ n))
unfolding mult_loop
mult_loop_lem zero a b_lo b_hi lo hi few ha h1 h2 h3 h4 =
    let e : double hi lo + double b_hi b_lo * (a % 1) ≡ double hi lo = grind arith in
    (rw e (omega arith), h4, h3)
mult_loop_lem (suc n) a b_lo b_hi lo hi few ha h1 h2 h3 h4 =
    let (_, next_small) = next_b_lem b_lo b_hi h1 h2 in
    let rest = λ (lo' : ℕ) (hi' : ℕ).
      mult_loop_lem n (sar32 a 1) (shl32 b_lo 1) (next_b_hi b_lo b_hi) lo' hi' (omega arith)
        (sar-lt a ha) (omega arith) next_small in
    let sum = sum_lem b_lo b_hi lo hi h1 h2 h3 h4 in
    let round = round_lem n a b_lo b_hi (double hi lo) in
    elim (Bool-cases (a % 2 == 1)) [
      | inl odd ↦
          let bit : a % 2 ≡ 1 = ground arith in
          let added : double (sum_hi b_lo b_hi (add32 lo b_lo) hi) (add32 lo b_lo)
              ≡ (double hi lo + double b_hi b_lo * 1) % double_mod =
            sum ∙ ap (λ x. (double hi lo + x) % double_mod) (omega arith) in
          elim (Bool-cases (ltb a 2)) [
            | inl last ↦
                let one : a ≡ 1 = ground arith in
                let low : a % 2 ^ suc n ≡ 1 = low_one n a one in
                rw (odd_lem a, odd, last_lem a ha, last, low) (added, omega arith, omega arith)
            | inr more ↦
                rw (odd_lem a, odd, last_lem a ha, more)
                  (round _ 1 _ (omega arith) ha h1 h2 bit added (
                    rest (add32 lo b_lo) (sum_hi b_lo b_hi (add32 lo b_lo) hi) (omega arith)
                      (omega arith)))
          ]
      | inr even ↦
          let bit : a % 2 ≡ 0 = ground arith in
          rw (odd_lem a, even)
            (round _ 0 _ (omega arith) ha h1 h2 bit (omega arith) (rest lo hi h3 h4))
    ]
