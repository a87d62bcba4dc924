-- ===== src/Cpu/Mult/Laws.antt =====
-- What `Mult` computes, against exact products.
use native.Mathlib.Nat.{mod-eq_of_lt}
use osproject.Base.{
  ℕ, ◌+◌, ◌-◌, ◌*◌, ◌%◌, ◌^◌, ◌≤◌, ◌<◌, ◌≡◌, refl, ap, ◌∙◌, inl, inr, Bool, true, false, not, ◌&&◌,
  ◌||◌, if◌then◌else◌, ◌==◌, ltb, arith, Bool-cases,
}
use osproject.Base.Int.{ℤ, pos, negsuc, ◌*ℤ◌, sub_ℕ, pos_part, neg_part}
use osproject.Cpu.Word.{word_mod, sign_bit, neg32, negative, signed, abs32}
use osproject.Cpu.Mult.{mult, mult_loop, negated}
use osproject.Cpu.Mult.Loop.{double, double_mod, mult_loop_lem}

-- A pair of words as a number.
abbrev pub unsigned_double : ℕ × ℕ → ℕ
unsigned_double (hi, lo) = double hi lo

-- A pair of words as a number with a sign.
abbrev pub signed_double : ℕ × ℕ → ℤ
signed_double (hi, lo) =
    if ltb (double hi lo) 9223372036854775808
    then pos (double hi lo)
    else negsuc (double_mod - double hi lo - 1)

product-le : (a b c : ℕ) → a ≤ c → b ≤ c → a * b ≤ c * c
product-le a b c h1 h2 = grind arith

product_mod :
    (a b : ℕ)
    → a < word_mod
    → b < word_mod
    → (double 0 0 + double 0 b * (a % 2 ^ 32)) % double_mod ≡ a * b
product_mod a b ha hb =
    let small : a * b ≤ 4294967295 * 4294967295 =
      product-le a b 4294967295 (omega arith) (omega arith) in
    let low : a % 2 ^ 32 ≡ a = mod-eq_of_lt (omega arith) in
    let e : double 0 0 + double 0 b * (a % 2 ^ 32) ≡ a * b = rw low (grind arith) in
    ap (λ x. x % double_mod) e ∙ mod-eq_of_lt (omega arith)

-- The product of two words that are taken as they are.
loop_product :
    (a b : ℕ)
    → a < word_mod
    → b < word_mod
    → (unsigned_double (mult_loop 32 a b 0 0 0) ≡ a * b)
      × ((mult_loop 32 a b 0 0 0).0 < word_mod)
      × ((mult_loop 32 a b 0 0 0).1 < word_mod)
loop_product a b ha hb =
    let (e, small_hi, small_lo) =
      mult_loop_lem 32 a b 0 0 0 (omega arith) ha hb (omega arith) (omega arith) (omega arith) in
    (e ∙ product_mod a b ha hb, small_hi, small_lo)

zero_or : (a b : ℕ) → ((a == 0) || (b == 0)) ≡ true → a * b ≡ 0
zero_or a b e = elim (Bool-cases (a == 0)) [
  | inl za ↦ let h : a ≡ 0 = ground arith in rw h (grind arith)
  | inr na ↦ let h : b ≡ 0 = ground arith in rw h (grind arith)
]

negated_lem :
    (hi lo : ℕ)
    → hi < word_mod
    → lo < word_mod
    → 0 < double hi lo
    → unsigned_double (negated (hi, lo)) ≡ double_mod - double hi lo
negated_lem hi lo small_hi small_lo positive =
    elim (Bool-cases ((4294967295 - lo + 1) % word_mod == 0)) [
      | inl carry ↦
          let c : (4294967295 - lo + 1) % word_mod ≡ 0 = ground arith in rw carry (omega arith)
      | inr none_carried ↦
          let c : 0 < (4294967295 - lo + 1) % word_mod = ground arith in
          rw none_carried (omega arith)
    ]

mult-unsigned : (a b : ℕ) → a < word_mod → b < word_mod → unsigned_double (mult a b false) ≡ a * b
unfolding mult
mult-unsigned a b ha hb = elim (Bool-cases ((a == 0) || (b == 0))) [
  | inl none_left ↦ rw (none_left, zero_or a b none_left) refl
  | inr both ↦ rw both (loop_product a b ha hb).0
]

abs-le : (a : ℕ) → a < word_mod → abs32 a ≤ sign_bit
abs-le a h = ground arith

-- The sizes of the factors of a signed product.
sized : (a : ℕ) → a < word_mod → (if true && negative a then neg32 a else a) ≡ abs32 a
sized a h = elim (Bool-cases (negative a)) [
  | inl n ↦ let big : sign_bit ≤ a = ground arith in rw n (omega arith)
  | inr p ↦ rw p refl
]

pub parts_of :
    (a : ℕ)
    → a < word_mod
    → (pos_part (signed a) ≡ (if negative a then 0 else abs32 a))
      × (neg_part (signed a) ≡ (if negative a then abs32 a else 0))
parts_of a h = elim (Bool-cases (negative a)) [
  | inl n ↦ let big : ltb a sign_bit ≡ false = ground arith in rw (n, big) (refl, omega arith)
  | inr p ↦ let small : ltb a sign_bit ≡ true = ground arith in rw (p, small) (refl, refl)
]

signed_product :
    (a b : ℕ)
    → a < word_mod
    → b < word_mod
    → signed a *ℤ signed b ≡ (
        if (if negative a then not (negative b) else negative b)
        then sub_ℕ 0 (abs32 a * abs32 b)
        else pos (abs32 a * abs32 b))
unfolding ◌*ℤ◌
signed_product a b ha hb =
    let (pa, na) = parts_of a ha in
    let (pb, nb) = parts_of b hb in
    rw (pa, na, pb, nb)
      (elim (Bool-cases (negative a)) [
        | inl n ↦ elim (Bool-cases (negative b)) [
          | inl m ↦ rw (n, m) (grind arith)
          | inr m ↦ rw (n, m) (grind arith)
        ]
        | inr n ↦ elim (Bool-cases (negative b)) [
          | inl m ↦ rw (n, m) (grind arith)
          | inr m ↦ rw (n, m) (grind arith)
        ]
      ])

sized_signed : ℕ → ℤ
sized_signed x = if ltb x 9223372036854775808 then pos x else negsuc (double_mod - x - 1)

read_double : (p : ℕ × ℕ) (x : ℕ) → unsigned_double p ≡ x → signed_double p ≡ sized_signed x
unfolding sized_signed
read_double (hi, lo) x e = rw e refl

sized-pos : (m : ℕ) → m ≤ sign_bit * sign_bit → sized_signed m ≡ pos m
unfolding sized_signed
sized-pos m h = ground arith

sized-neg : (m : ℕ) → 0 < m → m ≤ sign_bit * sign_bit → sized_signed (double_mod - m) ≡ sub_ℕ 0 m
unfolding sized_signed
sized-neg m positive h = ground arith

zero_sizes : (a b : ℕ) → ((a == 0) || (b == 0)) ≡ true → abs32 a * abs32 b ≡ 0
zero_sizes a b e = elim (Bool-cases (a == 0)) [
  | inl za ↦ let h : a ≡ 0 = ground arith in rw h (grind arith)
  | inr na ↦ let h : b ≡ 0 = ground arith in rw h (grind arith)
]

positive_sizes :
    (a b : ℕ) → a < word_mod → b < word_mod → ((a == 0) || (b == 0)) ≡ false → 0 < abs32 a * abs32 b
positive_sizes a b ha hb e =
    let pa : 0 < abs32 a = ground arith in let pb : 0 < abs32 b = ground arith in grind arith

-- The end of `Mult`: `zero` says that a factor is 0, `differ` that the signs differ.
signed_end :
    (zero_factor differ : Bool) (p : ℕ × ℕ) (m : ℕ)
    → (zero_factor ≡ true → m ≡ 0)
    → (zero_factor ≡ false → 0 < m)
    → unsigned_double p ≡ m
    → p.0 < word_mod
    → p.1 < word_mod
    → m ≤ sign_bit * sign_bit
    → signed_double (if zero_factor then (0, 0) else if differ then negated p else p)
      ≡ (if differ then sub_ℕ 0 m else pos m)
signed_end true true p m zero_size positive e small_hi small_lo small = rw (zero_size refl) refl
signed_end true false p m zero_size positive e small_hi small_lo small = rw (zero_size refl) refl
signed_end false true p m zero_size positive e small_hi small_lo small =
    let above : 0 < m = positive refl in
    let n : unsigned_double (negated p) ≡ double_mod - m =
      negated_lem p.0 p.1 small_hi small_lo (omega (arith, e, above))
      ∙ ap (λ x. double_mod - x) e in
    read_double (negated p) (double_mod - m) n ∙ sized-neg m above small
signed_end false false p m zero_size positive e small_hi small_lo small =
    read_double p m e ∙ sized-pos m small

mult-signed :
    (a b : ℕ) → a < word_mod → b < word_mod → signed_double (mult a b true) ≡ signed a *ℤ signed b
unfolding mult
mult-signed a b ha hb =
    let small : abs32 a * abs32 b ≤ sign_bit * sign_bit =
      product-le (abs32 a) (abs32 b) sign_bit (abs-le a ha) (abs-le b hb) in
    let (e, small_hi, small_lo) =
      loop_product (abs32 a) (abs32 b) (omega (arith, abs-le a ha)) (omega (arith, abs-le b hb)) in
    rw (signed_product a b ha hb, sized a ha, sized b hb)
      (signed_end ((a == 0) || (b == 0)) (if negative a then not (negative b) else negative b) _ _
        (zero_sizes a b) (positive_sizes a b ha hb) e small_hi small_lo small)

-- For two words, the double word that Mult stores without signs is their product, and the one that
-- it stores with signs stands, as an integer of 64 bits, for the product of the integers that the
-- words stand for.
pub mult_lem :
    (a b : ℕ)
    → a < word_mod
    → b < word_mod
    → (unsigned_double (mult a b false) ≡ a * b)
      × (signed_double (mult a b true) ≡ signed a *ℤ signed b)
mult_lem a b ha hb = (mult-unsigned a b ha hb, mult-signed a b ha hb)
