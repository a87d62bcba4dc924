-- ===== src/Cpu/Alu/Quotient.antt =====
-- OP_DIV of machine/mipssim.cc against exact quotients and remainders.
use osproject.Base.{
  ℕ, zero, suc, ◌+◌, ◌-◌, ◌*◌, ◌/◌, ◌%◌, ◌≤◌, ◌<◌, ◌≡◌, ◌≢◌, refl, sym, ◌⊎◌, inl, inr, Bool, true,
  false, not, ◌&&◌, if◌then◌else◌, ◌==◌, ltb, arith, Bool-cases,
}
use native.Mathlib.Nat.{div-add-mod, mod-lt, div-le_self, div-lt_self}
use osproject.Base.Int.{◌+ℤ◌, ◌*ℤ◌, sub_ℕ, pos_part, neg_part}
use osproject.Base.Outcome.{Outcome, ok}
use osproject.Cpu.{Cpu}
use osproject.Cpu.Word.{word_mod, sign_bit, neg32, negative, signed, abs32}
use osproject.Cpu.Decode.{Instruction}
use osproject.Cpu.Effect.{Effect}
use osproject.Cpu.Exact.{signed-sub_ℕ}
use osproject.Cpu.Mult.Laws.{parts_of}
use osproject.Cpu.Alu.{div, div32, rem32, set_low_high}

pos_part-sub_ℕ : (x y : ℕ) → pos_part (sub_ℕ x y) ≡ x - y
pos_part-sub_ℕ x y = ground arith

neg_part-sub_ℕ : (x y : ℕ) → neg_part (sub_ℕ x y) ≡ y - x
neg_part-sub_ℕ x y = ground arith

-- The word of a size, and the word of its negative.
plain_parts : (q : ℕ) → q < sign_bit → (pos_part (signed q) ≡ q) × (neg_part (signed q) ≡ 0)
plain_parts q h = (ground arith, ground arith)

negated_parts :
    (q : ℕ) → q ≤ sign_bit → (pos_part (signed (neg32 q)) ≡ 0) × (neg_part (signed (neg32 q)) ≡ q)
negated_parts q h = (ground arith, ground arith)

-- The parts of a product and a sum, where the first factor and the last number have one part each.
quotient_parts :
    (a b lo hi pb nb pl nl ph nh : ℕ)
    → pos_part (signed b) ≡ pb
    → neg_part (signed b) ≡ nb
    → pos_part (signed lo) ≡ pl
    → neg_part (signed lo) ≡ nl
    → pos_part (signed hi) ≡ ph
    → neg_part (signed hi) ≡ nh
    → a < word_mod
    → (a < sign_bit
        → a + (pl * nb + nl * pb - (pl * pb + nl * nb) + nh)
          ≡ pl * pb + nl * nb - (pl * nb + nl * pb) + ph)
    → (sign_bit ≤ a
        → a + (pl * nb + nl * pb - (pl * pb + nl * nb) + nh)
          ≡ pl * pb + nl * nb - (pl * nb + nl * pb) + ph + word_mod)
    → signed lo *ℤ signed b +ℤ signed hi ≡ signed a
unfolding ◌+ℤ◌ ◌*ℤ◌
quotient_parts a b lo hi pb nb pl nl ph nh e1 e2 e3 e4 e5 e6 ha low high =
    rw
      (
        e1,
        e2,
        e3,
        e4,
        e5,
        e6,
        pos_part-sub_ℕ (pl * pb + nl * nb) (pl * nb + nl * pb),
        neg_part-sub_ℕ (pl * pb + nl * nb) (pl * nb + nl * pb),
      )
      (sym (signed-sub_ℕ a _ _ ha low high))

-- The word of a size with a sign.
abbrev with_sign : Bool → ℕ → ℕ
with_sign negated x = if negated then neg32 x else x

size_of_sign :
    (s : Bool) (x : ℕ)
    → x < sign_bit
    → (abs32 (with_sign s x) ≡ x) × ((with_sign s x ≡ 0) ⊎ (negative (with_sign s x) ≡ s))
size_of_sign true zero small = (refl, inl refl)
size_of_sign true (suc x) small =
    let e : neg32 (suc x) ≡ word_mod - suc x = omega arith in
    let big : negative (word_mod - suc x) ≡ true = ground arith in
    rw (e, big) (omega arith, inr refl)
size_of_sign false x small =
    let plain : negative x ≡ false = ground arith in rw plain (refl, inr refl)

differ : Bool → Bool → Bool
differ s t = if s then not t else t

-- `s` and `t` are the signs, and the capital letters the sizes.
exact_sizes :
    (s t : Bool) (a b q r A B : ℕ)
    → pos_part (signed b) ≡ (if t then 0 else B)
    → neg_part (signed b) ≡ (if t then B else 0)
    → a < word_mod
    → (s ≡ true → (sign_bit ≤ a) × (a + A ≡ word_mod))
    → (s ≡ false → (a < sign_bit) × (a ≡ A))
    → A ≡ q * B + r
    → r < sign_bit
    → q ≤ sign_bit
    → (differ s t ≡ false → q < sign_bit)
    → signed (with_sign (differ s t) q) *ℤ signed b +ℤ signed (with_sign s r) ≡ signed a
unfolding differ
exact_sizes true true a b q r A B e1 e2 ha yes_neg not_neg whole hr hq small =
    let (high, total) = yes_neg refl in
    let (pq, nq) = plain_parts q (small refl) in
    let (pr, nr) = negated_parts r (omega arith) in
    quotient_parts a b q (neg32 r) 0 B q 0 0 r e1 e2 pq nq pr nr ha (λ low. absurd (omega arith))
      (λ h. grind arith)
exact_sizes true false a b q r A B e1 e2 ha yes_neg not_neg whole hr hq small =
    let (high, total) = yes_neg refl in
    let (pq, nq) = negated_parts q hq in
    let (pr, nr) = negated_parts r (omega arith) in
    quotient_parts a b (neg32 q) (neg32 r) B 0 0 q 0 r e1 e2 pq nq pr nr ha
      (λ low. absurd (omega arith)) (λ h. grind arith)
exact_sizes false true a b q r A B e1 e2 ha yes_neg not_neg whole hr hq small =
    let (low, total) = not_neg refl in
    let (pq, nq) = negated_parts q hq in
    let (pr, nr) = plain_parts r hr in
    quotient_parts a b (neg32 q) r 0 B 0 q r 0 e1 e2 pq nq pr nr ha (λ l. grind arith)
      (λ high. absurd (omega arith))
exact_sizes false false a b q r A B e1 e2 ha yes_neg not_neg whole hr hq small =
    let (low, total) = not_neg refl in
    let (pq, nq) = plain_parts q (small refl) in
    let (pr, nr) = plain_parts r hr in
    quotient_parts a b q r B 0 q 0 r 0 e1 e2 pq nq pr nr ha (λ l. grind arith)
      (λ high. absurd (omega arith))

module _ (a b : ℕ) (ha : a < word_mod) (hb : b < word_mod) (some_divisor : 0 < b)
    (fits : (a ≢ sign_bit) ⊎ (b ≢ 4294967295)) where
  abbrev q : ℕ
  q = abs32 a / abs32 b

  abbrev r : ℕ
  r = abs32 a % abs32 b

  whole : abs32 a ≡ q * abs32 b + r
  whole = grind (arith, div-add-mod (abs32 a) (abs32 b))

  positive_b : 0 < abs32 b
  positive_b = ground arith

  r-lt : r < abs32 b
  r-lt = mod-lt (abs32 a) positive_b

  q-le : q ≤ abs32 a
  q-le = div-le_self (abs32 a) (abs32 b)

  a-le : abs32 a ≤ sign_bit
  a-le = ground arith

  b-le : abs32 b ≤ sign_bit
  b-le = ground arith

  -- The quotient of two negative numbers is small enough.
  q-lt : negative a ≡ true → negative b ≡ true → q < sign_bit
  q-lt n m = elim (Bool-cases (ltb (abs32 a) sign_bit)) [
    | inl small ↦ let h : abs32 a < sign_bit = ground arith in omega (arith, q-le, h)
    | inr big ↦
        let smallest : sign_bit ≤ abs32 a = ground arith in
        let more : 1 < abs32 b = elim fits [ inl h ↦ ground arith | inr h ↦ ground arith ] in
        omega (arith, div-lt_self {n = abs32 a} {k = abs32 b} (omega (arith, smallest)) more, a-le)
  ]

  q-differ : differ (negative a) (negative b) ≡ false → q < sign_bit
  unfolding differ
  q-differ same = elim (Bool-cases (negative a)) [
    | inl n ↦ elim (Bool-cases (negative b)) [ inl m ↦ q-lt n m | inr m ↦ absurd (ground arith) ]
    | inr n ↦ let h : abs32 a < sign_bit = ground arith in omega (arith, q-le, h)
  ]

  exact_lem : signed (div32 a b) *ℤ signed b +ℤ signed (rem32 a b) ≡ signed a
  unfolding differ
  exact_lem =
      exact_sizes (negative a) (negative b) a b q r (abs32 a) (abs32 b) (parts_of b hb).0
        (parts_of b hb).1 ha (λ n. (ground arith, ground arith)) (λ n. (ground arith, ground arith))
        whole (omega (arith, r-lt, b-le)) (omega (arith, q-le, a-le)) q-differ

  -- The remainder is smaller than the divisor, and has the sign of the dividend.
  remainder_lem :
      (abs32 (rem32 a b) < abs32 b) × ((rem32 a b ≡ 0) ⊎ (negative (rem32 a b) ≡ negative a))
  remainder_lem =
      let (size, same) = size_of_sign (negative a) r (omega (arith, r-lt, b-le)) in
      (omega (arith, size, r-lt), same)

-- An exact quotient and remainder in the registers Lo and Hi.
pub record Divides (pc_after rs rt : ℕ) (c : Cpu) (result : Outcome Effect) : Type 0 where
  pub low : ℕ
  pub high : ℕ
  pub returns : result ≡ ok (set_low_high low high pc_after c)
  pub exact : signed low *ℤ signed rt +ℤ signed high ≡ signed rs
  pub smaller : abs32 high < abs32 rt
  pub same_sign : (high ≡ 0) ⊎ (negative high ≡ negative rs)

-- DIV of two words by a divisor that is not 0, unless it is the smallest int by -1, stores a
-- quotient in Lo and a remainder in Hi, such that, as ints, the divisor times the quotient and the
-- remainder add up exactly to the dividend; the remainder is smaller than the divisor and is 0 or
-- has the sign of the dividend.
pub div-Divides :
    (pc_after : ℕ) (i : Instruction) (c : Cpu)
    → c.registers i.rs < word_mod
    → c.registers i.rt < word_mod
    → 0 < c.registers i.rt
    → (c.registers i.rs ≢ sign_bit) ⊎ (c.registers i.rt ≢ 4294967295)
    → Divides pc_after (c.registers i.rs) (c.registers i.rt) c (div pc_after i c)
unfolding div
div-Divides pc_after i c hs ht some_divisor fits =
    let not_zero : (c.registers i.rt == 0) ≡ false = ground arith in
    let defined : ((c.registers i.rs == sign_bit) && (c.registers i.rt == 4294967295)) ≡ false =
      elim fits [ inl h ↦ ground arith | inr h ↦ ground arith ] in
    let (smaller, same_sign) = remainder_lem _ _ hs ht some_divisor fits in
    rw (not_zero, defined)
      (record {
        low = div32 (c.registers i.rs) (c.registers i.rt);
        high = rem32 (c.registers i.rs) (c.registers i.rt);
        returns = refl;
        exact = exact_lem _ _ hs ht some_divisor fits;
        smaller = smaller;
        same_sign = same_sign;
      })
