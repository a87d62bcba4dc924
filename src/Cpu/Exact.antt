-- ===== src/Cpu/Exact.antt =====
-- The instructions that add and subtract, against exact sums and differences.
use Prim.Native.Nat.{bit_xor}
use osproject.Base.{
  ℕ, ◌+◌, ◌-◌, ◌/◌, ◌%◌, ◌≤◌, ◌<◌, ◌≡◌, refl, sym, ap, ◌∙◌, ◌⊎◌, inl, inr, Bool, true, false, not,
  ◌&&◌, if◌then◌else◌, ltb, arith, Bool-cases,
}
use osproject.Base.Int.{ℤ, pos, negsuc, ◌+ℤ◌, ◌-ℤ◌, ◌≤ℤ◌, sub_ℕ, pos_part, neg_part}
use osproject.Base.Bits.{bit_at}
use osproject.Base.Masks.{bit_at-xor, bit_at-div, xor-lt}
use osproject.Cpu.Word.{word_mod, sign_bit, add32, sub32, negative, signed, sign_set}
use osproject.Cpu.Mult.Loop.{sign_set_lem}

-- The numbers that an `int` can hold.
abbrev pub IsInt : ℤ → Type 0
IsInt z = (negsuc 2147483647 ≤ℤ z) × (z ≤ℤ pos 2147483647)

pub sign_xor :
    (a b : ℕ)
    → a < word_mod
    → b < word_mod
    → sign_set (bit_xor a b) ≡ (if negative a then not (negative b) else negative b)
sign_xor a b ha hb =
    let small : bit_xor a b < word_mod = xor-lt 32 a b ha hb in
    let e : bit_xor a b / 2147483648 % 2 ≡ (a / 2147483648 % 2 + b / 2147483648 % 2) % 2 =
      sym (bit_at-div 31 (bit_xor a b))
      ∙ bit_at-xor 31 a b
      ∙ ap (λ x. (x + bit_at 31 b) % 2) (bit_at-div 31 a)
      ∙ ap (λ x. (a / 2147483648 % 2 + x) % 2) (bit_at-div 31 b) in
    sign_set_lem (bit_xor a b) small ∙ ground (arith, e)

-- A word that stands for p - n, and a difference that no word stands for.
pub signed-sub_ℕ :
    (w p n : ℕ)
    → w < word_mod
    → (w < sign_bit → w + n ≡ p)
    → (sign_bit ≤ w → w + n ≡ p + word_mod)
    → signed w ≡ sub_ℕ p n
signed-sub_ℕ w p n h low high = elim (Bool-cases (ltb w sign_bit)) [
  | inl small ↦ let e : w + n ≡ p = low (ground arith) in rw small (ground arith)
  | inr big ↦ let e : w + n ≡ p + word_mod = high (ground arith) in rw big (ground arith)
]

sub_ℕ-not_IsInt : (p n : ℕ) → (n + sign_bit ≤ p) ⊎ (p + sign_bit < n) → ¬ (IsInt (sub_ℕ p n))
sub_ℕ-not_IsInt p n (inl h) (low, high) = ground arith
sub_ℕ-not_IsInt p n (inr h) (low, high) = ground arith

-- The parts of a word's number.
pos_of : ℕ → ℕ
pos_of a = if ltb a sign_bit then a else 0

neg_of : ℕ → ℕ
neg_of a = if ltb a sign_bit then 0 else word_mod - a

pos_part-signed : (a : ℕ) → pos_part (signed a) ≡ pos_of a
unfolding pos_of
pos_part-signed a = elim (Bool-cases (ltb a sign_bit)) [ inl h ↦ rw h refl | inr h ↦ rw h refl ]

neg_part-signed : (a : ℕ) → a < word_mod → neg_part (signed a) ≡ neg_of a
unfolding neg_of
neg_part-signed a small = elim (Bool-cases (ltb a sign_bit)) [
  | inl h ↦ rw h refl
  | inr h ↦ rw h (omega arith)
]

Overflow : ℕ → Bool → ℕ → ℕ → Type 0
Overflow w overflow p n =
    ((overflow ≡ false) × (signed w ≡ sub_ℕ p n)) ⊎ ((overflow ≡ true) × ¬ (IsInt (sub_ℕ p n)))

Overflow-cases :
    (w p n : ℕ) (overflow : Bool)
    → w < word_mod
    → (overflow ≡ true → (n + sign_bit ≤ p) ⊎ (p + sign_bit < n))
    → (overflow ≡ false → w < sign_bit → w + n ≡ p)
    → (overflow ≡ false → sign_bit ≤ w → w + n ≡ p + word_mod)
    → Overflow w overflow p n
unfolding Overflow
Overflow-cases w p n true h over low high = inr (refl, sub_ℕ-not_IsInt p n (over refl))
Overflow-cases w p n false h over low high = inl (refl, signed-sub_ℕ w p n h (low refl) (high refl))

-- The test for overflow finds exactly the sums that an `int` cannot hold.
pub sum_exact :
    (a b : ℕ)
    → a < word_mod
    → b < word_mod
    → let overflow = not (sign_set (bit_xor a b)) && sign_set (bit_xor a (add32 a b)) in
      ((overflow ≡ false) × (signed (add32 a b) ≡ signed a +ℤ signed b))
      ⊎ ((overflow ≡ true) × ¬ (IsInt (signed a +ℤ signed b)))
unfolding ◌+ℤ◌ Overflow pos_of neg_of
sum_exact a b ha hb =
    rw
      (
        sign_xor a b ha hb,
        sign_xor a (add32 a b) ha (omega arith),
        pos_part-signed a,
        pos_part-signed b,
        neg_part-signed a ha,
        neg_part-signed b hb,
      )
      (Overflow-cases (add32 a b) (pos_of a + pos_of b) (neg_of a + neg_of b) _ (omega arith)
        (λ e. ground arith) (λ e h. ground arith) (λ e h. ground arith))

-- The same for differences.
pub difference_exact :
    (a b : ℕ)
    → a < word_mod
    → b < word_mod
    → let overflow = sign_set (bit_xor a b) && sign_set (bit_xor a (sub32 a b)) in
      ((overflow ≡ false) × (signed (sub32 a b) ≡ signed a -ℤ signed b))
      ⊎ ((overflow ≡ true) × ¬ (IsInt (signed a -ℤ signed b)))
unfolding ◌-ℤ◌ Overflow pos_of neg_of
difference_exact a b ha hb =
    rw
      (
        sign_xor a b ha hb,
        sign_xor a (sub32 a b) ha (omega arith),
        pos_part-signed a,
        pos_part-signed b,
        neg_part-signed a ha,
        neg_part-signed b hb,
      )
      (Overflow-cases (sub32 a b) (pos_of a + neg_of b) (neg_of a + pos_of b) _ (omega arith)
        (λ e. ground arith) (λ e h. ground arith) (λ e h. ground arith))

-- The test of ADDI, which compares the signs of the other operand and the sum.
pub sum_exact_right :
    (a b : ℕ)
    → a < word_mod
    → b < word_mod
    → let overflow = not (sign_set (bit_xor a b)) && sign_set (bit_xor b (add32 a b)) in
      ((overflow ≡ false) × (signed (add32 a b) ≡ signed a +ℤ signed b))
      ⊎ ((overflow ≡ true) × ¬ (IsInt (signed a +ℤ signed b)))
unfolding ◌+ℤ◌ Overflow pos_of neg_of
sum_exact_right a b ha hb =
    rw
      (
        sign_xor a b ha hb,
        sign_xor b (add32 a b) hb (omega arith),
        pos_part-signed a,
        pos_part-signed b,
        neg_part-signed a ha,
        neg_part-signed b hb,
      )
      (Overflow-cases (add32 a b) (pos_of a + pos_of b) (neg_of a + neg_of b) _ (omega arith)
        (λ e. ground arith) (λ e h. ground arith) (λ e h. ground arith))
