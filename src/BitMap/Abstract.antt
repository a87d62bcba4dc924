-- ===== src/BitMap/Abstract.antt =====
-- A bit map as a function from indices to Booleans, and what `Mark`, `Clear` and `Test` do to it.
use Prim.Native.Nat.{bit_and, bit_or}
use osproject.Base.{
  ℕ, zero, suc, ◌*◌, ◌/◌, ◌%◌, ◌^◌, ◌≤◌, ◌<◌, ◌≡◌, refl, ap, ◌≢◌, Bool, true, false, not, length,
  length-set, get_or, set, get_elem?-eq-get_or, get_or-set_self, get_or-set_ne, lt→ltb, ◌==◌,
  if◌then◌else◌, arith,
}
use osproject.Base.Bits.{
  complement, bit_at, bit_at-lt, bit_at-or, bit_at-and, bit_at-pow_self, bit_at-pow_ne,
  bit_at-complement, and_pow,
}
use osproject.Base.Outcome.{ok, abort}
use native.Mathlib.Nat.{one-le-pow, pow-le-pow_right, pow-suc}
use native.Mathlib.Decide.{ℕ_discrete}
use osproject.BitMap.{BitMap, mark, clear, test}

-- Whether bit `i` is set.
unfoldable pub holds : BitMap → ℕ → Bool
holds b i = bit_at (i % 32) (get_or b.map (i / 32) 0) == 1

-- The words cover the bits.
pub record IsValid (b : BitMap) : Type 0 where
  pub words : b.num_words ≡ length b.map
  pub covered : b.num_bits ≤ 32 * b.num_words

-- The map after word `i / 32` has been passed through `f`.
abbrev pub with_word : BitMap → ℕ → (ℕ → ℕ) → BitMap
with_word b i f = record b { map = set b.map (i / 32) (f (get_or b.map (i / 32) 0)) }

abbrev pub marked : BitMap → ℕ → BitMap
marked b i = with_word b i (λ w. bit_or w (2 ^ (i % 32)))

abbrev pub cleared : BitMap → ℕ → BitMap
cleared b i = with_word b i (λ w. bit_and w (complement 32 (2 ^ (i % 32))))

word_in : (b : BitMap) (i : ℕ) → IsValid b → i < b.num_bits → i / 32 < length b.map
word_in b i v h = omega arith

pub mark_lem : (b : BitMap) (i : ℕ) → IsValid b → i < b.num_bits → mark b i ≡ ok (marked b i)
unfolding mark
mark_lem b i v h = rw (lt→ltb _ _ h, get_elem?-eq-get_or b.map (i / 32) 0 (word_in b i v h))

pub clear_lem : (b : BitMap) (i : ℕ) → IsValid b → i < b.num_bits → clear b i ≡ ok (cleared b i)
unfolding clear
clear_lem b i v h = rw (lt→ltb _ _ h, get_elem?-eq-get_or b.map (i / 32) 0 (word_in b i v h))

with_word-IsValid : (b : BitMap) (i : ℕ) (f : ℕ → ℕ) → IsValid b → IsValid (with_word b i f)
with_word-IsValid b i f v = omega (arith, length-set b.map (i / 32) (f (get_or b.map (i / 32) 0)))

pub marked-IsValid : (b : BitMap) (i : ℕ) → IsValid b → IsValid (marked b i)
marked-IsValid b i v = with_word-IsValid b i (λ w. bit_or w (2 ^ (i % 32))) v

pub cleared-IsValid : (b : BitMap) (i : ℕ) → IsValid b → IsValid (cleared b i)
cleared-IsValid b i v = with_word-IsValid b i (λ w. bit_and w (complement 32 (2 ^ (i % 32)))) v

scaled : (a p : ℕ) → a < 2 → 1 ≤ p → not (a * p == 0) ≡ (a == 1)
scaled zero p h q = ground arith
scaled (suc zero) p h q = ground arith
scaled (suc (suc a)) p h q = absurd (omega arith)

nonzero_bit : (k w : ℕ) → not (bit_and w (2 ^ k) == 0) ≡ (bit_at k w == 1)
nonzero_bit k w =
    rw (and_pow k w) (scaled (bit_at k w) (2 ^ k) (bit_at-lt k w) (one-le-pow k 2 (omega arith)))

pub test_lem : (b : BitMap) (i : ℕ) → IsValid b → i < b.num_bits → test b i ≡ ok (holds b i)
unfolding test holds
test_lem b i v h =
    rw (lt→ltb _ _ h, get_elem?-eq-get_or b.map (i / 32) 0 (word_in b i v h), nonzero_bit)

pow-lt : (k : ℕ) → k < 32 → 2 ^ k < 2 ^ 32
pow-lt k h =
    omega (
      arith,
      pow-suc 2 k,
      pow-le-pow_right {n = 2} (omega arith) {i = suc k} {j = 32} (omega arith),
    )

-- The bit at `j` after the word of `i` has become `w`.
holds-set_same :
    (b : BitMap) (i j w : ℕ)
    → IsValid b
    → i < b.num_bits
    → i / 32 ≡ j / 32
    → holds (record b { map = set b.map (i / 32) w }) j ≡ (bit_at (j % 32) w == 1)
unfolding holds
holds-set_same b i j w v h q = rw (← q, get_or-set_self b.map (i / 32) w 0 (word_in b i v h))

holds-set_other :
    (b : BitMap) (i j w : ℕ)
    → i / 32 ≢ j / 32
    → holds (record b { map = set b.map (i / 32) w }) j ≡ holds b j
unfolding holds
holds-set_other b i j w ne = rw (get_or-set_ne b.map (i / 32) (j / 32) w 0 ne)

-- Another index lies in another word, or at another place of the same word.
data Places (i j : ℕ) : Type 0 where
  same : i ≡ j → Places i j
  beside : i / 32 ≡ j / 32 → j % 32 ≢ i % 32 → Places i j
  elsewhere : i / 32 ≢ j / 32 → Places i j

places : (i j : ℕ) → Places i j
places i j = elim (ℕ_discrete (i / 32) (j / 32)) [
  | yes q ↦ elim (ℕ_discrete (j % 32) (i % 32)) [ yes r ↦ same (omega arith) | no ne ↦ beside q ne ]
  | no ne ↦ elsewhere ne
]

word : BitMap → ℕ → ℕ
word b i = get_or b.map (i / 32) 0

holds-word :
    (b : BitMap) (i j : ℕ) → i / 32 ≡ j / 32 → holds b j ≡ (bit_at (j % 32) (word b i) == 1)
unfolding holds word
holds-word b i j q = rw q refl

-- After `Mark` bit `i` is set, and every other bit is as it was.
pub holds-marked :
    (b : BitMap) (i j : ℕ)
    → IsValid b
    → i < b.num_bits
    → holds (marked b i) j ≡ (if i == j then true else holds b j)
unfolding word
holds-marked b i j v h = elim (places i j) [
  | same e ↦ ground (
    arith,
    holds-set_same b i j (bit_or (word b i) (2 ^ (i % 32))) v h (ap (λ k. k / 32) e),
    bit_at-or (j % 32) (word b i) (2 ^ (i % 32)),
    bit_at-pow_self (i % 32),
    bit_at-lt (j % 32) (word b i),
    ap (λ k. bit_at (k % 32) (2 ^ (i % 32))) e,
  )
  | beside q ne ↦ ground (
    arith,
    holds-set_same b i j (bit_or (word b i) (2 ^ (i % 32))) v h q,
    bit_at-or (j % 32) (word b i) (2 ^ (i % 32)),
    bit_at-pow_ne (j % 32) (i % 32) ne,
    holds-word b i j q,
  )
  | elsewhere ne ↦ ground (arith, holds-set_other b i j (bit_or (word b i) (2 ^ (i % 32))) ne)
]

-- After `Clear` bit `i` is clear, and every other bit is as it was.
pub holds-cleared :
    (b : BitMap) (i j : ℕ)
    → IsValid b
    → i < b.num_bits
    → holds (cleared b i) j ≡ (if i == j then false else holds b j)
unfolding word
holds-cleared b i j v h = elim (places i j) [
  | same e ↦ ground (
    arith,
    holds-set_same b i j (bit_and (word b i) mask) v h (ap (λ k. k / 32) e),
    bit_at-and (j % 32) (word b i) mask,
    bit_at-complement (j % 32) 32 (2 ^ (i % 32)) (omega arith) (pow-lt (i % 32) (omega arith)),
    bit_at-pow_self (i % 32),
    ap (λ k. bit_at (k % 32) (2 ^ (i % 32))) e,
  )
  | beside q ne ↦ ground (
    arith,
    holds-set_same b i j (bit_and (word b i) mask) v h q,
    bit_at-and (j % 32) (word b i) mask,
    bit_at-complement (j % 32) 32 (2 ^ (i % 32)) (omega arith) (pow-lt (i % 32) (omega arith)),
    bit_at-pow_ne (j % 32) (i % 32) ne,
    bit_at-lt (j % 32) (word b i),
    holds-word b i j q,
  )
  | elsewhere ne ↦ ground (arith, holds-set_other b i j (bit_and (word b i) mask) ne)
]
  where
    mask : ℕ
    mask = complement 32 (2 ^ (i % 32))

-- `ASSERT(which >= 0 && which < numBits)`
pub out_of_range :
    (b : BitMap) (i : ℕ)
    → b.num_bits ≤ i
    → (mark b i ≡ abort) × (clear b i ≡ abort) × (test b i ≡ abort)
unfolding mark clear test
out_of_range b i h = (ground arith, ground arith, ground arith)
