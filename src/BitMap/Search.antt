-- ===== src/BitMap/Search.antt =====
-- The loops of a bit map: `Find` gives out the first clear bit, `NumClear` counts the clear bits,
-- and the constructor clears them all, whatever the fresh words hold.
use osproject.Base.{
  ℕ, zero, suc, ◌+◌, ◌*◌, ◌≤◌, ◌<◌, ◌≡◌, refl, sym, ap, ◌∙◌, ltb, ◌⊎◌, inl, inr, true, false,
  Option, none, some, List, length, if◌then◌else◌, arith, Bool-cases,
}
use osproject.Base.Outcome.{Outcome, ok}
use native.Mathlib.Decide.{ℕ_discrete}
use native.Mathlib.Numerals.{add-one}
use osproject.BitMap.{BitMap, div_round_up, find_from, find, count_from, num_clear, clear_all, make}
use osproject.BitMap.Abstract.{
  holds, IsValid, marked, cleared, mark_lem, clear_lem, test_lem, marked-IsValid, cleared-IsValid,
  holds-marked, holds-cleared,
}

abbrev pub AllSet : BitMap → ℕ → Type 0
AllSet b n = (j : ℕ) → j < n → holds b j ≡ true

-- The first clear bit has been marked and returned, or there is none.
abbrev pub Finds : BitMap → Outcome (BitMap × Option ℕ) → Type 0
Finds b r =
    (AllSet b b.num_bits × (r ≡ ok (b, none)))
    ⊎ ((i : ℕ) × (i < b.num_bits)
        × (holds b i ≡ false)
        × AllSet b i
        × (r ≡ ok (marked b i, some i)))

AllSet-suc : (b : BitMap) (i : ℕ) → AllSet b i → holds b i ≡ true → AllSet b (i + 1)
AllSet-suc b i all h j lt = elim (ℕ_discrete j i) [ yes e ↦ rw e h | no ne ↦ all j (omega arith) ]

find_from-Finds :
    (b : BitMap) (i n : ℕ) → IsValid b → i + n ≡ b.num_bits → AllSet b i → Finds b (find_from b i n)
unfolding find_from
find_from-Finds b i zero v e all = inl ((λ j h. all j (omega arith)), refl)
find_from-Finds b i (suc n) v e all = elim (Bool-cases (holds b i)) [
  | inl used ↦
      rw (test_lem b i v (omega arith), used)
        (find_from-Finds b (i + 1) n v (omega arith) (AllSet-suc b i all used))
  | inr free ↦
      rw (test_lem b i v (omega arith), free, mark_lem b i v (omega arith))
        (inr (i, omega arith, free, all, refl))
]

pub find-Finds : (b : BitMap) → IsValid b → Finds b (find b)
unfolding find
find-Finds b v = find_from-Finds b 0 b.num_bits v (omega arith) (λ j h. absurd (omega arith))

-- How many of the bits below `n` are clear.
abbrev pub clears : BitMap → ℕ → ℕ
clears b zero = 0
clears b (suc n) = clears b n + (if holds b n then 0 else 1)

clears-suc : (b : BitMap) (n : ℕ) → clears b (n + 1) ≡ clears b n + (if holds b n then 0 else 1)
clears-suc b n = rw add-one refl

count_from_lem :
    (b : BitMap) (i count n : ℕ)
    → IsValid b
    → i + n ≡ b.num_bits
    → count ≡ clears b i
    → count_from b i count n ≡ ok (clears b b.num_bits)
unfolding count_from
count_from_lem b i count zero v e c =
    let all : i ≡ b.num_bits = omega arith in ap ok (c ∙ ap (clears b) all)
count_from_lem b i count (suc n) v e c = rw (test_lem b i v (omega arith)) (
    count_from_lem b (i + 1) (if holds b i then count else count + 1) n v (omega arith)
      (ground (arith, clears-suc b i)))

-- `NumClear` is the number of clear bits.
pub num_clear_lem : (b : BitMap) → IsValid b → num_clear b ≡ ok (clears b b.num_bits)
unfolding num_clear
num_clear_lem b v = count_from_lem b 0 0 b.num_bits v (omega arith) refl

-- Marking a clear bit takes one from the count.
clears-marked :
    (b : BitMap) (i n : ℕ)
    → IsValid b
    → i < b.num_bits
    → holds b i ≡ false
    → clears b n ≡ clears (marked b i) n + (if ltb i n then 1 else 0)
clears-marked b i zero v h free = ground arith
clears-marked b i (suc n) v h free =
    ground (arith, clears-marked b i n v h free, holds-marked b i n v h)

none_clear : (b : BitMap) (n : ℕ) → AllSet b n → clears b n ≡ 0
none_clear b zero all = refl
none_clear b (suc n) all = ground (arith, none_clear b n (λ j h. all j (omega arith)), all n)

record Cleared (b : BitMap) (i n : ℕ) : Type 0 where
  out : BitMap
  returns : clear_all b i n ≡ ok out
  valid : IsValid out
  bits : out.num_bits ≡ b.num_bits
  inside : (j : ℕ) → i ≤ j → j < i + n → holds out j ≡ false
  below : (j : ℕ) → j < i → holds out j ≡ holds b j

Cleared-step :
    (b : BitMap) (i n : ℕ)
    → IsValid b
    → i < b.num_bits
    → Cleared (cleared b i) (i + 1) n
    → Cleared b i (suc n)
unfolding clear_all
Cleared-step b i n v h rest = record {
  out = rest.out;
  returns = rw (clear_lem b i v h) rest.returns;
  valid = rest.valid;
  bits = rest.bits;
  inside = λ j p q. elim (ℕ_discrete i j) [
    | yes e ↦ ground (arith, rest.below j, holds-cleared b i j v h)
    | no ne ↦ rest.inside j (omega arith) (omega arith)
  ];
  below = λ j p. ground (arith, rest.below j (omega arith), holds-cleared b i j v h);
}

clear_all-Cleared : (b : BitMap) (i n : ℕ) → IsValid b → i + n ≤ b.num_bits → Cleared b i n
unfolding clear_all
clear_all-Cleared b i zero v h = record {
  out = b;
  returns = refl;
  valid = v;
  bits = refl;
  inside = λ j p q. absurd (omega arith);
  below = λ j p. refl;
}
clear_all-Cleared b i (suc n) v h =
    Cleared-step b i n v (omega arith)
      (clear_all-Cleared (cleared b i) (i + 1) n (cleared-IsValid b i v) (omega arith))

covers : (n : ℕ) → n ≤ 32 * div_round_up n 32
covers n = ground arith

-- For any contents of the fresh words, the constructor of a bit map returns a well-formed map of
-- the asked number of bits, every one of them clear.
pub make_clear :
    (n : ℕ) (garbage : List ℕ)
    → length garbage ≡ div_round_up n 32
    → (b : BitMap) × (make n garbage ≡ ok b)
      × IsValid b
      × (b.num_bits ≡ n)
      × ((j : ℕ) → j < n → holds b j ≡ false)
unfolding make
make_clear n garbage h =
    (c.out, c.returns, c.valid, c.bits, λ j p. c.inside j (omega arith) (omega arith))
  where
    fresh : BitMap
    fresh = record { num_bits = n; num_words = div_round_up n 32; map = garbage }

    c : Cleared fresh 0 n
    c = clear_all-Cleared fresh 0 n (record { words = sym h; covered = covers n }) (omega arith)

-- Find on a well-formed map fails exactly when NumClear is 0, and otherwise marks and returns the
-- first clear bit, which lowers NumClear by one.
pub find-num_clear :
    (b : BitMap)
    → IsValid b
    → ((num_clear b ≡ ok 0) × (find b ≡ ok (b, none)))
      ⊎ ((i : ℕ) × (c : ℕ) × (find b ≡ ok (marked b i, some i))
          × (i < b.num_bits)
          × (holds b i ≡ false)
          × AllSet b i
          × (num_clear b ≡ ok (suc c))
          × (num_clear (marked b i) ≡ ok c))
find-num_clear b v = elim (find-Finds b v) [
  | inl (all, r) ↦ inl (num_clear_lem b v ∙ ap ok (none_clear b b.num_bits all), r)
  | inr (i, h, free, all, r) ↦ inr (
    i,
    clears (marked b i) b.num_bits,
    r,
    h,
    free,
    all,
    num_clear_lem b v ∙ ap ok (ground (arith, clears-marked b i b.num_bits v h free)),
    num_clear_lem (marked b i) (marked-IsValid b i v),
  )
]
