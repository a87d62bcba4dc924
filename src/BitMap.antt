-- ===== src/BitMap.antt =====
-- userprog/bitmap.cc and bitmap.h: an array of bits, kept in words of 32.
-- An `int` index that is negative fails the same assertion as one that is too large, so an index is
-- a number here; the callers that can pass a negative one test its sign first.

pub mod Abstract
pub mod Search
pub mod Bits
mod Tests
use Prim.Native.Nat.{bit_and, bit_or}
use osproject.Base.{
  ℕ, zero, suc, ◌+◌, ◌-◌, ◌/◌, ◌%◌, ◌^◌, Bool, true, false, not, Option, none, some, List,
  get_elem?, set, ltb, ◌==◌, if◌then◌else◌,
}
use osproject.Base.Bits.{complement}
use osproject.Base.Outcome.{Outcome, ok, abort, fault, ◌>>=◌, ◌>>◌, assert, deref}

abbrev pub bits_in_word : ℕ
bits_in_word = 32

pub record BitMap : Type 0 where
  pub num_bits : ℕ
  pub num_words : ℕ
  pub map : List ℕ

abbrev pub div_round_up : ℕ → ℕ → ℕ
div_round_up n s = n / s + (if ltb 0 (n % s) then 1 else 0)

-- Replace word `i` of the map by its image under `f`.
unfoldable pub update_word : BitMap → ℕ → (ℕ → ℕ) → Outcome BitMap
update_word b i f = do w ← deref (get_elem? b.map i); ok (record b { map = set b.map i (f w) })

unfoldable pub mark : BitMap → ℕ → Outcome BitMap
unfolding update_word
mark b which = do
  assert (ltb which b.num_bits)
  update_word b (which / bits_in_word) (λ w. bit_or w (2 ^ (which % bits_in_word)))

unfoldable pub clear : BitMap → ℕ → Outcome BitMap
unfolding update_word
clear b which = do
  assert (ltb which b.num_bits)
  update_word b (which / bits_in_word) (λ w. bit_and w (complement 32 (2 ^ (which % bits_in_word))))

unfoldable pub test : BitMap → ℕ → Outcome Bool
test b which = do
  assert (ltb which b.num_bits)
  w ← deref (get_elem? b.map (which / bits_in_word))
  ok (not (bit_and w (2 ^ (which % bits_in_word)) == 0))

-- `for (int i = 0; i < numBits; i++) Clear(i);`, with `n` rounds left.
pub clear_all : BitMap → ℕ → ℕ → Outcome BitMap
clear_all b i zero = ok b
clear_all b i (suc n) = clear b i >>= λ b'. clear_all b' (i + 1) n

-- `new unsigned int[numWords]` does not initialise the words: `garbage` is what they hold.
unfoldable pub make : ℕ → List ℕ → Outcome BitMap
unfolding clear_all
make nitems garbage =
    clear_all (record { num_bits = nitems; num_words = div_round_up nitems 32; map = garbage }) 0
      nitems

-- The loop of `Find`, with `n` rounds left; `none` is the source's -1.
unfoldable pub find_from : BitMap → ℕ → ℕ → Outcome (BitMap × Option ℕ)
find_from b i zero = ok (b, none)
find_from b i (suc n) =
    let rest = find_from b (i + 1) n in
    do used ← test b i; if used then rest else (mark b i >>= λ b'. ok (b', some i))

unfoldable pub find : BitMap → Outcome (BitMap × Option ℕ)
unfolding find_from
find b = find_from b 0 b.num_bits

-- The loop of `NumClear`, with `n` rounds left.
unfoldable pub count_from : BitMap → ℕ → ℕ → ℕ → Outcome ℕ
count_from b i count zero = ok count
count_from b i count (suc n) = do
  used ← test b i
  count_from b (i + 1) (if used then count else count + 1) n

unfoldable pub num_clear : BitMap → Outcome ℕ
unfolding count_from
num_clear b = count_from b 0 0 b.num_bits
