-- ===== src/Cpu/Word.antt =====
-- The operators of C++ on an `int` of 32 bits, as machine/mipssim.cc uses them, on the words that
-- represent the operands: they wrap around, as the machines that the build supports have it.
use Prim.Native.Nat.{bit_and}
use osproject.Base.{ℕ, ◌+◌, ◌-◌, ◌*◌, ◌/◌, ◌%◌, ◌^◌, Bool, not, ltb, leb, ◌==◌, if◌then◌else◌}
use osproject.Base.Int.{ℤ, pos, negsuc}
use osproject.Base.Bits.{complement}

abbrev pub word_mod : ℕ
word_mod = 4294967296

-- `SIGN_BIT`
abbrev pub sign_bit : ℕ
sign_bit = 2147483648

-- The number that a word stands for as an `int`.
abbrev pub signed : ℕ → ℤ
signed w = if ltb w sign_bit then pos w else negsuc (word_mod - w - 1)

abbrev pub add32 : ℕ → ℕ → ℕ
add32 a b = (a + b) % word_mod

abbrev pub sub32 : ℕ → ℕ → ℕ
sub32 a b = (a + word_mod - b) % word_mod

-- `-a`
abbrev pub neg32 : ℕ → ℕ
neg32 a = sub32 0 a

-- `a < 0`
abbrev pub negative : ℕ → Bool
negative a = leb sign_bit a

-- `a < b` on `int`s.
abbrev pub lt32 : ℕ → ℕ → Bool
lt32 a b = ltb (add32 a sign_bit) (add32 b sign_bit)

-- `a & SIGN_BIT`, as a condition
abbrev pub sign_set : ℕ → Bool
sign_set a = not (bit_and a sign_bit == 0)

-- `a << k`
abbrev pub shl32 : ℕ → ℕ → ℕ
shl32 a k = a * 2 ^ k % word_mod

-- `a >> k` of an `unsigned int`
abbrev pub shr32 : ℕ → ℕ → ℕ
shr32 a k = a / 2 ^ k

-- `a >> k` of an `int`: the sign bit moves in from the left.
abbrev pub sar32 : ℕ → ℕ → ℕ
sar32 a k = if negative a then word_mod - 1 - (word_mod - 1 - a) / 2 ^ k else a / 2 ^ k

-- `~a`
abbrev pub not32 : ℕ → ℕ
not32 a = complement 32 a

-- The size of an `int` without its sign, and a number with a sign.
abbrev pub abs32 : ℕ → ℕ
abs32 a = if negative a then word_mod - a else a

-- `IndexToAddr(x)`
abbrev pub index_to_addr : ℕ → ℕ
index_to_addr x = shl32 x 2
