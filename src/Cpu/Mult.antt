-- ===== src/Cpu/Mult.antt =====
-- `Mult` of machine/mipssim.cc: 64-bit products by shifts and additions of words.
pub mod Loop
pub mod Laws
use Prim.Native.Nat.{bit_and, bit_or}
use osproject.Base.{ℕ, zero, suc, ◌+◌, Bool, true, false, not, ◌&&◌, ◌||◌, ◌==◌, ltb, if◌then◌else◌}
use osproject.Cpu.Word.{add32, neg32, negative, sign_set, shl32, sar32, not32}

-- `bHi <<= 1; if (bLo & 0x80000000) bHi |= 1;`
abbrev pub next_b_hi : ℕ → ℕ → ℕ
next_b_hi b_lo b_hi = if sign_set b_lo then bit_or (shl32 b_hi 1) 1 else shl32 b_hi 1

-- `hi` after `if (lo < bLo) hi += 1; hi += bHi;`
abbrev pub sum_hi : ℕ → ℕ → ℕ → ℕ → ℕ
sum_hi b_lo b_hi lo hi = add32 (if ltb lo b_lo then add32 hi 1 else hi) b_hi

-- The `for` loop, with `n` rounds left: the high and the low word of the result.
unfoldable pub mult_loop : ℕ → ℕ → ℕ → ℕ → ℕ → ℕ → ℕ × ℕ
mult_loop zero a b_lo b_hi lo hi = (hi, lo)
mult_loop (suc n) a b_lo b_hi lo hi =
    let odd = not (bit_and a 1 == 0) in
    let lo' = if odd then add32 lo b_lo else lo in
    let hi' = if odd then sum_hi b_lo b_hi (add32 lo b_lo) hi else hi in
    let rest = mult_loop n (sar32 a 1) (shl32 b_lo 1) (next_b_hi b_lo b_hi) lo' hi' in
    if odd && (bit_and a 4294967294 == 0) then (hi', lo') else rest

-- The two's complement of a double word.
abbrev pub negated : ℕ × ℕ → ℕ × ℕ
negated (hi, lo) =
    let lo' = add32 (not32 lo) 1 in (if lo' == 0 then add32 (not32 hi) 1 else not32 hi, lo')

-- The words that `Mult` stores at `hiPtr` and `loPtr`.
unfoldable pub mult : ℕ → ℕ → Bool → ℕ × ℕ
unfolding mult_loop
mult a b signed_arith =
    let a' = if signed_arith && negative a then neg32 a else a in
    let b' = if signed_arith && negative b then neg32 b else b in
    let differ = if negative a then not (negative b) else negative b in
    let product = mult_loop 32 a' b' 0 0 0 in
    if (a == 0) || (b == 0)
    then (0, 0)
    else if signed_arith && differ
    then negated product
    else product
