-- ===== src/BitMap/Bits.antt =====
-- `Mark`, `Clear` and `Test` together: a map is a set of numbers below `num_bits`.
use osproject.Base.{
  ℕ, ◌<◌, ◌≡◌, refl, inl, inr, Bool, true, false, if◌then◌else◌, ◌==◌, ltb, ltb→lt, arith,
  Bool-cases,
}
use osproject.Base.Outcome.{ok}
use osproject.BitMap.{BitMap, mark, clear, test}
use osproject.BitMap.Abstract.{
  holds, IsValid, marked, cleared, mark_lem, clear_lem, test_lem, marked-IsValid, cleared-IsValid,
  holds-marked, holds-cleared, out_of_range,
}

-- `test` on a map that differs from `b` at bit `i` only.
test-changed :
    (b b' : BitMap) (i : ℕ) (bit : Bool)
    → IsValid b
    → IsValid b'
    → i < b.num_bits
    → b'.num_bits ≡ b.num_bits
    → ((j : ℕ) → holds b' j ≡ (if i == j then bit else holds b j))
    → (j : ℕ) → test b' j ≡ (if i == j then ok bit else test b j)
test-changed b b' i bit v v' h bits same j = elim (Bool-cases (ltb j b.num_bits)) [
  | inl inside ↦
      let h' : j < b.num_bits = ltb→lt _ _ inside in
      rw (test_lem b' j v' (omega arith), test_lem b j v h', same j)
        (elim (Bool-cases (i == j)) [ inl e ↦ rw e refl | inr ne ↦ rw ne refl ])
  | inr outside ↦
      let ne : (i == j) ≡ false = ground arith in
      rw (ne, (out_of_range b' j (ground arith)).2, (out_of_range b j (ground arith)).2) refl
]

-- On a well-formed map and for a bit in range, Mark sets that bit and Clear clears it: a later
-- Test of any number, in range or not, gives what it gave before but for that bit, and the map
-- stays well-formed.
pub mark-clear-test :
    (b : BitMap) (i : ℕ)
    → IsValid b
    → i < b.num_bits
    → ((b' : BitMap) × (mark b i ≡ ok b')
        × IsValid b'
        × ((j : ℕ) → test b' j ≡ (if i == j then ok true else test b j)))
      × ((b' : BitMap) × (clear b i ≡ ok b')
          × IsValid b'
          × ((j : ℕ) → test b' j ≡ (if i == j then ok false else test b j)))
mark-clear-test b i v h = (
  (
    marked b i,
    mark_lem b i v h,
    marked-IsValid b i v,
    test-changed b (marked b i) i true v (marked-IsValid b i v) h refl
        (λ j. holds-marked b i j v h),
  ),
  (
    cleared b i,
    clear_lem b i v h,
    cleared-IsValid b i v,
    test-changed b (cleared b i) i false v (cleared-IsValid b i v) h refl
        (λ j. holds-cleared b i j v h),
  ),
)
