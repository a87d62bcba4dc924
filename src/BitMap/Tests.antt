-- ===== src/BitMap/Tests.antt =====
-- Runs of the bit map, and instances of its theorems.
use osproject.Base.{
  ℕ, suc, ◌<◌, ◌≡◌, refl, ◌⊎◌, true, false, none, some, [], ◌∷◌, if◌then◌else◌, ◌==◌, arith,
}
use osproject.Base.Outcome.{ok, abort}
use osproject.BitMap.{BitMap, mark, clear, test, find, num_clear}
use osproject.BitMap.Abstract.{IsValid, holds, marked}
use osproject.BitMap.Search.{AllSet, find-num_clear}
use osproject.BitMap.Bits.{mark-clear-test}

abbrev two_set : BitMap
two_set = record { num_bits = 6; num_words = 1; map = 5 ∷ [] }

two_set-IsValid : IsValid two_set
two_set-IsValid = record { words = refl; covered = omega arith }

find_second : find two_set ≡ ok (record two_set { map = 7 ∷ [] }, some 1)
unfolding find mark test
find_second = refl

count_four : num_clear two_set ≡ ok 4
unfolding num_clear test
count_four = refl

past_the_end : test two_set 6 ≡ abort
unfolding test
past_the_end = refl

mark-clear-test_example :
    ((b' : BitMap) × (mark two_set 3 ≡ ok b')
      × IsValid b'
      × ((j : ℕ) → test b' j ≡ (if 3 == j then ok true else test two_set j)))
    × ((b' : BitMap) × (clear two_set 3 ≡ ok b')
        × IsValid b'
        × ((j : ℕ) → test b' j ≡ (if 3 == j then ok false else test two_set j)))
mark-clear-test_example = mark-clear-test two_set 3 two_set-IsValid (omega arith)

find-num_clear_example :
    ((num_clear two_set ≡ ok 0) × (find two_set ≡ ok (two_set, none)))
    ⊎ ((i : ℕ) × (c : ℕ) × (find two_set ≡ ok (marked two_set i, some i))
        × (i < 6)
        × (holds two_set i ≡ false)
        × AllSet two_set i
        × (num_clear two_set ≡ ok (suc c))
        × (num_clear (marked two_set i) ≡ ok c))
find-num_clear_example = find-num_clear two_set two_set-IsValid
