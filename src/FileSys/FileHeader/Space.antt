-- ===== src/FileSys/FileHeader/Space.antt =====
-- `Allocate` and `Deallocate` as a whole.
use osproject.Base.{
  ℕ, ◌≤◌, ◌<◌, ◌≡◌, refl, sym, ◌∙◌, ◌⊎◌, inl, inr, true, false, List, [], ◌∷◌, ltb, length, All,
  Distinct, arith, Bool-cases,
}
use mathlib.Core.Path.{subst}
use osproject.Base.Outcome.{ok, fault}
use osproject.BitMap.{BitMap, div_round_up}
use osproject.BitMap.Abstract.{holds, IsValid, marked, marked-IsValid}
use osproject.BitMap.Search.{clears, num_clear_lem}
use osproject.FileSys.FileHeader.{
  FileHeader, sector_size, num_direct, allocate, deallocate_from, deallocate,
}
use osproject.FileSys.FileHeader.Laws.{
  mark_each, clear_each, write_each, write_each-Stored, IsFree, IsTaken, allocate_from_lem,
  allocate_from-fault, deallocate_from_lem, member, member-IsFree, holds-mark_each,
  holds-clear_each,
}

-- On a well-formed map, for a header with NumDirect entries, Allocate changes nothing in the map
-- and returns false when fewer sectors are clear than the size needs; it takes that many sectors,
-- which were clear and are pairwise different, and marks them, when the header has room for them;
-- and it writes past the end of the header when it has not.
pub allocate_lem :
    (file_size n : ℕ) (h : FileHeader) (b : BitMap)
    → IsValid b
    → length h.data_sectors ≡ num_direct
    → n ≡ div_round_up file_size sector_size
    → ((clears b b.num_bits < n)
        × (allocate file_size h b
            ≡ ok (record h { num_bytes = file_size; num_sectors = n }, b, false)))
      ⊎ ((n ≤ clears b b.num_bits) × (num_direct < n) × (allocate file_size h b ≡ fault))
      ⊎ ((n ≤ num_direct)
          × ((taken : List ℕ) × (length taken ≡ n)
              × Distinct taken
              × All (IsFree b) taken
              × (allocate file_size h b
                  ≡ ok (
                    record {
                      num_bytes = file_size;
                      num_sectors = n;
                      data_sectors = write_each 0 taken h.data_sectors;
                    },
                    mark_each b taken,
                    true,
                  ))))
unfolding allocate
allocate_lem file_size n h b v len is_n = elim (Bool-cases (ltb (clears b b.num_bits) n)) [
  | inl few ↦ inl (ground arith, rw (num_clear_lem b v, ← is_n, few) refl)
  | inr enough ↦
      let h' : FileHeader = record h { num_bytes = file_size; num_sectors = n } in
      elim (Bool-cases (ltb num_direct n)) [
        | inl over ↦ inr (
            inl (
              ground arith,
              ground arith,
              rw
                  (
                    num_clear_lem b v,
                    ← is_n,
                    enough,
                    allocate_from-fault n 0 h' b v (ground arith) (omega arith) (ground arith),
                  )
                  refl,
            ))
        | inr fits ↦
            let (taken, l, once, free, step) =
              allocate_from_lem n 0 h' b v (ground arith) (ground arith) in
            inr (
              inr (
                ground arith,
                (taken, l, once, free, rw (num_clear_lem b v, ← is_n, enough, step) refl),
              ))
      ]
]

All-small : (b : BitMap) (xs : List ℕ) → All (IsFree b) xs → All (λ x. x < b.num_bits) xs
All-small b [] all = tt
All-small b (x ∷ xs) ((small, free), all) = (small, All-small b xs all)

num_bits-mark_each : (b : BitMap) (xs : List ℕ) → (mark_each b xs).num_bits ≡ b.num_bits
num_bits-mark_each b [] = refl
num_bits-mark_each b (x ∷ xs) = num_bits-mark_each (marked b x) xs

mark_each-IsValid : (b : BitMap) (xs : List ℕ) → IsValid b → IsValid (mark_each b xs)
mark_each-IsValid b [] v = v
mark_each-IsValid b (x ∷ xs) v = mark_each-IsValid (marked b x) xs (marked-IsValid b x v)

member_self : (x : ℕ) (xs : List ℕ) → member x (x ∷ xs) ≡ true
member_self x xs = ground arith

IsTaken-mark_each :
    (b : BitMap) (xs ys : List ℕ)
    → IsValid b
    → All (λ x. x < b.num_bits) xs
    → All (λ y. (y < b.num_bits) × (member y xs ≡ true)) ys
    → All (IsTaken (mark_each b xs)) ys
IsTaken-mark_each b xs [] v small all = tt
IsTaken-mark_each b xs (y ∷ ys) v small ((in_range, m), all) = (
  (rw (num_bits-mark_each b xs) in_range, holds-mark_each b xs y v small ∙ rw m refl),
  IsTaken-mark_each b xs ys v small all,
)

members_later :
    (n x : ℕ) (xs ys : List ℕ)
    → All (λ y. (y < n) × (member y xs ≡ true)) ys
    → All (λ y. (y < n) × (member y (x ∷ xs) ≡ true)) ys
members_later n x xs [] all = tt
members_later n x xs (y ∷ ys) ((small, m), all) =
    ((small, ground arith), members_later n x xs ys all)

members :
    (b : BitMap) (xs : List ℕ)
    → All (IsFree b) xs
    → All (λ y. (y < b.num_bits) × (member y xs ≡ true)) xs
members b [] all = tt
members b (x ∷ xs) ((small, free), all) =
    ((small, member_self x xs), members_later b.num_bits x xs xs (members b xs all))

-- On a well-formed map with enough clear sectors, and for a size that the header has room for,
-- Allocate returns true, Deallocate of the header then returns, and the map is as before, bit by
-- bit.
pub deallocate-allocate :
    (file_size : ℕ) (h : FileHeader) (b : BitMap)
    → IsValid b
    → length h.data_sectors ≡ num_direct
    → div_round_up file_size sector_size ≤ num_direct
    → div_round_up file_size sector_size ≤ clears b b.num_bits
    → (h1 : FileHeader) × (b1 : BitMap) × (b2 : BitMap) × (allocate file_size h b
        ≡ ok (h1, b1, true))
      × (deallocate h1 b1 ≡ ok b2)
      × ((j : ℕ) → holds b2 j ≡ holds b j)
unfolding deallocate allocate
deallocate-allocate file_size h b v len fits enough =
    let n = div_round_up file_size sector_size in
    let h' : FileHeader = record h { num_bytes = file_size; num_sectors = n } in
    let (taken, l, once, free, step) = allocate_from_lem n 0 h' b v enough (omega arith) in
    let h1 : FileHeader = record h' { data_sectors = write_each 0 taken h.data_sectors } in
    let b1 = mark_each b taken in
    let small = All-small b taken free in
    let given_back =
      deallocate_from_lem taken 0 h1 b1 (mark_each-IsValid b taken v)
        (write_each-Stored taken 0 h.data_sectors (omega arith)) once
        (IsTaken-mark_each b taken taken v small (members b taken free)) in
    let not_few : ltb (clears b b.num_bits) n ≡ false = ground arith in
    (
      h1,
      b1,
      clear_each b1 taken,
      rw (num_clear_lem b v, not_few, step) refl,
      subst (λ z. deallocate_from 0 z h1 b1 ≡ ok (clear_each b1 taken)) l given_back,
      λ j.
          holds-clear_each b1 taken j (mark_each-IsValid b taken v)
            (rw (num_bits-mark_each b taken) small)
          ∙ rw (holds-mark_each b taken j v small) (elim (Bool-cases (member j taken)) [
            | inl m ↦ rw m (sym (member-IsFree b j taken free m))
            | inr m ↦ rw m refl
          ]),
    )
