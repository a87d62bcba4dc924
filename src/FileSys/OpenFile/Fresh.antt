-- ===== src/FileSys/OpenFile/Fresh.antt =====
-- A header that `Allocate` has filled is a file.
use osproject.Base.{
  ℕ, zero, suc, ◌+◌, ◌*◌, ◌≤◌, ◌<◌, ◌≡◌, ◌≢◌, refl, sym, ap, true, false, some, List, [], ◌∷◌, ltb,
  get_elem?, get_or, length, All, Distinct, arith,
}
use mathlib.Core.Path.{subst}
use osproject.Base.Int.{ℤ, pos}
use osproject.Base.Outcome.{ok}
use osproject.BitMap.{BitMap, div_round_up}
use osproject.BitMap.Abstract.{IsValid}
use osproject.BitMap.Search.{clears, num_clear_lem}
use osproject.FileSys.FileHeader.{FileHeader, sector_size, num_direct, allocate}
use osproject.FileSys.FileHeader.Laws.{
  mark_each, write_each, write_each-Stored, Stored, IsFree, allocate_from_lem,
}
use osproject.FileSys.OpenFile.{num_sectors_of_disk}
use osproject.FileSys.OpenFile.Loops.{IsFile}

Stored-at :
    (l : List ℤ) (xs : List ℕ) (i j : ℕ)
    → Stored l i xs
    → j < length xs
    → get_elem? l (i + j) ≡ some (pos (get_or xs j 0))
Stored-at l [] i j stored h = elim h [ ]
Stored-at l (x ∷ xs) i zero (at, stored) h = let e : i + zero ≡ i = omega arith in rw e at
Stored-at l (x ∷ xs) i (suc j) (at, stored) h =
    let e : i + suc j ≡ i + 1 + j = omega arith in
    rw e (Stored-at l xs (i + 1) j stored (omega arith))

All-at : (P : ℕ → Type 0) (xs : List ℕ) (j : ℕ) → All P xs → j < length xs → P (get_or xs j 0)
All-at P [] j all h = elim h [ ]
All-at P (x ∷ xs) zero (here, all) h = here
All-at P (x ∷ xs) (suc j) (here, all) h = All-at P xs j all (omega arith)

Distinct-at :
    (xs : List ℕ) (i j : ℕ)
    → Distinct xs
    → i < length xs
    → j < length xs
    → i ≢ j
    → get_or xs i 0 ≢ get_or xs j 0
Distinct-at [] i j d h h' ne = elim h [ ]
Distinct-at (x ∷ xs) zero zero d h h' ne = absurd (ne refl)
Distinct-at (x ∷ xs) zero (suc j) (out, d) h h' ne =
    λ e. All-at (λ y. y ≢ x) xs j out (omega arith) (sym e)
Distinct-at (x ∷ xs) (suc i) zero (out, d) h h' ne =
    λ e. All-at (λ y. y ≢ x) xs i out (omega arith) e
Distinct-at (x ∷ xs) (suc i) (suc j) (out, d) h h' ne =
    Distinct-at xs i j d (omega arith) (omega arith) (λ e. ne (ap suc e))

-- On a well-formed map of the whole disk with enough clear sectors, and for a size that the header
-- has room for, Allocate returns true and a header with that size, at most the largest that a
-- header can hold, in which each part of the file has a sector on the disk of its own.
pub allocate-IsFile :
    (file_size : ℕ) (h : FileHeader) (b : BitMap)
    → IsValid b
    → b.num_bits ≡ num_sectors_of_disk
    → length h.data_sectors ≡ num_direct
    → div_round_up file_size sector_size ≤ num_direct
    → div_round_up file_size sector_size ≤ clears b b.num_bits
    → (h' : FileHeader) × (b' : BitMap) × (sectors : ℕ → ℕ) × (allocate file_size h b
        ≡ ok (h', b', true))
      × (h'.num_bytes ≡ file_size)
      × IsFile h' sectors
unfolding allocate
allocate-IsFile file_size h b v whole len fits enough =
    let n = div_round_up file_size sector_size in
    let h1 : FileHeader = record h { num_bytes = file_size; num_sectors = n } in
    let (taken, l, once, free, step) = allocate_from_lem n 0 h1 b v enough (omega arith) in
    let h' : FileHeader = record h1 { data_sectors = write_each 0 taken h.data_sectors } in
    let not_few : ltb (clears b b.num_bits) n ≡ false = ground arith in
    let stored = write_each-Stored taken 0 h.data_sectors (omega arith) in
    let inside : (i : ℕ) → i * sector_size < file_size → i < length taken =
      λ i small. ground arith in
    (
      h',
      mark_each b taken,
      (λ i. get_or taken i 0),
      rw (num_clear_lem b v, not_few, step) refl,
      refl,
      record {
        entry = λ i small.
            subst (λ z. get_elem? h'.data_sectors z ≡ some (pos (get_or taken i 0))) (omega arith)
              (Stored-at h'.data_sectors taken 0 i stored (inside i small));
        on_disk = λ i small.
            subst (λ z. get_or taken i 0 < z) whole
              (All-at (IsFree b) taken i free (inside i small)).0;
        apart =
            λ i j small small' ne. Distinct-at taken i j once (inside i small) (inside j small') ne;
        bounded = ground arith;
      },
    )
