-- ===== src/FileSys/Tests.antt =====
-- Directories, headers and files at work on small inputs, and the theorems at inputs that meet their
-- hypotheses.
use osproject.Base.{
  ℕ, zero, suc, ◌+◌, ◌*◌, ◌<◌, ◌≤◌, ◌≡◌, refl, sym, ◌⊎◌, true, false, none, some, List, [], ◌∷◌,
  if◌then◌else◌, ltb, length, get_elem?, replicate, Distinct, All, arith,
}
use mathlib.Core.Path.{subst}
use osproject.Base.Bits.{bit_at}
use osproject.Base.Int.{pos}
use osproject.Base.Outcome.{ok, fault}
use osproject.BitMap.{BitMap, div_round_up}
use osproject.BitMap.Abstract.{IsValid, holds}
use osproject.BitMap.Search.{clears}
use osproject.FileSys.Directory.{DirectoryEntry, Directory, add, remove}
use osproject.FileSys.Directory.Table.{lookup, same, Unique, any_free}
use osproject.FileSys.Directory.Laws.{add_lem, remove_lem}
use osproject.FileSys.FileHeader.{FileHeader, sector_size, allocate, deallocate}
use osproject.FileSys.FileHeader.Laws.{IsFree, write_each, mark_each}
use osproject.FileSys.FileHeader.Space.{allocate_lem, deallocate-allocate}
use osproject.FileSys.OpenFile.{Buffer, Disk, read_at, write_at}
use osproject.FileSys.OpenFile.Loops.{IsFile, clipped, content, within}
use osproject.FileSys.OpenFile.Write.{write_at-content, read_at-write_at}
use osproject.FileSys.OpenFile.Fresh.{allocate-IsFile}

abbrev free_entry : DirectoryEntry
free_entry = record { in_use = false; sector = 0; name = [] }

abbrev one_file : Directory
one_file = record {
  table = record { in_use = true; sector = 5; name = 97 ∷ [] } ∷ free_entry ∷ [];
  table_size = 2;
}

one_file-Unique : Unique one_file.table
one_file-Unique = ((λ h. refl), ((λ h. refl), tt))

add_lem_example :
    ((add one_file (98 ∷ []) 6 ≡ (one_file, false))
      × (((x : ℕ) × (lookup one_file.table (98 ∷ []) ≡ some x))
          ⊎ (any_free one_file.table ≡ false)))
    ⊎ ((d' : Directory) × (add one_file (98 ∷ []) 6 ≡ (d', true))
        × (lookup one_file.table (98 ∷ []) ≡ none)
        × (any_free one_file.table ≡ true)
        × Unique d'.table
        × ((m : List ℕ)
            → lookup d'.table m ≡ (if same (98 ∷ []) m then some 6 else lookup one_file.table m)))
add_lem_example = add_lem one_file (98 ∷ []) 6 one_file-Unique

remove_lem_example :
    ((lookup one_file.table (97 ∷ []) ≡ none) × (remove one_file (97 ∷ []) ≡ ok (one_file, false)))
    ⊎ ((d' : Directory) × (remove one_file (97 ∷ []) ≡ ok (d', true))
        × Unique d'.table
        × ((m : List ℕ)
            → lookup d'.table m ≡ (if same (97 ∷ []) m then none else lookup one_file.table m)))
remove_lem_example = remove_lem one_file (97 ∷ []) one_file-Unique

-- A disk with all its sectors free, and a header with nothing in it.
abbrev empty_map : BitMap
empty_map = record { num_bits = 1024; num_words = 32; map = replicate 32 0 }

abbrev empty_header : FileHeader
empty_header = record { num_bytes = 0; num_sectors = 0; data_sectors = replicate 30 (pos 0) }

empty_map-IsValid : IsValid empty_map
empty_map-IsValid = record { words = refl; covered = omega arith }

allocate_lem_example :
    ((clears empty_map 1024 < 2)
      × (allocate 200 empty_header empty_map
          ≡ ok (record empty_header { num_bytes = 200; num_sectors = 2 }, empty_map, false)))
    ⊎ ((2 ≤ clears empty_map 1024) × (30 < 2) × (allocate 200 empty_header empty_map ≡ fault))
    ⊎ ((2 ≤ 30)
        × ((taken : List ℕ) × (length taken ≡ 2)
            × Distinct taken
            × All (IsFree empty_map) taken
            × (allocate 200 empty_header empty_map
                ≡ ok (
                  record {
                    num_bytes = 200;
                    num_sectors = 2;
                    data_sectors = write_each 0 taken empty_header.data_sectors;
                  },
                  mark_each empty_map taken,
                  true,
                ))))
allocate_lem_example = allocate_lem 200 2 empty_header empty_map empty_map-IsValid refl refl

all_free : clears empty_map 1024 ≡ 1024
unfolding holds bit_at
all_free = refl

enough_free : div_round_up 200 sector_size ≤ clears empty_map 1024
enough_free = subst (λ n. 2 ≤ n) (sym all_free) (omega arith)

deallocate-allocate_example :
    (h1 : FileHeader) × (b1 : BitMap) × (b2 : BitMap) × (allocate 200 empty_header empty_map
      ≡ ok (h1, b1, true))
    × (deallocate h1 b1 ≡ ok b2)
    × ((j : ℕ) → holds b2 j ≡ holds empty_map j)
deallocate-allocate_example =
    deallocate-allocate 200 empty_header empty_map empty_map-IsValid refl (omega arith) enough_free

allocate-IsFile_example :
    (h' : FileHeader) × (b' : BitMap) × (sectors : ℕ → ℕ) × (allocate 200 empty_header empty_map
      ≡ ok (h', b', true))
    × (h'.num_bytes ≡ 200)
    × IsFile h' sectors
allocate-IsFile_example =
    allocate-IsFile 200 empty_header empty_map empty_map-IsValid refl refl (omega arith) enough_free

-- A file of 200 bytes in the sectors 7 and 9.
abbrev small_header : FileHeader
small_header = record { num_bytes = 200; num_sectors = 2; data_sectors = pos 7 ∷ pos 9 ∷ [] }

abbrev small_sectors : ℕ → ℕ
small_sectors i = 7 + 2 * i

small_entry :
    (i : ℕ)
    → i * sector_size < 200
    → get_elem? small_header.data_sectors i ≡ some (pos (small_sectors i))
small_entry zero h = refl
small_entry (suc zero) h = refl
small_entry (suc (suc i)) h = absurd (omega arith)

small-IsFile : IsFile small_header small_sectors
small-IsFile = record {
  entry = small_entry;
  on_disk = λ i h. omega arith;
  apart = λ i j h h' ne e. ne (omega arith);
  bounded = omega arith;
}

abbrev zero_disk : Disk
zero_disk = λ q b. 0

abbrev ten_bytes : Buffer
ten_bytes = record { size = 10; bytes = λ j. j + 1 }

write_at-content_example :
    (disk' : Disk) × (write_at small_header zero_disk (λ j. 99) ten_bytes 10 125
      ≡ ok (disk', clipped 200 10 125))
    × (content small_sectors disk' 130
        ≡ (if within 125 (125 + clipped 200 10 125) 130 then 6 else 0))
    × (disk' 8 3 ≡ 0)
write_at-content_example =
    write_at-content small_header small_sectors small-IsFile zero_disk (λ j. 99) ten_bytes 10 125
      130 8 3 (omega arith) (omega arith) (omega arith) (omega arith) (omega arith)
      (λ m h e. omega arith)

read_at-write_at_example :
    (disk' : Disk) × (into' : Buffer) × (write_at small_header zero_disk (λ j. 99) ten_bytes 10 125
      ≡ ok (disk', clipped 200 10 125))
    × (read_at small_header disk' (λ j. 98) ten_bytes 0 10 125 ≡ ok (into', clipped 200 10 125))
    × ((j : ℕ) → into'.bytes j ≡ (if ltb j (clipped 200 10 125) then j + 1 else j + 1))
read_at-write_at_example =
    read_at-write_at small_header small_sectors small-IsFile zero_disk (λ j. 99) (λ j. 98) ten_bytes
      ten_bytes 10 125 (omega arith) (omega arith) (omega arith) (omega arith) (omega arith)
