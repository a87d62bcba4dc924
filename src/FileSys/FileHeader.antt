-- ===== src/FileSys/FileHeader.antt =====
-- filesys/filehdr.cc: the header of a file, and the sectors of the disk that it takes from the map
-- of free sectors (userprog/bitmap.cc) and gives back. An `int` is an integer here, since `Find`
-- returns -1 when it finds nothing; a file size is not negative.
pub mod Laws
pub mod Space
use osproject.Base.{
  ℕ, zero, suc, ◌+◌, ◌/◌, Bool, true, false, Option, none, some, List, [], ◌∷◌, ltb, if◌then◌else◌,
  get_elem?,
}
use osproject.Base.Int.{ℤ, pos, negsuc}
use osproject.Base.Outcome.{Outcome, ok, abort, ◌>>=◌, ◌>>◌, assert, deref, store}
use osproject.BitMap.{BitMap, div_round_up, clear, test, find, num_clear}

abbrev pub sector_size : ℕ
sector_size = 128

-- `NumDirect`, the length of `dataSectors`
abbrev pub num_direct : ℕ
num_direct = 30

pub record FileHeader : Type 0 where
  pub num_bytes : ℕ
  pub num_sectors : ℕ
  pub data_sectors : List ℤ

-- What `BitMap::Find` returns.
abbrev pub found_sector : Option ℕ → ℤ
found_sector none = negsuc 0
found_sector (some i) = pos i

-- The assertions of `BitMap` on an index, as far as the sign goes.
abbrev pub bit_index : ℤ → Outcome ℕ
bit_index (pos i) = ok i
bit_index (negsuc i) = abort

-- The loop of `Allocate` from `i` on, with `n` rounds left.
unfoldable pub allocate_from : ℕ → ℕ → FileHeader → BitMap → Outcome (FileHeader × BitMap)
allocate_from i zero h free_map = ok (h, free_map)
allocate_from i (suc n) h free_map = do
  (free_map', found) ← find free_map
  sectors ← store h.data_sectors i (found_sector found)
  allocate_from (i + 1) n (record h { data_sectors = sectors }) free_map'

-- `FileHeader::Allocate`
unfoldable pub allocate : ℕ → FileHeader → BitMap → Outcome (FileHeader × BitMap × Bool)
allocate file_size h free_map = do
  let n = div_round_up file_size sector_size
  let h' = record h { num_bytes = file_size; num_sectors = n }
  left ← num_clear free_map
  let taken = allocate_from 0 n h' free_map >>= λ (h1, free_map'). ok (h1, free_map', true)
  if ltb left n then ok (h', free_map, false) else taken

-- The loop of `Deallocate` from `i` on, with `n` rounds left.
unfoldable pub deallocate_from : ℕ → ℕ → FileHeader → BitMap → Outcome BitMap
deallocate_from i zero h free_map = ok free_map
deallocate_from i (suc n) h free_map = do
  sector ← deref (get_elem? h.data_sectors i)
  which ← bit_index sector
  used ← test free_map which
  assert used
  free_map' ← clear free_map which
  deallocate_from (i + 1) n h free_map'

-- `FileHeader::Deallocate`
unfoldable pub deallocate : FileHeader → BitMap → Outcome BitMap
deallocate h free_map = deallocate_from 0 h.num_sectors h free_map

-- `FileHeader::ByteToSector`
unfoldable pub byte_to_sector : FileHeader → ℕ → Outcome ℤ
byte_to_sector h offset = deref (get_elem? h.data_sectors (offset / sector_size))

-- `FileHeader::FileLength`
unfoldable pub file_length : FileHeader → ℕ
file_length h = h.num_bytes
