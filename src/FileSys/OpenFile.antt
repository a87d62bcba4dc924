-- ===== src/FileSys/OpenFile.antt =====
-- filesys/openfile.cc: reading and writing a part of a file, whole sectors at a time. A position and
-- a number of bytes are not negative; a sum of the two that an `int` does not hold is a fault.
-- `garbage` is what `new char[]` finds in memory.
pub mod Loops
pub mod Laws
pub mod Ends
pub mod Write
pub mod Fresh
use osproject.Base.{
  ℕ, zero, suc, ◌+◌, ◌-◌, ◌*◌, ◌/◌, ◌%◌, ◌^◌, Bool, true, false, not, ◌&&◌, ◌||◌, ltb, leb, ◌==◌,
  if◌then◌else◌,
}
use osproject.Base.Int.{ℤ, pos, negsuc}
use osproject.Base.Outcome.{Outcome, ok, abort, fault, ◌>>=◌, ◌>>◌, assert}
use osproject.FileSys.FileHeader.{FileHeader, sector_size, byte_to_sector, file_length}

-- An array of `size` characters.
pub record Buffer : Type 0 where
  pub size : ℕ
  pub bytes : ℕ → ℕ

-- The bytes of each sector.
abbrev pub Disk : Type 0
Disk = ℕ → ℕ → ℕ

-- `NumSectors` (machine/disk.h)
abbrev pub num_sectors_of_disk : ℕ
num_sectors_of_disk = 1024

-- `n` bytes are copied to `to[offset]` and on.
abbrev pub put_bytes : Buffer → ℕ → ℕ → (ℕ → ℕ) → Outcome Buffer
put_bytes to offset n bytes =
    if leb (offset + n) to.size
    then ok (record to {
      bytes = λ j. if leb offset j && ltb j (offset + n) then bytes (j - offset) else to.bytes j;
    })
    else fault

-- `bcopy(&from[start], &to[offset], n)`
unfoldable pub bcopy : Buffer → ℕ → Buffer → ℕ → ℕ → Outcome Buffer
bcopy from start to offset n =
    if leb (start + n) from.size then put_bytes to offset n (λ j. from.bytes (start + j)) else fault

-- The assertions of `ReadRequest` and `WriteRequest` on the sector.
abbrev pub sector_number : ℤ → Outcome ℕ
sector_number (pos s) = assert (ltb s num_sectors_of_disk) >> ok s
sector_number (negsuc s) = abort

-- `SynchDisk::ReadSector`, into `&buf[offset]`.
unfoldable pub read_sector : Disk → ℤ → Buffer → ℕ → Outcome Buffer
read_sector disk sector buf offset = do
  s ← sector_number sector
  put_bytes buf offset sector_size (disk s)

-- `SynchDisk::WriteSector`, from `&buf[offset]`.
unfoldable pub write_sector : Disk → ℤ → Buffer → ℕ → Outcome Disk
write_sector disk sector buf offset = do
  s ← sector_number sector
  if leb (offset + sector_size) buf.size
      then ok (λ q j. if q == s && ltb j sector_size then buf.bytes (offset + j) else disk q j)
      else fault

-- `for (i = firstSector; i <= lastSector; i++)` in `ReadAt` from `i` on, with `n` rounds left.
unfoldable pub read_sectors : FileHeader → Disk → ℕ → ℕ → ℕ → Buffer → Outcome Buffer
read_sectors hdr disk first i zero buf = ok buf
read_sectors hdr disk first i (suc n) buf = do
  sector ← byte_to_sector hdr (i * sector_size)
  buf' ← read_sector disk sector buf ((i - first) * sector_size)
  read_sectors hdr disk first (i + 1) n buf'

-- The loop of `WriteAt`.
unfoldable pub write_sectors : FileHeader → Buffer → ℕ → ℕ → ℕ → Disk → Outcome Disk
write_sectors hdr buf first i zero disk = ok disk
write_sectors hdr buf first i (suc n) disk = do
  sector ← byte_to_sector hdr (i * sector_size)
  disk' ← write_sector disk sector buf ((i - first) * sector_size)
  write_sectors hdr buf first (i + 1) n disk'

-- `position + numBytes`, an addition of two `int`s that are not negative.
abbrev pub add_int : ℕ → ℕ → Outcome ℕ
add_int a b = if ltb (a + b) (2 ^ 31) then ok (a + b) else fault

-- `numBytes`, cut off at the end of the file.
unfoldable pub clip : ℕ → ℕ → ℕ → Outcome ℕ
clip len num_bytes position = do
  end ← add_int position num_bytes
  ok (if ltb len end then len - position else num_bytes)

-- `ReadAt` once the request is known to be in the file: into `&into[offset]`.
unfoldable pub read_part : FileHeader → Disk → (ℕ → ℕ) → Buffer → ℕ → ℕ → ℕ → Outcome (Buffer × ℕ)
read_part hdr disk garbage into offset n position = do
  let first = position / sector_size
  let last = (position + n - 1) / sector_size
  let num_sectors = 1 + last - first
  let buf : Buffer = record { size = num_sectors * sector_size; bytes = garbage }
  buf' ← read_sectors hdr disk first first num_sectors buf
  into' ← bcopy buf' (position - first * sector_size) into offset n
  ok (into', n)

-- `OpenFile::ReadAt`, into `&into[offset]`: the buffer and the number of bytes that are read.
unfoldable pub read_at : FileHeader → Disk → (ℕ → ℕ) → Buffer → ℕ → ℕ → ℕ → Outcome (Buffer × ℕ)
read_at hdr disk garbage into offset num_bytes position =
    let len = file_length hdr in
    if num_bytes == 0 || leb len position
    then ok (into, 0)
    else (clip len num_bytes position >>= λ n. read_part hdr disk garbage into offset n position)

-- A sector of the file is read into `buf`, if the test asks for it.
abbrev pub read_if : Bool → FileHeader → Disk → (ℕ → ℕ) → Buffer → ℕ → ℕ → Outcome Buffer
read_if test hdr disk garbage buf offset position =
    if test
    then (read_at hdr disk garbage buf offset sector_size position >>= λ (buf', n). ok buf')
    else ok buf

-- The buffer of `WriteAt`, with the first and the last sector read in if they are to be partially
-- modified: `firstSector` and `lastSector` are given.
unfoldable pub read_ends : FileHeader → Disk → (ℕ → ℕ) → ℕ → ℕ → ℕ → ℕ → Outcome Buffer
read_ends hdr disk garbage n position first last =
    let num_sectors = 1 + last - first in
    let buf : Buffer = record { size = num_sectors * sector_size; bytes = garbage } in
    let first_aligned = position == first * sector_size in
    let last_aligned = position + n == (last + 1) * sector_size in
    read_if (not first_aligned) hdr disk garbage buf 0 (first * sector_size) >>= λ buf'.
    read_if (not last_aligned && (not (first == last) || first_aligned)) hdr disk garbage buf'
      ((last - first) * sector_size) (last * sector_size)

-- `WriteAt` once the request is known to be in the file.
unfoldable pub write_part : FileHeader → Disk → (ℕ → ℕ) → Buffer → ℕ → ℕ → Outcome (Disk × ℕ)
write_part hdr disk garbage from n position = do
  let first = position / sector_size
  let last = (position + n - 1) / sector_size
  let num_sectors = 1 + last - first
  buf ← read_ends hdr disk garbage n position first last
  buf' ← bcopy from 0 buf (position - first * sector_size) n
  disk' ← write_sectors hdr buf' first first num_sectors disk
  ok (disk', n)

-- `OpenFile::WriteAt`: the disk and the number of bytes that are written.
unfoldable pub write_at : FileHeader → Disk → (ℕ → ℕ) → Buffer → ℕ → ℕ → Outcome (Disk × ℕ)
write_at hdr disk garbage from num_bytes position =
    let len = file_length hdr in
    if num_bytes == 0 || leb len position
    then ok (disk, 0)
    else (clip len num_bytes position >>= λ n. write_part hdr disk garbage from n position)

-- The members of `OpenFile`.
pub record OpenFile : Type 0 where
  pub hdr : FileHeader
  pub seek_position : ℕ

-- `OpenFile::Seek`
unfoldable pub seek : ℕ → OpenFile → OpenFile
seek position f = record f { seek_position = position }

-- `OpenFile::Read`
unfoldable pub read : OpenFile → Disk → (ℕ → ℕ) → Buffer → ℕ → Outcome (OpenFile × Buffer × ℕ)
read f disk garbage into num_bytes = do
  (into', result) ← read_at f.hdr disk garbage into 0 num_bytes f.seek_position
  ok (record f { seek_position = f.seek_position + result }, into', result)

-- `OpenFile::Write`
unfoldable pub write : OpenFile → Disk → (ℕ → ℕ) → Buffer → ℕ → Outcome (OpenFile × Disk × ℕ)
write f disk garbage from num_bytes = do
  (disk', result) ← write_at f.hdr disk garbage from num_bytes f.seek_position
  ok (record f { seek_position = f.seek_position + result }, disk', result)

-- `OpenFile::Length`
unfoldable pub length : OpenFile → ℕ
length f = file_length f.hdr
