-- ===== src/FileSys/OpenFile/Laws.antt =====
-- A file is an array of bytes: what `ReadAt` copies of it.
use osproject.Base.{
  ℕ, ◌+◌, ◌-◌, ◌*◌, ◌/◌, ◌^◌, ◌≤◌, ◌<◌, ◌≡◌, refl, ◌∙◌, inl, inr, Bool, true, false, ◌&&◌, ◌||◌,
  leb, ltb, ◌==◌, if◌then◌else◌, arith, Bool-cases, lt→ltb,
}
use osproject.Base.Outcome.{ok}
use osproject.FileSys.FileHeader.{FileHeader, sector_size, file_length}
use osproject.FileSys.OpenFile.{Buffer, Disk, bcopy, clip, read_part, read_at, read_if}
use osproject.FileSys.OpenFile.Loops.{
  IsFile, clipped, content, within, within_bounds, within-true, leb-true, read_sectors_lem,
}

-- An `int` that holds the end of the request clips it at the end of the file.
pub clip_lem :
    (len num_bytes position : ℕ)
    → position + num_bytes < 2 ^ 31
    → clip len num_bytes position ≡ ok (clipped len num_bytes position)
unfolding clip
clip_lem len num_bytes position h =
    let small : ltb (position + num_bytes) (2 ^ 31) ≡ true = lt→ltb _ _ h in rw small refl

module _ (hdr : FileHeader) (sectors : ℕ → ℕ) (file : IsFile hdr sectors) where
  read_part_lem :
      (disk : Disk) (garbage : ℕ → ℕ) (into : Buffer) (offset n position : ℕ)
      → 0 < n
      → position + n ≤ hdr.num_bytes
      → offset + n ≤ into.size
      → (into' : Buffer) × (read_part hdr disk garbage into offset n position ≡ ok (into', n))
        × (into'.size ≡ into.size)
        × ((j : ℕ)
            → into'.bytes j ≡ (
                if within offset (offset + n) j
                then content sectors disk (position + (j - offset))
                else into.bytes j))
  unfolding read_part bcopy
  read_part_lem disk garbage into offset n position some_bytes in_file room =
      let first = position / sector_size in
      let last = (position + n - 1) / sector_size in
      let k = 1 + last - first in
      let buf : Buffer = record { size = k * sector_size; bytes = garbage } in
      let (buf', step, size, at) =
        read_sectors_lem hdr sectors file k first first disk buf (omega arith) (λ m h. omega arith)
          (omega arith) in
      let start = position - first * sector_size in
      let fits : leb (start + n) buf'.size ≡ true = leb-true _ _ (omega arith) in
      let fits' : leb (offset + n) into.size ≡ true = leb-true _ _ room in
      (
        record into {
          bytes = λ j.
              if within offset (offset + n) j
              then buf'.bytes (start + (j - offset))
              else into.bytes j;
        },
        rw (step, fits, fits') refl,
        refl,
        λ j. elim (Bool-cases (within offset (offset + n) j)) [
          | inl mid ↦
              let (lo, hi) = within_bounds offset (offset + n) j mid in
              let in_buf : within ((first - first) * sector_size)
                    ((first + k - first) * sector_size) (start + (j - offset))
                  ≡ true =
                within-true ((first - first) * sector_size) ((first + k - first) * sector_size)
                  (start + (j - offset)) (omega arith) (omega arith) in
              let place : first * sector_size + (start + (j - offset)) ≡ position + (j - offset) =
                omega arith in
              rw mid (at (start + (j - offset)) ∙ rw (in_buf, place) refl)
          | inr out ↦ rw out refl
        ],
      )

  -- `ReadAt` at a position in the file copies the bytes of the file from there on, as many as are
  -- asked for or as there are, and nothing else.
  pub read_at_lem :
      (disk : Disk) (garbage : ℕ → ℕ) (into : Buffer) (offset num_bytes position : ℕ)
      → 0 < num_bytes
      → position < hdr.num_bytes
      → position + num_bytes < 2 ^ 31
      → offset + clipped hdr.num_bytes num_bytes position ≤ into.size
      → (into' : Buffer) × (read_at hdr disk garbage into offset num_bytes position
          ≡ ok (into', clipped hdr.num_bytes num_bytes position))
        × (into'.size ≡ into.size)
        × ((j : ℕ)
            → into'.bytes j ≡ (
                if within offset (offset + clipped hdr.num_bytes num_bytes position) j
                then content sectors disk (position + (j - offset))
                else into.bytes j))
  unfolding read_at file_length
  read_at_lem disk garbage into offset num_bytes position some_bytes in_file small room =
      let n = clipped hdr.num_bytes num_bytes position in
      let asks : (num_bytes == 0 || leb hdr.num_bytes position) ≡ false = ground arith in
      rw (asks, clip_lem hdr.num_bytes num_bytes position small)
        (read_part_lem disk garbage into offset n position (ground arith) (ground arith) room)

  pub read_if_lem :
      (test : Bool) (disk : Disk) (garbage : ℕ → ℕ) (buf : Buffer) (offset position : ℕ)
      → position < hdr.num_bytes
      → position + sector_size < 2 ^ 31
      → offset + sector_size ≤ buf.size
      → (buf' : Buffer) × (read_if test hdr disk garbage buf offset position ≡ ok buf')
        × (buf'.size ≡ buf.size)
        × ((j : ℕ)
            → buf'.bytes j ≡ (
                if test && within offset (offset + clipped hdr.num_bytes sector_size position) j
                then content sectors disk (position + (j - offset))
                else buf.bytes j))
  read_if_lem false disk garbage buf offset position in_file small room =
      (buf, refl, refl, λ j. refl)
  read_if_lem true disk garbage buf offset position in_file small room =
      let (buf', step, size, at) =
        read_at_lem disk garbage buf offset sector_size position (omega arith) in_file small
          (ground arith) in
      (buf', rw step refl, size, at)
