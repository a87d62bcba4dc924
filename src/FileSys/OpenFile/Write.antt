-- ===== src/FileSys/OpenFile/Write.antt =====
-- `WriteAt` changes the bytes that it is given, and no other byte of the file.
use osproject.Base.{
  ℕ, ◌+◌, ◌-◌, ◌*◌, ◌/◌, ◌^◌, ◌≤◌, ◌<◌, ◌≡◌, ◌≢◌, refl, ap, ◌∙◌, inl, inr, true, false, ◌||◌, ltb,
  leb, ◌==◌, if◌then◌else◌, arith, Bool-cases,
}
use osproject.Base.Outcome.{ok, ◌>>=◌}
use osproject.FileSys.FileHeader.{FileHeader, sector_size, file_length}
use osproject.FileSys.OpenFile.{Buffer, Disk, bcopy, read_at, write_part, write_at, write_sectors}
use osproject.FileSys.OpenFile.Loops.{
  IsFile, clipped, content, within, within_bounds, leb-true, write_sectors_lem,
}
use osproject.FileSys.OpenFile.Laws.{clip_lem, read_at_lem}
use osproject.FileSys.OpenFile.Ends.{bind_ok, read_ends_lem}

-- What is written back sector by sector changes only the bytes that were copied in.
windows :
    (a b position n j : ℕ) (f : ℕ → ℕ) (y c : ℕ)
    → a ≤ position
    → position + n ≤ b
    → (within a b j ≡ true → within (position - a) (position - a + n) (j - a) ≡ false → y ≡ c)
    → (if within a b j
        then (if within (position - a) (position - a + n) (j - a)
            then f (0 + (j - a - (position - a)))
            else y)
        else c)
      ≡ (if within position (position + n) j then f (j - position) else c)
windows a b position n j f y c lo hi keep = elim (Bool-cases (within a b j)) [
  | inr out ↦
      let out' : within position (position + n) j ≡ false = ground arith in rw (out, out') refl
  | inl mid ↦ elim (Bool-cases (within (position - a) (position - a + n) (j - a))) [
    | inl new ↦
        let new' : within position (position + n) j ≡ true = ground arith in
        let place : 0 + (j - a - (position - a)) ≡ j - position = ground arith in
        rw (mid, new, new', place) refl
    | inr old ↦
        let old' : within position (position + n) j ≡ false = ground arith in
        rw (mid, old, old') (keep mid old)
  ]
]

module _ (hdr : FileHeader) (sectors : ℕ → ℕ) (file : IsFile hdr sectors) where
  write_part_lem :
      (disk : Disk) (garbage : ℕ → ℕ) (from : Buffer) (n position : ℕ)
      → 0 < n
      → position + n ≤ hdr.num_bytes
      → n ≤ from.size
      → (disk' : Disk) × (write_part hdr disk garbage from n position ≡ ok (disk', n))
        × ((j : ℕ)
            → j < hdr.num_bytes
            → content sectors disk' j ≡ (
                if within position (position + n) j
                then from.bytes (j - position)
                else content sectors disk j))
        × ((q b : ℕ)
            → ((m : ℕ) → m * sector_size < hdr.num_bytes → q ≢ sectors m)
            → disk' q b ≡ disk q b)
  unfolding write_part bcopy
  write_part_lem disk garbage from n position some_bytes in_file room =
      let first = position / sector_size in
      let last = (position + n - 1) / sector_size in
      let k = 1 + last - first in
      let start' = position - first * sector_size in
      let (buf, step, size, at) =
        read_ends_lem hdr sectors file disk garbage n position first last some_bytes in_file refl
          refl in
      let bytes : ℕ → ℕ =
        λ j. if within start' (start' + n) j then from.bytes (0 + (j - start')) else buf.bytes j in
      let buf' : Buffer = record buf { bytes = bytes } in
      let fits1 : leb (0 + n) from.size ≡ true = leb-true (0 + n) from.size (omega arith) in
      let fits2 : leb (start' + n) buf.size ≡ true = leb-true (start' + n) buf.size (omega arith) in
      let (disk', step', at', out) =
        write_sectors_lem hdr sectors file k first first disk buf' (omega arith)
          (λ m h. omega arith) (omega arith) in
      (
        disk',
        bind_ok
            (λ b. bcopy from 0 b start' n >>= λ b'.
              write_sectors hdr b' first first k disk >>= λ d. ok (d, n))
            buf step
            (bind_ok (λ b'. write_sectors hdr b' first first k disk >>= λ d. ok (d, n)) buf'
              (rw (fits1, fits2) refl) (bind_ok (λ d. ok (d, n)) disk' step' refl)),
        (λ j h.
            at' j (omega arith)
            ∙ windows (first * sector_size) ((first + k) * sector_size) position n j from.bytes
                (buf.bytes (j - first * sector_size)) (content sectors disk j) (omega arith)
                (omega arith)
                (λ mid old.
                  let (lo, hi) =
                    within_bounds (first * sector_size) ((first + k) * sector_size) j mid in
                  at (j - first * sector_size) (omega arith) (omega arith) old
                  ∙ ap (content sectors disk) (omega arith))),
        out,
      )

  pub write_at_lem :
      (disk : Disk) (garbage : ℕ → ℕ) (from : Buffer) (num_bytes position : ℕ)
      → 0 < num_bytes
      → position < hdr.num_bytes
      → position + num_bytes < 2 ^ 31
      → num_bytes ≤ from.size
      → (disk' : Disk) × (write_at hdr disk garbage from num_bytes position
          ≡ ok (disk', clipped hdr.num_bytes num_bytes position))
        × ((j : ℕ)
            → j < hdr.num_bytes
            → content sectors disk' j ≡ (
                if within position (position + clipped hdr.num_bytes num_bytes position) j
                then from.bytes (j - position)
                else content sectors disk j))
        × ((q b : ℕ)
            → ((m : ℕ) → m * sector_size < hdr.num_bytes → q ≢ sectors m)
            → disk' q b ≡ disk q b)
  unfolding write_at file_length
  write_at_lem disk garbage from num_bytes position some_bytes in_file small room =
      let n = clipped hdr.num_bytes num_bytes position in
      let asks : (num_bytes == 0 || leb hdr.num_bytes position) ≡ false = ground arith in
      rw (asks, clip_lem hdr.num_bytes num_bytes position small)
        (write_part_lem disk garbage from n position (ground arith) (ground arith) (ground arith))

  -- For a file whose parts have sectors of their own, a position in the file whose sum with the
  -- number of bytes is less than 2 ^ 31, and a buffer of at least the number of bytes, which is
  -- not 0: WriteAt returns the number of bytes up to the end of the file; a byte of the file is
  -- then the byte of the buffer where these bytes go and as before elsewhere, and a sector that is
  -- none of the file's is as before.
  pub write_at-content :
      (disk : Disk) (garbage : ℕ → ℕ) (from : Buffer) (num_bytes position j q b : ℕ)
      → 0 < num_bytes
      → position < hdr.num_bytes
      → position + num_bytes < 2 ^ 31
      → num_bytes ≤ from.size
      → j < hdr.num_bytes
      → ((m : ℕ) → m * sector_size < hdr.num_bytes → q ≢ sectors m)
      → (disk' : Disk) × (write_at hdr disk garbage from num_bytes position
          ≡ ok (disk', clipped hdr.num_bytes num_bytes position))
        × (content sectors disk' j ≡ (
            if within position (position + clipped hdr.num_bytes num_bytes position) j
            then from.bytes (j - position)
            else content sectors disk j))
        × (disk' q b ≡ disk q b)
  write_at-content disk garbage from num_bytes position j q b some_bytes in_file small room inside
        other =
      let (disk', step, at, out) =
        write_at_lem disk garbage from num_bytes position some_bytes in_file small room in
      (disk', step, at j inside, out q b other)

  -- For a file whose parts have sectors of their own, a position in the file whose sum with the
  -- number of bytes is less than 2 ^ 31, and buffers of at least the number of bytes, which is not
  -- 0: WriteAt and then ReadAt at that position return the number of bytes up to the end of the
  -- file, and ReadAt puts the bytes that were written into its buffer and leaves the rest of it.
  pub read_at-write_at :
      (disk : Disk) (garbage garbage' : ℕ → ℕ) (from into : Buffer) (num_bytes position : ℕ)
      → 0 < num_bytes
      → position < hdr.num_bytes
      → position + num_bytes < 2 ^ 31
      → num_bytes ≤ from.size
      → num_bytes ≤ into.size
      → (disk' : Disk) × (into' : Buffer) × (write_at hdr disk garbage from num_bytes position
          ≡ ok (disk', clipped hdr.num_bytes num_bytes position))
        × (read_at hdr disk' garbage' into 0 num_bytes position
            ≡ ok (into', clipped hdr.num_bytes num_bytes position))
        × ((j : ℕ)
            → into'.bytes j ≡ (
                if ltb j (clipped hdr.num_bytes num_bytes position)
                then from.bytes j
                else into.bytes j))
  read_at-write_at disk garbage garbage' from into num_bytes position some_bytes in_file small room
        room' =
      let n = clipped hdr.num_bytes num_bytes position in
      let (disk', wrote, at, out) =
        write_at_lem disk garbage from num_bytes position some_bytes in_file small room in
      let (into', did_read, size, at') =
        read_at_lem hdr sectors file disk' garbage' into 0 num_bytes position some_bytes in_file
          small (ground arith) in
      (
        disk',
        into',
        wrote,
        did_read,
        λ j. at' j ∙ elim (Bool-cases (ltb j n)) [
          | inl h ↦
              let here : within 0 (0 + n) j ≡ true = ground arith in
              let there : within position (position + n) (position + (j - 0)) ≡ true =
                ground arith in
              let place : position + (j - 0) - position ≡ j = omega arith in
              rw (here, h) (at (position + (j - 0)) (ground arith) ∙ rw (there, place) refl)
          | inr h ↦ let here : within 0 (0 + n) j ≡ false = ground arith in rw (here, h) refl
        ],
      )
