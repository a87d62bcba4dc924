-- ===== src/FileSys/OpenFile/Loops.antt =====
-- The loops of `ReadAt` and `WriteAt` move whole sectors of the file.
use osproject.Base.{
  ℕ, zero, suc, ◌+◌, ◌-◌, ◌*◌, ◌/◌, ◌%◌, ◌≤◌, ◌<◌, ◌≡◌, ◌≢◌, refl, sym, ◌∙◌, inl, inr, Bool, true,
  false, ◌&&◌, ltb, leb, ◌==◌, if◌then◌else◌, some, get_elem?, arith, Bool-cases, lt→ltb,
}
use osproject.Base.Int.{pos}
use osproject.Base.Outcome.{ok}
use osproject.FileSys.FileHeader.{FileHeader, sector_size, num_direct, byte_to_sector}
use osproject.FileSys.OpenFile.{
  Buffer, Disk, num_sectors_of_disk, read_sector, write_sector, read_sectors, write_sectors,
}

-- The header has a sector of its own, on the disk, for each part of the file, which is not larger
-- than the sectors of a header.
pub record IsFile (hdr : FileHeader) (sectors : ℕ → ℕ) : Type 0 where
  pub entry :
      (i : ℕ)
      → i * sector_size < hdr.num_bytes
      → get_elem? hdr.data_sectors i ≡ some (pos (sectors i))
  pub on_disk : (i : ℕ) → i * sector_size < hdr.num_bytes → sectors i < num_sectors_of_disk
  pub apart :
      (i j : ℕ)
      → i * sector_size < hdr.num_bytes
      → j * sector_size < hdr.num_bytes
      → i ≢ j
      → sectors i ≢ sectors j
  pub bounded : hdr.num_bytes ≤ num_direct * sector_size

-- As many bytes as are asked for, or as the file has from the position on.
abbrev pub clipped : ℕ → ℕ → ℕ → ℕ
clipped len num_bytes position =
    if ltb len (position + num_bytes) then len - position else num_bytes

-- The byte of the file at an offset.
abbrev pub content : (ℕ → ℕ) → Disk → ℕ → ℕ
content sectors disk j = disk (sectors (j / sector_size)) (j % sector_size)

-- `j` lies in the `n` places from `a` on.
abbrev pub within : ℕ → ℕ → ℕ → Bool
within a b j = leb a j && ltb j b

pub within_bounds : (a b j : ℕ) → within a b j ≡ true → (a ≤ j) × (j < b)
within_bounds a b j h = (ground arith, ground arith)

pub within-true : (a b j : ℕ) → a ≤ j → j < b → within a b j ≡ true
within-true a b j h h' = ground arith

pub leb-true : (a b : ℕ) → a ≤ b → leb a b ≡ true
leb-true a b h = ground arith

-- Two windows that meet are one.
joined :
    (a b c b' c' j x y z : ℕ)
    → a ≤ b
    → b ≤ c
    → b ≡ b'
    → c ≡ c'
    → (within a b j ≡ true → y ≡ x)
    → (if within b c j then x else (if within a b' j then y else z))
      ≡ (if within a c' j then x else z)
joined a b c b' c' j x y z ab bc eb ec same = elim (Bool-cases (within a b j)) [
  | inl mid ↦ rw (same mid) (ground arith)
  | inr out ↦ ground arith
]

module _ (hdr : FileHeader) (sectors : ℕ → ℕ) (file : IsFile hdr sectors) where
  byte_to_sector_lem :
      (i : ℕ)
      → i * sector_size < hdr.num_bytes
      → byte_to_sector hdr (i * sector_size) ≡ ok (pos (sectors i))
  unfolding byte_to_sector
  byte_to_sector_lem i h =
      let e : (i * sector_size) / sector_size ≡ i = omega arith in rw (e, file.entry i h) refl

  content-sector :
      (disk : Disk) (first i j : ℕ)
      → first ≤ i
      → (i - first) * sector_size ≤ j
      → j < (i - first) * sector_size + sector_size
      → content sectors disk (first * sector_size + j)
        ≡ disk (sectors i) (j - (i - first) * sector_size)
  content-sector disk first i j le lo hi =
      let e : (first * sector_size + j) / sector_size ≡ i = omega arith in
      let e' : (first * sector_size + j) % sector_size ≡ j - (i - first) * sector_size =
        omega arith in
      rw (e, e') refl

  -- Reading fills the buffer with the part of the file that starts at sector `first`.
  pub read_sectors_lem :
      (n first i : ℕ) (disk : Disk) (buf : Buffer)
      → first ≤ i
      → ((m : ℕ) → m < i + n → m * sector_size < hdr.num_bytes)
      → (i + n - first) * sector_size ≤ buf.size
      → (buf' : Buffer) × (read_sectors hdr disk first i n buf ≡ ok buf')
        × (buf'.size ≡ buf.size)
        × ((j : ℕ)
            → buf'.bytes j ≡ (
                if leb ((i - first) * sector_size) j && ltb j ((i + n - first) * sector_size)
                then content sectors disk (first * sector_size + j)
                else buf.bytes j))
  unfolding read_sectors read_sector
  read_sectors_lem zero first i disk buf le in_file room = (buf, refl, refl, λ j. ground arith)
  read_sectors_lem (suc n) first i disk buf le in_file room =
      let off = (i - first) * sector_size in
      let buf1 : Buffer = record buf {
        bytes = λ j.
            if leb off j && ltb j (off + sector_size)
            then disk (sectors i) (j - off)
            else buf.bytes j;
      } in
      let here : i * sector_size < hdr.num_bytes = in_file i (omega arith) in
      let fits : leb (off + sector_size) buf.size ≡ true = ground arith in
      let valid : ltb (sectors i) num_sectors_of_disk ≡ true = lt→ltb _ _ (file.on_disk i here) in
      let (buf', step, size, at) =
        read_sectors_lem n first (i + 1) disk buf1 (omega arith) (λ m h. in_file m (omega arith))
          (omega arith) in
      (
        buf',
        rw (byte_to_sector_lem i here, valid, fits) step,
        size,
        λ j.
            at j
            ∙ joined off ((i + 1 - first) * sector_size) ((i + 1 + n - first) * sector_size)
                (off + sector_size) ((i + suc n - first) * sector_size) j
                (content sectors disk (first * sector_size + j)) (disk (sectors i) (j - off))
                (buf.bytes j) (omega arith) (omega arith) (omega arith) (omega arith)
                (λ mid. sym (content-sector disk first i j le (ground arith) (ground arith))),
      )

  content-write :
      (disk : Disk) (bytes : ℕ → ℕ) (first i j : ℕ)
      → first ≤ i
      → i * sector_size < hdr.num_bytes
      → (j / sector_size) * sector_size < hdr.num_bytes
      → content sectors
          (λ q b.
            if q == sectors i && ltb b sector_size
            then bytes ((i - first) * sector_size + b)
            else disk q b)
          j
        ≡ (if within (i * sector_size) (i * sector_size + sector_size) j
            then bytes (j - first * sector_size)
            else content sectors disk j)
  content-write disk bytes first i j le here there = elim (Bool-cases (j / sector_size == i)) [
    | inl same ↦
        let e : j / sector_size ≡ i = ground arith in
        let hit : (sectors (j / sector_size) == sectors i && ltb (j % sector_size) sector_size)
            ≡ true =
          rw e (ground arith) in
        let mid : within (i * sector_size) (i * sector_size + sector_size) j ≡ true =
          ground arith in
        let place : (i - first) * sector_size + j % sector_size ≡ j - first * sector_size =
          omega arith in
        rw (hit, mid, place) refl
    | inr other ↦
        let ne : sectors (j / sector_size) ≢ sectors i =
          file.apart (j / sector_size) i there here (λ e. ground arith) in
        let miss : (sectors (j / sector_size) == sectors i && ltb (j % sector_size) sector_size)
            ≡ false =
          ground arith in
        let out : within (i * sector_size) (i * sector_size + sector_size) j ≡ false =
          ground arith in
        rw (miss, out) refl
  ]

  -- Writing stores the buffer in the part of the file that starts at sector `first`, and nowhere
  -- else.
  pub write_sectors_lem :
      (n first i : ℕ) (disk : Disk) (buf : Buffer)
      → first ≤ i
      → ((m : ℕ) → m < i + n → m * sector_size < hdr.num_bytes)
      → (i + n - first) * sector_size ≤ buf.size
      → (disk' : Disk) × (write_sectors hdr buf first i n disk ≡ ok disk')
        × ((j : ℕ)
            → (j / sector_size) * sector_size < hdr.num_bytes
            → content sectors disk' j ≡ (
                if within (i * sector_size) ((i + n) * sector_size) j
                then buf.bytes (j - first * sector_size)
                else content sectors disk j))
        × ((q b : ℕ)
            → ((m : ℕ) → m * sector_size < hdr.num_bytes → q ≢ sectors m)
            → disk' q b ≡ disk q b)
  unfolding write_sectors write_sector
  write_sectors_lem zero first i disk buf le in_file room =
      (disk, refl, (λ j h. ground arith), λ q b h. refl)
  write_sectors_lem (suc n) first i disk buf le in_file room =
      let off = (i - first) * sector_size in
      let disk1 : Disk =
        λ q j. if q == sectors i && ltb j sector_size then buf.bytes (off + j) else disk q j in
      let here : i * sector_size < hdr.num_bytes = in_file i (omega arith) in
      let fits : leb (off + sector_size) buf.size ≡ true = ground arith in
      let valid : ltb (sectors i) num_sectors_of_disk ≡ true = lt→ltb _ _ (file.on_disk i here) in
      let (disk', step, at, out) =
        write_sectors_lem n first (i + 1) disk1 buf (omega arith) (λ m h. in_file m (omega arith))
          (omega arith) in
      (
        disk',
        rw (byte_to_sector_lem i here, valid, fits) step,
        (λ j h.
            at j h
            ∙ rw (content-write disk buf.bytes first i j le here h) (
                joined (i * sector_size) ((i + 1) * sector_size) ((i + 1 + n) * sector_size)
                  (i * sector_size + sector_size) ((i + suc n) * sector_size) j
                  (buf.bytes (j - first * sector_size)) (buf.bytes (j - first * sector_size))
                  (content sectors disk j) (omega arith) (omega arith) (omega arith) (omega arith)
                  (λ mid. refl))),
        λ q b h. out q b h ∙ (let ne = h i here in ground arith),
      )
