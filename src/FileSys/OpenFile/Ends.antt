-- ===== src/FileSys/OpenFile/Ends.antt =====
-- What `WriteAt` reads before it writes.
use osproject.Base.{
  ℕ, ◌+◌, ◌-◌, ◌*◌, ◌/◌, ◌≤◌, ◌<◌, ◌≡◌, refl, ap, ◌∙◌, ◌⊎◌, inl, inr, Bool, true, false, not, ◌&&◌,
  ◌||◌, ltb, ◌==◌, if◌then◌else◌, arith, Bool-cases,
}
use osproject.Base.Outcome.{Outcome, ok, ◌>>=◌}
use osproject.FileSys.FileHeader.{FileHeader, sector_size}
use osproject.FileSys.OpenFile.{Buffer, Disk, read_if, read_ends}
use osproject.FileSys.OpenFile.Loops.{IsFile, clipped, content, within, within_bounds, within-true}
use osproject.FileSys.OpenFile.Laws.{read_if_lem}

clipped_covers : (len n position j : ℕ) → j < n → position + j < len → j < clipped len n position
clipped_covers len n position j h h' = ground arith

-- Where the new bytes do not go, one of the reads has been.
module _ (len position n j first last : ℕ) (some_bytes : 0 < n) (fits : position + n ≤ len)
    (ef : first ≡ position / sector_size) (el : last ≡ (position + n - 1) / sector_size)
    (in_file : first * sector_size + j < len) (in_buf : j < (1 + last - first) * sector_size) where
  abbrev begin : ℕ
  begin = position - first * sector_size

  abbrev first_read : Bool
  first_read = within 0 (0 + clipped len sector_size (first * sector_size)) j

  abbrev last_read : Bool
  last_read =
      within ((last - first) * sector_size)
        ((last - first) * sector_size + clipped len sector_size (last * sector_size)) j

  abbrev first_test : Bool
  first_test = not (position == first * sector_size)

  abbrev last_test : Bool
  last_test =
      not (position + n == (last + 1) * sector_size)
      && (not (first == last) || position == first * sector_size)

  before : j < begin → first_test && first_read ≡ true
  before h =
      let test : first_test ≡ true = ground arith in
      let read : first_read ≡ true =
        within-true 0 (0 + clipped len sector_size (first * sector_size)) j (omega arith) (
          omega (
            arith,
            clipped_covers len sector_size (first * sector_size) j (omega arith) (omega arith),
          )) in
      rw (test, read) refl

  last_covers : begin + n ≤ j → last_read ≡ true
  last_covers h =
      within-true ((last - first) * sector_size)
        ((last - first) * sector_size + clipped len sector_size (last * sector_size)) j
        (omega arith)
        (omega (
          arith,
          clipped_covers len sector_size (last * sector_size) (j - (last - first) * sector_size)
              (omega arith) (omega arith),
        ))

  after : begin + n ≤ j → (last_test && last_read ≡ true) ⊎ (first_test && first_read ≡ true)
  after h =
      let unaligned : (position + n == (last + 1) * sector_size) ≡ false = ground arith in
      elim (Bool-cases (position == first * sector_size)) [
        | inl aligned ↦ inl (rw (last_covers h, unaligned, aligned) (ground arith))
        | inr not_aligned ↦ elim (Bool-cases (first == last)) [
          | inr two ↦ inl (rw (last_covers h, unaligned, two) refl)
          | inl one ↦
              let read : first_read ≡ true =
                within-true 0 (0 + clipped len sector_size (first * sector_size)) j (omega arith) (
                  omega (
                    arith,
                    clipped_covers len sector_size (first * sector_size) j (ground arith)
                        (omega arith),
                  )) in
              inr (rw (read, not_aligned) refl)
        ]
      ]

  covered :
      within begin (begin + n) j ≡ false
      → (last_test && last_read ≡ true) ⊎ (first_test && first_read ≡ true)
  covered out = elim (Bool-cases (ltb j begin)) [
    | inl h ↦ inr (before (ground arith))
    | inr h ↦ after (ground arith)
  ]

pub bind_ok {ℓ κ} :
    {A : Type ℓ} {B : Type κ} {m : Outcome A} (f : A → Outcome B) (a : A) {r : Outcome B}
    → m ≡ ok a
    → f a ≡ r
    → (m >>= f) ≡ r
bind_ok f a e e' = rw e e'

-- One of two values that agree where they are taken.
chosen :
    (t1 w1 t2 w2 : Bool) (x y z c : ℕ)
    → (t2 && w2 ≡ true) ⊎ (t1 && w1 ≡ true)
    → (w2 ≡ true → x ≡ c)
    → y ≡ c
    → (if t2 && w2 then x else (if t1 && w1 then y else z)) ≡ c
chosen t1 w1 true true x y z c h ex ey = ex refl
chosen t1 w1 true false x y z c (inl h) ex ey = cc
chosen t1 w1 true false x y z c (inr h) ex ey = rw h ey
chosen t1 w1 false w2 x y z c (inl h) ex ey = cc
chosen t1 w1 false w2 x y z c (inr h) ex ey = rw h ey

module _ (hdr : FileHeader) (sectors : ℕ → ℕ) (file : IsFile hdr sectors) where
  pub read_ends_lem :
      (disk : Disk) (garbage : ℕ → ℕ) (n position first last : ℕ)
      → 0 < n
      → position + n ≤ hdr.num_bytes
      → first ≡ position / sector_size
      → last ≡ (position + n - 1) / sector_size
      → (buf : Buffer) × (read_ends hdr disk garbage n position first last ≡ ok buf)
        × (buf.size ≡ (1 + last - first) * sector_size)
        × ((j : ℕ)
            → first * sector_size + j < hdr.num_bytes
            → j < (1 + last - first) * sector_size
            → within (position - first * sector_size) (position - first * sector_size + n) j ≡ false
            → buf.bytes j ≡ content sectors disk (first * sector_size + j))
  unfolding read_ends
  read_ends_lem disk garbage n position first last some_bytes in_file ef el =
      let buf : Buffer = record { size = (1 + last - first) * sector_size; bytes = garbage } in
      let t1 : Bool = not (position == first * sector_size) in
      let t2 : Bool =
        not (position + n == (last + 1) * sector_size)
        && (not (first == last) || position == first * sector_size) in
      let (buf1, step1, size1, at1) =
        read_if_lem hdr sectors file t1 disk garbage buf 0 (first * sector_size) (omega arith)
          (omega (arith, file.bounded)) (omega arith) in
      let (buf2, step2, size2, at2) =
        read_if_lem hdr sectors file t2 disk garbage buf1 ((last - first) * sector_size)
          (last * sector_size) (omega arith) (omega (arith, file.bounded)) (omega arith) in
      (
        buf2,
        bind_ok
            (λ b. read_if t2 hdr disk garbage b ((last - first) * sector_size) (last * sector_size))
            buf1 step1 step2,
        size2 ∙ size1,
        λ j h h' out.
            at2 j
            ∙ rw (at1 j) (
                chosen t1 (within 0 (0 + clipped hdr.num_bytes sector_size (first * sector_size)) j)
                  t2
                  (within ((last - first) * sector_size)
                    ((last - first) * sector_size
                      + clipped hdr.num_bytes sector_size (last * sector_size))
                    j)
                  (content sectors disk (last * sector_size + (j - (last - first) * sector_size)))
                  (content sectors disk (first * sector_size + (j - 0))) (garbage j)
                  (content sectors disk (first * sector_size + j))
                  (covered hdr.num_bytes position n j first last some_bytes in_file ef el h h' out)
                  (λ mid.
                    let (lo, hi) =
                      within_bounds ((last - first) * sector_size)
                        ((last - first) * sector_size
                          + clipped hdr.num_bytes sector_size (last * sector_size))
                        j mid in
                    ap (content sectors disk) (omega arith))
                  (ap (content sectors disk) (omega arith))),
      )
