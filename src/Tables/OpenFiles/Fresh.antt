-- ===== src/Tables/OpenFiles/Fresh.antt =====
-- The constructor of the table of open files.
use osproject.Base.{
  ℕ, ◌≤◌, ◌<◌, ◌≡◌, refl, inl, inr, false, none, some, List, length, ltb, ltb→lt, if◌then◌else◌,
  arith, Bool-cases, zero, suc, ◌∷◌, replicate,
}
use osproject.Base.Int.{ℤ, pos}
use osproject.Base.Outcome.{ok}
use osproject.BitMap.{BitMap, mark, make, find, div_round_up}
use osproject.BitMap
use osproject.BitMap.Abstract.{
  holds, marked, cleared, mark_lem, clear_lem, test_lem, marked-IsValid, cleared-IsValid,
  holds-marked, holds-cleared,
}
use osproject.BitMap.Search.{make_clear}
use osproject.Tables.OpenFiles.{NachosOpenFilesTable, max_files, create}
use osproject.Tables.OpenFiles.Laws.{IsValid, unix_handle}

abbrev three_marked : BitMap → BitMap
three_marked m = marked (marked (marked m 0) 1) 2

abbrev standard_table : BitMap → ℤ → NachosOpenFilesTable
standard_table m usage = record {
  open_files = pos 0 ∷ pos 1 ∷ pos 2 ∷ replicate 125 (pos 0);
  open_files_map = three_marked m;
  usage = usage;
}

module _ (m : BitMap) (v : BitMap.Abstract.IsValid m) (bits : m.num_bits ≡ 128) where
  three_marked-holds : (h : ℕ) → holds m h ≡ false → holds (three_marked m) h ≡ ltb h 3
  three_marked-holds h clear = ground (
    arith,
    holds-marked (marked (marked m 0) 1) 2 h (marked-IsValid _ 1 (marked-IsValid m 0 v)),
    holds-marked (marked m 0) 1 h (marked-IsValid m 0 v),
    holds-marked m 0 h v,
  )

  standard_table_maps :
      (usage : ℤ) (h : ℕ)
      → ((j : ℕ) → j < 128 → holds m j ≡ false)
      → unix_handle (standard_table m usage) h ≡ (if ltb h 3 then some (pos h) else none)
  standard_table_maps usage zero clear = ground (arith, three_marked-holds 0, clear 0)
  standard_table_maps usage (suc zero) clear = ground (arith, three_marked-holds 1, clear 1)
  standard_table_maps usage (suc (suc zero)) clear = ground (arith, three_marked-holds 2, clear 2)
  standard_table_maps usage (suc (suc (suc h))) clear = above (suc (suc (suc h))) (omega arith)
    where
      above :
          (k : ℕ)
          → 3 ≤ k
          → unix_handle (standard_table m usage) k ≡ (if ltb k 3 then some (pos k) else none)
      above k far = elim (Bool-cases (ltb k max_files)) [
        | inl inside ↦
            rw (inside, three_marked-holds k (clear k (ltb→lt _ _ inside))) (ground arith)
        | inr outside ↦ rw outside (ground arith)
      ]

-- Whatever its storage held, a fresh table of open files is well-formed and has the three standard
-- streams open, under their UNIX handles, and no other handle.
pub create_lem :
    (words : List ℕ) (usage : ℤ)
    → length words ≡ 4
    → (t : NachosOpenFilesTable) × (create words usage ≡ ok t)
      × IsValid t
      × ((h : ℕ) → unix_handle t h ≡ (if ltb h 3 then some (pos h) else none))
unfolding create
create_lem words usage e =
    let (m, r, v, bits, clear) = make_clear 128 words e in
    let v0 : BitMap.Abstract.IsValid (marked m 0) = marked-IsValid m 0 v in
    let v1 : BitMap.Abstract.IsValid (marked (marked m 0) 1) = marked-IsValid _ 1 v0 in
    (
      standard_table m usage,
      rw
          (
            r,
            mark_lem m 0 v (omega arith),
            mark_lem _ 1 v0 (omega arith),
            mark_lem _ 2 v1 (omega arith),
          )
          refl,
      record { map_valid = marked-IsValid _ 2 v1; slots = bits; files = refl },
      λ h. standard_table_maps m v bits usage h clear,
    )
