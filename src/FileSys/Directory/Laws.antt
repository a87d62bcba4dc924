-- ===== src/FileSys/Directory/Laws.antt =====
-- The table is a map from names to sectors.
use osproject.Base.{
  ℕ, ◌≡◌, refl, ◌⊎◌, inl, inr, true, false, none, some, List, if◌then◌else◌, Bool-cases, lt→ltb,
}
use native.Mathlib.Nat.{zero-add}
use osproject.Base.Outcome.{ok}
use osproject.FileSys.Directory.{Directory, find_index, find, add_from, add, remove}
use osproject.FileSys.Directory.Table.{
  same, lookup, Unique, any_free, removed, find_index-Located, add_from-full, add_from-free,
  add_from-lookup, add_from-Unique, removed-lookup, removed-Unique,
}

-- `Find` returns the sector that the table has for the name.
pub find_lem : (d : Directory) (name : List ℕ) → find d name ≡ ok (lookup d.table name)
unfolding find find_index
find_lem d name = elim (find_index-Located d.table 0 name) [
  | inl (f, l) ↦ rw (find, find_index, f, l) refl
  | inr (j, e, f, small, at, l, s) ↦ rw (find, find_index, f, zero-add, at, l) refl
]

-- On a directory in which no two entries in use have one name, Add either returns false and
-- changes nothing, because the name is there or no entry is free, or it returns true, and then the
-- directory maps the name to the sector and every other name as before, and still has no name
-- twice. Names that agree in nine characters are one name.
pub add_lem :
    (d : Directory) (name : List ℕ) (s : ℕ)
    → Unique d.table
    → ((add d name s ≡ (d, false))
        × (((x : ℕ) × (lookup d.table name ≡ some x)) ⊎ (any_free d.table ≡ false)))
      ⊎ ((d' : Directory) × (add d name s ≡ (d', true))
          × (lookup d.table name ≡ none)
          × (any_free d.table ≡ true)
          × Unique d'.table
          × ((m : List ℕ) → lookup d'.table m ≡ (if same name m then some s else lookup d.table m)))
unfolding add find_index
add_lem d name s u = elim (find_index-Located d.table 0 name) [
  | inr (j, e, f, small, at, l, _) ↦ inl (rw (add, find_index, f) refl, inl (e.sector, l))
  | inl (f, l) ↦ elim (Bool-cases (any_free d.table)) [
    | inl free ↦ inr (
      record d { table = (add_from d.table name s).0 },
      rw (add, find_index, f, add_from-free d.table name s free) refl,
      l,
      free,
      add_from-Unique d.table name s free l u,
      λ m. add_from-lookup d.table name s free l m,
    )
    | inr full ↦ inl (rw (add, find_index, f, add_from-full d.table name s full) refl, inr full)
  ]
]

-- On a directory in which no two entries in use have one name, Remove either returns false and
-- changes nothing, because the name is not there, or it returns true, and then the directory maps
-- the name to nothing and every other name as before, and still has no name twice.
pub remove_lem :
    (d : Directory) (name : List ℕ)
    → Unique d.table
    → ((lookup d.table name ≡ none) × (remove d name ≡ ok (d, false)))
      ⊎ ((d' : Directory) × (remove d name ≡ ok (d', true))
          × Unique d'.table
          × ((m : List ℕ) → lookup d'.table m ≡ (if same name m then none else lookup d.table m)))
unfolding remove find_index
remove_lem d name u = elim (find_index-Located d.table 0 name) [
  | inl (f, l) ↦ inl (l, rw (remove, find_index, f) refl)
  | inr (j, e, f, small, at, l, gone) ↦ inr (
    record d { table = removed d.table name },
    rw (remove, find_index, f, zero-add, at, lt→ltb _ _ small, gone) refl,
    removed-Unique d.table name u,
    λ m. removed-lookup d.table name m u,
  )
]
