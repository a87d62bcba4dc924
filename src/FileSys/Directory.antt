-- ===== src/FileSys/Directory.antt =====
-- filesys/directory.cc: the table of file names. A C string is the list of its characters; what is
-- past its end reads as the NUL that ends it. The table is a list of `tableSize` entries.
pub mod Names
pub mod Table
pub mod Laws
use osproject.Base.{
  ℕ, zero, suc, ◌+◌, Bool, true, false, not, ◌&&◌, Option, none, some, List, [], ◌∷◌, ◌==◌,
  if◌then◌else◌, get_elem?, set, length, replicate, map, ◌++◌,
}
use osproject.Base.Outcome.{Outcome, ok, ◌>>=◌, deref, store}

abbrev pub file_name_max_len : ℕ
file_name_max_len = 9

pub record DirectoryEntry : Type 0 where
  pub in_use : Bool
  pub sector : ℕ
  pub name : List ℕ

pub record Directory : Type 0 where
  pub table : List DirectoryEntry
  pub table_size : ℕ

-- The first character of a string, and the rest.
abbrev pub head : List ℕ → ℕ
head [] = 0
head (c ∷ s) = c

abbrev pub tail : List ℕ → List ℕ
tail [] = []
tail (c ∷ s) = s

-- `!strncmp(a, b, n)`
unfoldable pub same_name : ℕ → List ℕ → List ℕ → Bool
same_name zero a b = true
same_name (suc n) a b =
    let rest = same_name n (tail a) (tail b) in
    if head a == head b then (if head a == 0 then true else rest) else false

-- `strncpy(to, from, n)`: `n` characters, NULs once `from` has ended; the rest of `to` stays.
unfoldable pub strncpy : ℕ → List ℕ → List ℕ → List ℕ
strncpy zero to from = to
strncpy (suc n) to from = head from ∷ strncpy n (tail to) (if head from == 0 then [] else tail from)

-- `Directory::Directory`: `garbage` is what `new DirectoryEntry[size]` holds.
unfoldable pub make : ℕ → List DirectoryEntry → Directory
make size garbage = record {
  table = map (λ (e : DirectoryEntry). record e { in_use = false }) garbage;
  table_size = size;
}

-- The loop of `FindIndex` from entry `i` on, with these entries left; `none` is the source's -1.
unfoldable pub find_index_from : List DirectoryEntry → ℕ → List ℕ → Option ℕ
find_index_from [] i name = none
find_index_from (e ∷ table) i name =
    if e.in_use && same_name file_name_max_len e.name name
    then some i
    else find_index_from table (i + 1) name

-- `Directory::FindIndex`
unfoldable pub find_index : Directory → List ℕ → Option ℕ
find_index d name = find_index_from d.table 0 name

-- `Directory::Find`
unfoldable pub find : Directory → List ℕ → Outcome (Option ℕ)
find d name = elim (find_index d name) [
  | none ↦ ok none
  | some i ↦ (deref (get_elem? d.table i) >>= λ e. ok (some e.sector))
]

-- The body of the `if` in `Add`.
abbrev pub fill : DirectoryEntry → List ℕ → ℕ → DirectoryEntry
fill e name new_sector = record {
  in_use = true;
  sector = new_sector;
  name = strncpy file_name_max_len e.name name;
}

-- The loop of `Add`: the table, and whether an entry was free.
unfoldable pub add_from : List DirectoryEntry → List ℕ → ℕ → List DirectoryEntry × Bool
add_from [] name new_sector = ([], false)
add_from (e ∷ table) name new_sector =
    let rest = add_from table name new_sector in
    if not e.in_use then (fill e name new_sector ∷ table, true) else (e ∷ rest.0, rest.1)

-- `Directory::Add`
unfoldable pub add : Directory → List ℕ → ℕ → Directory × Bool
add d name new_sector = elim (find_index d name) [
  | some i ↦ (d, false)
  | none ↦
      let (table, added) = add_from d.table name new_sector in (record d { table = table }, added)
]

-- `Directory::Remove`
unfoldable pub remove : Directory → List ℕ → Outcome (Directory × Bool)
remove d name = elim (find_index d name) [
  | none ↦ ok (d, false)
  | some i ↦
      (deref (get_elem? d.table i) >>= λ e.
      store d.table i (record e { in_use = false }) >>= λ table.
      ok (record d { table = table }, true))
]
