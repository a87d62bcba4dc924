-- ===== src/Tables/OpenFiles.antt =====
-- userprog/nachostabla.cc and nachostabla.h: the open files of a user program.
pub mod Laws
pub mod Fresh
use osproject.Base.{
  ℕ, Bool, true, false, Option, none, some, List, ◌∷◌, get_elem?, replicate, ltb, if◌then◌else◌,
}
use osproject.Base.Int.{ℤ, pos, negsuc, minus_one}
use osproject.Base.Outcome.{Outcome, ok, fault, ◌>>=◌, deref, store}
use osproject.BitMap.{BitMap, make, mark, clear, test, find}

abbrev pub max_files : ℕ
max_files = 128

pub record NachosOpenFilesTable : Type 0 where
  pub open_files : List ℤ
  pub open_files_map : BitMap
  pub usage : ℤ

-- The constructor: the first three slots are the standard streams. `words` is what the storage of
-- the bit map held, and `usage`, which the constructor does not set, what its member held.
unfoldable pub create : List ℕ → ℤ → Outcome NachosOpenFilesTable
create words usage = do
  m ← make max_files words
  m0 ← mark m 0
  m1 ← mark m0 1
  m2 ← mark m1 2
  ok (record {
    open_files = pos 0 ∷ pos 1 ∷ pos 2 ∷ replicate 125 (pos 0);
    open_files_map = m2;
    usage = usage;
  })

unfoldable pub is_opened : NachosOpenFilesTable → ℤ → Outcome Bool
is_opened t (negsuc _) = ok false
is_opened t (pos h) = if ltb h max_files then test t.open_files_map h else ok false

-- What `Open` does with the slot that `Find` returned.
fill_slot : NachosOpenFilesTable → ℤ → BitMap × Option ℕ → Outcome (NachosOpenFilesTable × ℤ)
fill_slot t unix_handle (m, none) = ok (record t { open_files_map = m }, minus_one)
fill_slot t unix_handle (m, some free_file) = do
  files ← store t.open_files free_file unix_handle
  ok (record t { open_files = files; open_files_map = m }, pos free_file)

unfoldable pub open_file : NachosOpenFilesTable → ℤ → Outcome (NachosOpenFilesTable × ℤ)
unfolding fill_slot
open_file t unix_handle = find t.open_files_map >>= fill_slot t unix_handle

-- The body of `Close` for an open handle.
free_slot : NachosOpenFilesTable → ℕ → Outcome (NachosOpenFilesTable × ℤ)
free_slot t h = do
  m ← clear t.open_files_map h
  files ← store t.open_files h (pos 0)
  ok (record t { open_files = files; open_files_map = m }, pos 0)

unfoldable pub close_file : NachosOpenFilesTable → ℤ → Outcome (NachosOpenFilesTable × ℤ)
unfolding is_opened free_slot
close_file t (negsuc n) = ok (t, minus_one)
close_file t (pos h) = do
  opened ← is_opened t (pos h)
  if opened then free_slot t h else ok (t, minus_one)

unfoldable pub get_unix_handle : NachosOpenFilesTable → ℤ → Outcome ℤ
unfolding is_opened
get_unix_handle t (negsuc n) = ok minus_one
get_unix_handle t (pos h) = do
  opened ← is_opened t (pos h)
  if opened then deref (get_elem? t.open_files h) else ok minus_one
