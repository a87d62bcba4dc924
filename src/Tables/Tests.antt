-- ===== src/Tables/Tests.antt =====
-- Runs of the two tables, and instances of their theorems.
use osproject.Base.{
  ℕ, zero, suc, ◌+◌, ◌≤◌, ◌<◌, ◌≡◌, refl, ◌≢◌, ◌⊎◌, inl, inr, Bool, true, false, not, Option, none,
  some, List, [], ◌∷◌, replicate, if◌then◌else◌, ltb, arith,
}
use osproject.Base.Int.{pos, minus_one, eq_ℤ}
use osproject.Base.Outcome.{ok}
use osproject.BitMap.{BitMap}
use osproject.BitMap.Abstract.{holds}
use osproject.Tables.OpenFiles.{
  NachosOpenFilesTable, max_files, open_file, close_file, get_unix_handle,
}
use osproject.Tables.OpenFiles
use osproject.Tables.OpenFiles.Laws.{
  unix_handle, as_int, Opens, Closes, get_unix_handle_lem, open_file_lem, close_file_lem,
  open-close,
}
use osproject.Tables.Sems.{NachosSems, max_sems, register_sem, un_register_sem, get_nachos_pointer}
use osproject.Tables.Sems
use osproject.Tables.Sems.Laws.{
  slot, Registers, UnRegisters, create-IsValid, unchecked_index, register_sem_lem,
  un_register_sem_lem,
}

abbrev one_open : NachosOpenFilesTable
one_open = record {
  open_files = pos 9 ∷ replicate 127 (pos 0);
  open_files_map = record { num_bits = 128; num_words = 4; map = 1 ∷ 0 ∷ 0 ∷ 0 ∷ [] };
  usage = pos 1;
}

one_open-IsValid : OpenFiles.Laws.IsValid one_open
one_open-IsValid = record {
  map_valid = record { words = refl; covered = omega arith };
  slots = refl;
  files = refl;
}

abbrev two_open : NachosOpenFilesTable
two_open = record {
  open_files = pos 9 ∷ pos 5 ∷ replicate 126 (pos 0);
  open_files_map = record { num_bits = 128; num_words = 4; map = 3 ∷ 0 ∷ 0 ∷ 0 ∷ [] };
  usage = pos 1;
}

opens_second : open_file one_open (pos 5) ≡ ok (two_open, pos 1)
unfolding open_file osproject.BitMap.find osproject.BitMap.mark osproject.BitMap.test
opens_second = refl

open-close_example :
    (get_unix_handle two_open (pos 1) ≡ ok (pos 5))
    × ((t'' : NachosOpenFilesTable) × (close_file two_open (pos 1) ≡ ok (t'', pos 0))
        × ((j : ℕ) → unix_handle t'' j ≡ unix_handle one_open j))
open-close_example = open-close one_open (pos 5) one_open-IsValid opens_second

abbrev one_sem : NachosSems
one_sem = record {
  open_sems_map = record { num_bits = 6; num_words = 1; map = 1 ∷ [] };
  semaphores = pos 77 ∷ replicate 5 minus_one;
  usage = 0;
}

one_sem-agrees :
    (id : ℕ)
    → id < max_sems
    → holds one_sem.open_sems_map id ≡ not (eq_ℤ (slot one_sem id) minus_one)
unfolding osproject.BitMap.Abstract.holds osproject.Base.Bits.bit_at
one_sem-agrees zero h = refl
one_sem-agrees (suc zero) h = refl
one_sem-agrees (suc (suc zero)) h = refl
one_sem-agrees (suc (suc (suc zero))) h = refl
one_sem-agrees (suc (suc (suc (suc zero)))) h = refl
one_sem-agrees (suc (suc (suc (suc (suc zero))))) h = refl
one_sem-agrees (suc (suc (suc (suc (suc (suc id)))))) h = absurd (omega arith)

one_sem-IsValid : Sems.Laws.IsValid one_sem
one_sem-IsValid = record {
  map_valid = record { words = refl; covered = omega arith };
  slots = refl;
  sems = refl;
  agree = one_sem-agrees;
}

register_sem_lem_example :
    Registers one_sem (pos 88)
    ⊎ ((register_sem one_sem (pos 88) ≡ ok (one_sem, minus_one))
        × ((id : ℕ) → id < max_sems → slot one_sem id ≢ minus_one))
register_sem_lem_example = register_sem_lem one_sem (pos 88) one_sem-IsValid refl
