-- ===== src/Tables/Sems.antt =====
-- userprog/NachosSems.cc and NachosSems.h: the semaphores of a user program. A slot holds the
-- address of a kernel semaphore, or -1.
pub mod Laws
use osproject.Base.{
  ℕ, Bool, true, false, Option, none, some, List, get_elem?, length, replicate, if◌then◌else◌,
}
use osproject.Base.Int.{ℤ, pos, negsuc, minus_one, eq_ℤ}
use osproject.Base.Outcome.{Outcome, ok, fault, ◌>>=◌, deref, store}
use osproject.BitMap.{BitMap, make, clear, find}

abbrev pub max_sems : ℕ
max_sems = 6

pub record NachosSems : Type 0 where
  pub open_sems_map : BitMap
  pub semaphores : List ℤ
  pub usage : ℕ

-- `words` is what the storage of the bit map held.
unfoldable pub create : List ℕ → Outcome NachosSems
create words = do
  m ← make max_sems words
  ok (record { open_sems_map = m; semaphores = replicate max_sems minus_one; usage = 0 })

fill_slot : NachosSems → ℤ → BitMap × Option ℕ → Outcome (NachosSems × ℤ)
fill_slot t s (m, none) = ok (record t { open_sems_map = m }, minus_one)
fill_slot t s (m, some free) = do
  sems ← store t.semaphores free s
  ok (record t { open_sems_map = m; semaphores = sems }, pos free)

unfoldable pub register_sem : NachosSems → ℤ → Outcome (NachosSems × ℤ)
unfolding fill_slot
register_sem t s = find t.open_sems_map >>= fill_slot t s

-- `semaphores[ id ]`, with no check of `id`
unfoldable pub get_nachos_pointer : NachosSems → ℤ → Outcome ℤ
get_nachos_pointer t (pos id) = deref (get_elem? t.semaphores id)
get_nachos_pointer t (negsuc _) = fault

free_slot : NachosSems → ℕ → ℤ → Outcome (NachosSems × ℤ)
free_slot t id copy = do
  m ← clear t.open_sems_map id
  sems ← store t.semaphores id minus_one
  ok (record t { open_sems_map = m; semaphores = sems }, copy)

unfoldable pub un_register_sem : NachosSems → ℤ → Outcome (NachosSems × ℤ)
unfolding free_slot
un_register_sem t (negsuc _) = fault
un_register_sem t (pos id) = do
  s ← deref (get_elem? t.semaphores id)
  if eq_ℤ s minus_one then ok (t, minus_one) else free_slot t id s
