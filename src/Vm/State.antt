-- ===== src/Vm/State.antt =====
-- The state that demand paging works on: page tables, TLB, inverted page table, bit maps, memory.
use osproject.Base.{
  ℕ, ◌+◌, ◌-◌, Bool, ◌&&◌, Option, some, List, [], ◌∷◌, length, get_or, ltb, leb, ◌==◌,
  if◌then◌else◌, zero, suc,
}
use osproject.Base.Int.{ℤ}
use osproject.Base.Outcome.{Outcome, ok, fault}
use osproject.BitMap.{BitMap}
use Prim.Native.String.{String}

-- machine/machine.h and machine/disk.h
abbrev pub page_size : ℕ
page_size = 128

abbrev pub num_phys_pages : ℕ
num_phys_pages = 4

abbrev pub memory_size : ℕ
memory_size = 512

abbrev pub tlb_size : ℕ
tlb_size = 4

abbrev pub swap_size : ℕ
swap_size = 64

-- `TranslationEntry` of machine/translate.h. A virtual page number is only compared and used as an
-- index; a negative one is out of range, like one that is too large.
pub record TranslationEntry : Type 0 where
  pub virtual_page : ℕ
  pub physical_page : ℤ
  pub valid : Bool
  pub read_only : Bool
  pub use_bit : Bool
  pub dirty : Bool

-- A pointer into a page table: whose table, and which entry.
pub record PagePtr : Type 0 where
  pub space : ℕ
  pub page : ℕ

-- The fields of an `AddrSpace` but its page table, which is the one numbered `id` in the state.
pub record AddrSpace : Type 0 where
  pub id : ℕ
  pub init_data : ℕ
  pub no_init_data : ℕ
  pub stack : ℕ
  pub num_pages : ℕ
  pub filename : String

-- The globals of threads/system.cc and the machine. The arrays `tlb` (4 entries), `ipt` (4
-- pointers) and `main_memory` (512 bytes) are functions; every index into them is tested first. The
-- page tables of all address spaces are one store, as the inverted table points into any of them.
pub record Vm : Type 0 where
  pub pages : ℕ → ℕ → TranslationEntry
  pub table_size : ℕ → ℕ
  pub tlb : ℕ → TranslationEntry
  pub ipt : ℕ → Option PagePtr
  pub mem_bit_map : BitMap
  pub swap_bit_map : BitMap
  pub index_tlb_snd_chc : ℕ
  pub index_swap_snd_chc : ℕ
  pub index_swap_fifo : ℕ
  pub main_memory : ℕ → ℕ
  pub swap_file : Option (List ℕ)
  pub programs : String → Option (List ℕ)
  pub num_page_faults : ℕ

abbrev pub points_to : PagePtr → ℕ → ℕ → Bool
points_to p s n = (p.space == s) && (p.page == n)

-- An assignment to fields of `*p`.
abbrev pub with_page : Vm → PagePtr → (TranslationEntry → TranslationEntry) → Vm
with_page v p f = record v {
  pages = λ s n. if points_to p s n then f (v.pages s n) else v.pages s n;
}

unfoldable pub update_page : Vm → PagePtr → (TranslationEntry → TranslationEntry) → Outcome Vm
update_page v p f = if ltb p.page (v.table_size p.space) then ok (with_page v p f) else fault

-- `*p`
unfoldable pub page_at : Vm → PagePtr → Outcome TranslationEntry
page_at v p = if ltb p.page (v.table_size p.space) then ok (v.pages p.space p.page) else fault

abbrev pub this_page : AddrSpace → ℕ → PagePtr
this_page a vpn = record { space = a.id; page = vpn }

abbrev pub with_tlb : Vm → ℕ → (TranslationEntry → TranslationEntry) → Vm
with_tlb v x f = record v { tlb = λ y. if x == y then f (v.tlb y) else v.tlb y }

abbrev pub with_ipt : Vm → ℕ → PagePtr → Vm
with_ipt v f p = record v { ipt = λ g. if f == g then some p else v.ipt g }

-- The `n` bytes of memory from `base` on.
abbrev pub bytes_from : (ℕ → ℕ) → ℕ → ℕ → List ℕ
bytes_from memory base zero = []
bytes_from memory base (suc n) = memory base ∷ bytes_from memory (base + 1) n

-- Memory after `bytes` have been copied to `base`.
abbrev pub copy_in : (ℕ → ℕ) → ℕ → List ℕ → ℕ → ℕ
copy_in memory base bytes a =
    if leb base a && ltb a (base + length bytes) then get_or bytes (a - base) 0 else memory a
