-- ===== src/Vm/Tlb.antt =====
-- The second-chance replacement of TLB entries, userprog/addrspace.cc: saveVictimTLBInfo,
-- getNextSCTLB and useThisTLBIndex.
pub mod Chance
pub mod Refill
use osproject.Base.{
  ℕ, zero, suc, ◌+◌, ◌%◌, Bool, true, false, not, Option, none, some, ltb, if◌then◌else◌,
}
use osproject.Base.Outcome.{Outcome, ok, abort, fault, timeout, ◌>>=◌, ◌>>◌, assert}
use osproject.Vm.State.{
  TranslationEntry, AddrSpace, Vm, tlb_size, update_page, page_at, this_page, with_tlb,
}

unfoldable pub save_victim_tlb_info : AddrSpace → Vm → ℕ → Bool → Outcome Vm
unfolding update_page
save_victim_tlb_info a v tlb_index old_use = do
  assert (ltb tlb_index tlb_size)
  let t = v.tlb tlb_index
  update_page v (this_page a t.virtual_page)
      (λ e. record e { use_bit = if old_use then true else t.use_bit; dirty = t.dirty })

-- The loop that looks for an invalid entry, with `n` rounds left.
unfoldable pub first_invalid : Vm → ℕ → ℕ → Option ℕ
first_invalid v x zero = none
first_invalid v x (suc n) =
    let rest = first_invalid v (x + 1) n in if (v.tlb x).valid then rest else some x

abbrev pub advance_tlb : Vm → Vm
advance_tlb v = record v { index_tlb_snd_chc = (v.index_tlb_snd_chc + 1) % tlb_size }

-- The `while ( find == false )` loop, on fuel.
unfoldable pub second_chance_tlb : AddrSpace → ℕ → Vm → Outcome (Vm × ℕ)
second_chance_tlb a zero v = timeout
second_chance_tlb a (suc fuel) v = elim (v.tlb v.index_tlb_snd_chc).use_bit [
  | true ↦ do
    v' ←
        save_victim_tlb_info a (with_tlb v v.index_tlb_snd_chc (λ t. record t { use_bit = false }))
          v.index_tlb_snd_chc true
    second_chance_tlb a fuel (advance_tlb v')
  | false ↦ do
    v' ← save_victim_tlb_info a v v.index_tlb_snd_chc false
    ok (advance_tlb v', v.index_tlb_snd_chc)
]

-- One round for each entry, and one more.
abbrev pub tlb_fuel : ℕ
tlb_fuel = 5

unfoldable pub get_next_sctlb : AddrSpace → Vm → Outcome (Vm × ℕ)
unfolding first_invalid second_chance_tlb
get_next_sctlb a v = elim (first_invalid v 0 tlb_size) [
  | some x ↦ ok (v, x)
  | none ↦ do
    (v', free_space) ← second_chance_tlb a tlb_fuel v
    assert (ltb free_space tlb_size)
    ok (v', free_space)
]

unfoldable pub use_this_tlb_index : AddrSpace → Vm → ℕ → ℕ → Outcome Vm
unfolding page_at
use_this_tlb_index a v tlb_index vpn = do
  assert (ltb tlb_index tlb_size)
  assert (ltb vpn a.num_pages)
  e ← page_at v (this_page a vpn)
  ok (with_tlb v tlb_index (λ _. e))
