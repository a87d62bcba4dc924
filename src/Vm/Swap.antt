-- ===== src/Vm/Swap.antt =====
-- The swap area and the choice of a victim frame, userprog/addrspace.cc: clearPhysicalPage,
-- writeIntoSwap, readFromSwap, getNextSCSWAP and updateSwapVictimInfo.
pub mod RoundTrip
mod Tests
use osproject.Base.{
  ℕ, zero, suc, ◌+◌, ◌*◌, ◌%◌, true, false, ◌&&◌, Option, none, some, replicate, ltb, if◌then◌else◌,
}
use osproject.Base.Int.{ℤ, pos, negsuc, eq_ℤ}
use osproject.Base.Outcome.{Outcome, ok, abort, timeout, ◌>>=◌, ◌>>◌, assert, deref}
use osproject.BitMap.{BitMap, find, clear}
use osproject.Vm.Host.{Host}
use osproject.Vm.State.{
  PagePtr, Vm, page_size, num_phys_pages, tlb_size, swap_size, page_at, update_page, with_tlb,
  bytes_from, copy_in,
}

-- A pointer that `ASSERT` tests for NULL.
abbrev pub not_null {ℓ} : {A : Type ℓ} → Option A → Outcome A
not_null (some a) = ok a
not_null none = abort

unfoldable pub clear_physical_page : Vm → ℤ → Outcome Vm
clear_physical_page v (negsuc _) = abort
clear_physical_page v (pos physical_page) = do
  assert (ltb physical_page num_phys_pages)
  ok (record v {
    main_memory = copy_in v.main_memory (physical_page * page_size) (replicate page_size 0);
  })

module _ (host : Host) where
  -- What `writeIntoSwap` does once `SWAPBitMap->Find()` has returned.
  write_to_slot : Vm → ℤ → BitMap × Option ℕ → Outcome Vm
  write_to_slot v (negsuc _) found = abort
  write_to_slot v (pos victim) (m, none) = do assert (ltb victim num_phys_pages); abort
  write_to_slot v (pos victim) (m, some swap_page) = do
    assert (ltb victim num_phys_pages)
    file ← not_null v.swap_file
    p ← deref (v.ipt victim)
    v' ←
        update_page (record v { swap_bit_map = m }) p
          (λ e. record e { valid = false; physical_page = pos swap_page })
    let page = bytes_from v.main_memory (victim * page_size) page_size
    mem ← clear v.mem_bit_map v.index_swap_fifo
    ok (record v' {
      swap_file = some (host.write_at file (swap_page * page_size) page);
      mem_bit_map = mem;
    })

  unfoldable pub write_into_swap : Vm → ℤ → Outcome Vm
  unfolding write_to_slot
  write_into_swap v victim = find v.swap_bit_map >>= write_to_slot v victim

  unfoldable pub read_from_swap : Vm → ℕ → ℤ → Outcome Vm
  read_from_swap v physical_page (negsuc _) = abort
  read_from_swap v physical_page (pos swap_page) = do
    m ← clear v.swap_bit_map swap_page
    assert (ltb swap_page swap_size)
    file ← not_null v.swap_file
    assert (ltb physical_page num_phys_pages)
    ok (record v {
      swap_bit_map = m;
      main_memory =
          copy_in v.main_memory (physical_page * page_size)
            (host.read_at file (swap_page * page_size) page_size);
      num_page_faults = v.num_page_faults + 1;
    })

abbrev pub advance_swap : Vm → Vm
advance_swap v = record v { index_swap_snd_chc = (v.index_swap_snd_chc + 1) % num_phys_pages }

-- The `while ( find == false )` loop of `getNextSCSWAP`, on fuel.
unfoldable pub second_chance_swap : ℕ → Vm → Outcome (Vm × ℕ)
unfolding page_at update_page
second_chance_swap zero v = timeout
second_chance_swap (suc fuel) v = do
  p ← not_null (v.ipt v.index_swap_snd_chc)
  e ← page_at v p
  assert e.valid
  elim e.use_bit [
    | true ↦ do
      v' ← update_page v p (λ f. record f { use_bit = false })
      second_chance_swap fuel (advance_swap v')
    | false ↦ ok (advance_swap v, v.index_swap_snd_chc)
  ]

-- One round for each frame, and one more.
abbrev pub swap_fuel : ℕ
swap_fuel = 5

unfoldable pub get_next_scswap : Vm → Outcome (Vm × ℕ)
unfolding second_chance_swap
get_next_scswap v = do
  assert (ltb v.index_swap_snd_chc num_phys_pages)
  (v', free_space) ← second_chance_swap swap_fuel v
  assert (ltb free_space num_phys_pages)
  ok (v', free_space)

-- The loop of `updateSwapVictimInfo` from entry `x` on, with `n` rounds left: the first valid TLB
-- entry for the victim's frame is dropped, and its use and dirty bits go to the page table.
unfoldable pub update_swap_victim_info_from : Vm → PagePtr → ℕ → ℕ → Outcome Vm
unfolding page_at update_page
update_swap_victim_info_from v p x zero = ok v
update_swap_victim_info_from v p x (suc n) =
    let rest = update_swap_victim_info_from v p (x + 1) n in
    let t = v.tlb x in
    do
      e ← page_at v p
      if t.valid && eq_ℤ t.physical_page e.physical_page
          then update_page (with_tlb v x (λ u. record u { valid = false })) p
              (λ f. record f { use_bit = t.use_bit; dirty = t.dirty })
          else rest

unfoldable pub update_swap_victim_info : Vm → ℕ → Outcome Vm
unfolding update_swap_victim_info_from
update_swap_victim_info v swap_index = do
  p ← deref (v.ipt swap_index)
  update_swap_victim_info_from v p 0 tlb_size
