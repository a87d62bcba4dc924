-- ===== src/Machine/Tests.antt =====
-- Accesses by a program whose memory is full, and instances of the theorems.
use osproject.Base.{◌/◌, ◌≡◌, refl, inr, false, [], ◌∷◌, arith}
use osproject.Base.Outcome.{ok}
use osproject.Vm.State.{page_size}
use osproject.Vm.Tests.{byte_host, program_space, full, full_page, full-Inv}
use osproject.Machine.{translate, find_entry, address_error_exception, page_fault_exception}
use osproject.Machine.Access.{Mapped}
use osproject.Machine.Start.{Garbage}
use osproject.Machine.Store.{Stores, write_mem-read_mem}

not_aligned : translate full 6 4 false ≡ ok (full, address_error_exception, 0)
unfolding translate
not_aligned = refl

not_in_tlb : translate full 520 4 false ≡ ok (full, page_fault_exception, 0)
unfolding translate
not_in_tlb = refl

first_mapped : Mapped program_space full (12 / page_size)
unfolding find_entry
first_mapped = record {
  slot = 0;
  frame = 0;
  small = omega arith;
  in_memory = omega arith;
  valid = refl;
  for_page = refl;
  found = refl;
  tlb_frame = refl;
  page_frame = refl;
}

write_mem-read_mem_example : Stores byte_host program_space 12 4 305419896 full
unfolding first_mapped
write_mem-read_mem_example =
    write_mem-read_mem byte_host program_space full 12 4 305419896 full-Inv first_mapped
      (inr (inr refl)) refl refl

abbrev garbage : Garbage
garbage = record {
  mem_words = 7 ∷ [];
  swap_words = 8 ∷ 9 ∷ [];
  tlb = full_page;
  next_tlb = full_page;
  mem_size = refl;
  swap_size = refl;
}
