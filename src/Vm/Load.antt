-- ===== src/Vm/Load.antt =====
-- `AddrSpace::load`, the page-fault handler of userprog/addrspace.cc.
use osproject.Base.{
  ℕ, ◌+◌, ◌*◌, Bool, true, false, not, ◌&&◌, Option, none, some, List, get_or, ltb, if◌then◌else◌,
}
use osproject.Base.Int.{ℤ, pos, negsuc, minus_one}
use osproject.Base.Outcome.{Outcome, ok, abort, ◌>>=◌, deref}
use osproject.BitMap.{BitMap, find, clear}
use osproject.Vm.Host.{Host}
use osproject.Vm.State.{
  PagePtr, AddrSpace, Vm, page_size, page_at, update_page, this_page, with_ipt, copy_in,
}
use osproject.Vm.Tlb.{get_next_sctlb, use_this_tlb_index}
use osproject.Vm.Swap.{
  not_null, clear_physical_page, write_into_swap, read_from_swap, get_next_scswap,
  update_swap_victim_info,
}

-- `int tlbSPace = getNextSCTLB(); useThisTLBIndex( tlbSPace, vpn );`
unfoldable pub refill_tlb : AddrSpace → Vm → ℕ → Outcome Vm
refill_tlb a v vpn = do (v', tlb_space) ← get_next_sctlb a v; use_this_tlb_index a v' tlb_space vpn

-- A little-endian word of a header that `bytes` have been read into; `start` bytes come before it.
abbrev pub word_at : Host → List ℕ → ℕ → ℕ
word_at host bytes start =
    let byte : ℕ → ℕ = λ i. get_or bytes i (host.unset i) in
    byte start + 256 * byte (start + 1) + 65536 * byte (start + 2) + 16777216 * byte (start + 3)

-- `noffH.code.inFileAddr`, the third word of the header of ten words that `load` reads.
abbrev pub code_in_file_addr : Host → List ℕ → ℕ
code_in_file_addr host executable = word_at host (host.read_at executable 0 40) 8

-- What a new page is filled with, by segment.
pub data Source : Type 0 where
  executable : List ℕ → Source
  nothing : Source
  swap : Source

module _ (host : Host) (a : AddrSpace) (vpn : ℕ) where
  -- `executable->ReadAt(&mainMemory[ freeFrame*PageSize ], PageSize, inFileAddr + PageSize*vpn)`
  read_executable : List ℕ → ℕ → Vm → Vm
  read_executable file frame v = record v {
    main_memory =
        copy_in v.main_memory (frame * page_size)
          (host.read_at file (code_in_file_addr host file + page_size * vpn) page_size);
  }

  -- The page gets the frame, is filled, becomes valid, and is entered in the inverted table and the
  -- TLB.
  unfoldable pub install : Source → ℕ → Vm → Outcome Vm
  unfolding read_executable page_at update_page
  install source frame v = do
    old ← page_at v (this_page a vpn)
    v1 ← update_page v (this_page a vpn) (λ e. record e { physical_page = pos frame })
    v2 ← (elim source [
      | executable file ↦ ok (read_executable file frame v1)
      | nothing ↦ ok v1
      | swap ↦ read_from_swap host v1 frame old.physical_page
    ])
    v3 ← update_page v2 (this_page a vpn) (λ e. record e { valid = true })
    refill_tlb a (with_ipt v3 frame (this_page a vpn)) vpn

  -- `MemBitMap->Find()` after an eviction; -1 fails an assertion.
  frame_of : BitMap × Option ℕ → Vm → Outcome (Vm × ℕ)
  frame_of (m, none) v = abort
  frame_of (m, some frame) v = ok (record v { mem_bit_map = m }, frame)

  -- A dirty victim goes to the swap area.
  evict_dirty : Vm → PagePtr → Outcome (Vm × ℕ)
  unfolding page_at frame_of
  evict_dirty v p = do
    e ← page_at v p
    v' ← write_into_swap host v e.physical_page
    found ← find v'.mem_bit_map
    frame_of found v'

  -- `BitMap::Clear( int )`
  clear_frame : BitMap → ℤ → Outcome BitMap
  clear_frame m (negsuc _) = abort
  clear_frame m (pos frame) = clear m frame

  -- A clean victim is dropped; the frame is zeroed for a page of the third segment only.
  evict_clean : Bool → Vm → PagePtr → Outcome (Vm × ℕ)
  unfolding page_at update_page frame_of clear_frame
  evict_clean zeroed v p = do
    e ← page_at v p
    v1 ← update_page v p (λ f. record f { valid = false; physical_page = minus_one })
    m ← clear_frame v1.mem_bit_map e.physical_page
    let v2 = record v1 { mem_bit_map = m }
    v3 ← if zeroed then clear_physical_page v2 e.physical_page else ok v2
    found ← find v3.mem_bit_map
    frame_of found v3

  -- Without a free frame: choose a victim, take its TLB bits, and evict it.
  unfoldable pub evict : Bool → Vm → Outcome (Vm × ℕ)
  unfolding evict_dirty evict_clean page_at
  evict zeroed v = do
    (v1, victim) ← get_next_scswap v
    v2 ← update_swap_victim_info (record v1 { index_swap_fifo = victim }) victim
    p ← deref (v2.ipt victim)
    e ← page_at v2 p
    if e.dirty then evict_dirty v2 p else evict_clean zeroed v2 p

  -- `freeFrame = MemBitMap->Find();` and, at -1, an eviction.
  free_frame : Bool → Vm → BitMap × Option ℕ → Outcome (Vm × ℕ)
  free_frame zeroed v (m, some frame) = ok (record v { mem_bit_map = m }, frame)
  free_frame zeroed v (m, none) = evict zeroed (record v { mem_bit_map = m })

  unfoldable pub bring_in : Bool → Source → Vm → Outcome Vm
  unfolding free_frame
  bring_in zeroed source v = do
    found ← find v.mem_bit_map
    (v', frame) ← free_frame zeroed v found
    install source frame v'

  -- Pages of the code and of the initialised data come from the executable, the rest start empty.
  unfoldable pub load_clean : List ℕ → Vm → Outcome Vm
  load_clean file v =
      if ltb vpn a.init_data
      then bring_in false (executable file) v
      else if ltb vpn a.no_init_data
      then bring_in false (executable file) v
      else if ltb vpn a.num_pages
      then bring_in true nothing v
      else abort

  unfoldable pub load : Vm → Outcome Vm
  unfolding page_at load_clean
  load v = do
    e ← page_at v (this_page a vpn)
    if not e.valid && not e.dirty
        then (do
          file ← not_null (v.programs a.filename)
          load_clean file (record v { num_page_faults = v.num_page_faults + 1 }))
        else if not e.valid && e.dirty
        then bring_in false swap v
        else refill_tlb a v vpn
