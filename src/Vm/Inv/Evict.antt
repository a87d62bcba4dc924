-- ===== src/Vm/Inv/Evict.antt =====
-- An eviction finds room: the victim leaves its frame, and the frame is taken for the new page.
use osproject.Base.{
  ℕ, ◌*◌, ◌<◌, ◌≡◌, refl, sym, ap, ap₂, ◌∙◌, ◌≢◌, inl, inr, Bool, true, false, Option, none, some,
  List, replicate, ◌==◌, if◌then◌else◌, lt→ltb, arith, Bool-cases,
}
use osproject.Base.Int.{ℤ, pos, minus_one}
use osproject.Base.Outcome.{ok}
use osproject.BitMap.{BitMap, find, clear}
use osproject.BitMap.Abstract.{
  holds, marked, cleared, clear_lem, marked-IsValid, holds-marked, holds-cleared,
}
use osproject.BitMap.Search.{AllSet, find-Finds}
use osproject.Vm.Host.{Host}
use osproject.Vm.State.{
  AddrSpace, Vm, num_phys_pages, swap_size, page_size, points_to, bytes_from, copy_in,
}
use osproject.Vm.Tlb.Chance.{points_to_parts}
use osproject.Vm.Swap.{write_into_swap, clear_physical_page}
use osproject.Vm.Load.{evict}
use osproject.Vm.Inv.{Inv, retagged}
use osproject.Vm.Inv.Victim.{entry}
use osproject.Vm.Inv.Vacate.{Slotted, vacated, vacated-Inv}
use osproject.Vm.Inv.Room.{
  Kept, Kept-trans, Room, taken, AllOwned-of_AllSet, taken-Inv, taken-marked, taken-Kept,
}
use osproject.Vm.Inv.Corner.{Cornered, corner}

-- Some slot of the swap area is free.
abbrev pub SwapSpace : Vm → Type 0
SwapSpace v = (s : ℕ) × (s < swap_size) × (holds v.swap_bit_map s ≡ false)

-- With bit `k` clear the second search of the memory map finds a frame.
found_again :
    (a : AddrSpace) (w : Vm) (k : ℕ)
    → Inv a none w
    → k < num_phys_pages
    → holds w.mem_bit_map k ≡ false
    → (i : ℕ) × (i < num_phys_pages)
      × (holds w.mem_bit_map i ≡ false)
      × (find w.mem_bit_map ≡ ok (marked w.mem_bit_map i, some i))
found_again a w k inv h free = elim (find-Finds w.mem_bit_map inv.mem_valid) [
  | inl (all, _) ↦ cc (sym (all k (omega (arith, inv.mem_bits))) ∙ free)
  | inr (i, hi, clear_i, _, e) ↦ (i, omega (arith, inv.mem_bits), clear_i, e)
]

found_slot :
    (a : AddrSpace) (held : Option ℕ) (w : Vm)
    → Inv a held w
    → SwapSpace w
    → (s : ℕ) × (s < swap_size)
      × (holds w.swap_bit_map s ≡ false)
      × (find w.swap_bit_map ≡ ok (marked w.swap_bit_map s, some s))
found_slot a held w inv (k, h, free) = elim (find-Finds w.swap_bit_map inv.swap_valid) [
  | inl (all, _) ↦ cc (sym (all k (omega (arith, inv.swap_bits))) ∙ free)
  | inr (i, hi, clear_i, _, e) ↦ (i, omega (arith, inv.swap_bits), clear_i, e)
]

pub opened_file : (file : Option (List ℕ)) → file ≢ none → (f : List ℕ) × (file ≡ some f)
opened_file none h = absurd (h refl)
opened_file (some f) h = (f, refl)

module _ (host : Host) (a : AddrSpace) (vpn : ℕ) (v : Vm) (zeroed : Bool) (c : Cornered a v) where
  abbrev w : Vm
  w = retagged v c.pages' c.tlb' v.index_tlb_snd_chc c.next c.slot

  vacated_page :
      (place : ℤ) (m : BitMap) (file : Option (List ℕ)) (memory : ℕ → ℕ) (s n : ℕ)
      → (w.pages s n).valid ≡ false
      → (vacated w c.p c.slot place m file memory).pages s n ≡ w.pages s n
  vacated_page place m file memory s n stale = elim (Bool-cases (points_to c.p s n)) [
    | inl at ↦
        let (es, en) = points_to_parts c.p s n at in
        cc (sym c.owned.valid ∙ ap₂ (λ i j. (w.pages i j).valid) es en ∙ stale)
    | inr off ↦ rw off refl
  ]

  vacated-Kept :
      (place : ℤ) (m : BitMap) (file : Option (List ℕ)) (memory : ℕ → ℕ)
      → (v.swap_file ≢ none → file ≢ none)
      → Kept v (vacated w c.p c.slot place m file memory)
  vacated-Kept place m file memory opened = Kept-trans v w _ c.kept record {
    sizes = λ s. refl;
    absent = λ s n hn vn.
        let same = vacated_page place m file memory s n vn in
        (ap (λ e. e.valid) same ∙ vn, ap (λ e. e.dirty) same, ap (λ e. e.physical_page) same);
    tlb_older = λ x vx. (vx, refl);
    swap_open = opened;
  }

  -- After the victim has left, the search of the memory map finds a frame.
  vacated-Room :
      (place : ℤ) (m : BitMap) (file : Option (List ℕ)) (memory : ℕ → ℕ)
      → Slotted w c.p place m
      → (v.swap_file ≢ none → file ≢ none)
      → ((i : ℕ)
          → find (cleared v.mem_bit_map c.slot)
            ≡ ok (marked (cleared v.mem_bit_map c.slot) i, some i)
          → evict host a vpn zeroed v ≡ ok (taken (vacated w c.p c.slot place m file memory) i, i))
      → Room a v (evict host a vpn zeroed v)
  vacated-Room place m file memory slotted opened returns =
      let u = vacated w c.p c.slot place m file memory in
      let inv =
        vacated-Inv a w c.p c.slot place m file memory c.inv c.small c.owned c.apart slotted in
      let free =
        holds-cleared v.mem_bit_map c.slot c.slot c.inv.mem_valid
          (omega (arith, c.inv.mem_bits, c.small)) in
      let (i, small, clear_i, found) = found_again a u c.slot inv c.small (ground (arith, free)) in
      record {
        out = taken u i;
        frame = i;
        returns = returns i found;
        inv = taken-Inv a u i inv small clear_i;
        small = small;
        marked_frame = taken-marked a u i inv small clear_i;
        kept =
            Kept-trans v u _ (vacated-Kept place m file memory opened)
              (taken-Kept a u i inv small clear_i);
      }

  marks :
      (s : ℕ)
      → s < swap_size
      → (k : ℕ)
      → holds (marked v.swap_bit_map s) k ≡ (if s == k then true else holds v.swap_bit_map k)
  marks s h k = holds-marked v.swap_bit_map s k c.inv.swap_valid (omega (arith, c.inv.swap_bits))

  vacant : clear v.mem_bit_map c.slot ≡ ok (cleared v.mem_bit_map c.slot)
  vacant = clear_lem v.mem_bit_map c.slot c.inv.mem_valid (omega (arith, c.inv.mem_bits, c.small))

  evict_dirty-Room :
      v.swap_file ≢ none
      → SwapSpace v
      → (entry w c.p).dirty ≡ true
      → Room a v (evict host a vpn zeroed v)
  unfolding evict write_into_swap
  evict_dirty-Room opened space dirty =
      let (s, small, free, found) = found_slot a none w c.inv space in
      let (file, is_open) = opened_file v.swap_file opened in
      vacated-Room (pos s) (marked v.swap_bit_map s)
        (some (
          host.write_at file (s * page_size)
            (bytes_from v.main_memory (c.slot * page_size) page_size)))
        v.main_memory
        (record {
          valid = marked-IsValid v.swap_bit_map s c.inv.swap_valid;
          bits = c.inv.swap_bits;
          kept = λ k mk. ground (arith, marks s small k, mk);
          fresh = λ _. (s, refl, small, ground (arith, marks s small s), free);
        })
        (λ h bad. cc bad)
        (λ i again.
          rw
            (
              c.chooses,
              c.withdraws,
              c.owned.listed,
              lt→ltb _ _ c.owned.in_table,
              dirty,
              c.owned.in_frame,
              found,
              lt→ltb _ _ c.small,
              is_open,
              c.owned.listed,
              lt→ltb _ _ c.owned.in_table,
              vacant,
              again,
            )
            refl)

  evict_clean-Room : (entry w c.p).dirty ≡ false → Room a v (evict host a vpn zeroed v)
  unfolding evict clear_physical_page
  evict_clean-Room clean =
      let memory =
        if zeroed
        then copy_in v.main_memory (c.slot * page_size) (replicate page_size 0)
        else v.main_memory in
      vacated-Room minus_one v.swap_bit_map v.swap_file memory
        (record {
          valid = c.inv.swap_valid;
          bits = c.inv.swap_bits;
          kept = λ k mk. mk;
          fresh = λ dirty. cc (sym clean ∙ dirty);
        })
        (λ opened. opened)
        (λ i again. elim (Bool-cases zeroed) [
          | inl z ↦
              rw
                (
                  c.chooses,
                  c.withdraws,
                  c.owned.listed,
                  lt→ltb _ _ c.owned.in_table,
                  clean,
                  c.owned.in_frame,
                  vacant,
                  z,
                  lt→ltb _ _ c.small,
                  again,
                )
                refl
          | inr z ↦
              rw
                (
                  c.chooses,
                  c.withdraws,
                  c.owned.listed,
                  lt→ltb _ _ c.owned.in_table,
                  clean,
                  c.owned.in_frame,
                  vacant,
                  z,
                  again,
                )
                refl
        ])

-- Under the paging invariant with every frame in use, the swap file open and a slot of the swap
-- area free, an eviction returns a frame that belongs to no page: the invariant holds but for that
-- frame, pages that were not resident keep their place and dirty bit, and the TLB has no new
-- entries.
pub evict-Room :
    (host : Host) (a : AddrSpace) (vpn : ℕ) (zeroed : Bool) (v : Vm)
    → Inv a none v
    → AllSet v.mem_bit_map v.mem_bit_map.num_bits
    → v.swap_file ≢ none
    → SwapSpace v
    → Room a v (evict host a vpn zeroed v)
evict-Room host a vpn zeroed v inv full opened space =
    let c = corner a v inv (AllOwned-of_AllSet a v inv full) in
    let w = retagged v c.pages' c.tlb' v.index_tlb_snd_chc c.next c.slot in
    elim (Bool-cases (entry w c.p).dirty) [
      | inl dirty ↦ evict_dirty-Room host a vpn v zeroed c opened space dirty
      | inr clean ↦ evict_clean-Room host a vpn v zeroed c clean
    ]
