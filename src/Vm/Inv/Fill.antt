-- ===== src/Vm/Inv/Fill.antt =====
-- `load` with a frame at hand: the page gets the frame, is filled and enters the TLB.
use osproject.Base.{
  ℕ, ◌+◌, ◌*◌, ◌<◌, ◌≡◌, refl, ap, ◌∙◌, ◌≢◌, inl, inr, true, false, none, some, List, lt→ltb, arith,
}
use native.Mathlib.Decide.{ℕ_discrete}
use osproject.Base.Int.{pos}
use osproject.Base.Outcome.{Outcome, ok}
use osproject.BitMap.{BitMap}
use osproject.BitMap.Abstract.{holds, cleared, clear_lem, cleared-IsValid, holds-cleared}
use osproject.Vm.Host.{Host}
use osproject.Vm.State.{AddrSpace, Vm, num_phys_pages, page_size, copy_in}
use osproject.Vm.Swap.{read_from_swap}
use osproject.Vm.Load.{Source, executable, nothing, swap, code_in_file_addr, install, refill_tlb}
use osproject.Vm.Inv.{Inv, Swapped}
use osproject.Vm.Inv.Refill.{Misses, Hits, Refilled, refill_tlb-Refilled}
use osproject.Vm.Inv.Evict.{opened_file}
use osproject.Vm.Inv.Install.{Unslotted, entered, entered-Inv, entered-valid}

-- The fault has been served: a result was returned, the invariant holds, and page `vpn` is resident
-- and in the TLB.
pub record Served (a : AddrSpace) (vpn : ℕ) (result : Outcome Vm) : Type 0 where
  pub out : Vm
  pub returns : result ≡ ok out
  pub inv : Inv a none out
  pub slot : ℕ
  pub hits : Hits a out vpn slot
  pub resident : (out.pages a.id vpn).valid ≡ true

pub Refilled-Served :
    (a : AddrSpace) (v : Vm) (vpn : ℕ)
    → (v.pages a.id vpn).valid ≡ true
    → Refilled a none v vpn
    → Served a vpn (refill_tlb a v vpn)
Refilled-Served a v vpn valid r = record {
  out = record v { pages = r.pages'; tlb = r.tlb'; index_tlb_snd_chc = r.index' };
  returns = r.returns;
  inv = r.inv;
  slot = r.slot;
  hits = r.hits;
  resident = (r.page_frames a.id vpn).valid_same ∙ valid;
}

module _ (host : Host) (a : AddrSpace) (vpn : ℕ) (v : Vm) (f : ℕ) (inv : Inv a (some f) v)
    (small : f < num_phys_pages) (marked_f : holds v.mem_bit_map f ≡ true) (h : vpn < a.num_pages)
    (stale : (v.pages a.id vpn).valid ≡ false) (miss : Misses v vpn) where
  entered-Served :
      (source : Source) (m : BitMap) (memory : ℕ → ℕ) (faults : ℕ)
      → Unslotted a v vpn m
      → install host a vpn source f v ≡ refill_tlb a (entered a v vpn f m memory faults) vpn
      → Served a vpn (install host a vpn source f v)
  entered-Served source m memory faults slots e =
      let out = entered a v vpn f m memory faults in
      let inv' = entered-Inv a v vpn f m memory faults inv small marked_f h stale slots in
      let valid = entered-valid a v vpn f m memory faults inv small marked_f h stale slots in
      rw e (Refilled-Served a out vpn valid (refill_tlb-Refilled a none out vpn inv' h valid miss))

  in_table : vpn < v.table_size a.id
  in_table = rw inv.size h

  same_slots : Unslotted a v vpn v.swap_bit_map
  same_slots = record { valid = inv.swap_valid; bits = inv.swap_bits; kept = λ k mk. inr mk }

  pub executable-Served : (file : List ℕ) → Served a vpn (install host a vpn (executable file) f v)
  unfolding install
  executable-Served file =
      entered-Served (executable file) v.swap_bit_map
        (copy_in v.main_memory (f * page_size)
          (host.read_at file (code_in_file_addr host file + page_size * vpn) page_size))
        v.num_page_faults same_slots (rw (lt→ltb _ _ in_table) (rw (lt→ltb _ _ in_table) refl))

  pub nothing-Served : Served a vpn (install host a vpn nothing f v)
  unfolding install
  nothing-Served =
      entered-Served nothing v.swap_bit_map v.main_memory v.num_page_faults same_slots
        (rw (lt→ltb _ _ in_table) (rw (lt→ltb _ _ in_table) refl))

  in_slot-Served :
      (file : List ℕ) (k : ℕ)
      → v.swap_file ≡ some file
      → (v.pages a.id vpn).dirty ≡ true
      → Swapped v a.id vpn k
      → Served a vpn (install host a vpn swap f v)
  unfolding install read_from_swap
  in_slot-Served file k is_open dirty w =
      let bound : k < v.swap_bit_map.num_bits = omega (arith, inv.swap_bits, w.small) in
      let cleared_slot = clear_lem v.swap_bit_map k inv.swap_valid bound in
      entered-Served swap (cleared v.swap_bit_map k)
        (copy_in v.main_memory (f * page_size) (host.read_at file (k * page_size) page_size))
        (v.num_page_faults + 1)
        (record {
          valid = cleared-IsValid v.swap_bit_map k inv.swap_valid;
          bits = inv.swap_bits;
          kept = λ j mj. elim (ℕ_discrete k j) [
            | yes e ↦ inl (dirty, w.in_slot ∙ ap pos e)
            | no ne ↦
                inr (ground (arith, holds-cleared v.swap_bit_map k j inv.swap_valid bound, mj))
          ];
        })
        (rw
          (
            lt→ltb _ _ in_table,
            w.in_slot,
            cleared_slot,
            lt→ltb _ _ w.small,
            is_open,
            lt→ltb _ _ small,
          )
          (rw (lt→ltb _ _ in_table) refl))

  pub swap-Served :
      v.swap_file ≢ none
      → (v.pages a.id vpn).dirty ≡ true
      → Served a vpn (install host a vpn swap f v)
  swap-Served opened dirty =
      let (k, w) = inv.swapped a.id vpn in_table stale dirty in
      let (file, is_open) = opened_file v.swap_file opened in in_slot-Served file k is_open dirty w
