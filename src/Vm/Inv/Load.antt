-- ===== src/Vm/Inv/Load.antt =====
-- `AddrSpace::load` as a whole.
use osproject.Base.{ℕ, ◌≡◌, inl, inr, true, none}
use osproject.Vm.Host.{Host}
use osproject.Vm.State.{AddrSpace, Vm}
use osproject.Vm.Load.{Source, executable, nothing, swap}
use osproject.Vm.Inv.{Inv}

-- What a source needs of the page: a page that is read from the swap area is dirty, and the area is
-- open.
Fillable : AddrSpace → Vm → ℕ → Source → Type 0
Fillable a v vpn (executable file) = Unit {0}
Fillable a v vpn nothing = Unit {0}
Fillable a v vpn swap = (v.pages a.id vpn).dirty ≡ true

-- The contents of memory and the count of page faults play no part in the invariant.
pub refreshed-Inv :
    (a : AddrSpace) (v : Vm) (memory : ℕ → ℕ) (n : ℕ)
    → Inv a none v
    → Inv a none (record v { main_memory = memory; num_page_faults = n })
refreshed-Inv a v memory n inv = record {
  mem_valid = inv.mem_valid;
  mem_bits = inv.mem_bits;
  swap_valid = inv.swap_valid;
  swap_bits = inv.swap_bits;
  tlb_index = inv.tlb_index;
  swap_index = inv.swap_index;
  size = inv.size;
  numbered = inv.numbered;
  frames = λ f hf m. elim (inv.frames f hf m) [
    | inl bad ↦ inl bad
    | inr (p, o) ↦ inr (
      p,
      record { listed = o.listed; in_table = o.in_table; valid = o.valid; in_frame = o.in_frame },
    )
  ];
  resident = λ s k hk vk.
      let (f, r, free) = inv.resident s k hk vk in
      (
        f,
        record { small = r.small; in_frame = r.in_frame; marked = r.marked; listed = r.listed },
        free,
      );
  cached = λ x hx vx.
      let c = inv.cached x hx vx in
      record { in_table = c.in_table; valid = c.valid; same_frame = c.same_frame };
  cached_once = inv.cached_once;
  swapped = λ s k hk vk dk.
      let (j, w) = inv.swapped s k hk vk dk in
      (j, record { in_slot = w.in_slot; small = w.small; marked = w.marked });
  swapped_apart = inv.swapped_apart;
}
