-- ===== src/Vm/Switch/Tests.antt =====
-- A context switch with a full TLB.
use osproject.Base.{ℕ, ◌<◌, ◌≡◌, refl, sym, ◌∙◌, inl, inr, true, none, ltb→lt, lt→ltb, arith}
use osproject.Base.Outcome.{ok}
use osproject.Vm.State.{AddrSpace, Vm, tlb_size}
use osproject.Vm.Inv.{Inv, Cached}
use osproject.Vm.Switch.{fresh_tlb, save_bits_from, save_state, restore_state}
use osproject.Vm.Switch.Laws.{Saves, save_state-Saves, save_state-restore_state}
use osproject.Vm.Tests.{program_space, full, full-Inv, full_page}

-- The TLB holds the four resident pages.
abbrev busy : Vm
busy = record full { tlb = full_page }

-- A second program of no pages.
abbrev other_space : AddrSpace
other_space = record {
  id = 1;
  init_data = 0;
  no_init_data = 0;
  stack = 0;
  num_pages = 0;
  filename = "cat";
}

busy_inside : (x : ℕ) → x < tlb_size → (busy.tlb x).virtual_page < busy.table_size program_space.id
busy_inside x h = omega arith

busy-Cached : (x : ℕ) → (busy.tlb x).valid ≡ true → Cached program_space busy x
busy-Cached x v = record { in_table = omega (arith, ltb→lt x 4 v); valid = v; same_frame = refl }

busy-Inv : Inv program_space none busy
busy-Inv = record {
  mem_valid = full-Inv.mem_valid;
  mem_bits = refl;
  swap_valid = full-Inv.swap_valid;
  swap_bits = refl;
  tlb_index = full-Inv.tlb_index;
  swap_index = full-Inv.swap_index;
  size = refl;
  numbered = λ s n. refl;
  frames = λ f hf m. elim (full-Inv.frames f hf m) [
    | inl bad ↦ inl bad
    | inr (p, o) ↦ inr (
      p,
      record { listed = o.listed; in_table = o.in_table; valid = o.valid; in_frame = o.in_frame },
    )
  ];
  resident = λ s k hk vk.
      let (f, r, free) = full-Inv.resident s k hk vk in
      (
        f,
        record { small = r.small; in_frame = r.in_frame; marked = r.marked; listed = r.listed },
        free,
      );
  cached = λ x h v. busy-Cached x v;
  cached_once = λ x y hx hy vx vy e. e;
  swapped = λ s n h stale dirty. cc (sym stale ∙ dirty);
  swapped_apart = λ s n s' n' k h h' stale _ dirty _ _ _. cc (sym stale ∙ dirty);
}

save_state-Saves_example :
    (s : Saves program_space busy 0 tlb_size (save_bits_from program_space busy 0 tlb_size))
    × (save_state program_space busy full_page
        ≡ ok (record busy { pages = s.pages'; tlb = fresh_tlb full_page }))
save_state-Saves_example = save_state-Saves program_space busy full_page busy_inside

save_state-restore_state_example :
    (v' : Vm) × (save_state program_space busy full_page ≡ ok v')
    × Inv other_space none (restore_state v' full_page)
save_state-restore_state_example =
    save_state-restore_state program_space other_space busy full_page full_page busy-Inv
      (λ x h. lt→ltb _ _ h) refl
