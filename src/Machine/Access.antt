-- ===== src/Machine/Access.antt =====
-- `Translate` under the invariant of demand paging.
use osproject.Base.{
  ℕ, zero, suc, ◌+◌, ◌*◌, ◌/◌, ◌%◌, ◌≤◌, ◌<◌, ◌≡◌, refl, ◌∙◌, ◌≢◌, ◌⊎◌, inl, inr, Bool, true, false,
  ◌&&◌, Option, none, some, ◌==◌, if◌then◌else◌, leb, lt→ltb, arith, Bool-cases,
}
use native.Mathlib.Decide.{ℕ_discrete}
use osproject.Base.Int.{pos}
use osproject.Base.Outcome.{ok}
use osproject.Vm.State.{AddrSpace, Vm, page_size, num_phys_pages, memory_size, tlb_size, with_tlb}
use osproject.Vm.Tlb.Chance.{SameFrame-refl}
use osproject.Vm.Inv.{Inv, retagged-Inv}
use osproject.Vm.Inv.Refill.{Misses}
use osproject.Machine.{no_exception, page_fault_exception, misaligned, find_entry, translate}

-- The first entry that holds page `vpn`, or none.
FindsEntry : Vm → ℕ → ℕ → ℕ → Option ℕ → Type 0
FindsEntry v vpn x n r =
    ((r ≡ none) × ((y : ℕ) → y < x + n → (v.tlb y).valid ≡ true → (v.tlb y).virtual_page ≢ vpn))
    ⊎ ((y : ℕ) × (y < x + n)
        × (r ≡ some y)
        × ((v.tlb y).valid ≡ true)
        × ((v.tlb y).virtual_page ≡ vpn))

is_hit :
    (v : Vm) (vpn x : ℕ)
    → ((v.tlb x).valid && ((v.tlb x).virtual_page == vpn)) ≡ true
    → ((v.tlb x).valid ≡ true) × ((v.tlb x).virtual_page ≡ vpn)
is_hit v vpn x e = ground arith

no_hit :
    (v : Vm) (vpn x : ℕ)
    → ((v.tlb x).valid && ((v.tlb x).virtual_page == vpn)) ≡ false
    → (v.tlb x).valid ≡ true
    → (v.tlb x).virtual_page ≢ vpn
no_hit v vpn x e valid same = ground arith

find_entry-FindsEntry :
    (v : Vm) (vpn x n : ℕ)
    → ((y : ℕ) → y < x → (v.tlb y).valid ≡ true → (v.tlb y).virtual_page ≢ vpn)
    → FindsEntry v vpn x n (find_entry v vpn x n)
unfolding find_entry FindsEntry
find_entry-FindsEntry v vpn x zero before = inl (refl, λ y h. before y (omega arith))
find_entry-FindsEntry v vpn x (suc n) before =
    elim (Bool-cases ((v.tlb x).valid && ((v.tlb x).virtual_page == vpn))) [
      | inl hit ↦
          let (valid, same) = is_hit v vpn x hit in inr (x, omega arith, rw hit refl, valid, same)
      | inr miss ↦
          rw miss
            (elim (find_entry-FindsEntry v vpn (x + 1) n (λ y h. elim (ℕ_discrete y x) [
              | yes e ↦ rw e (no_hit v vpn x miss)
              | no ne ↦ before y (omega arith)
            ])) [
              | inl (r, rest) ↦ inl (r, λ y h. rest y (omega arith))
              | inr (y, h, r, valid, same) ↦ inr (y, omega arith, r, valid, same)
            ])
    ]

-- The state after an access through entry `x`.
abbrev pub touched : Vm → ℕ → Bool → Vm
touched v x writing =
    with_tlb v x (λ e. record e { use_bit = true; dirty = if writing then true else e.dirty })

pub touched-Inv :
    (a : AddrSpace) (v : Vm) (x : ℕ) (writing : Bool)
    → Inv a none v
    → Inv a none (touched v x writing)
touched-Inv a v x writing inv =
    retagged-Inv a none v v.pages (touched v x writing).tlb v.index_tlb_snd_chc v.index_swap_snd_chc
      v.index_swap_fifo
      (record {
        page_frames = λ s n. SameFrame-refl (v.pages s n);
        dirty_kept = λ s n h stale. refl;
        tlb_frames = λ y h. ground arith;
      })
      inv.tlb_index inv.swap_index inv

-- Entry `slot` translates the page of `addr` to the frame where the page table has it.
pub record Mapped (a : AddrSpace) (v : Vm) (vpn : ℕ) : Type 0 where
  pub slot : ℕ
  pub frame : ℕ
  pub small : slot < tlb_size
  pub in_memory : frame < num_phys_pages
  pub valid : (v.tlb slot).valid ≡ true
  pub for_page : (v.tlb slot).virtual_page ≡ vpn
  pub found : find_entry v vpn 0 tlb_size ≡ some slot
  pub tlb_frame : (v.tlb slot).physical_page ≡ pos frame
  pub page_frame : (v.pages a.id vpn).physical_page ≡ pos frame

-- The TLB either has the page, in the frame of the page table, or does not have it.
pub Mapped-or_Misses :
    (a : AddrSpace) (v : Vm) (vpn : ℕ)
    → Inv a none v
    → Mapped a v vpn ⊎ (Misses v vpn × (find_entry v vpn 0 tlb_size ≡ none))
unfolding FindsEntry
Mapped-or_Misses a v vpn inv =
    elim (find_entry-FindsEntry v vpn 0 tlb_size (λ y h. absurd (omega arith))) [
      | inl (r, all) ↦ inr (λ x hx vx e. all x (omega arith) vx e, r)
      | inr (x, h, r, valid, same) ↦
          let small : x < tlb_size = omega arith in
          let c = inv.cached x small valid in
          let (f, res, _) =
            inv.resident a.id (v.tlb x).virtual_page (rw inv.size c.in_table) c.valid in
          inl (record {
            slot = x;
            frame = f;
            small = small;
            in_memory = res.small;
            valid = valid;
            for_page = same;
            found = r;
            tlb_frame = c.same_frame ∙ res.in_frame;
            page_frame = rw same at res.in_frame;
          })
    ]

-- An aligned access of 1, 2 or 4 bytes stays in the page, and in memory.
pub fits :
    (addr size frame : ℕ)
    → (size ≡ 1) ⊎ ((size ≡ 2) ⊎ (size ≡ 4))
    → misaligned addr size ≡ false
    → frame < num_phys_pages
    → frame * page_size + addr % page_size + size ≤ memory_size
fits addr size frame (inl e) aligned h = omega arith
fits addr size frame (inr (inl e)) aligned h = let even : addr % 2 ≡ 0 = ground arith in omega arith
fits addr size frame (inr (inr e)) aligned h =
    let whole : addr % 4 ≡ 0 = ground arith in omega arith

-- An access to a mapped page, by a program that may do it.
pub translate-Mapped :
    (a : AddrSpace) (v : Vm) (addr size : ℕ) (writing : Bool)
    → (m : Mapped a v (addr / page_size)) → (size ≡ 1) ⊎ ((size ≡ 2) ⊎ (size ≡ 4))
    → misaligned addr size ≡ false
    → ((v.tlb m.slot).read_only && writing) ≡ false
    → translate v addr size writing
      ≡ ok (touched v m.slot writing, no_exception, m.frame * page_size + addr % page_size)
unfolding translate
translate-Mapped a v addr size writing m sizes aligned allowed =
    rw (aligned, m.found, allowed, m.tlb_frame, lt→ltb _ _ m.in_memory, within) refl
  where
    within : leb (m.frame * page_size + addr % page_size + size) memory_size ≡ true
    within = ground (arith, fits addr size m.frame sizes aligned m.in_memory)

-- An aligned access to a page that is not in the TLB.
pub translate-Misses :
    (v : Vm) (addr size : ℕ) (writing : Bool)
    → misaligned addr size ≡ false
    → find_entry v (addr / page_size) 0 tlb_size ≡ none
    → translate v addr size writing ≡ ok (v, page_fault_exception, 0)
unfolding translate
translate-Misses v addr size writing aligned none_found = rw (aligned, none_found) refl
