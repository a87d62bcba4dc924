-- ===== src/Vm/Switch/Laws.antt =====
-- What a context switch does to the page tables and to the invariant.
use osproject.Base.{
  ℕ, zero, suc, ◌+◌, ◌≤◌, ◌<◌, ◌≡◌, refl, sym, ap, ap₂, ◌∙◌, ◌≢◌, inl, inr, true, none, ltb, lt→ltb,
  arith, Bool-cases,
}
use native.Mathlib.Decide.{ℕ_discrete}
use osproject.Base.Outcome.{Outcome, ok, fault}
use osproject.Vm.State.{TranslationEntry, AddrSpace, Vm, tlb_size, this_page, with_page, points_to}
use osproject.Vm.Tlb.Chance.{SameFrame, SameFrame-refl, SameFrame-trans, PageStore, points_to_parts}
use osproject.Vm.Inv.{Inv, Retagged, retagged-Inv}
use osproject.Vm.Switch.{fresh_tlb, save_bits_from, save_state, restore_state}

-- The page tables once the entries from `i` on have been saved.
pub record Saves (a : AddrSpace) (v : Vm) (i n : ℕ) (result : Outcome Vm) : Type 0 where
  pub pages' : PageStore
  pub returns : result ≡ ok (record v { pages = pages' })
  pub frames_kept : (s k : ℕ) → SameFrame (v.pages s k) (pages' s k)
  pub untouched :
      (s k : ℕ)
      → ((x : ℕ) → i ≤ x → x < i + n → (a.id ≡ s) → (v.tlb x).virtual_page ≢ k)
      → pages' s k ≡ v.pages s k
  pub last_wins :
      (x : ℕ)
      → i ≤ x
      → x < i + n
      → ((y : ℕ) → x < y → y < i + n → (v.tlb y).virtual_page ≢ (v.tlb x).virtual_page)
      → ((pages' a.id (v.tlb x).virtual_page).dirty ≡ (v.tlb x).dirty)
        × ((pages' a.id (v.tlb x).virtual_page).use_bit ≡ (v.tlb x).use_bit)

module _ (a : AddrSpace) (v : Vm) (i : ℕ) where
  abbrev once : Vm
  once =
      with_page v (this_page a (v.tlb i).virtual_page)
        (λ e. record e { use_bit = (v.tlb i).use_bit; dirty = (v.tlb i).dirty })

  once_frames : (s k : ℕ) → SameFrame (v.pages s k) (once.pages s k)
  once_frames s k = ground arith

  once_other : (s k : ℕ) → ((a.id ≡ s) → (v.tlb i).virtual_page ≢ k) → once.pages s k ≡ v.pages s k
  once_other s k ne = elim (Bool-cases (points_to (this_page a (v.tlb i).virtual_page) s k)) [
    | inl at ↦
        let (es, ek) = points_to_parts (this_page a (v.tlb i).virtual_page) s k at in
        absurd (ne es ek)
    | inr off ↦ rw off refl
  ]

  once_self :
      ((once.pages a.id (v.tlb i).virtual_page).dirty ≡ (v.tlb i).dirty)
      × ((once.pages a.id (v.tlb i).virtual_page).use_bit ≡ (v.tlb i).use_bit)
  once_self = (ground arith, ground arith)

  -- One round, and those after it.
  once-Saves :
      (n : ℕ) (result : Outcome Vm) → Saves a once (i + 1) n result → Saves a v i (suc n) result
  once-Saves n result r = record {
    pages' = r.pages';
    returns = r.returns;
    frames_kept = λ s k. SameFrame-trans _ _ _ (once_frames s k) (r.frames_kept s k);
    untouched = λ s k none_here.
        r.untouched s k (λ x h h' e. none_here x (omega arith) (omega arith) e)
        ∙ once_other s k (none_here i (omega arith) (omega arith));
    last_wins = λ x h h' later. elim (ℕ_discrete i x) [
      | yes e ↦
          let same =
            r.untouched a.id (v.tlb x).virtual_page
              (λ y hy hy' _. later y (omega arith) (omega arith)) in
          (
            ap (λ p. p.dirty) same ∙ rw (← e) once_self.0,
            ap (λ p. p.use_bit) same ∙ rw (← e) once_self.1,
          )
      | no ne ↦ r.last_wins x (omega arith) (omega arith) (λ y hy hy'. later y hy (omega arith))
    ];
  }

save_bits_from-Saves :
    (a : AddrSpace) (v : Vm) (i n : ℕ)
    → ((x : ℕ) → i ≤ x → x < i + n → (v.tlb x).virtual_page < v.table_size a.id)
    → Saves a v i n (save_bits_from a v i n)
unfolding save_bits_from
save_bits_from-Saves a v i zero inside = record {
  pages' = v.pages;
  returns = refl;
  frames_kept = λ s k. SameFrame-refl (v.pages s k);
  untouched = λ s k h. refl;
  last_wins = λ x h h' later. absurd (omega arith);
}
save_bits_from-Saves a v i (suc n) inside = rw (lt→ltb _ _ (inside i (omega arith) (omega arith))) (
    once-Saves a v i n _ (
      save_bits_from-Saves a (once a v i) (i + 1) n
        (λ x h h'. inside x (omega arith) (omega arith))))

-- When every TLB entry, valid or not, names a page of the program, SaveState returns; each page
-- then has the use and dirty bits of the last entry that names it, or its old ones where none
-- does, everything else in the page tables is kept, and no TLB entry is valid.
pub save_state-Saves :
    (a : AddrSpace) (v : Vm) (garbage : ℕ → TranslationEntry)
    → ((x : ℕ) → x < tlb_size → (v.tlb x).virtual_page < v.table_size a.id)
    → (s : Saves a v 0 tlb_size (save_bits_from a v 0 tlb_size)) × (save_state a v garbage
        ≡ ok (record v { pages = s.pages'; tlb = fresh_tlb garbage }))
unfolding save_state
save_state-Saves a v garbage inside =
    let s = save_bits_from-Saves a v 0 tlb_size (λ x h h'. inside x (omega arith)) in
    (s, rw s.returns refl)

save_bits_from-fault :
    (a : AddrSpace) (v : Vm) (i n x : ℕ)
    → i ≤ x
    → x < i + n
    → v.table_size a.id ≤ (v.tlb x).virtual_page
    → save_bits_from a v i n ≡ fault
unfolding save_bits_from
save_bits_from-fault a v i zero x h h' outside = absurd (omega arith)
save_bits_from-fault a v i (suc n) x h h' outside =
    elim (Bool-cases (ltb (v.tlb i).virtual_page (v.table_size a.id))) [
      | inr far ↦ rw far refl
      | inl near ↦ elim (ℕ_discrete i x) [
        | yes e ↦ absurd (ground (arith, ap (λ y. (v.tlb y).virtual_page) e))
        | no ne ↦
            rw near
              (save_bits_from-fault a (once a v i) (i + 1) n x (omega arith) (omega arith) outside)
      ]
    ]

-- A TLB entry that names no page of the program, even an invalid one whose fields were never set,
-- makes SaveState write outside the page table.
pub save_state-fault :
    (a : AddrSpace) (v : Vm) (garbage : ℕ → TranslationEntry) (x : ℕ)
    → x < tlb_size
    → v.table_size a.id ≤ (v.tlb x).virtual_page
    → save_state a v garbage ≡ fault
unfolding save_state
save_state-fault a v garbage x h outside =
    rw (save_bits_from-fault a v 0 tlb_size x (omega arith) h outside) refl

pub restored-Inv :
    (a b : AddrSpace) (v : Vm) (garbage : ℕ → TranslationEntry)
    → Inv a none v
    → v.table_size b.id ≡ b.num_pages
    → Inv b none (restore_state v garbage)
restored-Inv a b v garbage inv size = record {
  mem_valid = inv.mem_valid;
  mem_bits = inv.mem_bits;
  swap_valid = inv.swap_valid;
  swap_bits = inv.swap_bits;
  tlb_index = omega arith;
  swap_index = inv.swap_index;
  size = size;
  numbered = inv.numbered;
  frames = λ f hf m. elim (inv.frames f hf m) [
    | inl bad ↦ inl bad
    | inr (p, o) ↦ inr (
      p,
      record { listed = o.listed; in_table = o.in_table; valid = o.valid; in_frame = o.in_frame },
    )
  ];
  resident = λ s k hk vk.
      let (f, r, free) = inv.resident s k hk vk in
      (
        f,
        record { small = r.small; in_frame = r.in_frame; marked = r.marked; listed = r.listed },
        free,
      );
  cached = λ x hx bad. absurd (ground arith);
  cached_once = λ x y hx hy bad _ _. absurd (ground arith);
  swapped = λ s k hk vk dk.
      let (j, w) = inv.swapped s k hk vk dk in
      (j, record { in_slot = w.in_slot; small = w.small; marked = w.marked });
  swapped_apart = inv.swapped_apart;
}

-- Saving through valid entries changes resident pages only.
saved-Retagged :
    (a : AddrSpace) (v : Vm) (garbage : ℕ → TranslationEntry)
    → Inv a none v
    → ((x : ℕ) → x < tlb_size → (v.tlb x).valid ≡ true)
    → (s : Saves a v 0 tlb_size (save_bits_from a v 0 tlb_size))
    → Retagged v s.pages' (fresh_tlb garbage)
saved-Retagged a v garbage inv all s = record {
  page_frames = s.frames_kept;
  dirty_kept = λ t k h stale.
      ap (λ e. e.dirty)
        (s.untouched t k (λ x hx hx' et ek.
          let c = inv.cached x (omega arith) (all x (omega arith)) in
          cc (sym c.valid ∙ ap₂ (λ i j. (v.pages i j).valid) et ek ∙ stale)));
  tlb_frames = λ x bad. absurd (ground arith);
}

-- A context switch away from a program with a full TLB keeps the paging invariant: SaveState
-- returns, and after RestoreState the invariant holds for the other address space.
pub save_state-restore_state :
    (a b : AddrSpace) (v : Vm) (garbage garbage' : ℕ → TranslationEntry)
    → Inv a none v
    → ((x : ℕ) → x < tlb_size → (v.tlb x).valid ≡ true)
    → v.table_size b.id ≡ b.num_pages
    → (v' : Vm) × (save_state a v garbage ≡ ok v') × Inv b none (restore_state v' garbage')
save_state-restore_state a b v garbage garbage' inv all size =
    let (s, e) =
      save_state-Saves a v garbage (λ x h. rw inv.size (inv.cached x h (all x h)).in_table) in
    (
      record v { pages = s.pages'; tlb = fresh_tlb garbage },
      e,
      restored-Inv a b _ garbage'
          (retagged-Inv a none v s.pages' (fresh_tlb garbage) v.index_tlb_snd_chc
            v.index_swap_snd_chc v.index_swap_fifo (saved-Retagged a v garbage inv all s)
            inv.tlb_index inv.swap_index inv)
          size,
    )
