-- ===== src/Vm/Inv/Refill.antt =====
-- A TLB refill keeps the invariant, and afterwards the page is in the TLB.
use osproject.Base.{
  ℕ, ◌+◌, ◌%◌, ◌<◌, ◌≡◌, refl, sym, ap, ap₂, ◌∙◌, ◌≢◌, inl, inr, true, Option, arith,
}
use native.Mathlib.Decide.{ℕ_discrete}
use osproject.Base.Outcome.{Outcome, ok}
use osproject.Vm.State.{TranslationEntry, AddrSpace, Vm, tlb_size, with_tlb}
use osproject.Vm.Tlb.Chance.{SameFrame, SameFrame-refl, PageStore, Chosen, DirtySaved}
use osproject.Vm.Tlb.Refill.{get_next_sctlb_lem, use_this_tlb_index_lem}
use osproject.Vm.Load.{refill_tlb}
use osproject.Vm.Inv.{Inv, Cached, Retagged, retagged, retagged-Inv}

-- No valid TLB entry is for page `vpn`.
abbrev pub Misses : Vm → ℕ → Type 0
Misses v vpn = (x : ℕ) → x < tlb_size → (v.tlb x).valid ≡ true → (v.tlb x).virtual_page ≢ vpn

-- TLB entry `x` translates page `vpn` as the page table does.
pub record Hits (a : AddrSpace) (v : Vm) (vpn x : ℕ) : Type 0 where
  pub small : x < tlb_size
  pub valid : (v.tlb x).valid ≡ true
  pub for_page : (v.tlb x).virtual_page ≡ vpn
  pub same_entry : v.tlb x ≡ v.pages a.id vpn

Cached-of :
    (a : AddrSpace) (w : Vm) (y : ℕ) (t : TranslationEntry)
    → w.tlb y ≡ t
    → t.virtual_page < a.num_pages
    → (w.pages a.id t.virtual_page).valid ≡ true
    → t.physical_page ≡ (w.pages a.id t.virtual_page).physical_page
    → Cached a w y
Cached-of a w y t e inside valid same = record {
  in_table = rw e inside;
  valid = rw e valid;
  same_frame = rw e same;
}

module _ (a : AddrSpace) (held : Option ℕ) (v : Vm) (vpn x : ℕ) where
  abbrev pub filled : Vm
  filled = with_tlb v x (λ _. v.pages a.id vpn)

  -- What stands in entry `y` after entry `x` has been filled.
  filled_other : (y : ℕ) → x ≢ y → filled.tlb y ≡ v.tlb y
  filled_other y ne = ground arith

  filled_self : (y : ℕ) → x ≡ y → filled.tlb y ≡ v.pages a.id vpn
  filled_self y e = ground arith

  filled-Cached :
      Inv a held v
      → vpn < a.num_pages
      → (v.pages a.id vpn).valid ≡ true
      → (y : ℕ) → y < tlb_size
      → (filled.tlb y).valid ≡ true
      → Cached a filled y
  filled-Cached inv h valid y hy vy = elim (ℕ_discrete x y) [
    | yes e ↦
        let same = inv.numbered a.id vpn in
        Cached-of a filled y (v.pages a.id vpn) (filled_self y e) (rw same h) (rw same valid)
          (rw same refl)
    | no ne ↦
        let c = inv.cached y hy (ap (λ t. t.valid) (sym (filled_other y ne)) ∙ vy) in
        Cached-of a filled y (v.tlb y) (filled_other y ne) c.in_table c.valid c.same_frame
  ]

  filled-once :
      Inv a held v
      → Misses v vpn
      → (y z : ℕ) → y < tlb_size
      → z < tlb_size
      → (filled.tlb y).valid ≡ true
      → (filled.tlb z).valid ≡ true
      → (filled.tlb y).virtual_page ≡ (filled.tlb z).virtual_page
      → y ≡ z
  filled-once inv miss y z hy hz vy vz e = elim (ℕ_discrete x y) [
    | yes ey ↦ elim (ℕ_discrete x z) [
      | yes ez ↦ sym ey ∙ ez
      | no nz ↦ absurd (
          miss z hz (rw (filled_other z nz) at vz)
            (sym (rw (filled_self y ey, filled_other z nz, inv.numbered a.id vpn) at e)))
    ]
    | no ny ↦ elim (ℕ_discrete x z) [
      | yes ez ↦ absurd (
          miss y hy (rw (filled_other y ny) at vy)
            (rw (filled_other y ny, filled_self z ez, inv.numbered a.id vpn) at e))
      | no nz ↦
          inv.cached_once y z hy hz (rw (filled_other y ny) at vy) (rw (filled_other z nz) at vz)
            (rw (filled_other y ny, filled_other z nz) at e)
    ]
  ]

  filled-Inv :
      Inv a held v
      → vpn < a.num_pages
      → (v.pages a.id vpn).valid ≡ true
      → Misses v vpn
      → Inv a held filled
  filled-Inv inv h valid miss = record {
    mem_valid = inv.mem_valid;
    mem_bits = inv.mem_bits;
    swap_valid = inv.swap_valid;
    swap_bits = inv.swap_bits;
    tlb_index = inv.tlb_index;
    swap_index = inv.swap_index;
    size = inv.size;
    numbered = inv.numbered;
    frames = λ f hf m. elim (inv.frames f hf m) [
      | inl e ↦ inl e
      | inr (p, o) ↦ inr (
        p,
        record { listed = o.listed; in_table = o.in_table; valid = o.valid; in_frame = o.in_frame },
      )
    ];
    resident = λ s n hn vn.
        let (f, r, free) = inv.resident s n hn vn in
        (
          f,
          record { small = r.small; in_frame = r.in_frame; marked = r.marked; listed = r.listed },
          free,
        );
    cached = filled-Cached inv h valid;
    cached_once = filled-once inv miss;
    swapped = λ s n hn vn dn.
        let (k, w) = inv.swapped s n hn vn dn in
        (k, record { in_slot = w.in_slot; small = w.small; marked = w.marked });
    swapped_apart = inv.swapped_apart;
  }

  filled-Hits : Inv a held v → x < tlb_size → (v.pages a.id vpn).valid ≡ true → Hits a filled vpn x
  filled-Hits inv hx valid =
      let self = filled_self x refl in
      record {
        small = hx;
        valid = rw self valid;
        for_page = rw self (inv.numbered a.id vpn);
        same_entry = self;
      }

-- What a refill leaves: the page is in the TLB, and page tables and TLB are else as they were but
-- for use bits and the dirty bits that the TLB held.
pub record Refilled (a : AddrSpace) (held : Option ℕ) (v : Vm) (vpn : ℕ) : Type 0 where
  pub pages' : PageStore
  pub tlb' : ℕ → TranslationEntry
  pub index' : ℕ
  pub slot : ℕ
  pub returns :
      refill_tlb a v vpn ≡ ok (retagged v pages' tlb' index' v.index_swap_snd_chc v.index_swap_fifo)
  pub inv : Inv a held (retagged v pages' tlb' index' v.index_swap_snd_chc v.index_swap_fifo)
  pub hits : Hits a (retagged v pages' tlb' index' v.index_swap_snd_chc v.index_swap_fifo) vpn slot
  pub page_frames : (s n : ℕ) → SameFrame (v.pages s n) (pages' s n)
  pub page_dirty : DirtySaved a v pages'

Chosen-Retagged :
    (a : AddrSpace) (held : Option ℕ) (v : Vm) (result : Outcome (Vm × ℕ))
    → Inv a held v
    → ((y : ℕ) → y < tlb_size → (v.tlb y).valid ≡ true)
    → (c : Chosen a v 0 result) → Retagged v c.pages' c.tlb'
Chosen-Retagged a held v result inv all c = record {
  page_frames = c.page_frames;
  dirty_kept = λ s n h stale. elim (c.page_dirty s n) [
    | inl same ↦ same
    | inr (x, hx, es, en, d) ↦
        absurd (
          ground
            (arith, (inv.cached x hx (all x hx)).valid, ap₂ (λ i j. (v.pages i j).valid) es en))
  ];
  tlb_frames = λ x h. c.tlb_frames x;
}

pub refill_tlb-Refilled :
    (a : AddrSpace) (held : Option ℕ) (v : Vm) (vpn : ℕ)
    → Inv a held v
    → vpn < a.num_pages
    → (v.pages a.id vpn).valid ≡ true
    → Misses v vpn
    → Refilled a held v vpn
unfolding refill_tlb
refill_tlb-Refilled a held v vpn inv h valid miss =
    elim (get_next_sctlb_lem a v inv.tlb_index
      (λ x hx vx. rw inv.size (inv.cached x hx vx).in_table)) [
        | inl (x, hx, free, before, r) ↦ record {
          pages' = v.pages;
          tlb' = (filled a held v vpn x).tlb;
          index' = v.index_tlb_snd_chc;
          slot = x;
          returns = rw r (use_this_tlb_index_lem a v x vpn hx h inv.size);
          inv = filled-Inv a held v vpn x inv h valid miss;
          hits = filled-Hits a held v vpn x inv hx valid;
          page_frames = λ s n. SameFrame-refl (v.pages s n);
          page_dirty = λ s n. inl refl;
        }
        | inr (all, c) ↦
            let v' : Vm =
              retagged v c.pages' c.tlb' ((c.slot + 1) % tlb_size) v.index_swap_snd_chc
                v.index_swap_fifo in
            let inv' : Inv a held v' =
              retagged-Inv a held v c.pages' c.tlb' _ _ _ (Chosen-Retagged a held v _ inv all c)
                (omega arith) inv.swap_index inv in
            let valid' : (v'.pages a.id vpn).valid ≡ true =
              (c.page_frames a.id vpn).valid_same ∙ valid in
            let miss' : Misses v' vpn =
              λ x hx vx e. miss x hx (all x hx) (sym (c.tlb_frames x).virtual_same ∙ e) in
            record {
              pages' = c.pages';
              tlb' = (filled a held v' vpn c.slot).tlb;
              index' = (c.slot + 1) % tlb_size;
              slot = c.slot;
              returns = rw c.returns (use_this_tlb_index_lem a v' c.slot vpn c.in_range h inv.size);
              inv = filled-Inv a held v' vpn c.slot inv' h valid' miss';
              hits = filled-Hits a held v' vpn c.slot inv' c.in_range valid';
              page_frames = c.page_frames;
              page_dirty = c.page_dirty;
            }
      ]
