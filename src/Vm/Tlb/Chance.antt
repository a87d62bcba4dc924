-- ===== src/Vm/Tlb/Chance.antt =====
-- What the second-chance loop of `getNextSCTLB` chooses, and that it ends.
use osproject.Base.{
  ℕ, zero, suc, ◌+◌, ◌-◌, ◌%◌, ◌≤◌, ◌<◌, ◌≡◌, refl, sym, ◌∙◌, ◌⊎◌, inl, inr, Bool, true, false,
  lt→ltb, if◌then◌else◌, arith, Bool-cases,
}
use native.Mathlib.Decide.{ℕ_discrete}
use osproject.Base.Outcome.{Outcome, ok}
use osproject.Vm.State.{
  TranslationEntry, PagePtr, AddrSpace, Vm, tlb_size, this_page, with_tlb, with_page, points_to,
}
use osproject.Vm.Tlb.{save_victim_tlb_info, second_chance_tlb, advance_tlb}

abbrev pub PageStore : Type 0
PageStore = ℕ → ℕ → TranslationEntry

-- Two entries that agree but for the use and dirty bits.
pub record SameFrame (e e' : TranslationEntry) : Type 0 where
  pub virtual_same : e'.virtual_page ≡ e.virtual_page
  pub physical_same : e'.physical_page ≡ e.physical_page
  pub valid_same : e'.valid ≡ e.valid
  pub read_only_same : e'.read_only ≡ e.read_only

-- The dirty bit of page `n` of space `s` is as it was, or that of a TLB entry for this page.
abbrev pub DirtySaved : AddrSpace → Vm → PageStore → Type 0
DirtySaved a v pages' =
    (s n : ℕ)
    → ((pages' s n).dirty ≡ (v.pages s n).dirty)
      ⊎ ((x : ℕ) × (x < tlb_size)
          × (a.id ≡ s)
          × ((v.tlb x).virtual_page ≡ n)
          × ((pages' s n).dirty ≡ (v.tlb x).dirty))

-- Every entry of the TLB names a page of the address space.
abbrev pub TlbInTable : AddrSpace → Vm → Type 0
TlbInTable a v = (x : ℕ) → x < tlb_size → (v.tlb x).virtual_page < v.table_size a.id

-- The outcome of the loop after `passed` rounds.
pub record Chosen (a : AddrSpace) (v : Vm) (passed : ℕ) (result : Outcome (Vm × ℕ)) : Type 0 where
  pub pages' : PageStore
  pub tlb' : ℕ → TranslationEntry
  pub skipped : ℕ
  pub slot : ℕ
  pub returns :
      result
      ≡ ok
          (record v { pages = pages'; tlb = tlb'; index_tlb_snd_chc = (slot + 1) % tlb_size }, slot)
  pub in_range : slot < tlb_size
  -- The slot is the first from the index on whose use bit is clear, or the index itself.
  pub place : slot ≡ (v.index_tlb_snd_chc + skipped) % tlb_size
  pub at_most : skipped + passed ≤ tlb_size
  pub were_used :
      (d : ℕ) → d < skipped → (v.tlb ((v.index_tlb_snd_chc + d) % tlb_size)).use_bit ≡ true
  pub was_unused : ((v.tlb slot).use_bit ≡ false) ⊎ (skipped ≡ tlb_size)
  pub tlb_frames : (y : ℕ) → SameFrame (v.tlb y) (tlb' y)
  pub tlb_dirty : (y : ℕ) → (tlb' y).dirty ≡ (v.tlb y).dirty
  pub page_frames : (s n : ℕ) → SameFrame (v.pages s n) (pages' s n)
  pub page_dirty : DirtySaved a v pages'
  pub victim_saved : (pages' a.id (v.tlb slot).virtual_page).dirty ≡ (v.tlb slot).dirty

-- The state after `saveVictimTLBInfo`.
abbrev pub saved : AddrSpace → Vm → ℕ → Bool → Vm
saved a v x old_use = with_page v (this_page a (v.tlb x).virtual_page) (λ e. record e {
  use_bit = if old_use then true else (v.tlb x).use_bit;
  dirty = (v.tlb x).dirty;
})

save_victim_tlb_info_lem :
    (a : AddrSpace) (v : Vm) (x : ℕ) (b : Bool)
    → x < tlb_size
    → (v.tlb x).virtual_page < v.table_size a.id
    → save_victim_tlb_info a v x b ≡ ok (saved a v x b)
unfolding save_victim_tlb_info
save_victim_tlb_info_lem a v x b h inside = rw (lt→ltb _ _ h, lt→ltb _ _ inside)

pub points_to_parts :
    (p : PagePtr) (s n : ℕ) → points_to p s n ≡ true → (p.space ≡ s) × (p.page ≡ n)
points_to_parts p s n h = ground arith

saved_frames :
    (a : AddrSpace) (v : Vm) (x : ℕ) (b : Bool) (s n : ℕ)
    → SameFrame (v.pages s n) ((saved a v x b).pages s n)
saved_frames a v x b s n = ground arith

saved_dirty :
    (a : AddrSpace) (v : Vm) (x : ℕ) (b : Bool)
    → x < tlb_size
    → DirtySaved a v (saved a v x b).pages
saved_dirty a v x b h s n = elim (Bool-cases (points_to (this_page a (v.tlb x).virtual_page) s n)) [
  | inl at ↦ let (e, e') = points_to_parts _ s n at in inr (x, h, e, e', rw at refl)
  | inr off ↦ inl (rw off refl)
]

pub SameFrame-refl : (e : TranslationEntry) → SameFrame e e
SameFrame-refl e = record {
  virtual_same = refl;
  physical_same = refl;
  valid_same = refl;
  read_only_same = refl;
}

pub elim_false {ℓ} :
    {A : Type ℓ} (b : Bool) (x y : A) → b ≡ false → (elim b [ true ↦ x | false ↦ y ]) ≡ y
elim_false true x y h = cc
elim_false false x y h = refl

pub elim_true {ℓ} :
    {A : Type ℓ} (b : Bool) (x y : A) → b ≡ true → (elim b [ true ↦ x | false ↦ y ]) ≡ x
elim_true true x y h = refl
elim_true false x y h = cc

found :
    (a : AddrSpace) (v : Vm) (passed fuel : ℕ)
    → TlbInTable a v
    → v.index_tlb_snd_chc < tlb_size
    → passed ≤ tlb_size
    → (v.tlb v.index_tlb_snd_chc).use_bit ≡ false
    → Chosen a v passed (second_chance_tlb a (suc fuel) v)
unfolding second_chance_tlb
found a v passed fuel inside lt h unused = record {
  pages' = (saved a v i false).pages;
  tlb' = v.tlb;
  skipped = 0;
  slot = i;
  returns =
      elim_false _ _ _ unused ∙ rw (save_victim_tlb_info_lem a v i false lt (inside i lt)) refl;
  in_range = lt;
  place = omega arith;
  at_most = omega arith;
  were_used = λ d k. absurd (omega arith);
  was_unused = inl unused;
  tlb_frames = λ y. SameFrame-refl (v.tlb y);
  tlb_dirty = λ y. refl;
  page_frames = saved_frames a v i false;
  page_dirty = saved_dirty a v i false lt;
  victim_saved = ground arith;
}
  where
    i : ℕ
    i = v.index_tlb_snd_chc

-- The state after a round that gives a second chance.
abbrev spared : AddrSpace → Vm → Vm
spared a v = advance_tlb (
    saved a (with_tlb v v.index_tlb_snd_chc (λ t. record t { use_bit = false })) v.index_tlb_snd_chc
      true)

pub SameFrame-trans : (d e f : TranslationEntry) → SameFrame d e → SameFrame e f → SameFrame d f
SameFrame-trans d e f p q = record {
  virtual_same = q.virtual_same ∙ p.virtual_same;
  physical_same = q.physical_same ∙ p.physical_same;
  valid_same = q.valid_same ∙ p.valid_same;
  read_only_same = q.read_only_same ∙ p.read_only_same;
}

-- The TLB after entry `i` has lost its use bit.
abbrev unused_at : Vm → ℕ → Vm
unused_at v i = with_tlb v i (λ t. record t { use_bit = false })

unused_at_frames : (v : Vm) (i y : ℕ) → SameFrame (v.tlb y) ((unused_at v i).tlb y)
unused_at_frames v i y = ground arith

unused_at_dirty : (v : Vm) (i y : ℕ) → ((unused_at v i).tlb y).dirty ≡ (v.tlb y).dirty
unused_at_dirty v i y = ground arith

unused_at_used :
    (v : Vm) (i y : ℕ) → ((unused_at v i).tlb y).use_bit ≡ true → (v.tlb y).use_bit ≡ true
unused_at_used v i y h = ground arith

unused_at-DirtySaved :
    (a : AddrSpace) (v : Vm) (i : ℕ) (pages' : PageStore)
    → DirtySaved a (unused_at v i) pages'
    → DirtySaved a v pages'
unused_at-DirtySaved a v i pages' h s n = elim (h s n) [
  | inl e ↦ inl e
  | inr (x, lt, e, named, d) ↦
      inr (x, lt, e, sym (unused_at_frames v i x).virtual_same ∙ named, d ∙ unused_at_dirty v i x)
]

DirtySaved-trans :
    (a : AddrSpace) (v : Vm) (pages' pages'' : PageStore)
    → DirtySaved a v pages'
    → DirtySaved a (record v { pages = pages' }) pages''
    → DirtySaved a v pages''
DirtySaved-trans a v pages' pages'' p q s n = elim (q s n) [
  | inl e ↦ ground (arith, p s n)
  | inr found ↦ inr found
]

module _ (a : AddrSpace) (v : Vm) (passed fuel : ℕ) where
  open v use {index_tlb_snd_chc as i}

  unused_then :
      (skipped slot : ℕ)
      → slot ≡ ((i + 1) % tlb_size + skipped) % tlb_size
      → skipped + (passed + 1) ≤ tlb_size
      → i < tlb_size
      → (((unused_at v i).tlb slot).use_bit ≡ false) ⊎ (skipped ≡ tlb_size)
      → ((v.tlb slot).use_bit ≡ false) ⊎ (skipped + 1 ≡ tlb_size)
  unused_then skipped slot place few lt h = elim (ℕ_discrete i slot) [
    | yes e ↦ inr (omega arith)
    | no ne ↦ ground arith
  ]

  used_then :
      (skipped d : ℕ)
      → i < tlb_size
      → (v.tlb i).use_bit ≡ true
      → ((e : ℕ)
          → e < skipped
          → ((unused_at v i).tlb (((i + 1) % tlb_size + e) % tlb_size)).use_bit ≡ true)
      → d < skipped + 1
      → (v.tlb ((i + d) % tlb_size)).use_bit ≡ true
  used_then skipped zero lt used h small = let e : (i + 0) % tlb_size ≡ i = omega arith in rw e used
  used_then skipped (suc d) lt used h small =
      let e : (i + suc d) % tlb_size ≡ ((i + 1) % tlb_size + d) % tlb_size = omega arith in
      rw e (unused_at_used v i _ (h d (omega arith)))

  -- A round that gives a second chance, and then the rest of the loop.
  spared_then :
      TlbInTable a v
      → i < tlb_size
      → (v.tlb i).use_bit ≡ true
      → Chosen a (spared a v) (passed + 1) (second_chance_tlb a fuel (spared a v))
      → Chosen a v passed (second_chance_tlb a (suc fuel) v)
  unfolding second_chance_tlb
  spared_then inside lt used rest = record {
    pages' = rest.pages';
    tlb' = rest.tlb';
    skipped = rest.skipped + 1;
    slot = rest.slot;
    returns =
        elim_true _ _ _ used
        ∙ rw (save_victim_tlb_info_lem a (unused_at v i) i true lt (ground (arith, inside i)))
            rest.returns;
    in_range = rest.in_range;
    place = omega (arith, rest.place);
    at_most = omega (arith, rest.at_most);
    were_used = λ d. used_then rest.skipped d lt used rest.were_used;
    was_unused = unused_then rest.skipped rest.slot rest.place rest.at_most lt rest.was_unused;
    tlb_frames = λ y. SameFrame-trans _ _ _ (unused_at_frames v i y) (rest.tlb_frames y);
    tlb_dirty = λ y. rest.tlb_dirty y ∙ unused_at_dirty v i y;
    page_frames = λ s n.
        SameFrame-trans _ _ _ (saved_frames a (unused_at v i) i true s n) (rest.page_frames s n);
    page_dirty = unused_at-DirtySaved a v i rest.pages' (
        DirtySaved-trans a (unused_at v i) (spared a v).pages rest.pages'
          (saved_dirty a (unused_at v i) i true lt) rest.page_dirty);
    victim_saved =
        rw (← (unused_at_frames v i rest.slot).virtual_same)
          (rest.victim_saved ∙ unused_at_dirty v i rest.slot);
  }

cleared_then :
    (v : Vm) (i passed : ℕ)
    → i < tlb_size
    → passed < tlb_size
    → ((d : ℕ) → d < passed → (v.tlb ((i + 3 - d) % tlb_size)).use_bit ≡ false)
    → (d : ℕ) → d < passed + 1
    → ((unused_at v i).tlb (((i + 1) % tlb_size + 3 - d) % tlb_size)).use_bit ≡ false
cleared_then v i passed lt few cleared zero h =
    let e : ((i + 1) % tlb_size + 3 - 0) % tlb_size ≡ i = omega arith in rw e (ground arith)
cleared_then v i passed lt few cleared (suc d) h =
    let e : ((i + 1) % tlb_size + 3 - suc d) % tlb_size ≡ (i + 3 - d) % tlb_size = omega arith in
    rw e (ground (arith, cleared d))

-- From an index in range, with the entries passed so far all unused, the loop ends within the
-- rounds that are left.
pub chance-Chosen :
    (a : AddrSpace) (fuel passed : ℕ) (v : Vm)
    → TlbInTable a v
    → v.index_tlb_snd_chc < tlb_size
    → passed + fuel ≡ tlb_size
    → ((d : ℕ) → d < passed → (v.tlb ((v.index_tlb_snd_chc + 3 - d) % tlb_size)).use_bit ≡ false)
    → Chosen a v passed (second_chance_tlb a (suc fuel) v)
chance-Chosen a zero passed v inside lt e cleared =
    let last : (v.index_tlb_snd_chc + 3 - 3) % tlb_size ≡ v.index_tlb_snd_chc = omega arith in
    found a v passed zero inside lt (omega arith) (rw last at (cleared 3 (omega arith)))
chance-Chosen a (suc fuel) passed v inside lt e cleared =
    elim (Bool-cases (v.tlb v.index_tlb_snd_chc).use_bit) [
      | inl used ↦ spared_then a v passed (suc fuel) inside lt used (
          chance-Chosen a fuel (passed + 1) (spared a v) (λ x h. ground (arith, inside x h))
            (omega arith) (omega arith)
            (cleared_then v v.index_tlb_snd_chc passed lt (omega arith) cleared))
      | inr unused ↦ found a v passed (suc fuel) inside lt (omega arith) unused
    ]
