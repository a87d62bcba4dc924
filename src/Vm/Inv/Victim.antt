-- ===== src/Vm/Inv/Victim.antt =====
-- The victim frame that `getNextSCSWAP` chooses when every frame is in use.
use osproject.Base.{
  ℕ, zero, suc, ◌+◌, ◌-◌, ◌%◌, ◌≤◌, ◌<◌, ◌≡◌, refl, sym, ap₂, ◌∙◌, ◌≢◌, ◌⊎◌, inl, inr, true, false,
  Option, some, lt→ltb, arith, Bool-cases,
}
use native.Mathlib.Decide.{ℕ_discrete}
use osproject.Base.Outcome.{Outcome, ok}
use osproject.Vm.State.{TranslationEntry, PagePtr, Vm, num_phys_pages, with_page, points_to}
use osproject.Vm.Tlb.Chance.{
  SameFrame, SameFrame-refl, SameFrame-trans, PageStore, elim_true, elim_false, points_to_parts,
}
use osproject.Vm.Swap.{second_chance_swap, swap_fuel, get_next_scswap, advance_swap}
use osproject.Vm.Inv.{Owned}

abbrev pub entry : Vm → PagePtr → TranslationEntry
entry v p = v.pages p.space p.page

-- Every frame has an owner.
abbrev pub AllOwned : Vm → Type 0
AllOwned v = (f : ℕ) → f < num_phys_pages → (p : PagePtr) × Owned v f p

-- The outcome of the loop after `passed` rounds: only use bits have changed.
pub record Victim (v : Vm) (passed : ℕ) (result : Outcome (Vm × ℕ)) : Type 0 where
  pub pages' : PageStore
  pub skipped : ℕ
  pub slot : ℕ
  pub returns :
      result
      ≡ ok (record v { pages = pages'; index_swap_snd_chc = (slot + 1) % num_phys_pages }, slot)
  pub in_range : slot < num_phys_pages
  -- The frame is the first from the index on whose page has a clear use bit, or the index itself.
  pub place : slot ≡ (v.index_swap_snd_chc + skipped) % num_phys_pages
  pub at_most : skipped + passed ≤ num_phys_pages
  pub were_used :
      (d : ℕ) (p : PagePtr)
      → d < skipped
      → v.ipt ((v.index_swap_snd_chc + d) % num_phys_pages) ≡ some p
      → (entry v p).use_bit ≡ true
  pub was_unused :
      ((p : PagePtr) → v.ipt slot ≡ some p → (entry v p).use_bit ≡ false)
      ⊎ (skipped ≡ num_phys_pages)
  pub page_frames : (s n : ℕ) → SameFrame (v.pages s n) (pages' s n)
  pub page_dirty : (s n : ℕ) → (pages' s n).dirty ≡ (v.pages s n).dirty

-- The page `p` without its use bit.
abbrev spared : Vm → PagePtr → Vm
spared v p = with_page v p (λ f. record f { use_bit = false })

spared_frames : (v : Vm) (p : PagePtr) (s n : ℕ) → SameFrame (v.pages s n) ((spared v p).pages s n)
spared_frames v p s n = ground arith

spared_dirty :
    (v : Vm) (p : PagePtr) (s n : ℕ) → ((spared v p).pages s n).dirty ≡ (v.pages s n).dirty
spared_dirty v p s n = ground arith

spared_used :
    (v : Vm) (p q : PagePtr) → (entry (spared v p) q).use_bit ≡ true → (entry v q).use_bit ≡ true
spared_used v p q h = ground arith

spared_unused :
    (v : Vm) (p q : PagePtr) → (entry v q).use_bit ≡ false → (entry (spared v p) q).use_bit ≡ false
spared_unused v p q h = ground arith

spared_self : (v : Vm) (p : PagePtr) → (entry (spared v p) p).use_bit ≡ false
spared_self v p = ground arith

-- Pages in different frames are different pages.
spared_apart :
    (v : Vm) (p q : PagePtr) (f g : ℕ)
    → Owned v f p
    → Owned v g q
    → f ≢ g
    → (entry v q).use_bit ≡ (entry (spared v p) q).use_bit
spared_apart v p q f g o o' ne = elim (Bool-cases (points_to p q.space q.page)) [
  | inl at ↦
      let (es, ep) = points_to_parts p q.space q.page at in
      absurd
        (ground (arith, o.in_frame, o'.in_frame, ap₂ (λ s n. (v.pages s n).physical_page) es ep))
  | inr off ↦ rw off refl
]

spared_owned : (v : Vm) (p : PagePtr) → AllOwned v → AllOwned (advance_swap (spared v p))
spared_owned v p all f h =
    let (q, o) = all f h in
    let e = spared_frames v p q.space q.page in
    (
      q,
      record {
        listed = o.listed;
        in_table = o.in_table;
        valid = e.valid_same ∙ o.valid;
        in_frame = e.physical_same ∙ o.in_frame;
      },
    )

pub same_pointer : {p q : PagePtr} → ◌≡◌ {A = Option PagePtr} (some p) (some q) → p ≡ q
same_pointer e = cc

module _ (v : Vm) (passed fuel : ℕ) (all : AllOwned v) where
  open v use {index_swap_snd_chc as i}

  stops :
      (p : PagePtr)
      → i < num_phys_pages
      → passed ≤ num_phys_pages
      → Owned v i p
      → (entry v p).use_bit ≡ false
      → Victim v passed (second_chance_swap (suc fuel) v)
  unfolding second_chance_swap
  stops p lt few o unused = record {
    pages' = v.pages;
    skipped = 0;
    slot = i;
    returns = rw (o.listed, lt→ltb _ _ o.in_table, o.valid) (elim_false _ _ _ unused);
    in_range = lt;
    place = omega arith;
    at_most = omega arith;
    were_used = λ d q h. absurd (omega arith);
    was_unused = inl λ q e. rw (← same_pointer (sym o.listed ∙ e)) unused;
    page_frames = λ s n. SameFrame-refl (v.pages s n);
    page_dirty = λ s n. refl;
  }

  used_then :
      (p : PagePtr) (skipped d : ℕ) (q : PagePtr)
      → i < num_phys_pages
      → Owned v i p
      → (entry v p).use_bit ≡ true
      → ((e : ℕ) (r : PagePtr)
          → e < skipped
          → v.ipt (((i + 1) % num_phys_pages + e) % num_phys_pages) ≡ some r
          → (entry (spared v p) r).use_bit ≡ true)
      → d < skipped + 1
      → v.ipt ((i + d) % num_phys_pages) ≡ some q
      → (entry v q).use_bit ≡ true
  used_then p skipped zero q lt o used h small at =
      let e : (i + 0) % num_phys_pages ≡ i = omega arith in
      rw (← same_pointer (sym o.listed ∙ (rw e at at))) used
  used_then p skipped (suc d) q lt o used h small at =
      let e : (i + suc d) % num_phys_pages ≡ ((i + 1) % num_phys_pages + d) % num_phys_pages =
        omega arith in
      spared_used v p q (h d q (omega arith) (rw e at at))

  unused_then :
      (p : PagePtr) (skipped slot : ℕ)
      → slot ≡ ((i + 1) % num_phys_pages + skipped) % num_phys_pages
      → skipped + (passed + 1) ≤ num_phys_pages
      → i < num_phys_pages
      → Owned v i p
      → ((q : PagePtr) → v.ipt slot ≡ some q → (entry (spared v p) q).use_bit ≡ false)
        ⊎ (skipped ≡ num_phys_pages)
      → ((q : PagePtr) → v.ipt slot ≡ some q → (entry v q).use_bit ≡ false)
        ⊎ (skipped + 1 ≡ num_phys_pages)
  unused_then p skipped slot place few lt o (inr e) = absurd (omega arith)
  unused_then p skipped slot place few lt o (inl h) = elim (ℕ_discrete i slot) [
    | yes e ↦ inr (omega arith)
    | no ne ↦ inl λ q at.
        let (q', o') = all slot (omega arith) in
        let same = same_pointer (sym o'.listed ∙ at) in
        (rw same at (spared_apart v p q' i slot o o' ne)) ∙ h q at
  ]

  spares :
      (p : PagePtr)
      → i < num_phys_pages
      → Owned v i p
      → (entry v p).use_bit ≡ true
      → Victim
          (advance_swap (spared v p))
          (passed + 1)
          (second_chance_swap fuel (advance_swap (spared v p)))
      → Victim v passed (second_chance_swap (suc fuel) v)
  unfolding second_chance_swap
  spares p lt o used rest = record {
    pages' = rest.pages';
    skipped = rest.skipped + 1;
    slot = rest.slot;
    returns =
        rw (o.listed, lt→ltb _ _ o.in_table, o.valid)
          (elim_true _ _ _ used ∙ rw (lt→ltb _ _ o.in_table) rest.returns);
    in_range = rest.in_range;
    place = omega (arith, rest.place);
    at_most = omega (arith, rest.at_most);
    were_used = λ d q. used_then p rest.skipped d q lt o used rest.were_used;
    was_unused = unused_then p rest.skipped rest.slot rest.place rest.at_most lt o rest.was_unused;
    page_frames = λ s n. SameFrame-trans _ _ _ (spared_frames v p s n) (rest.page_frames s n);
    page_dirty = λ s n. rest.page_dirty s n ∙ spared_dirty v p s n;
  }

cleared_then :
    (v : Vm) (passed : ℕ) (p : PagePtr)
    → v.index_swap_snd_chc < num_phys_pages
    → Owned v v.index_swap_snd_chc p
    → passed < num_phys_pages
    → ((d : ℕ) (q : PagePtr)
        → d < passed
        → v.ipt ((v.index_swap_snd_chc + 3 - d) % num_phys_pages) ≡ some q
        → (entry v q).use_bit ≡ false)
    → (d : ℕ) (q : PagePtr) → d < passed + 1
    → v.ipt (((v.index_swap_snd_chc + 1) % num_phys_pages + 3 - d) % num_phys_pages) ≡ some q
    → (entry (spared v p) q).use_bit ≡ false
cleared_then v passed p lt o few cleared zero q h at =
    let e : ((v.index_swap_snd_chc + 1) % num_phys_pages + 3 - 0) % num_phys_pages
        ≡ v.index_swap_snd_chc =
      omega arith in
    let same : p ≡ q = same_pointer (sym o.listed ∙ (rw e at at)) in rw (← same) (spared_self v p)
cleared_then v passed p lt o few cleared (suc d) q h at =
    let e : ((v.index_swap_snd_chc + 1) % num_phys_pages + 3 - suc d) % num_phys_pages
        ≡ (v.index_swap_snd_chc + 3 - d) % num_phys_pages =
      omega arith in
    spared_unused v p q (cleared d q (omega arith) (rw e at at))

chance-Victim :
    (fuel passed : ℕ) (v : Vm)
    → AllOwned v
    → v.index_swap_snd_chc < num_phys_pages
    → passed + fuel ≡ num_phys_pages
    → ((d : ℕ) (q : PagePtr)
        → d < passed
        → v.ipt ((v.index_swap_snd_chc + 3 - d) % num_phys_pages) ≡ some q
        → (entry v q).use_bit ≡ false)
    → Victim v passed (second_chance_swap (suc fuel) v)
chance-Victim zero passed v all lt e cleared =
    let last : (v.index_swap_snd_chc + 3 - 3) % num_phys_pages ≡ v.index_swap_snd_chc =
      omega arith in
    let (p, o) = all v.index_swap_snd_chc lt in
    stops v passed zero all p lt (omega arith) o (cleared 3 p (omega arith) (rw last o.listed))
chance-Victim (suc fuel) passed v all lt e cleared =
    let (p, o) = all v.index_swap_snd_chc lt in
    elim (Bool-cases (entry v p).use_bit) [
      | inl used ↦ spares v passed (suc fuel) all p lt o used (
          chance-Victim fuel (passed + 1) (advance_swap (spared v p)) (spared_owned v p all)
            (omega arith) (omega arith) (cleared_then v passed p lt o (omega arith) cleared))
      | inr unused ↦ stops v passed (suc fuel) all p lt (omega arith) o unused
    ]

-- From an index in range, with every frame owned by a valid page, the loop of getNextSCSWAP ends
-- within its fuel and returns the first frame in circular order whose page has a clear use bit, or
-- the frame at the index when every page was used; only use bits and the index change.
pub get_next_scswap-Victim :
    (v : Vm) → AllOwned v → v.index_swap_snd_chc < num_phys_pages → Victim v 0 (get_next_scswap v)
unfolding get_next_scswap
get_next_scswap-Victim v all lt =
    let c : Victim v 0 (second_chance_swap swap_fuel v) =
      chance-Victim 4 0 v all lt (omega arith) (λ d q h. absurd (omega arith)) in
    let e : get_next_scswap v ≡ second_chance_swap swap_fuel v =
      rw (lt→ltb _ _ lt, c.returns, lt→ltb _ _ c.in_range) refl in
    rw e c
