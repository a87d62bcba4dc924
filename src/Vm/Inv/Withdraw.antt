-- ===== src/Vm/Inv/Withdraw.antt =====
-- `updateSwapVictimInfo` takes the victim's page out of the TLB, and its dirty bit to the page
-- table.
use osproject.Base.{
  ℕ, zero, suc, ◌+◌, ◌<◌, ◌≡◌, refl, sym, ap, ap₂, ◌∙◌, ◌≢◌, inl, inr, true, false, ◌&&◌, Option,
  some, lt→ltb, arith, Bool-cases,
}
use native.Mathlib.Decide.{ℕ_discrete}
use osproject.Base.Int.{pos, eq_ℤ, eq_ℤ-refl, eq-of_eq_ℤ, pos-injective}
use osproject.Base.Outcome.{Outcome, ok}
use osproject.Vm.State.{
  TranslationEntry, PagePtr, AddrSpace, Vm, tlb_size, with_page, with_tlb, points_to,
}
use osproject.Vm.Tlb.Chance.{SameFrame-refl, PageStore, points_to_parts}
use osproject.Vm.Swap.{update_swap_victim_info, update_swap_victim_info_from}
use osproject.Vm.Inv.{Inv, Owned, Retagged}
use osproject.Vm.Inv.Victim.{entry, same_pointer}

-- No valid TLB entry from `x` on translates to frame `k`.
abbrev pub NotCached : (ℕ → TranslationEntry) → ℕ → Type 0
NotCached tlb k = (x : ℕ) → x < tlb_size → (tlb x).valid ≡ true → (tlb x).physical_page ≢ pos k

pub record Withdrawn (v : Vm) (p : PagePtr) (k : ℕ) (result : Outcome Vm) : Type 0 where
  pub pages' : PageStore
  pub tlb' : ℕ → TranslationEntry
  pub returns : result ≡ ok (record v { pages = pages'; tlb = tlb' })
  pub retag : Retagged v pages' tlb'
  pub gone : NotCached tlb' k
  -- A dirty bit that only the TLB had is not lost.
  pub recorded :
      (x : ℕ)
      → x < tlb_size
      → (v.tlb x).valid ≡ true
      → (v.tlb x).physical_page ≡ pos k
      → (pages' p.space p.page).dirty ≡ (v.tlb x).dirty

module _ (a : AddrSpace) (held : Option ℕ) (v : Vm) (inv : Inv a held v) where
  -- A valid TLB entry for a frame is for the page that owns the frame.
  owner_of :
      (x k : ℕ) (p : PagePtr)
      → x < tlb_size
      → (v.tlb x).valid ≡ true
      → (v.tlb x).physical_page ≡ pos k
      → v.ipt k ≡ some p
      → ◌≡◌ {A = PagePtr} (record { space = a.id; page = (v.tlb x).virtual_page }) p
  owner_of x k p hx vx at listed =
      let c = inv.cached x hx vx in
      let (f, r, free) =
        inv.resident a.id (v.tlb x).virtual_page (rw inv.size c.in_table) c.valid in
      let same : f ≡ k = pos-injective (sym r.in_frame ∙ sym c.same_frame ∙ at) in
      same_pointer (sym r.listed ∙ ap v.ipt same ∙ listed)

  frame_once :
      (x y k : ℕ) (p : PagePtr)
      → x < tlb_size
      → y < tlb_size
      → (v.tlb x).valid ≡ true
      → (v.tlb y).valid ≡ true
      → (v.tlb x).physical_page ≡ pos k
      → (v.tlb y).physical_page ≡ pos k
      → v.ipt k ≡ some p
      → x ≡ y
  frame_once x y k p hx hy vx vy ex ey listed =
      inv.cached_once x y hx hy vx vy
        (ap (λ q. q.page) (owner_of x k p hx vx ex listed ∙ sym (owner_of y k p hy vy ey listed)))

  module _ (p : PagePtr) (k : ℕ) (o : Owned v k p) where
    abbrev taken : ℕ → Vm
    taken x =
        with_page (with_tlb v x (λ u. record u { valid = false })) p
          (λ f. record f { use_bit = (v.tlb x).use_bit; dirty = (v.tlb x).dirty })

    taken-Retagged : (x : ℕ) → Retagged v (taken x).pages (taken x).tlb
    taken-Retagged x = record {
      page_frames = λ s n. ground arith;
      dirty_kept = λ s n h stale. elim (Bool-cases (points_to p s n)) [
        | inl at ↦
            let (es, en) = points_to_parts p s n at in
            absurd (ground (arith, o.valid, ap₂ (λ i j. (v.pages i j).valid) es en))
        | inr off ↦ rw off refl
      ];
      tlb_frames = λ y h. ground arith;
    }

    taken_other :
        (x y : ℕ)
        → ((taken x).tlb y).valid ≡ true
        → (x ≢ y)
          × ((v.tlb y).valid ≡ true)
          × (((taken x).tlb y).physical_page ≡ (v.tlb y).physical_page)
    taken_other x y h = ground arith

    taken_dirty : (x : ℕ) → ((taken x).pages p.space p.page).dirty ≡ (v.tlb x).dirty
    taken_dirty x = ground arith

    hit_parts :
        (x : ℕ)
        → ((v.tlb x).valid && eq_ℤ (v.tlb x).physical_page (entry v p).physical_page) ≡ true
        → ((v.tlb x).valid ≡ true) × ((v.tlb x).physical_page ≡ pos k)
    hit_parts x hit = elim (Bool-cases (v.tlb x).valid) [
      | inl vx ↦ (vx, eq-of_eq_ℤ _ _ (rw vx at hit) ∙ o.in_frame)
      | inr nx ↦ cc (rw nx at hit)
    ]

    passes :
        (x : ℕ)
        → ((v.tlb x).valid && eq_ℤ (v.tlb x).physical_page (entry v p).physical_page) ≡ false
        → ((y : ℕ) → y < x → (v.tlb y).valid ≡ true → (v.tlb y).physical_page ≢ pos k)
        → (y : ℕ) → y < x + 1
        → (v.tlb y).valid ≡ true
        → (v.tlb y).physical_page ≢ pos k
    passes x miss none_yet y h vy at = elim (ℕ_discrete y x) [
      | yes e ↦
          let vx : (v.tlb x).valid ≡ true = rw e at vy in
          let ex : (v.tlb x).physical_page ≡ (entry v p).physical_page =
            (rw e at at) ∙ sym o.in_frame in
          cc (rw (vx, ex, eq_ℤ-refl) at miss)
      | no ne ↦ none_yet y (omega arith) vy at
    ]

    withdraws :
        (x n : ℕ)
        → x + n ≡ tlb_size
        → ((y : ℕ) → y < x → (v.tlb y).valid ≡ true → (v.tlb y).physical_page ≢ pos k)
        → Withdrawn v p k (update_swap_victim_info_from v p x n)
    unfolding update_swap_victim_info_from
    withdraws x zero e none_yet = record {
      pages' = v.pages;
      tlb' = v.tlb;
      returns = refl;
      retag = record {
        page_frames = λ s n. SameFrame-refl (v.pages s n);
        dirty_kept = λ s n h stale. refl;
        tlb_frames = λ y h. SameFrame-refl (v.tlb y);
      };
      gone = λ y hy. none_yet y (omega arith);
      recorded = λ y hy vy at. absurd (none_yet y (omega arith) vy at);
    }
    withdraws x (suc n) e none_yet =
        elim (Bool-cases
          ((v.tlb x).valid && eq_ℤ (v.tlb x).physical_page (entry v p).physical_page)) [
            | inl hit ↦
                let here : ((v.tlb x).valid ≡ true) × ((v.tlb x).physical_page ≡ pos k) =
                  hit_parts x hit in
                record {
                  pages' = (taken x).pages;
                  tlb' = (taken x).tlb;
                  returns = rw (lt→ltb _ _ o.in_table, hit, update_swap_victim_info_from) refl;
                  retag = taken-Retagged x;
                  gone = λ y hy vy at.
                      let (ne, vy', same) = taken_other x y vy in
                      ne (
                        frame_once x y k p (omega arith) hy here.0 vy' here.1 (sym same ∙ at)
                          o.listed);
                  recorded = λ y hy vy at.
                      let same : x ≡ y =
                        frame_once x y k p (omega arith) hy here.0 vy here.1 at o.listed in
                      taken_dirty x ∙ ap (λ i. (v.tlb i).dirty) same;
                }
            | inr miss ↦
                let rest = withdraws (x + 1) n (omega arith) (passes x miss none_yet) in
                rw (lt→ltb _ _ o.in_table, miss, update_swap_victim_info_from) rest
          ]

-- For the owner of a frame, under the paging invariant, updateSwapVictimInfo returns: no valid TLB
-- entry translates to the frame, the owner's dirty bit is the TLB's where the TLB had the page,
-- and otherwise use bits and dirty bits of resident pages have changed at most.
pub update_swap_victim_info-Withdrawn :
    (a : AddrSpace) (held : Option ℕ) (v : Vm) (p : PagePtr) (k : ℕ)
    → Inv a held v
    → Owned v k p
    → Withdrawn v p k (update_swap_victim_info v k)
unfolding update_swap_victim_info
update_swap_victim_info-Withdrawn a held v p k inv o =
    rw o.listed
      (withdraws a held v inv p k o 0 tlb_size (omega arith) (λ y h. absurd (omega arith)))
