-- ===== src/Vm/Inv/Corner.antt =====
-- The first half of an eviction: the victim is chosen, and its page leaves the TLB.
use osproject.Base.{ℕ, ◌+◌, ◌%◌, ◌<◌, ◌≡◌, refl, sym, ◌∙◌, none, arith}
use osproject.Base.Outcome.{ok}
use osproject.Vm.State.{TranslationEntry, PagePtr, AddrSpace, Vm, num_phys_pages}
use osproject.Vm.Tlb.Chance.{PageStore}
use osproject.Vm.Swap.{get_next_scswap, update_swap_victim_info}
use osproject.Vm.Inv.{Inv, Owned, Retagged, retagged, retagged-Inv, retagged-Owned}
use osproject.Vm.Inv.Victim.{AllOwned, get_next_scswap-Victim}
use osproject.Vm.Inv.Withdraw.{NotCached, update_swap_victim_info-Withdrawn}
use osproject.Vm.Inv.Room.{Kept, Kept-trans}

-- A victim has been chosen, and its page is in no TLB entry.
pub record Cornered (a : AddrSpace) (v : Vm) : Type 0 where
  pub pages' : PageStore
  pub tlb' : ℕ → TranslationEntry
  pub next : ℕ
  pub slot : ℕ
  pub chosen : Vm
  pub p : PagePtr
  pub chooses : get_next_scswap v ≡ ok (chosen, slot)
  pub withdraws :
      update_swap_victim_info (record chosen { index_swap_fifo = slot }) slot
      ≡ ok (retagged v pages' tlb' v.index_tlb_snd_chc next slot)
  pub inv : Inv a none (retagged v pages' tlb' v.index_tlb_snd_chc next slot)
  pub owned : Owned (retagged v pages' tlb' v.index_tlb_snd_chc next slot) slot p
  pub small : slot < num_phys_pages
  pub apart : NotCached tlb' slot
  pub kept : Kept v (retagged v pages' tlb' v.index_tlb_snd_chc next slot)

Retagged-Kept :
    (v : Vm) (pages' : PageStore) (tlb' : ℕ → TranslationEntry) (i j k : ℕ)
    → Retagged v pages' tlb'
    → Kept v (retagged v pages' tlb' i j k)
Retagged-Kept v pages' tlb' i j k r = record {
  sizes = λ s. refl;
  absent = λ s n hn vn. (
    (r.page_frames s n).valid_same ∙ vn,
    r.dirty_kept s n hn vn,
    (r.page_frames s n).physical_same,
  );
  tlb_older = λ x vx. let t = r.tlb_frames x vx in (sym t.valid_same ∙ vx, t.virtual_same);
  swap_open = λ opened. opened;
}

pub corner : (a : AddrSpace) (v : Vm) → Inv a none v → AllOwned v → Cornered a v
corner a v inv all =
    let c = get_next_scswap-Victim v all inv.swap_index in
    let j = (c.slot + 1) % num_phys_pages in
    let r1 : Retagged v c.pages' v.tlb = record {
      page_frames = c.page_frames;
      dirty_kept = λ s n h stale. c.page_dirty s n;
      tlb_frames = λ x h. record {
        virtual_same = refl;
        physical_same = refl;
        valid_same = refl;
        read_only_same = refl;
      };
    } in
    let v1 = retagged v c.pages' v.tlb v.index_tlb_snd_chc j c.slot in
    let inv1 : Inv a none v1 =
      retagged-Inv a none v c.pages' v.tlb v.index_tlb_snd_chc j c.slot r1 inv.tlb_index
        (omega arith) inv in
    let (p, o) = all c.slot c.in_range in
    let o1 : Owned v1 c.slot p =
      retagged-Owned a none v c.pages' v.tlb v.index_tlb_snd_chc j c.slot r1 c.slot p o in
    let w = update_swap_victim_info-Withdrawn a none v1 p c.slot inv1 o1 in
    record {
      pages' = w.pages';
      tlb' = w.tlb';
      next = j;
      slot = c.slot;
      chosen = record v { pages = c.pages'; index_swap_snd_chc = j };
      p = p;
      chooses = c.returns;
      withdraws = w.returns;
      inv =
          retagged-Inv a none v1 w.pages' w.tlb' v.index_tlb_snd_chc j c.slot w.retag inv.tlb_index
            (omega arith) inv1;
      owned =
          retagged-Owned a none v1 w.pages' w.tlb' v.index_tlb_snd_chc j c.slot w.retag c.slot p o1;
      small = c.in_range;
      apart = w.gone;
      kept = Kept-trans v v1 _ (Retagged-Kept v _ _ _ _ _ r1) (Retagged-Kept v1 _ _ _ _ _ w.retag);
    }
