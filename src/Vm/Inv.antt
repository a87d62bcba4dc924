-- ===== src/Vm/Inv.antt =====
-- The invariant of demand paging: bit map, inverted page table, page tables and TLB agree.
pub mod Refill
pub mod Victim
pub mod Withdraw
pub mod Vacate
pub mod Room
pub mod Corner
pub mod Evict
pub mod Install
pub mod Fill
pub mod Load
use osproject.Base.{
  ℕ, ◌+◌, ◌*◌, ◌≤◌, ◌<◌, ◌≡◌, refl, sym, ap, ◌∙◌, ◌≢◌, ◌⊎◌, inl, inr, Bool, true, false, Option,
  none, some, arith, Bool-cases,
}
use osproject.Base.Int.{ℤ, pos}
use osproject.BitMap.{BitMap}
use osproject.BitMap
use osproject.BitMap.Abstract.{holds}
use osproject.Vm.State.{
  TranslationEntry, PagePtr, AddrSpace, Vm, tlb_size, num_phys_pages, swap_size,
}
use osproject.Vm.Tlb.Chance.{SameFrame, PageStore}

-- Frame `f` belongs to the page that `p` points to, which is resident in it.
pub record Owned (v : Vm) (f : ℕ) (p : PagePtr) : Type 0 where
  pub listed : v.ipt f ≡ some p
  pub in_table : p.page < v.table_size p.space
  pub valid : (v.pages p.space p.page).valid ≡ true
  pub in_frame : (v.pages p.space p.page).physical_page ≡ pos f

-- Page `n` of space `s` is resident in frame `f`.
pub record Resident (v : Vm) (s n f : ℕ) : Type 0 where
  pub small : f < num_phys_pages
  pub in_frame : (v.pages s n).physical_page ≡ pos f
  pub marked : holds v.mem_bit_map f ≡ true
  pub listed : v.ipt f ≡ some (record { space = s; page = n })

-- A dirty page that is not resident has its contents in a slot of the swap area.
pub record Swapped (v : Vm) (s n k : ℕ) : Type 0 where
  pub in_slot : (v.pages s n).physical_page ≡ pos k
  pub small : k < swap_size
  pub marked : holds v.swap_bit_map k ≡ true

-- A TLB entry repeats what the page table says of a resident page.
pub record Cached (a : AddrSpace) (v : Vm) (x : ℕ) : Type 0 where
  pub in_table : (v.tlb x).virtual_page < a.num_pages
  pub valid : (v.pages a.id (v.tlb x).virtual_page).valid ≡ true
  pub same_frame : (v.tlb x).physical_page ≡ (v.pages a.id (v.tlb x).virtual_page).physical_page

-- `held` is a frame that has been taken from the bit map and given to no page yet.
pub record Inv (a : AddrSpace) (held : Option ℕ) (v : Vm) : Type 0 where
  pub mem_valid : BitMap.Abstract.IsValid v.mem_bit_map
  pub mem_bits : v.mem_bit_map.num_bits ≡ num_phys_pages
  pub swap_valid : BitMap.Abstract.IsValid v.swap_bit_map
  pub swap_bits : v.swap_bit_map.num_bits ≡ swap_size
  pub tlb_index : v.index_tlb_snd_chc < tlb_size
  pub swap_index : v.index_swap_snd_chc < num_phys_pages
  pub size : v.table_size a.id ≡ a.num_pages
  pub numbered : (s n : ℕ) → (v.pages s n).virtual_page ≡ n
  pub frames :
      (f : ℕ)
      → f < num_phys_pages
      → holds v.mem_bit_map f ≡ true
      → (held ≡ some f) ⊎ ((p : PagePtr) × Owned v f p)
  pub resident :
      (s n : ℕ)
      → n < v.table_size s
      → (v.pages s n).valid ≡ true
      → (f : ℕ) × Resident v s n f × (held ≢ some f)
  pub cached : (x : ℕ) → x < tlb_size → (v.tlb x).valid ≡ true → Cached a v x
  pub cached_once :
      (x y : ℕ)
      → x < tlb_size
      → y < tlb_size
      → (v.tlb x).valid ≡ true
      → (v.tlb y).valid ≡ true
      → (v.tlb x).virtual_page ≡ (v.tlb y).virtual_page
      → x ≡ y
  pub swapped :
      (s n : ℕ)
      → n < v.table_size s
      → (v.pages s n).valid ≡ false
      → (v.pages s n).dirty ≡ true
      → (k : ℕ) × Swapped v s n k
  pub swapped_apart :
      (s n s' n' k : ℕ)
      → n < v.table_size s
      → n' < v.table_size s'
      → (v.pages s n).valid ≡ false
      → (v.pages s' n').valid ≡ false
      → (v.pages s n).dirty ≡ true
      → (v.pages s' n').dirty ≡ true
      → (v.pages s n).physical_page ≡ pos k
      → (v.pages s' n').physical_page ≡ pos k
      → (s ≡ s') × (n ≡ n')

-- The state with other page tables, another TLB and other replacement indices.
abbrev pub retagged : Vm → PageStore → (ℕ → TranslationEntry) → ℕ → ℕ → ℕ → Vm
retagged v pages' tlb' i j k = record v {
  pages = pages';
  tlb = tlb';
  index_tlb_snd_chc = i;
  index_swap_snd_chc = j;
  index_swap_fifo = k;
}

-- Only use bits, and dirty bits of resident pages, have changed, and TLB entries become invalid at
-- most.
pub record Retagged (v : Vm) (pages' : PageStore) (tlb' : ℕ → TranslationEntry) : Type 0 where
  pub page_frames : (s n : ℕ) → SameFrame (v.pages s n) (pages' s n)
  pub dirty_kept :
      (s n : ℕ)
      → n < v.table_size s
      → (v.pages s n).valid ≡ false
      → (pages' s n).dirty ≡ (v.pages s n).dirty
  pub tlb_frames : (x : ℕ) → (tlb' x).valid ≡ true → SameFrame (v.tlb x) (tlb' x)

module _ (a : AddrSpace) (held : Option ℕ) (v : Vm) (pages' : PageStore)
    (tlb' : ℕ → TranslationEntry) (i j k : ℕ) (r : Retagged v pages' tlb') where
  pub retagged-Owned :
      (f : ℕ) (p : PagePtr) → Owned v f p → Owned (retagged v pages' tlb' i j k) f p
  retagged-Owned f p o = record {
    listed = o.listed;
    in_table = o.in_table;
    valid = (r.page_frames p.space p.page).valid_same ∙ o.valid;
    in_frame = (r.page_frames p.space p.page).physical_same ∙ o.in_frame;
  }

  retagged-Cached :
      (x : ℕ) → (tlb' x).valid ≡ true → Cached a v x → Cached a (retagged v pages' tlb' i j k) x
  retagged-Cached x vx c =
      let t = r.tlb_frames x vx in
      let e = r.page_frames a.id (v.tlb x).virtual_page in
      record {
        in_table = rw t.virtual_same c.in_table;
        valid = rw t.virtual_same (e.valid_same ∙ c.valid);
        same_frame = rw t.virtual_same (t.physical_same ∙ c.same_frame ∙ sym e.physical_same);
      }

  pub retagged-Inv :
      i < tlb_size → j < num_phys_pages → Inv a held v → Inv a held (retagged v pages' tlb' i j k)
  retagged-Inv hi hj inv = record {
    mem_valid = inv.mem_valid;
    mem_bits = inv.mem_bits;
    swap_valid = inv.swap_valid;
    swap_bits = inv.swap_bits;
    tlb_index = hi;
    swap_index = hj;
    size = inv.size;
    numbered = λ s n. (r.page_frames s n).virtual_same ∙ inv.numbered s n;
    frames = λ f h m. elim (inv.frames f h m) [
      | inl e ↦ inl e
      | inr (p, o) ↦ inr (p, retagged-Owned f p o)
    ];
    resident = λ s n h valid.
        let (f, res, free) = inv.resident s n h (sym (r.page_frames s n).valid_same ∙ valid) in
        (
          f,
          record {
            small = res.small;
            in_frame = (r.page_frames s n).physical_same ∙ res.in_frame;
            marked = res.marked;
            listed = res.listed;
          },
          free,
        );
    cached =
        λ x hx vx. retagged-Cached x vx (inv.cached x hx (sym (r.tlb_frames x vx).valid_same ∙ vx));
    cached_once = λ x y hx hy vx vy e.
        inv.cached_once x y hx hy (sym (r.tlb_frames x vx).valid_same ∙ vx)
          (sym (r.tlb_frames y vy).valid_same ∙ vy)
          (sym (r.tlb_frames x vx).virtual_same ∙ e ∙ (r.tlb_frames y vy).virtual_same);
    swapped = λ s n h inv' d.
        let was = sym (r.page_frames s n).valid_same ∙ inv' in
        let (k', sw) = inv.swapped s n h was (sym (r.dirty_kept s n h was) ∙ d) in
        (
          k',
          record {
            in_slot = (r.page_frames s n).physical_same ∙ sw.in_slot;
            small = sw.small;
            marked = sw.marked;
          },
        );
    swapped_apart = λ s n s' n' k' h h' i1 i2 d1 d2 p1 p2.
        let w1 = sym (r.page_frames s n).valid_same ∙ i1 in
        let w2 = sym (r.page_frames s' n').valid_same ∙ i2 in
        inv.swapped_apart s n s' n' k' h h' w1 w2 (sym (r.dirty_kept s n h w1) ∙ d1)
          (sym (r.dirty_kept s' n' h' w2) ∙ d2) (sym (r.page_frames s n).physical_same ∙ p1)
          (sym (r.page_frames s' n').physical_same ∙ p2);
  }
