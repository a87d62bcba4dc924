-- ===== src/Vm/Inv/Vacate.antt =====
-- Taking a page out of its frame keeps the invariant, if a dirty page goes to a free swap slot.
use osproject.Base.{
  ℕ, ◌<◌, ◌≡◌, refl, sym, ap, ap₂, ◌∙◌, ◌≢◌, ◌⊎◌, inl, inr, true, false, Option, none, some, List,
  ◌==◌, if◌then◌else◌, arith, Bool-cases,
}
use native.Mathlib.Decide.{ℕ_discrete}
use osproject.Base.Int.{ℤ, pos, pos-injective}
use osproject.BitMap.{BitMap}
use osproject.BitMap
use osproject.BitMap.Abstract.{holds, cleared, cleared-IsValid, holds-cleared}
use osproject.Vm.State.{
  PagePtr, AddrSpace, Vm, tlb_size, num_phys_pages, swap_size, with_page, points_to,
}
use osproject.Vm.Tlb.Chance.{points_to_parts}
use osproject.Vm.Inv.{Inv, Owned, Resident, Cached, Swapped}
use osproject.Vm.Inv.Victim.{entry, same_pointer}
use osproject.Vm.Inv.Withdraw.{NotCached}

pub points_to_self : (p : PagePtr) → points_to p p.space p.page ≡ true
points_to_self p = ground arith

pub off_or_same : (p q : PagePtr) → p ≢ q → points_to p q.space q.page ≡ false
off_or_same p q ne = elim (Bool-cases (points_to p q.space q.page)) [
  | inl at ↦
      let (es, en) = points_to_parts p q.space q.page at in
      absurd (ne (λ i. record { space = es i; page = en i }))
  | inr off ↦ off
]

-- The new swap map has the old marks, and a dirty page's slot is one that was free.
pub record Slotted (v : Vm) (p : PagePtr) (place : ℤ) (m : BitMap) : Type 0 where
  pub valid : BitMap.Abstract.IsValid m
  pub bits : m.num_bits ≡ swap_size
  pub kept : (k : ℕ) → holds v.swap_bit_map k ≡ true → holds m k ≡ true
  pub fresh :
      (entry v p).dirty ≡ true
      → (s : ℕ) × (place ≡ pos s)
        × (s < swap_size)
        × (holds m s ≡ true)
        × (holds v.swap_bit_map s ≡ false)

-- The state without page `p` in frame `k`.
abbrev pub vacated : Vm → PagePtr → ℕ → ℤ → BitMap → Option (List ℕ) → (ℕ → ℕ) → Vm
vacated v p k place m file memory =
    record (with_page v p (λ e. record e { valid = false; physical_page = place })) {
      swap_bit_map = m;
      mem_bit_map = cleared v.mem_bit_map k;
      swap_file = file;
      main_memory = memory;
    }

module _ (a : AddrSpace) (v : Vm) (p : PagePtr) (k : ℕ) (place : ℤ) (m : BitMap)
    (file : Option (List ℕ)) (memory : ℕ → ℕ) (inv : Inv a none v) (small : k < num_phys_pages)
    (o : Owned v k p) (apart : NotCached v.tlb k) (slot : Slotted v p place m) where
  abbrev out : Vm
  out = vacated v p k place m file memory

  off : (s n : ℕ) → points_to p s n ≡ false → out.pages s n ≡ v.pages s n
  off s n e = rw e refl

  at_p :
      (s n : ℕ)
      → points_to p s n ≡ true
      → ((out.pages s n).valid ≡ false)
        × ((out.pages s n).physical_page ≡ place)
        × ((out.pages s n).dirty ≡ (entry v p).dirty)
        × (p.space ≡ s)
        × (p.page ≡ n)
  at_p s n e =
      let (es, en) = points_to_parts p s n e in
      (rw e refl, rw e refl, rw e (ap₂ (λ i j. (v.pages i j).dirty) (sym es) (sym en)), es, en)

  marks : (f : ℕ) → holds out.mem_bit_map f ≡ (if k == f then false else holds v.mem_bit_map f)
  marks f = holds-cleared v.mem_bit_map k f inv.mem_valid (omega (arith, inv.mem_bits))

  out-frames :
      (f : ℕ)
      → f < num_phys_pages
      → holds out.mem_bit_map f ≡ true
      → (◌≡◌ {A = Option ℕ} none (some f)) ⊎ ((q : PagePtr) × Owned out f q)
  out-frames f hf mf = elim (ℕ_discrete k f) [
    | yes e ↦ absurd (ground (arith, marks f))
    | no ne ↦ elim (inv.frames f hf (ground (arith, marks f))) [
      | inl none_held ↦ inl none_held
      | inr (q, oq) ↦
          let differ : p ≢ q = λ e. ne (
            pos-injective (sym o.in_frame ∙ ap (λ r. (entry v r).physical_page) e ∙ oq.in_frame)) in
          let same = off q.space q.page (off_or_same p q differ) in
          inr (
            q,
            record {
              listed = oq.listed;
              in_table = oq.in_table;
              valid = rw same oq.valid;
              in_frame = rw same oq.in_frame;
            },
          )
    ]
  ]

  out-Resident :
      (s n : ℕ)
      → n < v.table_size s
      → (out.pages s n).valid ≡ true
      → (f : ℕ) × Resident out s n f × (◌≢◌ {A = Option ℕ} none (some f))
  out-Resident s n hn vn = elim (Bool-cases (points_to p s n)) [
    | inl at ↦ cc (at_p s n at).0
    | inr away ↦
        let same = off s n away in
        let (f, r, free) = inv.resident s n hn (rw same at vn) in
        let ne : k ≢ f = λ e.
          let q : ◌≡◌ {A = PagePtr} p (record { space = s; page = n }) =
            same_pointer (sym o.listed ∙ ap v.ipt e ∙ r.listed) in
          cc (
            sym away
            ∙ ap₂ (λ i j. points_to p i j) (sym (ap (λ t. t.space) q)) (sym (ap (λ t. t.page) q))
            ∙ points_to_self p) in
        (
          f,
          record {
            small = r.small;
            in_frame = rw same r.in_frame;
            marked = ground (arith, marks f, r.marked);
            listed = r.listed;
          },
          free,
        )
  ]

  out-Cached : (x : ℕ) → x < tlb_size → (v.tlb x).valid ≡ true → Cached a out x
  out-Cached x hx vx =
      let c = inv.cached x hx vx in
      elim (Bool-cases (points_to p a.id (v.tlb x).virtual_page)) [
        | inl at ↦
            let (_, _, _, es, en) = at_p a.id (v.tlb x).virtual_page at in
            absurd (
              apart x hx vx (
                c.same_frame
                ∙ ap₂ (λ i j. (v.pages i j).physical_page) (sym es) (sym en)
                ∙ o.in_frame))
        | inr away ↦
            let same = off a.id (v.tlb x).virtual_page away in
            record {
              in_table = c.in_table;
              valid = rw same c.valid;
              same_frame = rw same c.same_frame;
            }
      ]

  out-Swapped :
      (s n : ℕ)
      → n < v.table_size s
      → (out.pages s n).valid ≡ false
      → (out.pages s n).dirty ≡ true
      → (i : ℕ) × Swapped out s n i
  out-Swapped s n hn vn dn = elim (Bool-cases (points_to p s n)) [
    | inl at ↦
        let (_, ph, d, _, _) = at_p s n at in
        let (i, e, hi, mi, _) = slot.fresh (sym d ∙ dn) in
        (i, record { in_slot = ph ∙ e; small = hi; marked = mi })
    | inr away ↦
        let same = off s n away in
        let (i, w) = inv.swapped s n hn (rw same at vn) (rw same at dn) in
        (i, record { in_slot = rw same w.in_slot; small = w.small; marked = slot.kept i w.marked })
  ]

  -- A page other than `p` cannot be in the slot that `p` got.
  no_clash :
      (s n s' n' i : ℕ)
      → points_to p s n ≡ true
      → points_to p s' n' ≡ false
      → n' < v.table_size s'
      → (out.pages s n).dirty ≡ true
      → (out.pages s' n').valid ≡ false
      → (out.pages s' n').dirty ≡ true
      → (out.pages s n).physical_page ≡ pos i
      → (out.pages s' n').physical_page ≡ pos i
      → ⊥
  no_clash s n s' n' i at away hn' d v' d' e e' =
      let (_, ph, was, _, _) = at_p s n at in
      let (j, place_j, _, _, free) = slot.fresh (sym was ∙ d) in
      let same = off s' n' away in
      let (i', w) = inv.swapped s' n' hn' (rw same at v') (rw same at d') in
      let i_j : i ≡ j = pos-injective (sym e ∙ ph ∙ place_j) in
      let i_i' : i' ≡ i = pos-injective (sym w.in_slot ∙ (rw same at e')) in
      cc (ap (holds v.swap_bit_map) (i_i' ∙ i_j))

  out-apart :
      (s n s' n' i : ℕ)
      → n < v.table_size s
      → n' < v.table_size s'
      → (out.pages s n).valid ≡ false
      → (out.pages s' n').valid ≡ false
      → (out.pages s n).dirty ≡ true
      → (out.pages s' n').dirty ≡ true
      → (out.pages s n).physical_page ≡ pos i
      → (out.pages s' n').physical_page ≡ pos i
      → (s ≡ s') × (n ≡ n')
  out-apart s n s' n' i h h' v1 v2 d1 d2 e1 e2 = elim (Bool-cases (points_to p s n)) [
    | inl at ↦ elim (Bool-cases (points_to p s' n')) [
      | inl at' ↦
          let (es, en) = points_to_parts p s n at in
          let (es', en') = points_to_parts p s' n' at' in (sym es ∙ es', sym en ∙ en')
      | inr away' ↦ absurd (no_clash s n s' n' i at away' h' d1 v2 d2 e1 e2)
    ]
    | inr away ↦ elim (Bool-cases (points_to p s' n')) [
      | inl at' ↦ absurd (no_clash s' n' s n i at' away h d2 v1 d1 e2 e1)
      | inr away' ↦
          let same = off s n away in
          let same' = off s' n' away' in
          inv.swapped_apart s n s' n' i h h' (rw same at v1) (rw same' at v2) (rw same at d1)
            (rw same' at d2) (rw same at e1) (rw same' at e2)
    ]
  ]

  pub vacated-Inv : Inv a none out
  vacated-Inv = record {
    mem_valid = cleared-IsValid v.mem_bit_map k inv.mem_valid;
    mem_bits = inv.mem_bits;
    swap_valid = slot.valid;
    swap_bits = slot.bits;
    tlb_index = inv.tlb_index;
    swap_index = inv.swap_index;
    size = inv.size;
    numbered = λ s n. ground (arith, inv.numbered s n);
    frames = out-frames;
    resident = out-Resident;
    cached = out-Cached;
    cached_once = inv.cached_once;
    swapped = out-Swapped;
    swapped_apart = out-apart;
  }
