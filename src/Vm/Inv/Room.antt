-- ===== src/Vm/Inv/Room.antt =====
-- A frame taken from the bit map, and what taking it may change.
use osproject.Base.{
  ℕ, ◌<◌, ◌≡◌, refl, ap, ◌∙◌, ◌≢◌, ◌⊎◌, inl, inr, true, false, none, some, ◌==◌, if◌then◌else◌,
  arith,
}
use native.Mathlib.Decide.{ℕ_discrete}
use osproject.Base.Outcome.{Outcome, ok}
use osproject.BitMap.Abstract.{holds, marked, marked-IsValid, holds-marked}
use osproject.BitMap.Search.{AllSet}
use osproject.Vm.State.{PagePtr, AddrSpace, Vm, num_phys_pages}
use osproject.Vm.Inv.{Inv, Owned, Resident}
use osproject.Vm.Inv.Victim.{AllOwned}

-- Pages that were not resident are as they were, and the TLB has no new entries.
pub record Kept (v out : Vm) : Type 0 where
  pub sizes : (s : ℕ) → out.table_size s ≡ v.table_size s
  pub absent :
      (s n : ℕ)
      → n < v.table_size s
      → (v.pages s n).valid ≡ false
      → ((out.pages s n).valid ≡ false)
        × ((out.pages s n).dirty ≡ (v.pages s n).dirty)
        × ((out.pages s n).physical_page ≡ (v.pages s n).physical_page)
  pub tlb_older :
      (x : ℕ)
      → (out.tlb x).valid ≡ true
      → ((v.tlb x).valid ≡ true) × ((out.tlb x).virtual_page ≡ (v.tlb x).virtual_page)
  pub swap_open : v.swap_file ≢ none → out.swap_file ≢ none

pub Kept-refl : (v : Vm) → Kept v v
Kept-refl v = record {
  sizes = λ s. refl;
  absent = λ s n hn vn. (vn, refl, refl);
  tlb_older = λ x vx. (vx, refl);
  swap_open = λ opened. opened;
}

pub Kept-trans : (u v w : Vm) → Kept u v → Kept v w → Kept u w
Kept-trans u v w f g = record {
  sizes = λ s. g.sizes s ∙ f.sizes s;
  absent = λ s n hn vn.
      let (v1, d1, p1) = f.absent s n hn vn in
      let (v2, d2, p2) = g.absent s n (rw (f.sizes s) hn) v1 in (v2, d2 ∙ d1, p2 ∙ p1);
  tlb_older =
      λ x vx. let (v1, e1) = g.tlb_older x vx in let (v2, e2) = f.tlb_older x v1 in (v2, e1 ∙ e2);
  swap_open = λ opened. g.swap_open (f.swap_open opened);
}

-- A frame has been found, which belongs to no page yet.
pub record Room (a : AddrSpace) (v : Vm) (result : Outcome (Vm × ℕ)) : Type 0 where
  pub out : Vm
  pub frame : ℕ
  pub returns : result ≡ ok (out, frame)
  pub inv : Inv a (some frame) out
  pub small : frame < num_phys_pages
  pub marked_frame : holds out.mem_bit_map frame ≡ true
  pub kept : Kept v out

abbrev pub taken : Vm → ℕ → Vm
taken v i = record v { mem_bit_map = marked v.mem_bit_map i }

-- With every bit of the map set, every frame is owned.
pub AllOwned-of_AllSet :
    (a : AddrSpace) (v : Vm)
    → Inv a none v
    → AllSet v.mem_bit_map v.mem_bit_map.num_bits
    → AllOwned v
AllOwned-of_AllSet a v inv all f h = elim (inv.frames f h (all f (omega (arith, inv.mem_bits)))) [
  | inl bad ↦ cc
  | inr owner ↦ owner
]

module _ (a : AddrSpace) (v : Vm) (i : ℕ) (inv : Inv a none v) (h : i < num_phys_pages)
    (free : holds v.mem_bit_map i ≡ false) where
  taken_marks :
      (f : ℕ) → holds (taken v i).mem_bit_map f ≡ (if i == f then true else holds v.mem_bit_map f)
  taken_marks f = holds-marked v.mem_bit_map i f inv.mem_valid (omega (arith, inv.mem_bits))

  taken-frames :
      (f : ℕ)
      → f < num_phys_pages
      → holds (taken v i).mem_bit_map f ≡ true
      → (some i ≡ some f) ⊎ ((p : PagePtr) × Owned (taken v i) f p)
  taken-frames f hf mf = elim (ℕ_discrete i f) [
    | yes e ↦ inl (ap some e)
    | no ne ↦ elim (inv.frames f hf (ground (arith, taken_marks f))) [
      | inl bad ↦ cc
      | inr (p, o) ↦ inr (
        p,
        record { listed = o.listed; in_table = o.in_table; valid = o.valid; in_frame = o.in_frame },
      )
    ]
  ]

  taken-Resident :
      (s n : ℕ)
      → n < v.table_size s
      → (v.pages s n).valid ≡ true
      → (f : ℕ) × Resident (taken v i) s n f × (some i ≢ some f)
  taken-Resident s n hn vn =
      let (f, r, _) = inv.resident s n hn vn in
      (
        f,
        record {
          small = r.small;
          in_frame = r.in_frame;
          marked = ground (arith, taken_marks f, r.marked);
          listed = r.listed;
        },
        λ e. ground (arith, r.marked, free),
      )

  -- A frame whose bit was clear can be taken.
  pub taken-Inv : Inv a (some i) (taken v i)
  taken-Inv = record {
    mem_valid = marked-IsValid v.mem_bit_map i inv.mem_valid;
    mem_bits = inv.mem_bits;
    swap_valid = inv.swap_valid;
    swap_bits = inv.swap_bits;
    tlb_index = inv.tlb_index;
    swap_index = inv.swap_index;
    size = inv.size;
    numbered = inv.numbered;
    frames = taken-frames;
    resident = taken-Resident;
    cached = λ x hx vx.
        let c = inv.cached x hx vx in
        record { in_table = c.in_table; valid = c.valid; same_frame = c.same_frame };
    cached_once = inv.cached_once;
    swapped = λ s n hn vn dn.
        let (k, w) = inv.swapped s n hn vn dn in
        (k, record { in_slot = w.in_slot; small = w.small; marked = w.marked });
    swapped_apart = inv.swapped_apart;
  }

  pub taken-marked : holds (taken v i).mem_bit_map i ≡ true
  taken-marked = ground (arith, taken_marks i)

  pub taken-Kept : Kept v (taken v i)
  taken-Kept = record {
    sizes = λ s. refl;
    absent = λ s n hn vn. (vn, refl, refl);
    tlb_older = λ x vx. (vx, refl);
    swap_open = λ opened. opened;
  }

  pub taken-Room : Room a v (ok (taken v i, i))
  taken-Room = record {
    out = taken v i;
    frame = i;
    returns = refl;
    inv = taken-Inv;
    small = h;
    marked_frame = taken-marked;
    kept = taken-Kept;
  }
