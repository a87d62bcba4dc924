-- ===== src/Vm/Inv/Install.antt =====
-- Giving a frame to a page that was not resident keeps the invariant.
use osproject.Base.{
  ℕ, ◌<◌, ◌≡◌, refl, sym, ap, ap₂, ◌∙◌, ◌≢◌, ◌⊎◌, inl, inr, true, false, Option, none, some, arith,
  Bool-cases,
}
use native.Mathlib.Decide.{ℕ_discrete}
use osproject.Base.Int.{pos}
use osproject.BitMap.{BitMap}
use osproject.BitMap
use osproject.BitMap.Abstract.{holds}
use osproject.Vm.State.{
  PagePtr, AddrSpace, Vm, tlb_size, num_phys_pages, swap_size, with_page, with_ipt, points_to,
  this_page,
}
use osproject.Vm.Tlb.Chance.{points_to_parts}
use osproject.Vm.Inv.{Inv, Owned, Resident, Cached, Swapped}
use osproject.Vm.Inv.Vacate.{points_to_self}

-- The new swap map has the old marks but for the slot of page `vpn`.
pub record Unslotted (a : AddrSpace) (v : Vm) (vpn : ℕ) (m : BitMap) : Type 0 where
  pub valid : BitMap.Abstract.IsValid m
  pub bits : m.num_bits ≡ swap_size
  pub kept :
      (k : ℕ)
      → holds v.swap_bit_map k ≡ true
      → (((v.pages a.id vpn).dirty ≡ true) × ((v.pages a.id vpn).physical_page ≡ pos k))
        ⊎ (holds m k ≡ true)

-- The state with page `vpn` in frame `f`.
abbrev pub entered : AddrSpace → Vm → ℕ → ℕ → BitMap → (ℕ → ℕ) → ℕ → Vm
entered a v vpn f m memory faults =
    with_ipt
      (with_page
        (record (with_page v (this_page a vpn) (λ e. record e { physical_page = pos f })) {
          swap_bit_map = m;
          main_memory = memory;
          num_page_faults = faults;
        })
        (this_page a vpn) (λ e. record e { valid = true }))
      f (this_page a vpn)

module _ (a : AddrSpace) (v : Vm) (vpn f : ℕ) (m : BitMap) (memory : ℕ → ℕ) (faults : ℕ)
    (inv : Inv a (some f) v) (small : f < num_phys_pages) (marked_f : holds v.mem_bit_map f ≡ true)
    (h : vpn < a.num_pages) (stale : (v.pages a.id vpn).valid ≡ false)
    (slots : Unslotted a v vpn m) where
  abbrev out : Vm
  out = entered a v vpn f m memory faults

  abbrev p : PagePtr
  p = this_page a vpn

  off : (s n : ℕ) → points_to p s n ≡ false → out.pages s n ≡ v.pages s n
  off s n e = rw e refl

  at_p :
      (s n : ℕ)
      → points_to p s n ≡ true
      → ((out.pages s n).valid ≡ true)
        × ((out.pages s n).physical_page ≡ pos f)
        × (a.id ≡ s)
        × (vpn ≡ n)
  at_p s n e = let (es, en) = points_to_parts p s n e in (rw e refl, rw e refl, es, en)

  -- A valid page is another page.
  valid_off : (s n : ℕ) → (v.pages s n).valid ≡ true → points_to p s n ≡ false
  valid_off s n vn = elim (Bool-cases (points_to p s n)) [
    | inl at ↦
        let (es, en) = points_to_parts p s n at in
        cc (sym stale ∙ ap₂ (λ i j. (v.pages i j).valid) es en ∙ vn)
    | inr away ↦ away
  ]

  ipt_other : (g : ℕ) → f ≢ g → out.ipt g ≡ v.ipt g
  ipt_other g ne = ground arith

  ipt_self : (g : ℕ) → f ≡ g → out.ipt g ≡ some p
  ipt_self g e = ground arith

  out-frames :
      (g : ℕ)
      → g < num_phys_pages
      → holds v.mem_bit_map g ≡ true
      → (◌≡◌ {A = Option ℕ} none (some g)) ⊎ ((q : PagePtr) × Owned out g q)
  out-frames g hg mg = elim (ℕ_discrete f g) [
    | yes e ↦
        let (vp, fp, _, _) = at_p a.id vpn (points_to_self p) in
        inr (
          p,
          record {
            listed = ipt_self g e;
            in_table = rw inv.size h;
            valid = vp;
            in_frame = fp ∙ ap pos e;
          },
        )
    | no ne ↦ elim (inv.frames g hg mg) [
      | inl e ↦ absurd (ne (cc e))
      | inr (q, o) ↦
          let same = off q.space q.page (valid_off q.space q.page o.valid) in
          inr (
            q,
            record {
              listed = ipt_other g ne ∙ o.listed;
              in_table = o.in_table;
              valid = rw same o.valid;
              in_frame = rw same o.in_frame;
            },
          )
    ]
  ]

  out-Resident :
      (s n : ℕ)
      → n < v.table_size s
      → (out.pages s n).valid ≡ true
      → (g : ℕ) × Resident out s n g × (◌≢◌ {A = Option ℕ} none (some g))
  out-Resident s n hn vn = elim (Bool-cases (points_to p s n)) [
    | inl at ↦
        let (_, fp, es, en) = at_p s n at in
        (
          f,
          record {
            small = small;
            in_frame = fp;
            marked = marked_f;
            listed = ipt_self f refl ∙ (λ i. some (record { space = es i; page = en i }));
          },
          λ bad. cc bad,
        )
    | inr away ↦
        let same = off s n away in
        let (g, r, free) = inv.resident s n hn (rw same at vn) in
        (
          g,
          record {
            small = r.small;
            in_frame = rw same r.in_frame;
            marked = r.marked;
            listed = ipt_other g (λ e. free (ap some e)) ∙ r.listed;
          },
          λ bad. cc bad,
        )
  ]

  out-Cached : (x : ℕ) → x < tlb_size → (v.tlb x).valid ≡ true → Cached a out x
  out-Cached x hx vx =
      let c = inv.cached x hx vx in
      let same = off a.id (v.tlb x).virtual_page (valid_off a.id (v.tlb x).virtual_page c.valid) in
      record { in_table = c.in_table; valid = rw same c.valid; same_frame = rw same c.same_frame }

  -- A page that is not resident now was not resident before, and is not `vpn`.
  out_stale : (s n : ℕ) → (out.pages s n).valid ≡ false → points_to p s n ≡ false
  out_stale s n vn = elim (Bool-cases (points_to p s n)) [
    | inl at ↦ cc (sym (at_p s n at).0 ∙ vn)
    | inr away ↦ away
  ]

  out-Swapped :
      (s n : ℕ)
      → n < v.table_size s
      → (out.pages s n).valid ≡ false
      → (out.pages s n).dirty ≡ true
      → (k : ℕ) × Swapped out s n k
  out-Swapped s n hn vn dn =
      let away = out_stale s n vn in
      let same = off s n away in
      let (k, w) = inv.swapped s n hn (rw same at vn) (rw same at dn) in
      (
        k,
        record {
          in_slot = rw same w.in_slot;
          small = w.small;
          marked = elim (slots.kept k w.marked) [
            | inl (d, at) ↦
                let (es, en) =
                  inv.swapped_apart a.id vpn s n k (rw inv.size h) hn stale (rw same at vn) d
                    (rw same at dn) at w.in_slot in
                cc (sym away ∙ ap₂ (points_to p) (sym es) (sym en) ∙ points_to_self p)
            | inr kept ↦ kept
          ];
        },
      )

  pub entered-Inv : Inv a none out
  entered-Inv = record {
    mem_valid = inv.mem_valid;
    mem_bits = inv.mem_bits;
    swap_valid = slots.valid;
    swap_bits = slots.bits;
    tlb_index = inv.tlb_index;
    swap_index = inv.swap_index;
    size = inv.size;
    numbered = λ s n. ground (arith, inv.numbered s n);
    frames = out-frames;
    resident = out-Resident;
    cached = out-Cached;
    cached_once = inv.cached_once;
    swapped = out-Swapped;
    swapped_apart = λ s n s' n' k hn hn' v1 v2 d1 d2 e1 e2.
        let same = off s n (out_stale s n v1) in
        let same' = off s' n' (out_stale s' n' v2) in
        inv.swapped_apart s n s' n' k hn hn' (rw same at v1) (rw same' at v2) (rw same at d1)
          (rw same' at d2) (rw same at e1) (rw same' at e2);
  }

  pub entered-valid : (out.pages a.id vpn).valid ≡ true
  entered-valid = (at_p a.id vpn (points_to_self p)).0
