-- ===== src/Vm/Space/Laws.antt =====
-- A new address space keeps the paging invariant; a forked one does not, if it shares a resident
-- page.
use osproject.Base.{
  ℕ, ◌+◌, ◌-◌, ◌*◌, ◌^◌, ◌%◌, ◌≤◌, ◌<◌, ◌≡◌, refl, sym, ap, ◌∙◌, ◌≢◌, ◌⊎◌, inl, inr, true, none,
  some, List, if◌then◌else◌, ltb, lt→ltb, arith,
}
use Prim.Native.String.{String}
use osproject.Base.Int.{pos, pos-injective}
use osproject.Base.Outcome.{ok}
use osproject.BitMap.{div_round_up}
use osproject.Vm.Host.{Host}
use osproject.Vm.State.{TranslationEntry, PagePtr, AddrSpace, Vm, page_size}
use osproject.Vm.Inv.{Inv, Owned}
use osproject.Vm.Inv.Victim.{same_pointer}
use osproject.Vm.Space.{
  read_header, noff_magic, user_stack_size, blank_page, with_table, new_space, fork_space,
}

module _ (v : Vm) (id size : ℕ) (row : ℕ → TranslationEntry) where
  table_in : (s n : ℕ) → s ≡ id → n < size → (with_table v id size row).pages s n ≡ row n
  table_in s n e h = ground arith

  table_out : (s n : ℕ) → s ≢ id → (with_table v id size row).pages s n ≡ v.pages s n
  table_out s n ne = ground arith

  size_in : (s : ℕ) → s ≡ id → (with_table v id size row).table_size s ≡ size
  size_in s e = ground arith

  size_out : (s : ℕ) → s ≢ id → (with_table v id size row).table_size s ≡ v.table_size s
  size_out s ne = ground arith

module _ (a : AddrSpace) (v : Vm) (id size : ℕ) (inv : Inv a none v) (unused : v.table_size id ≡ 0)
    (apart : a.id ≢ id) where
  abbrev out : Vm
  out = with_table v id size blank_page

  -- A page that is valid, or dirty, belongs to another space and is as before.
  used_apart :
      (s n : ℕ)
      → n < out.table_size s
      → ((out.pages s n).valid ≡ true) ⊎ ((out.pages s n).dirty ≡ true)
      → s ≢ id
  used_apart s n h (inl valid) e =
      let same = table_in v id size blank_page s n e (rw (size_in v id size blank_page s e) at h) in
      cc (sym (ap (λ p. p.valid) same) ∙ valid)
  used_apart s n h (inr dirty) e =
      let same = table_in v id size blank_page s n e (rw (size_in v id size blank_page s e) at h) in
      cc (sym (ap (λ p. p.dirty) same) ∙ dirty)

  out-Owned : (f : ℕ) (p : PagePtr) → Owned v f p → Owned out f p
  out-Owned f p o =
      let ne : p.space ≢ id = λ e. absurd (omega (arith, o.in_table, unused, ap v.table_size e)) in
      let same = table_out v id size blank_page p.space p.page ne in
      record {
        listed = o.listed;
        in_table = rw (size_out v id size blank_page p.space ne) o.in_table;
        valid = ap (λ q. q.valid) same ∙ o.valid;
        in_frame = ap (λ q. q.physical_page) same ∙ o.in_frame;
      }

  old_page :
      (s n : ℕ)
      → s ≢ id
      → n < out.table_size s
      → (out.pages s n ≡ v.pages s n) × (n < v.table_size s)
  old_page s n ne h =
      (table_out v id size blank_page s n ne, rw (size_out v id size blank_page s ne) at h)

  out-Inv : Inv a none out
  out-Inv = record {
    mem_valid = inv.mem_valid;
    mem_bits = inv.mem_bits;
    swap_valid = inv.swap_valid;
    swap_bits = inv.swap_bits;
    tlb_index = inv.tlb_index;
    swap_index = inv.swap_index;
    size = size_out v id size blank_page a.id apart ∙ inv.size;
    numbered = λ s n. ground (arith, inv.numbered s n);
    frames = λ f hf m. elim (inv.frames f hf m) [
      | inl bad ↦ inl bad
      | inr (p, o) ↦ inr (p, out-Owned f p o)
    ];
    resident = λ s n hn vn.
        let (same, hn') = old_page s n (used_apart s n hn (inl vn)) hn in
        let (f, r, free) = inv.resident s n hn' (sym (ap (λ q. q.valid) same) ∙ vn) in
        (
          f,
          record {
            small = r.small;
            in_frame = ap (λ q. q.physical_page) same ∙ r.in_frame;
            marked = r.marked;
            listed = r.listed;
          },
          free,
        );
    cached = λ x hx vx.
        let c = inv.cached x hx vx in
        let same = table_out v id size blank_page a.id (v.tlb x).virtual_page apart in
        record {
          in_table = c.in_table;
          valid = ap (λ q. q.valid) same ∙ c.valid;
          same_frame = c.same_frame ∙ sym (ap (λ q. q.physical_page) same);
        };
    cached_once = inv.cached_once;
    swapped = λ s n hn vn dn.
        let (same, hn') = old_page s n (used_apart s n hn (inr dn)) hn in
        let (k, w) =
          inv.swapped s n hn' (sym (ap (λ q. q.valid) same) ∙ vn)
            (sym (ap (λ q. q.dirty) same) ∙ dn) in
        (
          k,
          record {
            in_slot = ap (λ q. q.physical_page) same ∙ w.in_slot;
            small = w.small;
            marked = w.marked;
          },
        );
    swapped_apart = λ s n s' n' k h h' v1 v2 d1 d2 e1 e2.
        let (same, hn) = old_page s n (used_apart s n h (inr d1)) h in
        let (same', hn') = old_page s' n' (used_apart s' n' h' (inr d2)) h' in
        inv.swapped_apart s n s' n' k hn hn' (sym (ap (λ q. q.valid) same) ∙ v1)
          (sym (ap (λ q. q.valid) same') ∙ v2) (sym (ap (λ q. q.dirty) same) ∙ d1)
          (sym (ap (λ q. q.dirty) same') ∙ d2) (sym (ap (λ q. q.physical_page) same) ∙ e1)
          (sym (ap (λ q. q.physical_page) same') ∙ e2);
  }

rounded :
    (n : ℕ)
    → (n ≤ page_size * div_round_up n page_size)
      × (page_size * div_round_up n page_size < n + page_size)
rounded n = (ground arith, ground arith)

-- The address space of a program that has just been made.
pub record Starts (host : Host) (a : AddrSpace) (v : Vm) (id : ℕ) (file : List ℕ) (fn : String)
    : Type 0 where
  pub out : Vm
  pub space : AddrSpace
  pub returns : new_space host v id file fn ≡ ok (out, space)
  pub inv : Inv a none out
  pub same_swap : (out.swap_bit_map ≡ v.swap_bit_map) × (out.swap_file ≡ v.swap_file)
  pub same_programs : out.programs ≡ v.programs
  pub numbered : space.id ≡ id
  pub named : space.filename ≡ fn
  pub size : out.table_size id ≡ space.num_pages
  pub blank : (n : ℕ) → n < space.num_pages → out.pages id n ≡ blank_page n
  -- The pages hold all segments and the stack, with less than a page to spare.
  pub enough :
      ((read_header host file).code_size
          + (read_header host file).init_data_size
          + (read_header host file).uninit_data_size
          + user_stack_size
        ≤ page_size * space.num_pages)
  pub tight :
      page_size * space.num_pages
      < (read_header host file).code_size
        + (read_header host file).init_data_size
        + (read_header host file).uninit_data_size
        + user_stack_size
        + page_size
  pub stack_pages : space.stack + 8 ≡ space.num_pages

-- From a program file with the right magic number, whose segments and stack have less than 2 ^ 31
-- bytes, the constructor returns an address space with no page resident, for a number that has no
-- page table yet, and keeps the paging invariant of the space that runs; its pages hold the
-- segments and the stack with less than a page to spare, the last eight the stack.
pub new_space-Starts :
    (host : Host) (a : AddrSpace) (v : Vm) (id : ℕ) (file : List ℕ) (fn : String)
    → Inv a none v
    → v.table_size id ≡ 0
    → a.id ≢ id
    → (read_header host file).magic ≡ noff_magic
    → (read_header host file).code_size
        + (read_header host file).init_data_size
        + (read_header host file).uninit_data_size
        + user_stack_size
      < 2 ^ 31
    → Starts host a v id file fn
unfolding new_space
new_space-Starts host a v id file fn inv unused apart magic fits =
    let h = read_header host file in
    let total = h.code_size + h.init_data_size + h.uninit_data_size + user_stack_size in
    let whole : total % 2 ^ 32 ≡ total = omega arith in
    let num_pages = div_round_up total page_size in
    let (enough, tight) = rounded total in
    let init_data = div_round_up h.code_size page_size in
    record {
      out = with_table v id num_pages blank_page;
      space = record {
        id = id;
        init_data = init_data;
        no_init_data = init_data + div_round_up h.init_data_size page_size;
        stack = num_pages - 8;
        num_pages = num_pages;
        filename = fn;
      };
      returns = rw (magic, whole) refl;
      inv = out-Inv a v id num_pages inv unused apart;
      same_swap = (refl, refl);
      same_programs = refl;
      numbered = refl;
      named = refl;
      size = size_in v id num_pages blank_page id refl;
      blank = λ n h'. table_in v id num_pages blank_page id n refl h';
      enough = enough;
      tight = tight;
      stack_pages = omega (arith, enough);
    }

-- Page `n` of the space `a` is also the page `n` of the space numbered `id`: one frame holds both,
-- and the inverted table has it for `a` alone.
pub record Shares (a : AddrSpace) (id n : ℕ) (v : Vm) : Type 0 where
  pub frame : ℕ
  pub size : v.table_size id ≡ a.num_pages
  pub valid : (v.pages a.id n).valid ≡ true
  pub valid_too : (v.pages id n).valid ≡ true
  pub in_frame : (v.pages a.id n).physical_page ≡ pos frame
  pub in_frame_too : (v.pages id n).physical_page ≡ pos frame
  pub listed : v.ipt frame ≡ some (record { space = a.id; page = n })

-- When an address space with the paging invariant, of another number than its child, is forked
-- while a page below the stack is resident, the child has as many pages, the page is valid in both
-- page tables and in the same frame, the parent's entry is as before, and the inverted table has
-- the frame for the parent; the paging invariant of the child does not hold.
pub fork_space-not_Inv :
    (a : AddrSpace) (v : Vm) (id n : ℕ)
    → Inv a none v
    → a.id ≢ id
    → n < a.num_pages - 8
    → (v.pages a.id n).valid ≡ true
    → Shares a id n (fork_space v id a).0
      × ((fork_space v id a).0.pages a.id n ≡ v.pages a.id n)
      × (¬ Inv (fork_space v id a).1 none (fork_space v id a).0)
unfolding fork_space
fork_space-not_Inv a v id n inv apart h valid =
    let row : ℕ → TranslationEntry = λ k.
      if ltb k (a.num_pages - 8)
      then record (v.pages a.id k) { virtual_page = k }
      else blank_page k in
    let below : ltb n (a.num_pages - 8) ≡ true = lt→ltb _ _ h in
    let copy : row n ≡ record (v.pages a.id n) { virtual_page = n } = rw below refl in
    let child = table_in v id a.num_pages row id n refl (omega arith) ∙ copy in
    let parent = table_out v id a.num_pages row a.id n apart in
    let (f, r, _) = inv.resident a.id n (rw inv.size (omega arith)) valid in
    (
      record {
        frame = f;
        size = size_in v id a.num_pages row id refl;
        valid = ap (λ p. p.valid) parent ∙ valid;
        valid_too = ap (λ p. p.valid) child ∙ valid;
        in_frame = ap (λ p. p.physical_page) parent ∙ r.in_frame;
        in_frame_too = ap (λ p. p.physical_page) child ∙ r.in_frame;
        listed = r.listed;
      },
      parent,
      λ bad.
          let (g, r', _) =
            bad.resident id n (rw bad.size (omega arith)) (ap (λ p. p.valid) child ∙ valid) in
          let same : g ≡ f =
            pos-injective (sym r'.in_frame ∙ ap (λ p. p.physical_page) child ∙ r.in_frame) in
          let q = same_pointer (sym r.listed ∙ ap v.ipt (sym same) ∙ r'.listed) in
          apart (ap (λ t. t.space) q),
    )
