-- ===== src/Vm/Swap/RoundTrip.antt =====
-- `writeIntoSwap` followed by `readFromSwap`: the bytes of a page.
use osproject.Base.{
  ℕ, zero, suc, ◌+◌, ◌-◌, ◌*◌, ◌≤◌, ◌<◌, ◌≡◌, refl, sym, ap, ap₂, ◌∙◌, ◌⊎◌, inl, inr, false, some,
  List, [], ◌∷◌, length, get_or, lt→ltb, arith,
}
use osproject.Base.Int.{pos}
use osproject.Base.Outcome.{ok}
use osproject.BitMap.{BitMap, find, clear}
use osproject.BitMap
use osproject.BitMap.Abstract.{holds, marked, cleared, clear_lem, marked-IsValid}
use osproject.Vm.Host.{Host}
use osproject.Vm.State.{
  PagePtr, Vm, page_size, num_phys_pages, swap_size, bytes_from, copy_in, with_page, points_to,
}
use osproject.Vm.Swap.{write_into_swap, read_from_swap}
use osproject.BitMap.Search.{find-Finds}
use osproject.Vm.Inv.Vacate.{points_to_self}

pub length-bytes_from : (memory : ℕ → ℕ) (base n : ℕ) → length (bytes_from memory base n) ≡ n
length-bytes_from memory base zero = refl
length-bytes_from memory base (suc n) = ap suc (length-bytes_from memory (base + 1) n)

pub get_or-bytes_from :
    (memory : ℕ → ℕ) (base n i : ℕ)
    → i < n
    → get_or (bytes_from memory base n) i 0 ≡ memory (base + i)
get_or-bytes_from memory base zero i h = absurd (omega arith)
get_or-bytes_from memory base (suc n) zero h = ap memory (omega arith)
get_or-bytes_from memory base (suc n) (suc i) h =
    get_or-bytes_from memory (base + 1) n i (omega arith) ∙ ap memory (omega arith)

pub bytes_from-of_get_or :
    (memory : ℕ → ℕ) (base : ℕ) (bytes : List ℕ)
    → ((i : ℕ) → i < length bytes → memory (base + i) ≡ get_or bytes i 0)
    → bytes_from memory base (length bytes) ≡ bytes
bytes_from-of_get_or memory base [] same = refl
bytes_from-of_get_or memory base (b ∷ bytes) same =
    ap₂ ◌∷◌ (ap memory (omega arith) ∙ same 0 (omega arith)) (
      bytes_from-of_get_or memory (base + 1) bytes
        (λ i h. ap memory (omega arith) ∙ same (suc i) (omega arith)))

pub copy_in-at :
    (memory : ℕ → ℕ) (base i : ℕ) (bytes : List ℕ)
    → i < length bytes
    → copy_in memory base bytes (base + i) ≡ get_or bytes i 0
copy_in-at memory base i bytes h = let e : base + i - base ≡ i = omega arith in rw e (ground arith)

pub copy_in-out :
    (memory : ℕ → ℕ) (base x : ℕ) (bytes : List ℕ)
    → (x < base) ⊎ (base + length bytes ≤ x)
    → copy_in memory base bytes x ≡ memory x
copy_in-out memory base x bytes (inl h) = ground arith
copy_in-out memory base x bytes (inr h) = ground arith

-- The page of frame `k` has gone to the swap area and has come back to frame `f`.
pub record SwapsBack (host : Host) (v : Vm) (p : PagePtr) (k f : ℕ) : Type 0 where
  pub slot : ℕ
  pub away : Vm
  pub back : Vm
  pub writes : write_into_swap host v (pos k) ≡ ok away
  pub gone : (away.pages p.space p.page).valid ≡ false
  pub placed : (away.pages p.space p.page).physical_page ≡ pos slot
  pub was_free : holds v.swap_bit_map slot ≡ false
  pub reads : read_from_swap host away f (pos slot) ≡ ok back
  pub same_bytes :
      (i : ℕ)
      → i < page_size
      → back.main_memory (f * page_size + i) ≡ v.main_memory (k * page_size + i)
  pub elsewhere :
      (x : ℕ)
      → (x < f * page_size) ⊎ (f * page_size + page_size ≤ x)
      → back.main_memory x ≡ v.main_memory x

module _ (host : Host)
    (read-write : (file : List ℕ) (offset : ℕ) (bytes : List ℕ)
      → host.read_at (host.write_at file offset bytes) offset (length bytes) ≡ bytes)
    (v : Vm) (p : PagePtr) (k f : ℕ) (file : List ℕ) where
  abbrev page : List ℕ
  page = bytes_from v.main_memory (k * page_size) page_size

  page-read :
      (s : ℕ)
      → host.read_at (host.write_at file (s * page_size) page) (s * page_size) page_size ≡ page
  page-read s =
      ap (host.read_at (host.write_at file (s * page_size) page) (s * page_size))
        (sym (length-bytes_from v.main_memory (k * page_size) page_size))
      ∙ read-write file (s * page_size) page

  page_at_frame :
      (i : ℕ)
      → i < page_size
      → copy_in v.main_memory (f * page_size) page (f * page_size + i)
        ≡ v.main_memory (k * page_size + i)
  page_at_frame i h =
      copy_in-at v.main_memory (f * page_size) i page
        (rw (length-bytes_from v.main_memory (k * page_size) page_size) h)
      ∙ get_or-bytes_from v.main_memory (k * page_size) page_size i h

  page_elsewhere :
      (x : ℕ)
      → (x < f * page_size) ⊎ (f * page_size + page_size ≤ x)
      → copy_in v.main_memory (f * page_size) page x ≡ v.main_memory x
  page_elsewhere x out =
      copy_in-out v.main_memory (f * page_size) x page
        (rw (length-bytes_from v.main_memory (k * page_size) page_size) out)

  -- The bytes of a page survive the swap area: what writeIntoSwap writes of the page of one frame,
  -- readFromSwap brings back to any frame, and it changes no other byte of memory. The file gives
  -- back what was written to it; the maps are well-formed, the frame is the one chosen and has a
  -- page, the swap file is open and a slot is free.
  pub write_into_swap-read_from_swap :
      BitMap.Abstract.IsValid v.mem_bit_map
      → v.mem_bit_map.num_bits ≡ num_phys_pages
      → BitMap.Abstract.IsValid v.swap_bit_map
      → v.swap_bit_map.num_bits ≡ swap_size
      → k < num_phys_pages
      → f < num_phys_pages
      → v.index_swap_fifo ≡ k
      → v.ipt k ≡ some p
      → p.page < v.table_size p.space
      → v.swap_file ≡ some file
      → (s : ℕ) × (s < swap_size) × (holds v.swap_bit_map s ≡ false)
      → SwapsBack host v p k f
  unfolding write_into_swap read_from_swap osproject.Vm.State.update_page
  write_into_swap-read_from_swap mem_valid mem_bits swap_valid swap_bits hk hf aimed listed inside
        is_open (j, hj, free) =
      elim (find-Finds v.swap_bit_map swap_valid) [
        | inl (all, _) ↦ cc (sym (all j (omega arith)) ∙ free)
        | inr (s, hs, clear_s, _, found) ↦
            let small : s < swap_size = omega arith in
            let v1 =
              record (with_page (record v { swap_bit_map = marked v.swap_bit_map s }) p
                (λ e. record e { valid = false; physical_page = pos s })) {
                  swap_file = some (host.write_at file (s * page_size) page);
                  mem_bit_map = cleared v.mem_bit_map k;
                } in
            record {
              slot = s;
              away = v1;
              back = record v1 {
                swap_bit_map = cleared (marked v.swap_bit_map s) s;
                main_memory = copy_in v.main_memory (f * page_size) page;
                num_page_faults = v.num_page_faults + 1;
              };
              writes =
                  rw
                    (
                      found,
                      lt→ltb _ _ hk,
                      is_open,
                      listed,
                      lt→ltb _ _ inside,
                      aimed,
                      clear_lem v.mem_bit_map k mem_valid (omega arith),
                    )
                    refl;
              gone = rw (points_to_self p) refl;
              placed = rw (points_to_self p) refl;
              was_free = clear_s;
              reads =
                  rw
                    (
                      clear_lem (marked v.swap_bit_map s) s
                          (marked-IsValid v.swap_bit_map s swap_valid) hs,
                      lt→ltb _ _ small,
                      lt→ltb _ _ hf,
                      page-read s,
                    )
                    refl;
              same_bytes = page_at_frame;
              elsewhere = page_elsewhere;
            }
      ]
