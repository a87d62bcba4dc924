-- ===== src/Vm/Tests.antt =====
-- A full memory: four resident pages of a program of twelve, and instances of the theorems on it.
use osproject.Base.{
  ℕ, zero, suc, ◌+◌, ◌*◌, ◌%◌, ◌≤◌, ◌<◌, ◌≡◌, refl, sym, ◌∙◌, ◌≢◌, ◌⊎◌, inl, inr, Bool, true, false,
  Option, none, some, List, [], ◌∷◌, length, max, get_or, if◌then◌else◌, ltb, ltb→lt, lt→ltb, ◌==◌,
  arith,
}
use osproject.Base.Int.{pos}
use osproject.BitMap.Abstract.{holds}
use osproject.Vm.Host.{Host}
use osproject.Vm.State.{TranslationEntry, AddrSpace, Vm, num_phys_pages, copy_in, bytes_from}
use osproject.Vm.Swap.{get_next_scswap, update_swap_victim_info}
use osproject.Vm.Load.{evict}
use osproject.Vm.Inv.{Inv, Owned, Resident, Cached}
use osproject.Vm.Inv.Victim.{Victim, get_next_scswap-Victim}
use osproject.Vm.Inv.Withdraw.{Withdrawn, update_swap_victim_info-Withdrawn}
use osproject.Vm.Inv.Room.{Room}
use osproject.Vm.Inv.Evict.{SwapSpace, evict-Room}
use osproject.Vm.Boot.{Boots, initialize-Boots}

-- Files as POSIX has them: a write past the end leaves zeros before it.
abbrev pub byte_host : Host
byte_host = record {
  unset = λ i. 0;
  read_at = λ file offset n. bytes_from (λ i. get_or file i 0) offset n;
  write_at = λ file offset bytes.
      bytes_from (copy_in (λ i. get_or file i 0) offset bytes) 0
        (max (length file) (offset + length bytes));
}

abbrev pub program_space : AddrSpace
program_space = record {
  id = 0;
  init_data = 2;
  no_init_data = 3;
  stack = 4;
  num_pages = 12;
  filename = "shell";
}

-- Page `n`, resident in frame `n` and modified if it is one of the first four.
abbrev pub full_page : ℕ → TranslationEntry
full_page n = record {
  virtual_page = n;
  physical_page = pos n;
  valid = ltb n 4;
  read_only = false;
  use_bit = ltb n 2;
  dirty = ltb n 4;
}

abbrev full_tlb : ℕ → TranslationEntry
full_tlb zero = full_page 0
full_tlb (suc x) = full_page 20

abbrev full_size : ℕ → ℕ
full_size zero = 12
full_size (suc s) = 0

-- The TLB holds page 0.
abbrev pub full : Vm
full = record {
  pages = λ s n. full_page n;
  table_size = full_size;
  tlb = full_tlb;
  ipt = λ f. some (record { space = 0; page = f });
  mem_bit_map = record { num_bits = 4; num_words = 1; map = 15 ∷ [] };
  swap_bit_map = record { num_bits = 64; num_words = 2; map = 0 ∷ 0 ∷ [] };
  index_tlb_snd_chc = 0;
  index_swap_snd_chc = 0;
  index_swap_fifo = 0;
  main_memory = λ i. i % 256;
  swap_file = some [];
  programs = λ name. some (1 ∷ 2 ∷ 3 ∷ []);
  num_page_faults = 4;
}

full_marks : (f : ℕ) → f < num_phys_pages → holds full.mem_bit_map f ≡ true
unfolding holds osproject.Base.Bits.bit_at
full_marks zero h = refl
full_marks (suc zero) h = refl
full_marks (suc (suc zero)) h = refl
full_marks (suc (suc (suc zero))) h = refl
full_marks (suc (suc (suc (suc f)))) h = absurd (omega arith)

full-owners : (f : ℕ) → f < num_phys_pages → Owned full f (record { space = 0; page = f })
full-owners f h = record {
  listed = refl;
  in_table = omega arith;
  valid = lt→ltb _ _ h;
  in_frame = refl;
}

full-residents :
    (s n : ℕ)
    → n < full.table_size s
    → ltb n 4 ≡ true
    → (f : ℕ) × Resident full s n f × (◌≢◌ {A = Option ℕ} none (some f))
full-residents zero n h small = (
  n,
  record {
    small = ltb→lt _ _ small;
    in_frame = refl;
    marked = full_marks n (ltb→lt _ _ small);
    listed = refl;
  },
  λ bad. cc bad,
)
full-residents (suc s) n h small = absurd (omega arith)

full-first : (x : ℕ) → (full.tlb x).valid ≡ true → x ≡ 0
full-first zero v = refl
full-first (suc x) v = absurd (ground arith)

full-Cached : (x : ℕ) → (full.tlb x).valid ≡ true → Cached program_space full x
full-Cached zero v = record { in_table = omega arith; valid = refl; same_frame = refl }
full-Cached (suc x) v = absurd (ground arith)

pub full-Inv : Inv program_space none full
full-Inv = record {
  mem_valid = record { words = refl; covered = omega arith };
  mem_bits = refl;
  swap_valid = record { words = refl; covered = omega arith };
  swap_bits = refl;
  tlb_index = omega arith;
  swap_index = omega arith;
  size = refl;
  numbered = λ s n. refl;
  frames = λ f h m. inr (record { space = 0; page = f }, full-owners f h);
  resident = full-residents;
  cached = λ x h v. full-Cached x v;
  cached_once = λ x y hx hy vx vy e. omega (arith, full-first x vx, full-first y vy);
  swapped = λ s n h stale dirty. cc (sym stale ∙ dirty);
  swapped_apart = λ s n s' n' k h h' stale _ dirty _ _ _. cc (sym stale ∙ dirty);
}

pub full-open : full.swap_file ≢ none
full-open bad = cc bad

pub full-space : SwapSpace full
unfolding holds osproject.Base.Bits.bit_at
full-space = (0, omega arith, refl)

evict-Room_example : Room program_space full (evict byte_host program_space 4 true full)
evict-Room_example =
    evict-Room byte_host program_space 4 true full full-Inv (λ j h. full_marks j h) full-open
      full-space

get_next_scswap-Victim_example : Victim full 0 (get_next_scswap full)
get_next_scswap-Victim_example =
    get_next_scswap-Victim full (λ f h. (record { space = 0; page = f }, full-owners f h))
      (omega arith)

update_swap_victim_info-Withdrawn_example :
    Withdrawn full (record { space = 0; page = 0 }) 0 (update_swap_victim_info full 0)
update_swap_victim_info-Withdrawn_example =
    update_swap_victim_info-Withdrawn program_space none full (record { space = 0; page = 0 }) 0
      full-Inv (full-owners 0 (omega arith))

initialize-Boots_example : Boots (7 ∷ []) (8 ∷ 9 ∷ []) full_page (λ name. some (1 ∷ [])) (some [])
initialize-Boots_example =
    initialize-Boots (7 ∷ []) (8 ∷ 9 ∷ []) full_page (λ name. some (1 ∷ [])) (some []) refl refl
