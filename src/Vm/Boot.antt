-- ===== src/Vm/Boot.antt =====
-- What `Initialize` (threads/system.cc) and the constructor of `Machine` (machine/machine.cc) set
-- up for paging.
use osproject.Base.{ℕ, ◌≡◌, refl, sym, ◌∙◌, Option, none, List, length, arith}
use Prim.Native.String.{String}
use osproject.Base.Outcome.{Outcome, ok, ◌>>=◌}
use osproject.BitMap.{make}
use osproject.BitMap.Search.{make_clear}
use osproject.Vm.State.{TranslationEntry, AddrSpace, Vm, num_phys_pages, swap_size}
use osproject.Vm.Switch.{fresh_tlb}
use osproject.Vm.Space.{blank_page}
use osproject.Vm.Inv.{Inv}
use osproject.Vm.Inv.Evict.{SwapSpace}

-- The two lists and `garbage` are what fresh storage holds. There is no page table yet.
unfoldable pub initialize :
    List ℕ
    → List ℕ
    → (ℕ → TranslationEntry)
    → (String → Option (List ℕ))
    → Option (List ℕ)
    → Outcome Vm
initialize mem_words swap_words garbage programs swap_file = do
  mem_bit_map ← make num_phys_pages mem_words
  swap_bit_map ← make swap_size swap_words
  ok (record {
    pages = λ s n. blank_page n;
    table_size = λ s. 0;
    tlb = fresh_tlb garbage;
    ipt = λ f. none;
    mem_bit_map = mem_bit_map;
    swap_bit_map = swap_bit_map;
    index_tlb_snd_chc = 0;
    index_swap_snd_chc = 0;
    index_swap_fifo = 0;
    main_memory = λ i. 0;
    swap_file = swap_file;
    programs = programs;
    num_page_faults = 0;
  })

-- The state that start-up leaves.
pub record Boots (mem_words swap_words : List ℕ) (garbage : ℕ → TranslationEntry)
    (programs : String → Option (List ℕ)) (swap_file : Option (List ℕ)) : Type 0 where
  pub out : Vm
  pub returns : initialize mem_words swap_words garbage programs swap_file ≡ ok out
  pub inv : (a : AddrSpace) → a.num_pages ≡ 0 → Inv a none out
  pub empty : (s : ℕ) → out.table_size s ≡ 0
  pub space : SwapSpace out
  pub same_programs : out.programs ≡ programs
  pub same_file : out.swap_file ≡ swap_file

-- Whatever fresh storage holds, start-up ends, and leaves a state that keeps the paging invariant
-- for a thread with no pages, in which there is no page table and a slot of the swap area is free.
pub initialize-Boots :
    (mem_words swap_words : List ℕ) (garbage : ℕ → TranslationEntry)
    (programs : String → Option (List ℕ)) (swap_file : Option (List ℕ))
    → length mem_words ≡ 1
    → length swap_words ≡ 2
    → Boots mem_words swap_words garbage programs swap_file
unfolding initialize
initialize-Boots mem_words swap_words garbage programs swap_file e e' =
    let (mem, r, v, bits, clear) = make_clear 4 mem_words e in
    let (swap, r', v', bits', clear') = make_clear 64 swap_words e' in
    record {
      out = record {
        pages = λ s n. blank_page n;
        table_size = λ s. 0;
        tlb = fresh_tlb garbage;
        ipt = λ f. none;
        mem_bit_map = mem;
        swap_bit_map = swap;
        index_tlb_snd_chc = 0;
        index_swap_snd_chc = 0;
        index_swap_fifo = 0;
        main_memory = λ i. 0;
        swap_file = swap_file;
        programs = programs;
        num_page_faults = 0;
      };
      returns = rw (r, r') refl;
      inv = λ a none_yet. record {
        mem_valid = v;
        mem_bits = bits;
        swap_valid = v';
        swap_bits = bits';
        tlb_index = omega arith;
        swap_index = omega arith;
        size = sym none_yet;
        numbered = λ s n. refl;
        frames = λ f h m. cc (sym (clear f h) ∙ m);
        resident = λ s n h. absurd (omega arith);
        cached = λ x h bad. absurd (ground arith);
        cached_once = λ x y hx hy bad. absurd (ground arith);
        swapped = λ s n h. absurd (omega arith);
        swapped_apart = λ s n s' n' k h. absurd (omega arith);
      };
      empty = λ s. refl;
      space = (0, omega arith, clear' 0 (omega arith));
      same_programs = refl;
      same_file = refl;
    }
