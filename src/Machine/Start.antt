-- ===== src/Machine/Start.antt =====
-- From start-up to the first accesses of a program.
use osproject.Base.{ℕ, ◌/◌, ◌<◌, ◌≡◌, false, Option, some, List, length}
use Prim.Native.String.{String}
use osproject.Base.Outcome.{ok}
use osproject.Vm.Host.{Host}
use osproject.Vm.State.{TranslationEntry, AddrSpace, Vm, page_size}
use osproject.Vm.Switch.{restore_state}
use osproject.Vm.Space.{new_space}
use osproject.Vm.Boot.{initialize}
use osproject.Machine.{misaligned, safe_read_mem}
use osproject.Machine.Safe.{AccessSize, Reads}

-- A thread with no pages, as the first thread is.
abbrev pub no_space : AddrSpace
no_space = record {
  id = 0;
  init_data = 0;
  no_init_data = 0;
  stack = 0;
  num_pages = 0;
  filename = "";
}

-- What the storage held that start-up and the first context switch allocate.
pub record Garbage : Type 0 where
  pub mem_words : List ℕ
  pub swap_words : List ℕ
  pub tlb : ℕ → TranslationEntry
  pub next_tlb : ℕ → TranslationEntry
  pub mem_size : length mem_words ≡ 1
  pub swap_size : length swap_words ≡ 2

-- The program runs: it has been given an address space, and can read all of it.
pub record Runs (host : Host) (g : Garbage) (programs : String → Option (List ℕ))
    (swap_file program : List ℕ) (fn : String) : Type 0 where
  pub booted : Vm
  pub made : Vm
  pub space : AddrSpace
  pub boots : initialize g.mem_words g.swap_words g.tlb programs (some swap_file) ≡ ok booted
  pub starts : new_space host booted 1 program fn ≡ ok (made, space)
  pub reads :
      (addr size : ℕ)
      → AccessSize size
      → misaligned addr size ≡ false
      → addr / page_size < space.num_pages
      → Reads space addr size (safe_read_mem host space 2 (restore_state made g.next_tlb) addr size)
