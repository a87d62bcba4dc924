-- ===== src/Vm/Space.antt =====
-- The two constructors of `AddrSpace` (userprog/addrspace.cc), as the VM configuration compiles
-- them.
pub mod Laws
pub mod Tests
use osproject.Base.{
  ℕ, ◌+◌, ◌-◌, ◌*◌, ◌%◌, ◌^◌, Bool, true, false, ◌&&◌, List, ltb, ◌==◌, if◌then◌else◌,
}
use osproject.Base.Int.{minus_one}
use osproject.Base.Outcome.{Outcome, ok, abort, ◌>>=◌, ◌>>◌, assert}
use osproject.BitMap.{div_round_up}
use osproject.Vm.Host.{Host}
use osproject.Vm.State.{TranslationEntry, AddrSpace, Vm, page_size}
use osproject.Vm.Load.{word_at}
use Prim.Native.String.{String}

abbrev pub user_stack_size : ℕ
user_stack_size = 1024

abbrev pub noff_magic : ℕ
noff_magic = 12246957

-- The header of an executable: of each segment, what is used here. The simulated machine and the
-- host have one byte order, so `SwapHeader` is never reached.
pub record NoffHeader : Type 0 where
  pub magic : ℕ
  pub code_size : ℕ
  pub init_data_size : ℕ
  pub uninit_data_size : ℕ

-- `executable->ReadAt((char *)&noffH, sizeof(noffH), 0)`: ten words, three for each segment.
abbrev pub read_header : Host → List ℕ → NoffHeader
read_header host executable =
    let bytes = host.read_at executable 0 40 in
    record {
      magic = word_at host bytes 0;
      code_size = word_at host bytes 12;
      init_data_size = word_at host bytes 24;
      uninit_data_size = word_at host bytes 36;
    }

-- A page that has never been touched.
abbrev pub blank_page : ℕ → TranslationEntry
blank_page n = record {
  virtual_page = n;
  physical_page = minus_one;
  valid = false;
  read_only = false;
  use_bit = false;
  dirty = false;
}

-- The state with a page table of `size` entries for the space numbered `id`.
abbrev pub with_table : Vm → ℕ → ℕ → (ℕ → TranslationEntry) → Vm
with_table v id size row = record v {
  pages = λ s n. if (s == id) && ltb n size then row n else v.pages s n;
  table_size = λ s. if s == id then size else v.table_size s;
}

-- `AddrSpace::AddrSpace(OpenFile *executable, std::string fn )`, for a space numbered `id`.
unfoldable pub new_space : Host → Vm → ℕ → List ℕ → String → Outcome (Vm × AddrSpace)
new_space host v id executable fn =
    let h = read_header host executable in
    let size = (h.code_size + h.init_data_size + h.uninit_data_size + user_stack_size) % 2 ^ 32 in
    let num_pages = div_round_up size page_size in
    let init_data = div_round_up h.code_size page_size in
    assert (h.magic == noff_magic)
    >> ok (
      with_table v id num_pages blank_page,
      record {
        id = id;
        init_data = init_data;
        no_init_data = init_data + div_round_up h.init_data_size page_size;
        stack = num_pages - div_round_up user_stack_size page_size;
        num_pages = num_pages;
        filename = fn;
      },
    )

-- `AddrSpace::AddrSpace( AddrSpace* other)`: all but the eight pages of the stack repeat the
-- other's. Every address space has those eight pages, so `numPages - 8` is not negative.
unfoldable pub fork_space : Vm → ℕ → AddrSpace → Vm × AddrSpace
fork_space v id other = (
  with_table v id other.num_pages (λ n.
      if ltb n (other.num_pages - 8)
      then record (v.pages other.id n) { virtual_page = n }
      else blank_page n),
  record other { id = id },
)
