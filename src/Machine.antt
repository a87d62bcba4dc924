-- ===== src/Machine.antt =====
-- machine/translate.cc, and the page fault case of `ExceptionHandler` (userprog/exception.cc), in
-- the configuration with a TLB (USE_TLB), in which `pageTable` is NULL. An address is taken as
-- unsigned, as `Translate` casts it.
pub mod Access
pub mod Safe
pub mod Store
pub mod Start
mod Tests
use osproject.Base.{
  ℕ, zero, suc, ◌+◌, ◌*◌, ◌/◌, ◌%◌, Bool, true, false, not, ◌&&◌, ◌||◌, Option, none, some, List,
  [], ◌∷◌, ltb, leb, ◌==◌, if◌then◌else◌, get_or,
}
use osproject.Base.Int.{ℤ, pos, negsuc}
use osproject.Base.Outcome.{Outcome, ok, abort, fault, timeout, ◌>>=◌, ◌>>◌, assert}
use osproject.Vm.Host.{Host}
use osproject.Vm.State.{
  TranslationEntry, AddrSpace, Vm, page_size, num_phys_pages, memory_size, tlb_size, with_tlb,
  copy_in,
}
use osproject.Vm.Load.{load}

-- The exceptions that `Translate` returns.
pub data ExceptionType : Type 0 where
  no_exception : ExceptionType
  page_fault_exception : ExceptionType
  read_only_exception : ExceptionType
  bus_error_exception : ExceptionType
  address_error_exception : ExceptionType

-- `((size == 4) && (virtAddr & 0x3)) || ((size == 2) && (virtAddr & 0x1))`
abbrev pub misaligned : ℕ → ℕ → Bool
misaligned virt_addr size =
    ((size == 4) && not (virt_addr % 4 == 0)) || ((size == 2) && not (virt_addr % 2 == 0))

-- The search of the TLB from entry `x` on, with `n` rounds left.
unfoldable pub find_entry : Vm → ℕ → ℕ → ℕ → Option ℕ
find_entry v vpn x zero = none
find_entry v vpn x (suc n) =
    let rest = find_entry v vpn (x + 1) n in
    if (v.tlb x).valid && ((v.tlb x).virtual_page == vpn) then some x else rest

-- What `Translate` does with the entry that it has found, once the frame is known.
unfoldable pub access : Vm → ℕ → ℕ → ℕ → Bool → ℕ → Outcome (Vm × ExceptionType × ℕ)
access v x offset size writing page_frame =
    let v' =
      with_tlb v x (λ e. record e { use_bit = true; dirty = if writing then true else e.dirty }) in
    let phys_addr = page_frame * page_size + offset in
    assert (leb (phys_addr + size) memory_size) >> ok (v', no_exception, phys_addr)

-- `physicalPage` becomes unsigned: a negative one is too big.
unfoldable pub use_entry : Vm → ℕ → ℕ → ℕ → Bool → Outcome (Vm × ExceptionType × ℕ)
unfolding access
use_entry v x offset size writing =
    if (v.tlb x).read_only && writing
    then ok (v, read_only_exception, 0)
    else elim (v.tlb x).physical_page [
      | negsuc _ ↦ ok (v, bus_error_exception, 0)
      | pos page_frame ↦
          if not (ltb page_frame num_phys_pages)
          then ok (v, bus_error_exception, 0)
          else access v x offset size writing page_frame
    ]

-- The address is meaningful when the exception is `no_exception`.
unfoldable pub translate : Vm → ℕ → ℕ → Bool → Outcome (Vm × ExceptionType × ℕ)
unfolding find_entry use_entry
translate v virt_addr size writing =
    if misaligned virt_addr size
    then ok (v, address_error_exception, 0)
    else elim (find_entry v (virt_addr / page_size) 0 tlb_size) [
      | none ↦ ok (v, page_fault_exception, 0)
      | some x ↦ use_entry v x (virt_addr % page_size) size writing
    ]

abbrev pub is_no_exception : ExceptionType → Bool
is_no_exception no_exception = true
is_no_exception page_fault_exception = false
is_no_exception read_only_exception = false
is_no_exception bus_error_exception = false
is_no_exception address_error_exception = false

-- A byte of `mainMemory`, which is a `char` array, as an `int`: a `char` is signed on the machines
-- that the build supports. A negative number is given as the word that represents it.
abbrev pub signed_byte : ℕ → ℕ
signed_byte byte = if ltb byte 128 then byte else byte + 4294967040

-- The `switch ( size )` of `ReadMem`. The simulated machine is little-endian.
unfoldable pub fetch : (ℕ → ℕ) → ℕ → ℕ → Outcome ℕ
fetch memory at size =
    if size == 1
    then ok (signed_byte (memory at))
    else if size == 2
    then ok (memory at + 256 * memory (at + 1))
    else if size == 4
    then ok
        (memory at + 256 * memory (at + 1) + 65536 * memory (at + 2) + 16777216 * memory (at + 3))
    else abort

-- The lowest `n` bytes of a word.
abbrev pub bytes_of : ℕ → ℕ → List ℕ
bytes_of zero value = []
bytes_of (suc n) value = value % 256 ∷ bytes_of n (value / 256)

-- The `switch ( size )` of `WriteMem`.
unfoldable pub store_bytes : (ℕ → ℕ) → ℕ → ℕ → ℕ → Outcome (ℕ → ℕ)
store_bytes memory at size value =
    if (size == 1) || (size == 2) || (size == 4)
    then ok (copy_in memory at (bytes_of size value))
    else abort

module _ (host : Host) (a : AddrSpace) where
  -- `ExceptionHandler` for these exceptions: all but the page fault end the program.
  unfoldable pub exception_handler : ExceptionType → ℕ → Vm → Outcome Vm
  exception_handler page_fault_exception bad_vaddr v = load host a (bad_vaddr / page_size) v
  exception_handler no_exception bad_vaddr v = abort
  exception_handler read_only_exception bad_vaddr v = abort
  exception_handler bus_error_exception bad_vaddr v = abort
  exception_handler address_error_exception bad_vaddr v = abort

  -- `ReadMem`: `none` is a returned `false`, after the exception has been raised.
  unfoldable pub read_mem : Vm → ℕ → ℕ → Outcome (Vm × Option ℕ)
  unfolding exception_handler
  read_mem v addr size = do
    (v', exception, physical_address) ← translate v addr size false
    if is_no_exception exception
        then (fetch v'.main_memory physical_address size >>= λ value. ok (v', some value))
        else (exception_handler exception addr v' >>= λ v''. ok (v'', none))

  -- `WriteMem`
  unfoldable pub write_mem : Vm → ℕ → ℕ → ℕ → Outcome (Vm × Bool)
  unfolding exception_handler
  write_mem v addr size value = do
    (v', exception, physical_address) ← translate v addr size true
    if is_no_exception exception
        then (store_bytes v'.main_memory physical_address size value >>= λ memory.
            ok (record v' { main_memory = memory }, true))
        else (exception_handler exception addr v' >>= λ v''. ok (v'', false))

  -- `while(!ReadMem(addr, size, value));`, on fuel.
  unfoldable pub safe_read_mem : ℕ → Vm → ℕ → ℕ → Outcome (Vm × ℕ)
  unfolding read_mem
  safe_read_mem zero v addr size = timeout
  safe_read_mem (suc fuel) v addr size = do
    (v', value) ← read_mem v addr size
    elim value [ some word ↦ ok (v', word) | none ↦ safe_read_mem fuel v' addr size ]

  -- `while(!WriteMem(addr, size, value));`, on fuel.
  unfoldable pub safe_write_mem : ℕ → Vm → ℕ → ℕ → ℕ → Outcome Vm
  unfolding write_mem
  safe_write_mem zero v addr size value = timeout
  safe_write_mem (suc fuel) v addr size value = do
    (v', written) ← write_mem v addr size value
    elim written [ true ↦ ok v' | false ↦ safe_write_mem fuel v' addr size value ]
