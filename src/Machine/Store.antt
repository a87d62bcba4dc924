-- ===== src/Machine/Store.antt =====
-- `WriteMem` followed by `ReadMem`.
use osproject.Base.{
  ℕ, ◌+◌, ◌-◌, ◌*◌, ◌/◌, ◌%◌, ◌^◌, ◌<◌, ◌≡◌, refl, sym, ap, ◌∙◌, inl, inr, true, false, none, some,
  List, length, get_or, ◌==◌, if◌then◌else◌, arith,
}
use osproject.Base.Int.{pos-injective}
use osproject.Base.Outcome.{ok}
use osproject.Vm.Host.{Host}
use osproject.Vm.Swap.RoundTrip.{copy_in-at}
use osproject.Vm.State.{AddrSpace, Vm, page_size, copy_in}
use osproject.Vm.Inv.{Inv}
use osproject.Vm.Inv.Load.{refreshed-Inv}
use osproject.Machine.{misaligned, fetch, store_bytes, bytes_of, signed_byte, read_mem, write_mem}
use osproject.Machine.Access.{Mapped, Mapped-or_Misses, touched, touched-Inv, translate-Mapped}
use osproject.Machine.Safe.{AccessSize}

-- What reading a value back gives: its lowest bytes, a single one with its sign.
abbrev pub as_read : ℕ → ℕ → ℕ
as_read size value = if size == 1 then signed_byte (value % 256) else value % 256 ^ size

copy_in-first :
    (memory : ℕ → ℕ) (base : ℕ) (bytes : List ℕ)
    → 0 < length bytes
    → copy_in memory base bytes base ≡ get_or bytes 0 0
copy_in-first memory base bytes h = let e : base - base ≡ 0 = omega arith in rw e (ground arith)

fetch-store_bytes :
    (memory : ℕ → ℕ) (at size value : ℕ)
    → AccessSize size
    → (memory' : ℕ → ℕ) × (store_bytes memory at size value ≡ ok memory')
      × (fetch memory' at size ≡ ok (as_read size value))
unfolding store_bytes fetch
fetch-store_bytes memory at size value (inl e) =
    let m = copy_in memory at (bytes_of 1 value) in
    let b0 : m at ≡ value % 256 = copy_in-first memory at (bytes_of 1 value) (omega arith) in
    (m, rw e refl, rw e (ap (λ b. ok (signed_byte b)) b0))
fetch-store_bytes memory at size value (inr (inl e)) =
    let m = copy_in memory at (bytes_of 2 value) in
    let b0 : m at ≡ value % 256 = copy_in-first memory at (bytes_of 2 value) (omega arith) in
    let b1 : m (at + 1) ≡ value / 256 % 256 =
      copy_in-at memory at 1 (bytes_of 2 value) (omega arith) in
    let all : m at + 256 * m (at + 1) ≡ value % 65536 = omega arith in
    (m, rw e refl, rw e (ap ok all))
fetch-store_bytes memory at size value (inr (inr e)) =
    let m = copy_in memory at (bytes_of 4 value) in
    let b0 : m at ≡ value % 256 = copy_in-first memory at (bytes_of 4 value) (omega arith) in
    let b1 : m (at + 1) ≡ value / 256 % 256 =
      copy_in-at memory at 1 (bytes_of 4 value) (omega arith) in
    let b2 : m (at + 2) ≡ value / 256 / 256 % 256 =
      copy_in-at memory at 2 (bytes_of 4 value) (omega arith) in
    let b3 : m (at + 3) ≡ value / 256 / 256 / 256 % 256 =
      copy_in-at memory at 3 (bytes_of 4 value) (omega arith) in
    let all : m at + 256 * m (at + 1) + 65536 * m (at + 2) + 16777216 * m (at + 3)
        ≡ value % 4294967296 =
      omega arith in
    (m, rw e refl, rw e (ap ok all))

-- The value has been stored, and reading it back gives it.
pub record Stores (host : Host) (a : AddrSpace) (addr size value : ℕ) (v : Vm) : Type 0 where
  pub out : Vm
  pub later : Vm
  pub writes : write_mem host a v addr size value ≡ ok (out, true)
  pub inv : Inv a none out
  pub reads : read_mem host a out addr size ≡ ok (later, some (as_read size value))

-- A page stays mapped through a write.
written-Mapped :
    (a : AddrSpace) (v : Vm) (vpn : ℕ) (m : Mapped a v vpn) (memory : ℕ → ℕ)
    → Inv a none (record (touched v m.slot true) { main_memory = memory })
    → (m' : Mapped a (record (touched v m.slot true) { main_memory = memory }) vpn) × (m'.frame
        ≡ m.frame)
written-Mapped a v vpn m memory inv =
    elim (Mapped-or_Misses a (record (touched v m.slot true) { main_memory = memory }) vpn inv) [
      | inl m' ↦ (m', pos-injective (sym m'.page_frame ∙ m.page_frame))
      | inr (miss, _) ↦
          absurd (miss m.slot m.small (ground (arith, m.valid)) (ground (arith, m.for_page)))
    ]

-- In a state that keeps the paging invariant, an aligned WriteMem of 1, 2 or 4 bytes to a page
-- that the TLB maps and that is not read-only succeeds at once and keeps the invariant, and
-- ReadMem of the same address and size then gives the value cut to its size, a single byte with
-- its sign.
pub write_mem-read_mem :
    (host : Host) (a : AddrSpace) (v : Vm) (addr size value : ℕ)
    → Inv a none v
    → (m : Mapped a v (addr / page_size)) → AccessSize size
    → misaligned addr size ≡ false
    → (v.tlb m.slot).read_only ≡ false
    → Stores host a addr size value v
unfolding write_mem read_mem
write_mem-read_mem host a v addr size value inv m sizes aligned writable =
    let at = m.frame * page_size + addr % page_size in
    let (memory, stored, back) = fetch-store_bytes v.main_memory at size value sizes in
    let w = translate-Mapped a v addr size true m sizes aligned (rw writable refl) in
    let inv1 =
      refreshed-Inv a (touched v m.slot true) memory v.num_page_faults
        (touched-Inv a v m.slot true inv) in
    let (m', same) = written-Mapped a v (addr / page_size) m memory inv1 in
    let v1 = record (touched v m.slot true) { main_memory = memory } in
    record {
      out = v1;
      later = touched v1 m'.slot false;
      writes = rw (w, stored) refl;
      inv = inv1;
      reads =
          rw (translate-Mapped a v1 addr size false m' sizes aligned (ground arith), same, back)
            refl;
    }
