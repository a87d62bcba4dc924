-- ===== src/Machine/Safe.antt =====
-- `SafeReadMem`, `SafeWriteMem` and `WriteMem` followed by `ReadMem`.
use osproject.Base.{ℕ, ◌+◌, ◌*◌, ◌/◌, ◌%◌, ◌≡◌, refl, ◌⊎◌, inl, inr, false, none}
use osproject.Base.Int.{pos}
use osproject.Base.Outcome.{Outcome, ok}
use osproject.Vm.Host.{Host}
use osproject.Vm.State.{AddrSpace, Vm, page_size}
use osproject.Vm.Inv.{Inv}
use osproject.Vm.Inv.Fill.{Served}
use osproject.Machine.{misaligned, fetch}
use osproject.Machine.Access.{Mapped, Mapped-or_Misses}

-- The sizes that the simulated instructions use.
abbrev pub AccessSize : ℕ → Type 0
AccessSize size = (size ≡ 1) ⊎ ((size ≡ 2) ⊎ (size ≡ 4))

pub fetched :
    (memory : ℕ → ℕ) (at size : ℕ) → AccessSize size → (word : ℕ) × (fetch memory at size ≡ ok word)
unfolding fetch
fetched memory at size (inl e) = rw e (_, refl)
fetched memory at size (inr (inl e)) = rw e (_, refl)
fetched memory at size (inr (inr e)) = rw e (_, refl)

-- A value has been read, from the frame where the page table has the page.
pub record Reads (a : AddrSpace) (addr size : ℕ) (result : Outcome (Vm × ℕ)) : Type 0 where
  pub out : Vm
  pub word : ℕ
  pub frame : ℕ
  pub returns : result ≡ ok (out, word)
  pub inv : Inv a none out
  pub page_frame : (out.pages a.id (addr / page_size)).physical_page ≡ pos frame
  pub value : fetch out.main_memory (frame * page_size + addr % page_size) size ≡ ok word

module _ (host : Host) (a : AddrSpace) (addr size : ℕ) (sizes : AccessSize size)
    (aligned : misaligned addr size ≡ false) where
  -- A load leaves the page mapped.
  pub served-Mapped :
      {result : Outcome Vm} (s : Served a (addr / page_size) result)
      → Mapped a s.out (addr / page_size)
  served-Mapped s = elim (Mapped-or_Misses a s.out (addr / page_size) s.inv) [
    | inl m ↦ m
    | inr (miss, _) ↦ absurd (miss s.slot s.hits.small s.hits.valid s.hits.for_page)
  ]
