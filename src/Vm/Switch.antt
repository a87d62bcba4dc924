-- ===== src/Vm/Switch.antt =====
-- Context switches between address spaces, userprog/addrspace.cc: SaveState and RestoreState.
pub mod Laws
mod Tests
use osproject.Base.{ℕ, zero, suc, ◌+◌, Bool, true, false, Option, none, some}
use osproject.Base.Outcome.{Outcome, ok, fault, ◌>>=◌}
use osproject.Vm.State.{TranslationEntry, AddrSpace, Vm, tlb_size, this_page, update_page}

-- `new TranslationEntry[ TLBSize ]` and the loop that clears `valid`: the other fields hold what
-- the storage held, which is `garbage`.
abbrev pub fresh_tlb : (ℕ → TranslationEntry) → ℕ → TranslationEntry
fresh_tlb garbage x = record (garbage x) { valid = false }

-- The first loop of `SaveState` from entry `i` on, with `n` rounds left. It does not test `valid`.
unfoldable pub save_bits_from : AddrSpace → Vm → ℕ → ℕ → Outcome Vm
unfolding update_page
save_bits_from a v i zero = ok v
save_bits_from a v i (suc n) = do
  v' ←
      update_page v (this_page a (v.tlb i).virtual_page)
        (λ e. record e { use_bit = (v.tlb i).use_bit; dirty = (v.tlb i).dirty })
  save_bits_from a v' (i + 1) n

unfoldable pub save_state : AddrSpace → Vm → (ℕ → TranslationEntry) → Outcome Vm
unfolding save_bits_from
save_state a v garbage = do
  v' ← save_bits_from a v 0 tlb_size
  ok (record v' { tlb = fresh_tlb garbage })

abbrev pub restore_state : Vm → (ℕ → TranslationEntry) → Vm
restore_state v garbage = record v { index_tlb_snd_chc = 0; tlb = fresh_tlb garbage }
