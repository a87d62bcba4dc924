-- ===== src/Cpu/Step/Sound.antt =====
-- What the cases of the `switch` in `OneInstruction` keep of the processor.
use osproject.Base.{
  ℕ, ◌≤◌, ◌<◌, ◌≡◌, refl, Bool, true, false, Option, none, some, if◌then◌else◌, ◌==◌, arith,
}
use osproject.Base.Outcome.{Outcome, ok, abort, fault, timeout, ◌>>=◌, ◌>>◌, assert}
use osproject.Vm.Host.{Host}
use osproject.Vm.State.{AddrSpace, Vm}
use osproject.Machine.{read_mem, write_mem}
use osproject.Cpu.{Cpu}
use osproject.Cpu.Registers.{write_register, raise_exception}
use osproject.Cpu.Effect.{Effect, Exception, done, raised, returned, with_read, with_write}

-- `P` holds of what a call returns, where it returns.
unfoldable pub Returning {ℓ} : {A : Type ℓ} → (A → Type 0) → Outcome A → Type 0
Returning P (ok x) = P x
Returning P abort = Unit
Returning P fault = Unit
Returning P timeout = Unit

pub Returning-bind {ℓ κ} :
    {A : Type ℓ} {B : Type κ} (P : A → Type 0) (Q : B → Type 0) (m : Outcome A) (k : A → Outcome B)
    → Returning P m
    → ((x : A) → P x → Returning Q (k x))
    → Returning Q (m >>= k)
unfolding Returning
Returning-bind P Q (ok x) k h next = next x h
Returning-bind P Q abort k h next = tt
Returning-bind P Q fault k h next = tt
Returning-bind P Q timeout k h next = tt

-- The program counters and the pending load are the same.
abbrev pub Kept : Cpu → Cpu → Type 0
Kept c c' = (r : ℕ) → 34 ≤ r → c'.registers r ≡ c.registers r

-- The registers are those that `raise_exception` leaves.
abbrev pub Trapped : Cpu → Cpu → Type 0
Trapped c c' =
    (addr : ℕ) × (vm : Vm) × (c1 : Cpu) × (raise_exception (record c { vm = vm }) addr ≡ ok c1)
    × (c'.registers ≡ c1.registers)

unfoldable pub Sound : Cpu → Effect → Type 0
Sound c (done c' pc_after load_to loaded) = Kept c c' × (load_to < 32)
Sound c (raised c' which bad_vaddr) = c'.registers ≡ c.registers
Sound c (returned c') = Trapped c c'

pub done-Sound :
    (c c' : Cpu) (pc_after load_to loaded : ℕ)
    → Kept c c'
    → load_to < 32
    → Sound c (done c' pc_after load_to loaded)
unfolding Sound
done-Sound c c' pc_after load_to loaded kept small = (kept, small)

pub raised-Sound :
    (c : Cpu) (which : Exception) (bad_vaddr : ℕ) → Sound c (raised c which bad_vaddr)
unfolding Sound
raised-Sound c which bad_vaddr = refl

pub ok-Returning : (c : Cpu) (e : Effect) → Sound c e → Returning (Sound c) (ok e)
unfolding Returning
ok-Returning c e h = h

-- After memory was accessed the registers are the same.
pub access-Sound :
    (c : Cpu) (vm : Vm) (pc_after load_to loaded : ℕ)
    → load_to < 32
    → Returning (Sound c) (ok (done (record c { vm = vm }) pc_after load_to loaded))
access-Sound c vm pc_after load_to loaded small =
    ok-Returning c _ (done-Sound c _ pc_after load_to loaded (λ r high. refl) small)

-- Another memory under the same registers.
pub moved-Sound :
    (c : Cpu) (vm : Vm) (m : Outcome Effect)
    → Returning (Sound (record c { vm = vm })) m
    → Returning (Sound c) m
unfolding Returning Sound
moved-Sound c vm (ok (done c' pc_after load_to loaded)) h = h
moved-Sound c vm (ok (raised c' which bad_vaddr)) h = h
moved-Sound c vm (ok (returned c')) h = h
moved-Sound c vm abort h = tt
moved-Sound c vm fault h = tt
moved-Sound c vm timeout h = tt

pub write-Kept : (c : Cpu) (num value : ℕ) → num < 34 → Kept c (write_register c num value)
write-Kept c num value h r high = let other : (r == num) ≡ false = ground arith in rw other refl

pub if-Sound :
    (c : Cpu) (b : Bool) (x y : Effect) → Sound c x → Sound c y → Sound c (if b then x else y)
if-Sound c true x y hx hy = hx
if-Sound c false x y hx hy = hy

pub assert-Returning :
    (c : Cpu) (b : Bool) (m : Outcome Effect)
    → Returning (Sound c) m
    → Returning (Sound c) (assert b >> m)
unfolding Returning
assert-Returning c true m h = h
assert-Returning c false m h = tt

trapped_on :
    (c : Cpu) (vm : Vm) (addr : ℕ) (r : Outcome Cpu)
    → raise_exception c addr ≡ r
    → Returning (Sound c) (r >>= λ c'. ok (returned (record c' { vm = vm })))
unfolding Returning Sound
trapped_on c vm addr (ok c1) e = (addr, c.vm, c1, e, refl)
trapped_on c vm addr abort e = tt
trapped_on c vm addr fault e = tt
trapped_on c vm addr timeout e = tt

module _ (host : Host) (a : AddrSpace) where
  pub with_read-Sound :
      (c : Cpu) (addr size : ℕ) (k : Cpu → ℕ → Outcome Effect)
      → ((vm : Vm) (word : ℕ) → Returning (Sound c) (k (record c { vm = vm }) word))
      → Returning (Sound c) (with_read host a c addr size k)
  unfolding with_read Returning
  with_read-Sound c addr size k next = go (read_mem host a c.vm addr size)
    where
      go :
          (m : Outcome (Vm × Option ℕ))
          → Returning (Sound c) (
              m >>= λ (vm, value). elim value [
                | some word ↦ k (record c { vm = vm }) word
                | none ↦ (raise_exception c addr >>= λ c'. ok (returned (record c' { vm = vm })))
              ])
      go (ok (vm, some word)) = next vm word
      go (ok (vm, none)) = trapped_on c vm addr (raise_exception c addr) refl
      go abort = tt
      go fault = tt
      go timeout = tt

  pub with_write-Sound :
      (c : Cpu) (addr size value : ℕ) (k : Cpu → Outcome Effect)
      → ((vm : Vm) → Returning (Sound c) (k (record c { vm = vm })))
      → Returning (Sound c) (with_write host a c addr size value k)
  unfolding with_write Returning
  with_write-Sound c addr size value k next = go (write_mem host a c.vm addr size value)
    where
      go :
          (m : Outcome (Vm × Bool))
          → Returning (Sound c) (
              m >>= λ (vm, written). elim written [
                | true ↦ k (record c { vm = vm })
                | false ↦ (raise_exception c addr >>= λ c'. ok (returned (record c' { vm = vm })))
              ])
      go (ok (vm, true)) = next vm
      go (ok (vm, false)) = trapped_on c vm addr (raise_exception c addr) refl
      go abort = tt
      go fault = tt
      go timeout = tt
