-- ===== src/Vm/Tlb/Refill.antt =====
-- `getNextSCTLB` and `useThisTLBIndex` together: the slot that a refill takes, and what it puts
-- there.
use osproject.Base.{
  ℕ, zero, suc, ◌+◌, ◌<◌, ◌≡◌, refl, ◌⊎◌, inl, inr, true, false, Option, none, some, lt→ltb, arith,
  Bool-cases,
}
use native.Mathlib.Decide.{ℕ_discrete}
use osproject.Base.Outcome.{ok}
use osproject.Vm.State.{AddrSpace, Vm, tlb_size, with_tlb}
use osproject.Vm.Tlb.{
  first_invalid, second_chance_tlb, tlb_fuel, get_next_sctlb, use_this_tlb_index,
}
use osproject.Vm.Tlb.Chance.{Chosen, chance-Chosen}

-- The first invalid entry, or none.
abbrev FirstInvalid : Vm → ℕ → ℕ → Option ℕ → Type 0
FirstInvalid v i n r =
    ((r ≡ none) × ((y : ℕ) → y < i + n → (v.tlb y).valid ≡ true))
    ⊎ ((x : ℕ) × (x < i + n)
        × (r ≡ some x)
        × ((v.tlb x).valid ≡ false)
        × ((y : ℕ) → y < x → (v.tlb y).valid ≡ true))

first_invalid-FirstInvalid :
    (v : Vm) (i n : ℕ)
    → ((y : ℕ) → y < i → (v.tlb y).valid ≡ true)
    → FirstInvalid v i n (first_invalid v i n)
unfolding first_invalid
first_invalid-FirstInvalid v i zero all = inl (refl, λ y h. all y (omega arith))
first_invalid-FirstInvalid v i (suc n) all = elim (Bool-cases (v.tlb i).valid) [
  | inl good ↦
      rw (good, first_invalid)
        (elim (first_invalid-FirstInvalid v (i + 1) n
          (λ y h. elim (ℕ_discrete y i) [ yes e ↦ rw e good | no ne ↦ all y (omega arith) ])) [
            | inl (r, rest) ↦ inl (r, λ y h. rest y (omega arith))
            | inr (x, lt, r, bad, before) ↦ inr (x, omega arith, r, bad, before)
          ])
  | inr bad ↦ inr (i, omega arith, rw (bad, first_invalid) refl, bad, all)
]

-- From an index in range, with valid entries that name pages of the table, getNextSCTLB returns
-- the first invalid entry with nothing changed, or, when all are valid, the second-chance victim
-- after a loop that ends within its fuel.
pub get_next_sctlb_lem :
    (a : AddrSpace) (v : Vm)
    → v.index_tlb_snd_chc < tlb_size
    → ((x : ℕ) → x < tlb_size → (v.tlb x).valid ≡ true → (v.tlb x).virtual_page < v.table_size a.id)
    → ((x : ℕ) × (x < tlb_size)
        × ((v.tlb x).valid ≡ false)
        × ((y : ℕ) → y < x → (v.tlb y).valid ≡ true)
        × (get_next_sctlb a v ≡ ok (v, x)))
      ⊎ (((y : ℕ) → y < tlb_size → (v.tlb y).valid ≡ true) × Chosen a v 0 (get_next_sctlb a v))
unfolding get_next_sctlb
get_next_sctlb_lem a v lt inside =
    elim (first_invalid-FirstInvalid v 0 tlb_size (λ y h. absurd (omega arith))) [
      | inl (r, all) ↦
          let c : Chosen a v 0 (second_chance_tlb a tlb_fuel v) =
            chance-Chosen a 4 0 v (λ x h. inside x h (all x (omega arith))) lt (omega arith)
              (λ d h. absurd (omega arith)) in
          inr (λ y h. all y (omega arith), same_result r c)
      | inr (x, small, r, bad, before) ↦
          inl (x, omega arith, bad, before, rw (r, get_next_sctlb) refl)
    ]
  where
    same_result :
        first_invalid v 0 tlb_size ≡ none
        → Chosen a v 0 (second_chance_tlb a tlb_fuel v)
        → Chosen a v 0 (get_next_sctlb a v)
    same_result r c =
        let e : get_next_sctlb a v ≡ second_chance_tlb a tlb_fuel v =
          rw (r, get_next_sctlb, c.returns, lt→ltb _ _ c.in_range) refl in
        rw e c

pub use_this_tlb_index_lem :
    (a : AddrSpace) (v : Vm) (x vpn : ℕ)
    → x < tlb_size
    → vpn < a.num_pages
    → v.table_size a.id ≡ a.num_pages
    → use_this_tlb_index a v x vpn ≡ ok (with_tlb v x (λ _. v.pages a.id vpn))
unfolding use_this_tlb_index
use_this_tlb_index_lem a v x vpn h inside size = ground arith
