-- ===== src/Cpu/Alu/Laws.antt =====
-- The cases of machine/mipssim.cc that compute, against exact numbers and against the shifts and
-- the disjunction that their names stand for.
use Prim.Native.Nat.{bit_and}
use osproject.Base.{
  ℕ, zero, suc, ◌-◌, ◌/◌, ◌^◌, ◌≤◌, ◌<◌, ◌≡◌, refl, sym, ap, ◌∙◌, ◌⊎◌, ◌↔◌, inl, inr, Bool, true,
  false, if◌then◌else◌, ◌==◌, arith, Bool-cases,
}
use native.Mathlib.Nat.{pow-succ', div-div-eq-div-mul, div-le_self}
use native.Mathlib.Decide.{ℕ_discrete}
use osproject.Base.Int.{ℤ, ◌+ℤ◌, ◌-ℤ◌}
use osproject.Base.Masks.{or_idem}
use osproject.Cpu.{Cpu}
use osproject.Cpu.Word.{word_mod, sign_bit, negative, signed, sar32, shr32}
use osproject.Cpu.Decode.{Instruction}
use osproject.Cpu.Effect.{Effect, done, raised, returned, assign_rd, assign_rt, overflow_exception}
use osproject.Cpu.Exact.{IsInt, sum_exact, sum_exact_right, difference_exact}
use osproject.Cpu.Alu.{add, addi, sub, or_op, srl, srlv}

-- The register gets the word of an exact result, or overflow is raised when there is none.
abbrev pub Exact : ℤ → (ℕ → Effect) → Effect → Effect → Type 0
Exact exact assigned overflow e =
    ((w : ℕ) × (w < word_mod) × (signed w ≡ exact) × (e ≡ assigned w))
    ⊎ ((¬ (IsInt exact)) × (e ≡ overflow))

Exact-if :
    (overflow : Bool) (w : ℕ) (exact : ℤ) (assigned : ℕ → Effect) (trap : Effect)
    → w < word_mod
    → ((overflow ≡ false) × (signed w ≡ exact)) ⊎ ((overflow ≡ true) × ¬ (IsInt exact))
    → Exact exact assigned trap (if overflow then trap else assigned w)
Exact-if overflow w exact assigned trap small (inl (within, e)) =
    rw within (inl (w, small, e, refl))
Exact-if overflow w exact assigned trap small (inr (beyond, none_fits)) =
    rw beyond (inr (none_fits, refl))

-- ADD, ADDI and SUB, when the registers and the operand are words, give the register the exact sum
-- or difference of the numbers that their words stand for as ints, or raise the overflow exception
-- when no int is that number.
pub add-sub-Exact :
    (pc_after : ℕ) (i : Instruction) (c : Cpu)
    → c.registers i.rs < word_mod
    → c.registers i.rt < word_mod
    → i.extra < word_mod
    → let rs = signed (c.registers i.rs) in
      let trap = raised c overflow_exception 0 in
      Exact
        (rs +ℤ signed (c.registers i.rt))
        (λ w. assign_rd w pc_after i c)
        trap
        (add pc_after i c)
      × Exact (rs +ℤ signed i.extra) (λ w. assign_rt w pc_after i c) trap (addi pc_after i c)
      × Exact
          (rs -ℤ signed (c.registers i.rt))
          (λ w. assign_rd w pc_after i c)
          trap
          (sub pc_after i c)
unfolding add addi sub
add-sub-Exact pc_after i c hs ht he = (
  Exact-if _ _ _ _ _ (omega arith) (sum_exact _ _ hs ht),
  Exact-if _ _ _ _ _ (omega arith) (sum_exact_right _ _ hs he),
  Exact-if _ _ _ _ _ (omega arith) (difference_exact _ _ hs ht),
)

shift-lt : (x k : ℕ) → 0 < k → x < word_mod → x / 2 ^ k < sign_bit
shift-lt x zero h fits = absurd (omega arith)
shift-lt x (suc k) h fits =
    let e : x / 2 / 2 ^ k ≡ x / 2 ^ suc k =
      div-div-eq-div-mul x 2 (2 ^ k) ∙ ap (λ m. x / m) (sym (pow-succ' 2 k)) in
    omega (arith, e, div-le_self (x / 2) (2 ^ k))

sar-shr_iff : (x k : ℕ) → x < word_mod → (sar32 x k ≡ shr32 x k) ↔ ((x < sign_bit) ⊎ (k ≡ 0))
sar-shr_iff x k fits = elim (Bool-cases (negative x)) [
  | inl n ↦
      let big : sign_bit ≤ x = ground arith in
      let small : (4294967295 - x) / 2 ^ k ≤ 4294967295 - x =
        div-le_self (4294967295 - x) (2 ^ k) in
      rw n (
        λ same. elim (ℕ_discrete k 0) [
          | yes e ↦ inr e
          | no more ↦ absurd (omega (arith, same, small, shift-lt x k (omega (arith, more)) fits))
        ],
        λ shifted. elim shifted [ inl h ↦ absurd (omega arith) | inr e ↦ rw e (omega arith) ],
      )
  | inr p ↦ let small : x < sign_bit = ground arith in rw p (λ same. inl small, λ shifted. refl)
]

-- The register rd after an instruction.
result_of : Instruction → Effect → ℕ
result_of i (done c pc_after load_to loaded) = c.registers i.rd
result_of i (raised c which bad_vaddr) = 0
result_of i (returned c) = 0

assign_rd-injective :
    (x y pc_after : ℕ) (i : Instruction) (c : Cpu)
    → assign_rd x pc_after i c ≡ assign_rd y pc_after i c
    → x ≡ y
unfolding result_of
assign_rd-injective x y pc_after i c same =
    let here : (i.rd == i.rd) ≡ true = ground arith in
    let e : (if i.rd == i.rd then x else c.registers i.rd)
        ≡ (if i.rd == i.rd then y else c.registers i.rd) =
      ap (result_of i) same in
    rw here at e

shift_iff :
    (x k pc_after : ℕ) (i : Instruction) (c : Cpu)
    → x < word_mod
    → (assign_rd (sar32 x k) pc_after i c ≡ assign_rd (shr32 x k) pc_after i c)
      ↔ ((x < sign_bit) ⊎ (k ≡ 0))
shift_iff x k pc_after i c fits =
    let (there, back) = sar-shr_iff x k fits in
    (
      λ same. there (assign_rd-injective _ _ pc_after i c same),
      λ h. ap (λ v. assign_rd v pc_after i c) (back h),
    )

-- When rt is a word, SRL and SRLV give the register rd the logical shift of rt exactly when rt is
-- not negative as an int or the amount is 0.
pub srl-logical_iff :
    (pc_after : ℕ) (i : Instruction) (c : Cpu)
    → c.registers i.rt < word_mod
    → let rt = c.registers i.rt in
      let amount = bit_and (c.registers i.rs) 31 in
      ((srl pc_after i c ≡ assign_rd (shr32 rt i.extra) pc_after i c)
        ↔ ((rt < sign_bit) ⊎ (i.extra ≡ 0)))
      × ((srlv pc_after i c ≡ assign_rd (shr32 rt amount) pc_after i c)
          ↔ ((rt < sign_bit) ⊎ (amount ≡ 0)))
unfolding srl srlv
srl-logical_iff pc_after i c fits =
    (shift_iff _ _ pc_after i c fits, shift_iff _ _ pc_after i c fits)

-- OR gives the register rd the contents of rs, whatever rt holds.
pub or_op_lem :
    (pc_after : ℕ) (i : Instruction) (c : Cpu)
    → or_op pc_after i c ≡ assign_rd (c.registers i.rs) pc_after i c
unfolding or_op
or_op_lem pc_after i c = ap (λ v. assign_rd v pc_after i c) (or_idem (c.registers i.rs))
