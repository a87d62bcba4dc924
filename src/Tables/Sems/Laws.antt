-- ===== src/Tables/Sems/Laws.antt =====
-- The table of semaphores: the bit map and the array agree, through every operation.
use osproject.Base.{
  ℕ, ◌≤◌, ◌<◌, ◌≡◌, refl, ap, ◌∙◌, ◌≢◌, ◌⊎◌, inl, inr, true, false, not, List, length, get_or, set,
  length-set, get_elem?-eq-get_or, get_or-set_self, get_or-set_ne, get_elem?-out, get_or-replicate,
  replicate, lt→ltb, ◌==◌, if◌then◌else◌, arith, Bool-cases,
}
use native.Mathlib.Decide.{ℕ_discrete}
use osproject.Base.Int.{ℤ, pos, negsuc, minus_one, eq_ℤ}
use osproject.Base.Outcome.{ok, fault}
use osproject.BitMap.{BitMap, find}
use osproject.BitMap
use osproject.BitMap.Abstract.{
  holds, marked, cleared, clear_lem, marked-IsValid, cleared-IsValid, holds-marked, holds-cleared,
}
use osproject.BitMap.Search.{find-Finds, make_clear}
use osproject.Tables.Sems.{
  NachosSems, max_sems, create, register_sem, get_nachos_pointer, un_register_sem,
}

abbrev pub slot : NachosSems → ℕ → ℤ
slot t id = get_or t.semaphores id minus_one

-- A slot is marked exactly when it holds an address.
pub record IsValid (t : NachosSems) : Type 0 where
  pub map_valid : BitMap.Abstract.IsValid t.open_sems_map
  pub slots : t.open_sems_map.num_bits ≡ max_sems
  pub sems : length t.semaphores ≡ max_sems
  pub agree : (id : ℕ) → id < max_sems → holds t.open_sems_map id ≡ not (eq_ℤ (slot t id) minus_one)

-- A fresh table of semaphores is well-formed and has no semaphore registered, whatever its storage
-- held.
pub create-IsValid :
    (words : List ℕ)
    → length words ≡ 1
    → (t : NachosSems) × (create words ≡ ok t) × IsValid t × ((id : ℕ) → slot t id ≡ minus_one)
unfolding create
create-IsValid words e =
    let (m, r, v, bits, clear) = make_clear 6 words e in
    (
      record { open_sems_map = m; semaphores = replicate max_sems minus_one; usage = 0 },
      rw r refl,
      record {
        map_valid = v;
        slots = bits;
        sems = refl;
        agree = λ id h. rw (get_or-replicate max_sems id minus_one, clear id h) refl;
      },
      λ id. get_or-replicate max_sems id minus_one,
    )

-- On a well-formed table of semaphores, getNachosPointer and unRegisterSem read outside the array
-- for every number that is negative or past the last slot.
pub unchecked_index :
    (t : NachosSems) (id : ℕ)
    → IsValid t
    → (max_sems ≤ id
        → (get_nachos_pointer t (pos id) ≡ fault) × (un_register_sem t (pos id) ≡ fault))
      × (get_nachos_pointer t (negsuc id) ≡ fault)
      × (un_register_sem t (negsuc id) ≡ fault)
unfolding get_nachos_pointer un_register_sem
unchecked_index t id v = (out, refl, refl)
  where
    out :
        max_sems ≤ id
        → (get_nachos_pointer t (pos id) ≡ fault) × (un_register_sem t (pos id) ≡ fault)
    out h = rw (get_elem?-out t.semaphores id (omega (arith, v.sems))) (refl, refl)

-- What `registerSem` leaves when it finds a slot: the least free one holds the address.
pub record Registers (t : NachosSems) (s : ℤ) : Type 0 where
  pub out : NachosSems
  pub id : ℕ
  pub returns : register_sem t s ≡ ok (out, pos id)
  pub valid : IsValid out
  pub in_range : id < max_sems
  pub was_free : slot t id ≡ minus_one
  pub least : (j : ℕ) → j < id → slot t j ≢ minus_one
  pub maps : (j : ℕ) → slot out j ≡ (if id == j then s else slot t j)

minus_one-of_eq : (s : ℤ) → eq_ℤ s minus_one ≡ true → s ≡ minus_one
minus_one-of_eq (pos n) e = cc
minus_one-of_eq (negsuc n) e = ground arith

eq-minus_one : eq_ℤ minus_one minus_one ≡ true
eq-minus_one = refl

slot-set :
    (t : NachosSems) (i j : ℕ) (s : ℤ)
    → i < length t.semaphores
    → get_or (set t.semaphores i s) j minus_one ≡ (if i == j then s else slot t j)
slot-set t i j s h = elim (ℕ_discrete i j) [
  | yes e ↦ ground (
    arith,
    get_or-set_self t.semaphores i s minus_one h,
    ap (λ k. get_or (set t.semaphores i s) k minus_one) e,
  )
  | no ne ↦ ground (arith, get_or-set_ne t.semaphores i j s minus_one ne)
]

module _ (t : NachosSems) (s : ℤ) (v : IsValid t) (address : eq_ℤ s minus_one ≡ false) where
  with_slot : ℕ → NachosSems
  with_slot i = record t {
    open_sems_map = marked t.open_sems_map i;
    semaphores = set t.semaphores i s;
  }

  with_slot-IsValid : (i : ℕ) → i < max_sems → IsValid (with_slot i)
  unfolding with_slot
  with_slot-IsValid i h = record {
    map_valid = marked-IsValid t.open_sems_map i v.map_valid;
    slots = v.slots;
    sems = length-set t.semaphores i s ∙ v.sems;
    agree = λ j lt. ground (
      arith,
      holds-marked t.open_sems_map i j v.map_valid,
      slot-set t i j s,
      v.agree j,
      v.slots,
      v.sems,
    );
  }

  -- On a well-formed table of semaphores registerSem stores an address other than -1 in the least
  -- free slot and returns its number, and leaves the table well-formed; when no slot is free it
  -- returns -1 and changes nothing.
  pub register_sem_lem :
      Registers t s
      ⊎ ((register_sem t s ≡ ok (t, minus_one))
          × ((id : ℕ) → id < max_sems → slot t id ≢ minus_one))
  unfolding register_sem with_slot
  register_sem_lem = elim (find-Finds t.open_sems_map v.map_valid) [
    | inl (all, r) ↦ inr (
      rw r refl,
      λ id lt e. ground (arith, all id, v.slots, v.agree id, ap (λ x. eq_ℤ x minus_one) e),
    )
    | inr (i, lt, free, all, r) ↦
        let in_range : i < max_sems = omega (arith, v.slots) in
        inl (record {
          out = with_slot i;
          id = i;
          returns = rw r (ground (arith, v.sems));
          valid = with_slot-IsValid i in_range;
          in_range = in_range;
          was_free = ground (arith, v.agree i, minus_one-of_eq (slot t i));
          least = λ j h e. ground (arith, all j, v.agree j, ap (λ x. eq_ℤ x minus_one) e);
          maps = λ j. slot-set t i j s (omega (arith, v.sems));
        })
  ]

-- What `unRegisterSem` leaves at a slot in use: it returns the address and frees that slot alone.
pub record UnRegisters (t : NachosSems) (id : ℕ) : Type 0 where
  pub out : NachosSems
  pub returns : un_register_sem t (pos id) ≡ ok (out, slot t id)
  pub valid : IsValid out
  pub maps : (j : ℕ) → slot out j ≡ (if id == j then minus_one else slot t j)

-- On a well-formed table unRegisterSem, for a number in range, gives back the address of a slot in
-- use and frees that slot alone, and for a free slot gives -1 and changes nothing.
pub un_register_sem_lem :
    (t : NachosSems) (id : ℕ)
    → IsValid t
    → id < max_sems
    → UnRegisters t id
      ⊎ ((slot t id ≡ minus_one) × (un_register_sem t (pos id) ≡ ok (t, minus_one)))
unfolding un_register_sem
un_register_sem_lem t id v h = elim (Bool-cases (eq_ℤ (slot t id) minus_one)) [
  | inl free ↦ inr (
    minus_one-of_eq (slot t id) free,
    rw (get_elem?-eq-get_or t.semaphores id minus_one (omega (arith, v.sems)), free) refl,
  )
  | inr used ↦ inl (record {
    out = freed;
    returns =
        rw
          (
            get_elem?-eq-get_or t.semaphores id minus_one (omega (arith, v.sems)),
            used,
            clear_lem t.open_sems_map id v.map_valid (omega (arith, v.slots)),
            lt→ltb id (length t.semaphores) (omega (arith, v.sems)),
          )
          refl;
    valid = record {
      map_valid = cleared-IsValid t.open_sems_map id v.map_valid;
      slots = v.slots;
      sems = length-set t.semaphores id minus_one ∙ v.sems;
      agree = λ j lt. ground (
        arith,
        holds-cleared t.open_sems_map id j v.map_valid,
        slot-set t id j minus_one,
        v.agree j,
        v.slots,
        v.sems,
      );
    };
    maps = λ j. slot-set t id j minus_one (omega (arith, v.sems));
  })
]
  where
    freed : NachosSems
    freed = record t {
      open_sems_map = cleared t.open_sems_map id;
      semaphores = set t.semaphores id minus_one;
    }
