-- ===== src/FileSys/Directory/Table.antt =====
-- The entries of the table, as a map from names to sectors.
use osproject.Base.{
  ℕ, suc, ◌+◌, ◌<◌, ◌≡◌, refl, sym, ap, ◌∙◌, ◌⊎◌, inl, inr, Bool, true, false, ◌&&◌, Option, none,
  some, List, [], ◌∷◌, if◌then◌else◌, arith, Bool-cases, get_elem?, set, length,
}
use osproject.FileSys.Directory.{
  DirectoryEntry, file_name_max_len, same_name, strncpy, find_index_from, add_from,
}
use osproject.FileSys.Directory.Names.{key, same_name-key, key-same_name, key-strncpy}

pub same_name-cong :
    (n : ℕ) (a b m : List ℕ) → same_name n a b ≡ true → same_name n a m ≡ same_name n b m
same_name-cong n a b m h =
    let e : key n a ≡ key n b = same_name-key n a b h in
    elim (Bool-cases (same_name n a m)) [
      | inl x ↦ x ∙ sym (key-same_name n b m (sym e ∙ same_name-key n a m x))
      | inr x ↦ elim (Bool-cases (same_name n b m)) [
        | inl y ↦ absurd (let z = key-same_name n a m (e ∙ same_name-key n b m y) in cc)
        | inr y ↦ x ∙ sym y
      ]
    ]

pub same_name_comm : (n : ℕ) (a b : List ℕ) → same_name n a b ≡ same_name n b a
same_name_comm n a b = elim (Bool-cases (same_name n a b)) [
  | inl x ↦ x ∙ sym (key-same_name n b a (sym (same_name-key n a b x)))
  | inr x ↦ elim (Bool-cases (same_name n b a)) [
    | inl y ↦ absurd (let z = key-same_name n a b (sym (same_name-key n b a y)) in cc)
    | inr y ↦ x ∙ sym y
  ]
]

pub same_name-strncpy :
    (n : ℕ) (to from m : List ℕ) → same_name n (strncpy n to from) m ≡ same_name n from m
same_name-strncpy n to from m =
    same_name-cong n (strncpy n to from) from m
      (key-same_name n (strncpy n to from) from (key-strncpy n to from))

-- Names that agree in their first nine characters are one name.
abbrev pub same : List ℕ → List ℕ → Bool
same a b = same_name file_name_max_len a b

-- The sector that the table has for a name.
abbrev pub lookup : List DirectoryEntry → List ℕ → Option ℕ
lookup [] name = none
lookup (e ∷ table) name = if e.in_use && same e.name name then some e.sector else lookup table name

-- No two entries in use have one name.
abbrev pub Unique : List DirectoryEntry → Type 0
Unique [] = Unit
Unique (e ∷ table) = (e.in_use ≡ true → lookup table e.name ≡ none) × Unique table

abbrev pub any_free : List DirectoryEntry → Bool
any_free [] = false
any_free (e ∷ table) = if e.in_use then any_free table else true

same-right : (c a b : List ℕ) → same a b ≡ true → same c a ≡ same c b
same-right c a b h = same_name_comm 9 c a ∙ same_name-cong 9 a b c h ∙ same_name_comm 9 b c

pub lookup-same :
    (table : List DirectoryEntry) (a b : List ℕ) → same a b ≡ true → lookup table a ≡ lookup table b
lookup-same [] a b h = refl
lookup-same (e ∷ table) a b h =
    rw
      (
        same_name_comm 9 e.name a,
        same_name-cong 9 a b e.name h,
        same_name_comm 9 b e.name,
        lookup-same table a b h,
      )
      refl

-- The first entry of a name is no longer in use.
abbrev pub removed : List DirectoryEntry → List ℕ → List DirectoryEntry
removed [] name = []
removed (e ∷ table) name =
    if e.in_use && same e.name name
    then (record e { in_use = false }) ∷ table
    else e ∷ removed table name

-- What `FindIndex` returns.
abbrev pub Located : List DirectoryEntry → ℕ → List ℕ → Type 0
Located table i name =
    ((find_index_from table i name ≡ none) × (lookup table name ≡ none))
    ⊎ ((j : ℕ) × (e : DirectoryEntry) × (find_index_from table i name ≡ some (i + j))
        × (j < length table)
        × (get_elem? table j ≡ some e)
        × (lookup table name ≡ some e.sector)
        × (set table j (record e { in_use = false }) ≡ removed table name))

pub find_index-Located :
    (table : List DirectoryEntry) (i : ℕ) (name : List ℕ) → Located table i name
unfolding find_index_from
find_index-Located [] i name = inl (refl, refl)
find_index-Located (e ∷ table) i name = elim (Bool-cases (e.in_use && same e.name name)) [
  | inl hit ↦ rw hit (inr (0, e, ap some (omega arith), omega arith, refl, refl, refl))
  | inr miss ↦ rw miss (elim (find_index-Located table (i + 1) name) [
    | inl (f, l) ↦ inl (f, l)
    | inr (j, e', f, small, at, l, s) ↦ inr (
      suc j,
      e',
      f ∙ ap some (omega arith),
      omega arith,
      at,
      l,
      ap (λ (t : List DirectoryEntry). e ∷ t) s,
    )
  ])
]

pub add_from-full :
    (table : List DirectoryEntry) (name : List ℕ) (s : ℕ)
    → any_free table ≡ false
    → add_from table name s ≡ (table, false)
unfolding add_from
add_from-full [] name s h = refl
add_from-full (e ∷ table) name s h = elim (Bool-cases e.in_use) [
  | inl used ↦ let h' = rw used at h in rw (used, add_from-full table name s h') refl
  | inr free ↦ absurd (let h' = rw free at h in cc)
]

pub add_from-free :
    (table : List DirectoryEntry) (name : List ℕ) (s : ℕ)
    → any_free table ≡ true
    → (add_from table name s).1 ≡ true
unfolding add_from
add_from-free [] name s h = cc
add_from-free (e ∷ table) name s h = elim (Bool-cases e.in_use) [
  | inl used ↦ let h' = rw used at h in rw used (add_from-free table name s h')
  | inr free ↦ rw free refl
]

pub add_from-lookup :
    (table : List DirectoryEntry) (name : List ℕ) (s : ℕ)
    → any_free table ≡ true
    → lookup table name ≡ none
    → (m : List ℕ)
    → lookup (add_from table name s).0 m ≡ (if same name m then some s else lookup table m)
unfolding add_from
add_from-lookup [] name s h absent m = cc
add_from-lookup (e ∷ table) name s h absent m = elim (Bool-cases e.in_use) [
  | inl used ↦
      let h' = rw used at h in
      elim (Bool-cases (same e.name name)) [
        | inl hit ↦ absurd (let a = rw (used, hit) at absent in cc)
        | inr miss ↦
            let a = rw (used, miss) at absent in
            let ih = add_from-lookup table name s h' a m in
            rw (used, ih)
              (elim (Bool-cases (same name m)) [
                | inl x ↦ rw (x, sym (same-right e.name name m x) ∙ miss) refl
                | inr x ↦ rw x refl
              ])
      ]
  | inr free ↦ rw (free, same_name-strncpy 9 e.name name m) refl
]

pub add_from-Unique :
    (table : List DirectoryEntry) (name : List ℕ) (s : ℕ)
    → any_free table ≡ true
    → lookup table name ≡ none
    → Unique table
    → Unique (add_from table name s).0
unfolding add_from
add_from-Unique [] name s h absent u = cc
add_from-Unique (e ∷ table) name s h absent (alone, u) = elim (Bool-cases e.in_use) [
  | inl used ↦
      let h' = rw used at h in
      elim (Bool-cases (same e.name name)) [
        | inl hit ↦ absurd (let a = rw (used, hit) at absent in cc)
        | inr miss ↦
            let a = rw (used, miss) at absent in
            rw used (
              (λ _.
                  add_from-lookup table name s h' a e.name
                  ∙ rw (same_name_comm 9 name e.name ∙ miss) (alone used)),
              add_from-Unique table name s h' a u,
            )
      ]
  | inr free ↦
      let a = rw free at absent in
      rw free (
        (λ _.
            lookup-same table (strncpy 9 e.name name) name
              (key-same_name 9 (strncpy 9 e.name name) name (key-strncpy 9 e.name name))
            ∙ a),
        u,
      )
]

pub removed-lookup :
    (table : List DirectoryEntry) (name m : List ℕ)
    → Unique table
    → lookup (removed table name) m ≡ (if same name m then none else lookup table m)
removed-lookup [] name m u = elim (Bool-cases (same name m)) [
  | inl x ↦ rw x refl
  | inr x ↦ rw x refl
]
removed-lookup (e ∷ table) name m (alone, u) = elim (Bool-cases (e.in_use && same e.name name)) [
  | inl hit ↦
      let used : e.in_use ≡ true = ground arith in
      let same_names : same e.name name ≡ true = ground arith in
      rw (used, same_names, same_name-cong 9 e.name name m same_names)
        (elim (Bool-cases (same name m)) [
          | inl x ↦ rw x (
              sym (lookup-same table e.name m (same_name-cong 9 e.name name m same_names ∙ x))
              ∙ alone used)
          | inr x ↦ rw x refl
        ])
  | inr miss ↦
      rw (miss, removed-lookup table name m u)
        (elim (Bool-cases (same name m)) [
          | inl x ↦
              let gone : e.in_use && same e.name m ≡ false =
                ap (λ (b : Bool). e.in_use && b) (sym (same-right e.name name m x)) ∙ miss in
              rw (gone, x) refl
          | inr x ↦ rw x refl
        ])
]

pub removed-Unique :
    (table : List DirectoryEntry) (name : List ℕ) → Unique table → Unique (removed table name)
removed-Unique [] name u = tt
removed-Unique (e ∷ table) name (alone, u) = elim (Bool-cases (e.in_use && same e.name name)) [
  | inl hit ↦ rw hit ((λ x. absurd (cc)), u)
  | inr miss ↦ rw miss (
    (λ used.
        removed-lookup table name e.name u
        ∙ elim (Bool-cases (same name e.name)) [ inl x ↦ rw x refl | inr x ↦ rw x (alone used) ]),
    removed-Unique table name u,
  )
]
