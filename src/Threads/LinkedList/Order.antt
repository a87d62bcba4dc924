-- ===== src/Threads/LinkedList/Order.antt =====
-- Lists that are kept in the order of their keys.
use osproject.Base.{
  ℕ, ◌≤◌, ◌≡◌, refl, sym, ap, inl, inr, true, false, List, [], ◌∷◌, ◌++◌, length, if◌then◌else◌,
  arith, Bool-cases,
}
use osproject.Base.Int.{ℤ, eq_ℤ, eq-of_eq_ℤ, ltb_ℤ, ◌≤ℤ◌}
use osproject.Base.Outcome.{Outcome, ok}
use osproject.Threads.LinkedList.{LinkedList, sorted_insert}
use osproject.Threads.LinkedList.Cells.{Cell, contents, HasCells}
use osproject.Threads.LinkedList.Refine.{insert_sorted, sorted_insert-Holds}

not_equal : (k key : ℤ) → ltb_ℤ k key ≡ true → eq_ℤ key k ≡ false
not_equal k key less = elim (Bool-cases (eq_ℤ key k)) [
  | inl same ↦ let e : key ≡ k = eq-of_eq_ℤ key k same in absurd (irreflexive k (rw e at less))
  | inr other ↦ other
]
  where
    irreflexive : (j : ℤ) → ltb_ℤ j j ≡ true → ⊥
    irreflexive j h = ground arith

module _ {ℓ} {A : Type ℓ} where
  abbrev pub AtLeast : ℤ → List (ℤ × A) → Type 0
  AtLeast k [] = Unit
  AtLeast k ((key, item) ∷ xs) = (k ≤ℤ key) × AtLeast k xs

  abbrev pub Sorted : List (ℤ × A) → Type 0
  Sorted [] = Unit
  Sorted ((key, item) ∷ xs) = AtLeast key xs × Sorted xs

  -- The items that have a key, in order.
  abbrev pub items_with : ℤ → List (ℤ × A) → List A
  items_with k [] = []
  items_with k ((key, item) ∷ xs) = if eq_ℤ key k then item ∷ items_with k xs else items_with k xs

  AtLeast-lower : (j k : ℤ) (xs : List (ℤ × A)) → j ≤ℤ k → AtLeast k xs → AtLeast j xs
  AtLeast-lower j k [] h low = tt
  AtLeast-lower j k ((key, item) ∷ xs) h (low, rest) =
      (omega (arith, h, low), AtLeast-lower j k xs h rest)

  AtLeast-insert :
      (k s : ℤ) (x : A) (xs : List (ℤ × A))
      → k ≤ℤ s
      → AtLeast k xs
      → AtLeast k (insert_sorted (s, x) xs)
  AtLeast-insert k s x [] h low = (h, tt)
  AtLeast-insert k s x ((key, item) ∷ xs) h (low, rest) = elim (Bool-cases (ltb_ℤ s key)) [
    | inl before ↦ rw before (h, (low, rest))
    | inr after ↦ rw after (low, AtLeast-insert k s x xs h rest)
  ]

  pub insert_sorted-Sorted :
      (s : ℤ) (x : A) (xs : List (ℤ × A)) → Sorted xs → Sorted (insert_sorted (s, x) xs)
  insert_sorted-Sorted s x [] sorted = (tt, tt)
  insert_sorted-Sorted s x ((key, item) ∷ xs) (low, sorted) = elim (Bool-cases (ltb_ℤ s key)) [
    | inl before ↦
        let less : s ≤ℤ key = ground arith in
        rw before ((less, AtLeast-lower s key xs less low), (low, sorted))
    | inr after ↦
        let less : key ≤ℤ s = ground arith in
        rw after (AtLeast-insert key s x xs less low, insert_sorted-Sorted s x xs sorted)
  ]

  -- No item has a key below all.
  items_with-none :
      (k key : ℤ) (xs : List (ℤ × A)) → ltb_ℤ k key ≡ true → AtLeast key xs → items_with k xs ≡ []
  items_with-none k key [] less low = refl
  items_with-none k key ((key', item) ∷ xs) less (here, low) =
      let less' : ltb_ℤ k key' ≡ true = ground arith in
      rw (not_equal k key' less') (items_with-none k key xs less low)

  append_nil : (xs : List A) → xs ++ [] ≡ xs
  append_nil [] = refl
  append_nil (x ∷ xs) = ap (λ ys. x ∷ ys) (append_nil xs)

  items_with-insert :
      (k s : ℤ) (x : A) (xs : List (ℤ × A))
      → Sorted xs
      → items_with k (insert_sorted (s, x) xs)
        ≡ items_with k xs ++ (if eq_ℤ s k then x ∷ [] else [])
  items_with-insert k s x [] sorted = elim (Bool-cases (eq_ℤ s k)) [
    | inl e ↦ rw e refl
    | inr e ↦ rw e refl
  ]
  items_with-insert k s x ((key, item) ∷ xs) (low, sorted) = elim (Bool-cases (ltb_ℤ s key)) [
    | inl before ↦ elim (Bool-cases (eq_ℤ s k)) [
      | inl same ↦
          let e : s ≡ k = eq-of_eq_ℤ s k same in
          let less : ltb_ℤ k key ≡ true = rw e at before in
          rw (before, same, not_equal k key less, items_with-none k key xs less low) refl
      | inr other ↦ rw (before, other) (sym (append_nil _))
    ]
    | inr after ↦
        let rest = items_with-insert k s x xs sorted in
        rw after (elim (Bool-cases (eq_ℤ key k)) [
          | inl here ↦ rw here (ap (λ ys. item ∷ ys) rest)
          | inr there ↦ rw there rest
        ])
  ]

  -- A list in the order of its keys, with a new item behind those that have the same key.
  pub record Ordered (r : Outcome (LinkedList A)) (sort_key : ℤ) (x : A) (xs : List (ℤ × A))
      : Type ℓ where
    pub out : LinkedList A
    pub cells : List (Cell A)
    pub returns : r ≡ ok out
    pub has : HasCells out cells
    pub sorted : Sorted (contents cells)
    pub same_others :
        (k : ℤ)
        → items_with k (contents cells)
          ≡ items_with k xs ++ (if eq_ℤ sort_key k then x ∷ [] else [])

  -- On a list whose elements are in the order of their keys, with as much fuel as it has elements,
  -- SortedInsert returns a list that is in order again; for every key the items with that key are
  -- those that were there, in the same order, with the new item behind them if it has that key.
  pub sorted_insert-Ordered :
      (fuel : ℕ) (l : LinkedList A) (cs : List (Cell A)) (sort_key : ℤ) (x : A)
      → HasCells l cs
      → length cs ≤ fuel
      → Sorted (contents cs)
      → Ordered (sorted_insert fuel l x sort_key) sort_key x (contents cs)
  sorted_insert-Ordered fuel l cs sort_key x h enough sorted =
      let r = sorted_insert-Holds fuel l cs sort_key x h enough in
      record {
        out = r.out;
        cells = r.cells;
        returns = r.returns;
        has = r.has;
        sorted = rw r.holds (insert_sorted-Sorted sort_key x (contents cs) sorted);
        same_others = λ k. rw r.holds (items_with-insert k sort_key x (contents cs) sorted);
      }
