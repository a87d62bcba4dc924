-- ===== src/Threads/LinkedList/Take.antt =====
-- What the removal of the first element does to a list, against sequences.
use osproject.Base.{
  ℕ, ◌≡◌, refl, inl, inr, true, false, Option, none, some, List, [], ◌∷◌, ◌==◌, arith, Bool-cases,
}
use osproject.Base.Int.{ℤ}
use osproject.Base.Outcome.{Outcome, ok}
use osproject.Threads.LinkedList.{ListElement, LinkedList, put, sorted_remove}
use osproject.Threads.LinkedList.Cells.{Cell, last_at, contents, HasCells, put-Chain, last-NotIn}

module _ {ℓ} {A : Type ℓ} where
  -- The first of a sequence and the others.
  abbrev pub item_of : A → List (ℤ × A) → A
  item_of no_item [] = no_item
  item_of no_item ((key, item) ∷ xs) = item

  abbrev pub key_of : List (ℤ × A) → Option ℤ
  key_of [] = none
  key_of ((key, item) ∷ xs) = some key

  abbrev pub rest_of : List (ℤ × A) → List (ℤ × A)
  rest_of [] = []
  rest_of ((key, item) ∷ xs) = xs

  put-none :
      (elements : ℕ → Option (ListElement A)) (p q : ℕ)
      → elements q ≡ none
      → put elements p none q ≡ none
  put-none elements p q nothing = elim (Bool-cases (q == p)) [
    | inl here ↦ rw here refl
    | inr there ↦ rw there nothing
  ]

  -- What `SortedRemove` returns and leaves.
  pub record Removes (no_item : A) (r : Outcome (LinkedList A × A × Option ℤ)) (xs : List (ℤ × A))
      : Type ℓ where
    pub out : LinkedList A
    pub cells : List (Cell A)
    pub returns : r ≡ ok (out, item_of no_item xs, key_of xs)
    pub has : HasCells out cells
    pub holds : contents cells ≡ rest_of xs

  pub sorted_remove-Removes :
      (no_item : A) (l : LinkedList A) (cs : List (Cell A))
      → HasCells l cs
      → Removes no_item (sorted_remove no_item l) (contents cs)
  unfolding sorted_remove
  sorted_remove-Removes no_item l [] h = rw h.first_cell (record {
    out = _;
    cells = [];
    returns = refl;
    has = record { first_cell = refl; last_cell = h.last_cell; chain = tt; free = h.free };
    holds = refl;
  })
  sorted_remove-Removes no_item l ((at, key, item) ∷ []) h =
      let alone : (at == at) ≡ true = ground arith in
      rw (h.first_cell, h.chain.0, h.last_cell, alone)
        (record {
          out = _;
          cells = [];
          returns = refl;
          has = record {
            first_cell = refl;
            last_cell = refl;
            chain = tt;
            free = λ p above. put-none l.elements at p (h.free p above);
          };
          holds = refl;
        })
  sorted_remove-Removes no_item l ((at, key, item) ∷ (at', key', item') ∷ cs) h =
      let (here, apart, rest) = h.chain in
      let more : (at == last_at at' cs) ≡ false =
        ground (arith, last-NotIn at at' key' item' cs apart) in
      rw (h.first_cell, here, h.last_cell, more)
        (record {
          out = _;
          cells = (at', key', item') ∷ cs;
          returns = refl;
          has = record {
            first_cell = refl;
            last_cell = refl;
            chain = put-Chain l.elements at none ((at', key', item') ∷ cs) apart rest;
            free = λ p above. put-none l.elements at p (h.free p above);
          };
          holds = refl;
        })
