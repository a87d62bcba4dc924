-- ===== src/Threads/LinkedList/Walk.antt =====
-- The loops over a whole list: `Apply` and the destructor.
use osproject.Base.{
  ℕ, zero, suc, ◌≤◌, ◌≡◌, refl, ap, ◌∙◌, true, false, List, [], ◌∷◌, length, arith,
}
use osproject.Base.Int.{ℤ}
use osproject.Base.Outcome.{Outcome, ok}
use osproject.Threads.LinkedList.{LinkedList, is_empty, remove, apply_from, apply, destroy}
use osproject.Threads.LinkedList.Cells.{Cell, head_of, Chain, contents, length-contents, HasCells}
use osproject.Threads.LinkedList.Take.{sorted_remove-Removes}

module _ {ℓ} {A : Type ℓ} where
  abbrev pub items_of : List (ℤ × A) → List A
  items_of [] = []
  items_of ((key, item) ∷ xs) = item ∷ items_of xs

  apply_from_lem :
      (fuel : ℕ) (l : LinkedList A) (cs : List (Cell A))
      → Chain l.elements cs
      → length cs ≤ fuel
      → apply_from fuel l (head_of cs) ≡ ok (items_of (contents cs))
  unfolding apply_from
  apply_from_lem fuel l [] chain enough = refl
  apply_from_lem zero l ((at, key, item) ∷ cs) chain enough = absurd (omega arith)
  apply_from_lem (suc fuel) l ((at, key, item) ∷ cs) (here, apart, rest) enough =
      rw (here, apply_from_lem fuel l cs rest (omega (arith, enough))) refl

  -- The list that is left when all elements are deleted.
  pub record Destroys (r : Outcome (LinkedList A)) : Type ℓ where
    pub out : LinkedList A
    pub returns : r ≡ ok out
    pub has : HasCells out []

  destroy-Destroys :
      (fuel : ℕ) (no_item : A) (l : LinkedList A) (cs : List (Cell A))
      → HasCells l cs
      → length cs ≤ fuel
      → Destroys (destroy fuel no_item l)
  unfolding destroy remove
  destroy-Destroys zero no_item l [] h enough =
      let none_left : is_empty l ≡ true = rw h.first_cell refl in
      rw none_left (record { out = l; returns = refl; has = h })
  destroy-Destroys (suc fuel) no_item l [] h enough =
      let none_left : is_empty l ≡ true = rw h.first_cell refl in
      rw none_left (record { out = l; returns = refl; has = h })
  destroy-Destroys zero no_item l (c ∷ cs) h enough = absurd (omega arith)
  destroy-Destroys (suc fuel) no_item l ((at, key, item) ∷ cs) h enough =
      let r = sorted_remove-Removes no_item l ((at, key, item) ∷ cs) h in
      let room : length r.cells ≤ fuel =
        omega (arith, enough, length-contents r.cells, length-contents cs, ap length r.holds) in
      let rest = destroy-Destroys fuel no_item r.out r.cells r.has room in
      let more : is_empty l ≡ false = rw h.first_cell refl in
      rw (more, r.returns) (record { out = rest.out; returns = rest.returns; has = rest.has })

  -- On a list, with as much fuel as it has elements, Apply ends and calls the function on the
  -- items in order, and the destructor ends with an empty list.
  pub apply-destroy :
      (fuel : ℕ) (no_item : A) (l : LinkedList A) (cs : List (Cell A))
      → HasCells l cs
      → length cs ≤ fuel
      → (apply fuel l ≡ ok (items_of (contents cs))) × Destroys (destroy fuel no_item l)
  unfolding apply
  apply-destroy fuel no_item l cs h enough = (
    ap (apply_from fuel l) h.first_cell ∙ apply_from_lem fuel l cs h.chain enough,
    destroy-Destroys fuel no_item l cs h enough,
  )
