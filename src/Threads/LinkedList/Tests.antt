-- ===== src/Threads/LinkedList/Tests.antt =====
-- Instances of the theorems on linked lists.
use osproject.Base.{ℕ, ◌≤◌, ◌≡◌, refl, false, none, some, List, [], ◌∷◌, ◌==◌, if◌then◌else◌, arith}
use osproject.Base.Int.{pos}
use osproject.Threads.LinkedList.{LinkedList, empty_list, sorted_insert}
use osproject.Threads.LinkedList.Cells.{Cell, HasCells, contents}
use osproject.Threads.LinkedList.Order.{Ordered, sorted_insert-Ordered}
use osproject.Threads.LinkedList.Run.{
  Call, append_item, prepend_item, insert_item, remove_first, run, run_seq, Performs, run-Performs,
}

abbrev some_calls : List (Call ℕ)
some_calls =
    insert_item 30 (pos 5)
    ∷ insert_item 10 (pos 2)
    ∷ insert_item 31 (pos 5)
    ∷ remove_first
    ∷ append_item 40
    ∷ prepend_item 50
    ∷ remove_first
    ∷ []

run-Performs_example : Performs (run 7 0 some_calls empty_list) (run_seq 0 some_calls [])
run-Performs_example = run-Performs 7 0 some_calls (omega arith)

-- The items come out in order, and the item that was put at the front first.
results_lem :
    (run_seq 0 some_calls []).1
    ≡ none ∷ none ∷ none ∷ some (10, some (pos 2)) ∷ none ∷ none ∷ some (50, some (pos 0)) ∷ []
unfolding run_seq
results_lem = refl

-- Two elements, at the addresses 4 and 2.
abbrev two_elements : LinkedList ℕ
two_elements = record {
  first = some 4;
  last = some 2;
  elements = λ p.
      if p == 4
      then some (record { next = some 2; key = pos 1; item = 10 })
      else if p == 2
      then some (record { next = none; key = pos 5; item = 30 })
      else none;
  fresh = 5;
}

abbrev two_cells : List (Cell ℕ)
two_cells = (4, pos 1, 10) ∷ (2, pos 5, 30) ∷ []

two_elements-HasCells : HasCells two_elements two_cells
two_elements-HasCells = record {
  first_cell = refl;
  last_cell = refl;
  chain = (refl, (λ same. omega (arith, same), tt), (refl, tt, tt));
  free = λ p above. nothing p above;
}
  where
    nothing : (p : ℕ) → 5 ≤ p → two_elements.elements p ≡ none
    nothing p above =
        let no_4 : (p == 4) ≡ false = ground arith in
        let no_2 : (p == 2) ≡ false = ground arith in rw (no_4, no_2) refl

sorted_insert-Ordered_example :
    Ordered (sorted_insert 2 two_elements 31 (pos 5)) (pos 5) 31 (contents two_cells)
sorted_insert-Ordered_example =
    sorted_insert-Ordered 2 two_elements two_cells (pos 5) 31 two_elements-HasCells (omega arith)
      ((omega arith, tt), (tt, tt))
