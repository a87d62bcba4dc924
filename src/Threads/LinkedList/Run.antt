-- ===== src/Threads/LinkedList/Run.antt =====
-- Any use of a list, against sequences.
use osproject.Base.{
  ℕ, ◌+◌, ◌≤◌, ◌≡◌, refl, ap, inl, inr, Option, none, some, List, [], ◌∷◌, ◌++◌, length, arith,
  Bool-cases,
}
use osproject.Base.Int.{ℤ, pos, ltb_ℤ}
use osproject.Base.Outcome.{Outcome, ok, ◌>>=◌}
use osproject.Threads.LinkedList.{
  LinkedList, empty_list, append, prepend, sorted_insert, sorted_remove,
}
use osproject.Threads.LinkedList.Cells.{Cell, contents, length-contents, HasCells}
use osproject.Threads.LinkedList.Refine.{
  Holds, append-Holds, prepend-Holds, insert_sorted, sorted_insert-Holds,
}
use osproject.Threads.LinkedList.Take.{item_of, key_of, rest_of, sorted_remove-Removes}

-- A call of one of the operations.
pub data Call {ℓ} (A : Type ℓ) : Type ℓ where
  append_item : A → Call A
  prepend_item : A → Call A
  insert_item : A → ℤ → Call A
  remove_first : Call A

-- What a call returns: `SortedRemove` an item and, unless the list was empty, a key.
abbrev pub Result {ℓ} : Type ℓ → Type ℓ
Result A = Option (A × Option ℤ)

module _ {ℓ} {A : Type ℓ} where
  -- The calls on a list.
  abbrev pub perform : ℕ → A → Call A → LinkedList A → Outcome (LinkedList A × Result A)
  perform fuel no_item (append_item x) l = append l x >>= λ l'. ok (l', none)
  perform fuel no_item (prepend_item x) l = prepend l x >>= λ l'. ok (l', none)
  perform fuel no_item (insert_item x key) l = sorted_insert fuel l x key >>= λ l'. ok (l', none)
  perform fuel no_item remove_first l =
      sorted_remove no_item l >>= λ (l', x, key). ok (l', some (x, key))

  -- The calls on a sequence.
  abbrev pub perform_seq : A → Call A → List (ℤ × A) → List (ℤ × A) × Result A
  perform_seq no_item (append_item x) xs = (xs ++ ((pos 0, x) ∷ []), none)
  perform_seq no_item (prepend_item x) xs = ((pos 0, x) ∷ xs, none)
  perform_seq no_item (insert_item x key) xs = (insert_sorted (key, x) xs, none)
  perform_seq no_item remove_first xs = (rest_of xs, some (item_of no_item xs, key_of xs))

  unfoldable pub run :
      ℕ → A → List (Call A) → LinkedList A → Outcome (LinkedList A × List (Result A))
  run fuel no_item [] l = ok (l, [])
  run fuel no_item (call ∷ calls) l = do
    (l', result) ← perform fuel no_item call l
    (l'', results) ← run fuel no_item calls l'
    ok (l'', result ∷ results)

  unfoldable pub run_seq : A → List (Call A) → List (ℤ × A) → List (ℤ × A) × List (Result A)
  run_seq no_item [] xs = (xs, [])
  run_seq no_item (call ∷ calls) xs =
      let (xs', result) = perform_seq no_item call xs in
      let (xs'', results) = run_seq no_item calls xs' in (xs'', result ∷ results)

  -- A call on a list does what it does to the sequence.
  pub record Performs {B : Type ℓ} (r : Outcome (LinkedList A × B)) (expected : List (ℤ × A) × B)
      : Type ℓ where
    pub out : LinkedList A
    pub cells : List (Cell A)
    pub returns : r ≡ ok (out, expected.1)
    pub has : HasCells out cells
    pub holds : contents cells ≡ expected.0

  without_result :
      (r : Outcome (LinkedList A)) (xs : List (ℤ × A))
      → Holds r xs
      → Performs {B = Result A} (r >>= λ l. ok (l, none)) (xs, none)
  without_result r xs h = record {
    out = h.out;
    cells = h.cells;
    returns = rw h.returns refl;
    has = h.has;
    holds = h.holds;
  }

  perform-Performs :
      (fuel : ℕ) (no_item : A) (call : Call A) (l : LinkedList A) (cs : List (Cell A))
      → HasCells l cs
      → length cs ≤ fuel
      → Performs (perform fuel no_item call l) (perform_seq no_item call (contents cs))
  perform-Performs fuel no_item (append_item x) l cs h enough =
      without_result _ _ (append-Holds l cs x h)
  perform-Performs fuel no_item (prepend_item x) l cs h enough =
      without_result _ _ (prepend-Holds l cs x h)
  perform-Performs fuel no_item (insert_item x key) l cs h enough =
      without_result _ _ (sorted_insert-Holds fuel l cs key x h enough)
  perform-Performs fuel no_item remove_first l cs h enough =
      let r = sorted_remove-Removes no_item l cs h in
      record {
        out = r.out;
        cells = r.cells;
        returns = rw r.returns refl;
        has = r.has;
        holds = r.holds;
      }

  length-insert_sorted :
      (key : ℤ) (x : A) (xs : List (ℤ × A)) → length (insert_sorted (key, x) xs) ≡ length xs + 1
  length-insert_sorted key x [] = refl
  length-insert_sorted key x ((key', item) ∷ xs) = elim (Bool-cases (ltb_ℤ key key')) [
    | inl before ↦ rw before (omega arith)
    | inr after ↦ rw after (omega (arith, length-insert_sorted key x xs))
  ]

  length-snoc : (x : ℤ × A) (xs : List (ℤ × A)) → length (xs ++ (x ∷ [])) ≡ length xs + 1
  length-snoc x [] = refl
  length-snoc x (y ∷ xs) = omega (arith, length-snoc x xs)

  -- A call makes the sequence longer by one item at most.
  length-perform_seq :
      (no_item : A) (call : Call A) (xs : List (ℤ × A))
      → length (perform_seq no_item call xs).0 ≤ length xs + 1
  length-perform_seq no_item (append_item x) xs = omega (arith, length-snoc (pos 0, x) xs)
  length-perform_seq no_item (prepend_item x) xs = omega arith
  length-perform_seq no_item (insert_item x key) xs = omega (arith, length-insert_sorted key x xs)
  length-perform_seq no_item remove_first [] = omega arith
  length-perform_seq no_item remove_first (x ∷ xs) = omega arith

  run_from-Performs :
      (fuel : ℕ) (no_item : A) (calls : List (Call A)) (l : LinkedList A) (cs : List (Cell A))
      → HasCells l cs
      → length cs + length calls ≤ fuel
      → Performs (run fuel no_item calls l) (run_seq no_item calls (contents cs))
  unfolding run run_seq
  run_from-Performs fuel no_item [] l cs h enough = record {
    out = l;
    cells = cs;
    returns = refl;
    has = h;
    holds = refl;
  }
  run_from-Performs fuel no_item (call ∷ calls) l cs h enough =
      let first = perform-Performs fuel no_item call l cs h (omega (arith, enough)) in
      let longer = length-perform_seq no_item call (contents cs) in
      let room : length first.cells + length calls ≤ fuel = omega (
        arith,
        enough,
        longer,
        length-contents cs,
        length-contents first.cells,
        ap length first.holds,
      ) in
      let rest : Performs (run fuel no_item calls first.out)
          (run_seq no_item calls (perform_seq no_item call (contents cs)).0) =
        rw first.holds at
          (run_from-Performs fuel no_item calls first.out first.cells first.has room) in
      record {
        out = rest.out;
        cells = rest.cells;
        returns = rw (first.returns, rest.returns) refl;
        has = rest.has;
        holds = rest.holds;
      }

  -- Any sequence of Append, Prepend, SortedInsert and SortedRemove calls on a new list, with as
  -- much fuel for the loop of SortedInsert as there are calls, returns, with the results that the
  -- same calls have on a sequence of keys and items, and leaves a list whose elements, from first
  -- to last, hold that sequence.
  pub run-Performs :
      (fuel : ℕ) (no_item : A) (calls : List (Call A))
      → length calls ≤ fuel
      → Performs (run fuel no_item calls empty_list) (run_seq no_item calls [])
  run-Performs fuel no_item calls enough =
      run_from-Performs fuel no_item calls empty_list []
        (record { first_cell = refl; last_cell = refl; chain = tt; free = λ p above. refl })
        (omega (arith, enough))
