-- ===== src/Threads/LinkedList/Refine.antt =====
-- The linked lists against sequences: what an operation does to the keys and items, in order.
use osproject.Base.{
  ℕ, ◌+◌, ◌≤◌, ◌≡◌, refl, sym, ap, ◌∙◌, ◌≢◌, inl, inr, none, some, List, [], ◌∷◌, ◌++◌, length,
  if◌then◌else◌, arith, Bool-cases,
}
use osproject.Base.Int.{ℤ, pos, ltb_ℤ}
use osproject.Base.Outcome.{Outcome, ok}
use osproject.Threads.LinkedList.{
  LinkedList, put, new_element, insert_after, append, prepend, sorted_insert,
}
use osproject.Threads.LinkedList.Cells.{
  Cell, head_of, last_at, last_of, NotIn, Chain, contents, HasCells, put_self, put_other, put-Chain,
  free-NotIn, last-NotIn,
}
use osproject.Threads.LinkedList.Insert.{insert_cell, snoc-Chain, insert_after-Inserted}

module _ {ℓ} {A : Type ℓ} where
  -- An operation returns a list that holds a sequence.
  pub record Holds (r : Outcome (LinkedList A)) (xs : List (ℤ × A)) : Type ℓ where
    pub out : LinkedList A
    pub cells : List (Cell A)
    pub returns : r ≡ ok out
    pub has : HasCells out cells
    pub holds : contents cells ≡ xs

  -- The new element is linked to nothing yet.
  record NewElement (l : LinkedList A) (cs : List (Cell A)) (l' : LinkedList A) (sort_key : ℤ)
      (x : A) : Type ℓ where
    pub same_first : l'.first ≡ head_of cs
    pub same_last : l'.last ≡ last_of cs
    pub new : l'.elements l.fresh ≡ some (record { next = none; key = sort_key; item = x })
    pub apart : NotIn l.fresh cs
    pub chain : Chain l'.elements cs
    pub free : (p : ℕ) → l.fresh + 1 ≤ p → l'.elements p ≡ none

  new_element-NewElement :
      (l : LinkedList A) (cs : List (Cell A)) (sort_key : ℤ) (x : A)
      → HasCells l cs
      → NewElement l cs (new_element l x sort_key) sort_key x
  new_element-NewElement l cs sort_key x h =
      let apart = free-NotIn l.elements l.fresh cs (h.free l.fresh (omega arith)) h.chain in
      record {
        same_first = h.first_cell;
        same_last = h.last_cell;
        new = put_self l.elements l.fresh _;
        apart = apart;
        chain = put-Chain l.elements l.fresh _ cs apart h.chain;
        free = λ p above.
            put_other l.elements l.fresh p _ (omega (arith, above))
            ∙ h.free p (omega (arith, above));
      }

  contents-append : (cs ds : List (Cell A)) → contents (cs ++ ds) ≡ contents cs ++ contents ds
  contents-append [] ds = refl
  contents-append ((at, key, item) ∷ cs) ds = ap (λ xs. (key, item) ∷ xs) (contents-append cs ds)

  last_at-snoc :
      (at f : ℕ) (sort_key : ℤ) (x : A) (cs : List (Cell A))
      → last_at at (cs ++ ((f, sort_key, x) ∷ [])) ≡ f
  last_at-snoc at f sort_key x [] = refl
  last_at-snoc at f sort_key x ((at', key, item) ∷ cs) = last_at-snoc at' f sort_key x cs

  -- An address from `fresh` on is that of no element.
  beyond :
      (l : LinkedList A) (at : ℕ) (key : ℤ) (item : A) (cs : List (Cell A))
      → HasCells l ((at, key, item) ∷ cs)
      → (p : ℕ) → l.fresh ≤ p
      → p ≢ last_at at cs
  beyond l at key item cs h p above =
      last-NotIn p at key item cs
        (free-NotIn l.elements p ((at, key, item) ∷ cs) (h.free p above) h.chain)

  -- The only element of a list, and one that goes before the others.
  single-HasCells :
      (l : LinkedList A) (sort_key : ℤ) (x : A)
      → HasCells l []
      → HasCells
          (record (new_element l x sort_key) { first = some l.fresh; last = some l.fresh })
          ((l.fresh, sort_key, x) ∷ [])
  single-HasCells l sort_key x h =
      let n = new_element-NewElement l [] sort_key x h in
      record { first_cell = refl; last_cell = refl; chain = (n.new, tt, tt); free = n.free }

  front-HasCells :
      (l : LinkedList A) (at : ℕ) (sort_key key : ℤ) (x item : A) (cs : List (Cell A))
      → HasCells l ((at, key, item) ∷ cs)
      → HasCells
          (record {
            first = some l.fresh;
            last = some (last_at at cs);
            elements =
                put
                  (new_element l x sort_key).elements
                  l.fresh
                  (some (record { next = some at; key = sort_key; item = x }));
            fresh = l.fresh + 1;
          })
          ((l.fresh, sort_key, x) ∷ (at, key, item) ∷ cs)
  front-HasCells l at sort_key key x item cs h =
      let l' = new_element l x sort_key in
      let n = new_element-NewElement l ((at, key, item) ∷ cs) sort_key x h in
      record {
        first_cell = refl;
        last_cell = refl;
        chain = (
          put_self l'.elements l.fresh _,
          n.apart,
          put-Chain l'.elements l.fresh _ ((at, key, item) ∷ cs) n.apart n.chain,
        );
        free = λ p above. put_other l'.elements l.fresh p _ (omega (arith, above)) ∙ n.free p above;
      }

  pub append-Holds :
      (l : LinkedList A) (cs : List (Cell A)) (x : A)
      → HasCells l cs
      → Holds (append l x) (contents cs ++ ((pos 0, x) ∷ []))
  unfolding append
  append-Holds l [] x h = rw h.first_cell (record {
    out = _;
    cells = _;
    returns = refl;
    has = single-HasCells l (pos 0) x h;
    holds = refl;
  })
  append-Holds l ((at, key, item) ∷ cs) x h =
      let n = new_element-NewElement l ((at, key, item) ∷ cs) (pos 0) x h in
      let l' = new_element l x (pos 0) in
      let (e, there, chain) =
        snoc-Chain l'.elements l.fresh at (pos 0) key x item cs n.new n.apart n.chain in
      rw (h.first_cell, h.last_cell, there)
        (record {
          out = record {
            first = some at;
            last = some l.fresh;
            elements = put l'.elements (last_at at cs) (some (record e { next = some l.fresh }));
            fresh = l.fresh + 1;
          };
          cells = (at, key, item) ∷ (cs ++ ((l.fresh, pos 0, x) ∷ []));
          returns = refl;
          has = record {
            first_cell = refl;
            last_cell = ap some (sym (last_at-snoc at l.fresh (pos 0) x cs));
            chain = chain;
            free = λ p above.
                put_other l'.elements (last_at at cs) p _
                  (beyond l at key item cs h p (omega (arith, above)))
                ∙ n.free p above;
          };
          holds = ap (λ xs. (key, item) ∷ xs) (contents-append cs ((l.fresh, pos 0, x) ∷ []));
        })

  pub prepend-Holds :
      (l : LinkedList A) (cs : List (Cell A)) (x : A)
      → HasCells l cs
      → Holds (prepend l x) ((pos 0, x) ∷ contents cs)
  unfolding prepend
  prepend-Holds l [] x h = rw h.first_cell (record {
    out = _;
    cells = _;
    returns = refl;
    has = single-HasCells l (pos 0) x h;
    holds = refl;
  })
  prepend-Holds l ((at, key, item) ∷ cs) x h =
      let n = new_element-NewElement l ((at, key, item) ∷ cs) (pos 0) x h in
      rw (h.first_cell, h.last_cell, n.new)
        (record {
          out = _;
          cells = _;
          returns = refl;
          has = front-HasCells l at (pos 0) key x item cs h;
          holds = refl;
        })

  -- The place of an item in the order of the keys: behind all that have the same key.
  abbrev pub insert_sorted : ℤ × A → List (ℤ × A) → List (ℤ × A)
  insert_sorted (sort_key, x) [] = (sort_key, x) ∷ []
  insert_sorted (sort_key, x) ((key, item) ∷ xs) =
      if ltb_ℤ sort_key key
      then (sort_key, x) ∷ (key, item) ∷ xs
      else (key, item) ∷ insert_sorted (sort_key, x) xs

  contents-insert_cell :
      (f : ℕ) (sort_key : ℤ) (x : A) (cs : List (Cell A))
      → contents (insert_cell (f, sort_key, x) cs) ≡ insert_sorted (sort_key, x) (contents cs)
  contents-insert_cell f sort_key x [] = refl
  contents-insert_cell f sort_key x ((at, key, item) ∷ cs) =
      elim (Bool-cases (ltb_ℤ sort_key key)) [
        | inl before ↦ rw before refl
        | inr after ↦ rw after (ap (λ xs. (key, item) ∷ xs) (contents-insert_cell f sort_key x cs))
      ]

  pub sorted_insert-Holds :
      (fuel : ℕ) (l : LinkedList A) (cs : List (Cell A)) (sort_key : ℤ) (x : A)
      → HasCells l cs
      → length cs ≤ fuel
      → Holds (sorted_insert fuel l x sort_key) (insert_sorted (sort_key, x) (contents cs))
  unfolding sorted_insert
  sorted_insert-Holds fuel l [] sort_key x h enough = rw h.first_cell (record {
    out = _;
    cells = _;
    returns = refl;
    has = single-HasCells l sort_key x h;
    holds = refl;
  })
  sorted_insert-Holds fuel l ((at, key, item) ∷ cs) sort_key x h enough =
      let l' = new_element l x sort_key in
      let n = new_element-NewElement l ((at, key, item) ∷ cs) sort_key x h in
      let r =
        insert_after-Inserted fuel l' l.fresh at sort_key key x item cs (omega (arith, enough))
          n.new n.apart n.chain h.last_cell in
      elim (Bool-cases (ltb_ℤ sort_key key)) [
        | inl before ↦
            rw (h.first_cell, n.chain.0, before, h.last_cell, n.new)
              (record {
                out = _;
                cells = _;
                returns = refl;
                has = front-HasCells l at sort_key key x item cs h;
                holds = refl;
              })
        | inr after ↦
            rw (h.first_cell, n.chain.0, after)
              (record {
                out = r.out;
                cells = (at, key, item) ∷ insert_cell (l.fresh, sort_key, x) cs;
                returns =
                    ap (λ p. insert_after fuel (record l' { first = p }) l.fresh sort_key at)
                      (sym h.first_cell)
                    ∙ r.returns;
                has = record {
                  first_cell = r.same_first ∙ h.first_cell;
                  last_cell = r.new_last;
                  chain = r.chain;
                  free = λ p above.
                      r.others p (omega (arith, above, r.same_fresh)) (
                        free-NotIn l.elements p ((at, key, item) ∷ cs)
                          (h.free p (omega (arith, above, r.same_fresh))) h.chain)
                      ∙ n.free p (omega (arith, above, r.same_fresh));
                };
                holds = ap (λ xs. (key, item) ∷ xs) (contents-insert_cell l.fresh sort_key x cs);
              })
      ]
