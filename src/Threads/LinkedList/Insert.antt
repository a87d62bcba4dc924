-- ===== src/Threads/LinkedList/Insert.antt =====
-- What the operations on a linked list do to its cells.
use osproject.Base.{
  ℕ, zero, suc, ◌<◌, ◌≡◌, refl, sym, ◌∙◌, ◌≢◌, inl, inr, false, Option, none, some, List, [], ◌∷◌,
  ◌++◌, length, ◌==◌, if◌then◌else◌, arith, Bool-cases,
}
use osproject.Base.Int.{ℤ, ltb_ℤ}
use osproject.Base.Outcome.{Outcome, ok}
use osproject.Threads.LinkedList.{ListElement, LinkedList, put, insert_after}
use osproject.Threads.LinkedList.Cells.{
  Cell, last_at, NotIn, Chain, put_self, put_other, put-Chain, last-NotIn, NotIn-append,
}

module _ {ℓ} {A : Type ℓ} where
  -- Where a cell goes in the order of the keys: before the first that has a bigger one.
  abbrev pub insert_cell : Cell A → List (Cell A) → List (Cell A)
  insert_cell (f, sort_key, x) [] = (f, sort_key, x) ∷ []
  insert_cell (f, sort_key, x) ((at, key, item) ∷ cs) =
      if ltb_ℤ sort_key key
      then (f, sort_key, x) ∷ (at, key, item) ∷ cs
      else (at, key, item) ∷ insert_cell (f, sort_key, x) cs

  pub NotIn-insert :
      (p f : ℕ) (sort_key : ℤ) (x : A) (cs : List (Cell A))
      → p ≢ f
      → NotIn p cs
      → NotIn p (insert_cell (f, sort_key, x) cs)
  NotIn-insert p f sort_key x [] off away = (off, tt)
  NotIn-insert p f sort_key x ((at, key, item) ∷ cs) off (h, away) =
      elim (Bool-cases (ltb_ℤ sort_key key)) [
        | inl before ↦ rw before (off, (h, away))
        | inr after ↦ rw after (h, NotIn-insert p f sort_key x cs off away)
      ]

  -- The last cell is made to point to a new one.
  pub snoc-Chain :
      (elements : ℕ → Option (ListElement A)) (f at : ℕ) (sort_key key : ℤ) (x item : A)
      (cs : List (Cell A))
      → elements f ≡ some (record { next = none; key = sort_key; item = x })
      → NotIn f ((at, key, item) ∷ cs)
      → Chain elements ((at, key, item) ∷ cs)
      → (e : ListElement A) × (elements (last_at at cs) ≡ some e)
        × Chain
            (put elements (last_at at cs) (some (record e { next = some f })))
            ((at, key, item) ∷ (cs ++ ((f, sort_key, x) ∷ [])))
  snoc-Chain elements f at sort_key key x item [] new (off, away) (here, apart, rest) = (
    _,
    here,
    (
      put_self elements at _,
      (λ same. off (sym same), tt),
      (put_other elements at f _ off ∙ new, tt, tt),
    ),
  )
  snoc-Chain elements f at sort_key key x item ((at', key', item') ∷ cs) new (off, away)
        (here, apart, rest) =
      let (e, there, chain) = snoc-Chain elements f at' sort_key key' x item' cs new away rest in
      (
        e,
        there,
        (
          put_other elements (last_at at' cs) at _ (last-NotIn at at' key' item' cs apart) ∙ here,
          NotIn-append at ((at', key', item') ∷ cs) ((f, sort_key, x) ∷ []) apart
              (λ same. off (sym same), tt),
          chain,
        ),
      )

  -- What the loop of `SortedInsert` leaves when it starts at the cell `at`.
  pub record Inserted (l : LinkedList A) (f at : ℕ) (sort_key key : ℤ) (x item : A)
      (cs : List (Cell A)) (r : Outcome (LinkedList A)) : Type ℓ where
    pub out : LinkedList A
    pub returns : r ≡ ok out
    pub same_first : out.first ≡ l.first
    pub same_fresh : out.fresh ≡ l.fresh
    pub new_last : out.last ≡ some (last_at at (insert_cell (f, sort_key, x) cs))
    pub chain : Chain out.elements ((at, key, item) ∷ insert_cell (f, sort_key, x) cs)
    pub others : (p : ℕ) → p ≢ f → NotIn p ((at, key, item) ∷ cs) → out.elements p ≡ l.elements p

  pub insert_after-Inserted :
      (fuel : ℕ) (l : LinkedList A) (f at : ℕ) (sort_key key : ℤ) (x item : A) (cs : List (Cell A))
      → length cs < fuel
      → l.elements f ≡ some (record { next = none; key = sort_key; item = x })
      → NotIn f ((at, key, item) ∷ cs)
      → Chain l.elements ((at, key, item) ∷ cs)
      → l.last ≡ some (last_at at cs)
      → Inserted l f at sort_key key x item cs (insert_after fuel l f sort_key at)
  unfolding insert_after
  insert_after-Inserted zero l f at sort_key key x item cs enough new away chain last =
      absurd (omega arith)
  insert_after-Inserted (suc fuel) l f at sort_key key x item [] enough new (off, away)
        (here, apart, rest) last =
      rw (here, last, here)
        (record {
          out = record l {
            elements = put l.elements at (some (record { next = some f; key = key; item = item }));
            last = some f;
          };
          returns = refl;
          same_first = refl;
          same_fresh = refl;
          new_last = refl;
          chain = (
            put_self l.elements at _,
            (λ same. off (sym same), tt),
            (put_other l.elements at f _ off ∙ new, tt, tt),
          );
          others = λ p away_f away_at. put_other l.elements at p _ away_at.0;
        })
  insert_after-Inserted (suc fuel) l f at sort_key key x item ((at', key', item') ∷ cs) enough new
        (off, away) (here, apart, rest) last =
      let not_f : at ≢ f = λ same. off (sym same) in
      let apart_f : (at == f) ≡ false = ground arith in
      let (there, apart', rest') = rest in
      elim (Bool-cases (ltb_ℤ sort_key key')) [
        | inl before ↦
            let new_cell : ListElement A = record { next = some at'; key = sort_key; item = x } in
            let middle = put l.elements f (some new_cell) in
            rw (here, there, before, new, apart_f, here)
              (record {
                out = record l {
                  elements =
                      put middle at (some (record { next = some f; key = key; item = item }));
                };
                returns = refl;
                same_first = refl;
                same_fresh = refl;
                new_last = rw before last;
                chain = rw before (
                  put_self middle at _,
                  (not_f, apart),
                  (
                    put_other middle at f _ off ∙ put_self l.elements f _,
                    away,
                    put-Chain middle at _ ((at', key', item') ∷ cs) apart
                        (put-Chain l.elements f _ ((at', key', item') ∷ cs) away rest),
                  ),
                );
                others = λ p away_f away_at.
                    put_other middle at p _ away_at.0 ∙ put_other l.elements f p _ away_f;
              })
        | inr after ↦
            let r =
              insert_after-Inserted fuel l f at' sort_key key' x item' cs (omega arith) new away
                rest last in
            rw (here, there, after)
              (record {
                out = r.out;
                returns = r.returns;
                same_first = r.same_first;
                same_fresh = r.same_fresh;
                new_last = rw after r.new_last;
                chain = rw after (
                  r.others at not_f apart ∙ here,
                  (apart.0, NotIn-insert at f sort_key x cs not_f apart.1),
                  r.chain,
                );
                others = λ p away_f away_at. r.others p away_f away_at.1;
              })
      ]
