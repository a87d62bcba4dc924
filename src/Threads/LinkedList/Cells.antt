-- ===== src/Threads/LinkedList/Cells.antt =====
-- The cells that a list is made of: their addresses, keys and items, in order.
use osproject.Base.{
  ℕ, ◌≤◌, ◌≡◌, refl, sym, ◌∙◌, ◌≢◌, true, false, Option, none, some, List, [], ◌∷◌, ◌++◌, length,
  ◌==◌, arith,
}
use osproject.Base.Int.{ℤ}
use osproject.Threads.LinkedList.{ListElement, LinkedList, put}

-- An address with the key and the item that its element has.
abbrev pub Cell {ℓ} : Type ℓ → Type ℓ
Cell A = ℕ × ℤ × A

module _ {ℓ} {A : Type ℓ} where
  abbrev pub head_of : List (Cell A) → Option ℕ
  head_of [] = none
  head_of ((at, key, item) ∷ cs) = some at

  -- The address of the last of some cells.
  abbrev pub last_at : ℕ → List (Cell A) → ℕ
  last_at at [] = at
  last_at at ((at', key, item) ∷ cs) = last_at at' cs

  abbrev pub last_of : List (Cell A) → Option ℕ
  last_of [] = none
  last_of ((at, key, item) ∷ cs) = some (last_at at cs)

  abbrev pub NotIn : ℕ → List (Cell A) → Type 0
  NotIn p [] = Unit
  NotIn p ((at, key, item) ∷ cs) = (p ≢ at) × NotIn p cs

  -- Each element is at its address and points to the next.
  abbrev pub Chain : (ℕ → Option (ListElement A)) → List (Cell A) → Type ℓ
  Chain elements [] = Unit
  Chain elements ((at, key, item) ∷ cs) =
      (elements at ≡ some (record { next = head_of cs; key = key; item = item }))
      × NotIn at cs
      × Chain elements cs

  -- What a list holds: its keys and items, in order.
  abbrev pub contents : List (Cell A) → List (ℤ × A)
  contents [] = []
  contents ((at, key, item) ∷ cs) = (key, item) ∷ contents cs

  -- The cells of a list.
  pub record HasCells (l : LinkedList A) (cs : List (Cell A)) : Type ℓ where
    pub first_cell : l.first ≡ head_of cs
    pub last_cell : l.last ≡ last_of cs
    pub chain : Chain l.elements cs
    pub free : (p : ℕ) → l.fresh ≤ p → l.elements p ≡ none

  pub put_self :
      (elements : ℕ → Option (ListElement A)) (p : ℕ) (e : Option (ListElement A))
      → put elements p e p ≡ e
  put_self elements p e = let here : (p == p) ≡ true = ground arith in rw here refl

  pub put_other :
      (elements : ℕ → Option (ListElement A)) (p q : ℕ) (e : Option (ListElement A))
      → q ≢ p
      → put elements p e q ≡ elements q
  put_other elements p q e h = let there : (q == p) ≡ false = ground arith in rw there refl

  pub put-Chain :
      (elements : ℕ → Option (ListElement A)) (p : ℕ) (e : Option (ListElement A))
      (cs : List (Cell A))
      → NotIn p cs
      → Chain elements cs
      → Chain (put elements p e) cs
  put-Chain elements p e [] away chain = tt
  put-Chain elements p e ((at, key, item) ∷ cs) (off, away) (here, apart, rest) = (
    put_other elements p at e (λ same. off (sym same)) ∙ here,
    apart,
    put-Chain elements p e cs away rest,
  )

  -- An address with nothing is in no chain.
  pub free-NotIn :
      (elements : ℕ → Option (ListElement A)) (p : ℕ) (cs : List (Cell A))
      → elements p ≡ none
      → Chain elements cs
      → NotIn p cs
  free-NotIn elements p [] nothing chain = tt
  free-NotIn elements p ((at, key, item) ∷ cs) nothing (here, apart, rest) =
      (λ same. none_some (sym (rw same at nothing) ∙ here), free-NotIn elements p cs nothing rest)
    where
      none_some : {e : ListElement A} → none ≡ some e → ⊥
      none_some bad = cc bad

  pub last-NotIn :
      (p at : ℕ) (key : ℤ) (item : A) (cs : List (Cell A))
      → NotIn p ((at, key, item) ∷ cs)
      → p ≢ last_at at cs
  last-NotIn p at key item [] (off, away) = off
  last-NotIn p at key item ((at', key', item') ∷ cs) (off, away) =
      last-NotIn p at' key' item' cs away

  pub NotIn-append : (p : ℕ) (cs ds : List (Cell A)) → NotIn p cs → NotIn p ds → NotIn p (cs ++ ds)
  NotIn-append p [] ds h k = k
  NotIn-append p ((at, key, item) ∷ cs) ds (off, h) k = (off, NotIn-append p cs ds h k)

  pub length-contents : (cs : List (Cell A)) → length (contents cs) ≡ length cs
  length-contents [] = refl
  length-contents (c ∷ cs) = omega (arith, length-contents cs)
