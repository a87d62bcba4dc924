-- ===== src/Threads/LinkedList.antt =====
-- The singly linked lists of threads/list.h: ready threads, waiting threads, pending interrupts.
-- The elements of a list are its own, so that a list is kept with the part of the heap that has
-- them: an address that no element was allocated at, or whose element was deleted, has nothing.
pub mod Cells
pub mod Insert
pub mod Refine
pub mod Take
pub mod Order
pub mod Run
pub mod Walk
mod Tests
use osproject.Base.{
  ℕ, zero, suc, ◌+◌, Bool, true, false, Option, none, some, List, [], ◌∷◌, ◌==◌, if◌then◌else◌,
}
use osproject.Base.Int.{ℤ, pos, ltb_ℤ}
use osproject.Base.Outcome.{Outcome, ok, fault, timeout, ◌>>=◌, deref}

pub record ListElement {ℓ} (A : Type ℓ) : Type ℓ where
  pub next : Option ℕ
  pub key : ℤ
  pub item : A

-- `fresh` is an address that is free, like all above it.
pub record LinkedList {ℓ} (A : Type ℓ) : Type ℓ where
  pub first : Option ℕ
  pub last : Option ℕ
  pub elements : ℕ → Option (ListElement A)
  pub fresh : ℕ

-- `a == b` on pointers
abbrev pub same_pointer : Option ℕ → Option ℕ → Bool
same_pointer none none = true
same_pointer none (some q) = false
same_pointer (some p) none = false
same_pointer (some p) (some q) = p == q

module _ {ℓ} {A : Type ℓ} where
  -- `List::List`
  abbrev pub empty_list : LinkedList A
  empty_list = record { first = none; last = none; elements = λ p. none; fresh = 0 }

  -- `List::IsEmpty`
  abbrev pub is_empty : LinkedList A → Bool
  is_empty l = elim l.first [ none ↦ true | some p ↦ false ]

  -- The element at an address.
  abbrev pub element_at : LinkedList A → ℕ → Outcome (ListElement A)
  element_at l p = deref (l.elements p)

  abbrev pub put :
      (ℕ → Option (ListElement A)) → ℕ → Option (ListElement A) → ℕ → Option (ListElement A)
  put elements p e = λ q. if q == p then e else elements q

  -- `new ListNode(item, sortKey)`, at the address `fresh`.
  abbrev pub new_element : LinkedList A → A → ℤ → LinkedList A
  new_element l item sort_key = record l {
    elements = put l.elements l.fresh (some (record { next = none; key = sort_key; item = item }));
    fresh = l.fresh + 1;
  }

  -- `p->next = q`
  abbrev pub set_next : LinkedList A → ℕ → Option ℕ → Outcome (LinkedList A)
  set_next l p q = element_at l p >>= λ e.
      ok (record l { elements = put l.elements p (some (record e { next = q })) })

  -- `first = element; last = element;`
  abbrev pub only_element : LinkedList A → ℕ → LinkedList A
  only_element l element = record l { first = some element; last = some element }

  -- `last->next = element; last = element;`
  abbrev pub link_last : LinkedList A → ℕ → Outcome (LinkedList A)
  link_last l element = do
    at ← deref l.last
    l' ← set_next l at (some element)
    ok (record l' { last = some element })

  -- `element->next = first; first = element;`
  abbrev pub link_first : LinkedList A → ℕ → Outcome (LinkedList A)
  link_first l element = do l' ← set_next l element l.first; ok (record l' { first = some element })

  -- `List::Append`
  unfoldable pub append : LinkedList A → A → Outcome (LinkedList A)
  append l item =
      let element = l.fresh in
      let l' = new_element l item (pos 0) in
      if is_empty l' then ok (only_element l' element) else link_last l' element

  -- `List::Prepend`
  unfoldable pub prepend : LinkedList A → A → Outcome (LinkedList A)
  prepend l item =
      let element = l.fresh in
      let l' = new_element l item (pos 0) in
      if is_empty l' then ok (only_element l' element) else link_first l' element

  -- The `for` loop of `SortedInsert` from `ptr` on, and what follows it, on fuel.
  unfoldable pub insert_after : ℕ → LinkedList A → ℕ → ℤ → ℕ → Outcome (LinkedList A)
  insert_after zero l element sort_key ptr = timeout
  insert_after (suc fuel) l element sort_key ptr = do
    e ← element_at l ptr
    elim e.next [
      | none ↦ link_last l element
      | some next ↦
          (element_at l next >>= λ f.
          let rest = insert_after fuel l element sort_key next in
          if ltb_ℤ sort_key f.key
          then (set_next l element (some next) >>= λ l'. set_next l' ptr (some element))
          else rest)
    ]

  -- `List::SortedInsert`
  unfoldable pub sorted_insert : ℕ → LinkedList A → A → ℤ → Outcome (LinkedList A)
  unfolding insert_after
  sorted_insert fuel l item sort_key =
      let element = l.fresh in
      let l' = new_element l item sort_key in
      elim l'.first [
        | none ↦ ok (only_element l' element)
        | some head ↦
            (element_at l' head >>= λ e.
            if ltb_ℤ sort_key e.key
            then link_first l' element
            else insert_after fuel l' element sort_key head)
      ]

  -- `List::SortedRemove`: the list, the item that is returned and the key that is stored, if any.
  -- `Item()` is the value of an item that C++ makes from nothing.
  unfoldable pub sorted_remove : A → LinkedList A → Outcome (LinkedList A × A × Option ℤ)
  sorted_remove no_item l = elim l.first [
    | none ↦ ok (l, no_item, none)
    | some head ↦
        (element_at l head >>= λ e.
        let l' =
          if same_pointer l.first l.last
          then record l { first = none; last = none }
          else record l { first = e.next } in
        ok (record l' { elements = put l'.elements head none }, e.item, some e.key))
  ]

  -- `List::Remove`
  unfoldable pub remove : A → LinkedList A → Outcome (LinkedList A × A)
  unfolding sorted_remove
  remove no_item l = sorted_remove no_item l >>= λ (l', item, key). ok (l', item)

  -- The `for` loop of `List::Apply` from `ptr` on, on fuel: the items that `func` is called with,
  -- in order.
  unfoldable pub apply_from : ℕ → LinkedList A → Option ℕ → Outcome (List A)
  apply_from fuel l none = ok []
  apply_from zero l (some ptr) = timeout
  apply_from (suc fuel) l (some ptr) = do
    e ← element_at l ptr
    items ← apply_from fuel l e.next
    ok (e.item ∷ items)

  -- `List::Apply`
  unfoldable pub apply : ℕ → LinkedList A → Outcome (List A)
  unfolding apply_from
  apply fuel l = apply_from fuel l l.first

  -- `List::~List`, whose loop is on fuel.
  unfoldable pub destroy : ℕ → A → LinkedList A → Outcome (LinkedList A)
  unfolding remove
  destroy zero no_item l = if is_empty l then ok l else timeout
  destroy (suc fuel) no_item l =
      let rest = remove no_item l >>= λ (l', item). destroy fuel no_item l' in
      if is_empty l then ok l else rest
