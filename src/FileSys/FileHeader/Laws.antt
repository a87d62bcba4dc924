-- ===== src/FileSys/FileHeader/Laws.antt =====
-- A header takes sectors that are free, each once, and gives back just these.
use osproject.Base.{
  ℕ, zero, suc, ◌+◌, ◌≤◌, ◌<◌, ◌≡◌, ◌≢◌, refl, sym, ap, ◌∙◌, inl, inr, Bool, true, false, some,
  List, [], ◌∷◌, ◌==◌, ltb, if◌then◌else◌, get_elem?, set, length, All, Without, Distinct, arith,
  Bool-cases, lt→ltb, get_elem?-set_self, get_elem?-set_ne, length-set,
}
use osproject.Base.Int.{ℤ, pos}
use osproject.Base.Outcome.{ok, fault}
use osproject.BitMap.{BitMap, num_clear}
use osproject.BitMap.Abstract.{
  holds, IsValid, marked, cleared, clear_lem, test_lem, marked-IsValid, cleared-IsValid,
  holds-marked, holds-cleared,
}
use osproject.BitMap.Search.{clears, num_clear_lem, find-num_clear}
use osproject.FileSys.FileHeader.{FileHeader, allocate_from, deallocate_from}

-- The map after these sectors have been taken, and after they have been given back.
abbrev pub mark_each : BitMap → List ℕ → BitMap
mark_each b [] = b
mark_each b (x ∷ xs) = mark_each (marked b x) xs

abbrev pub clear_each : BitMap → List ℕ → BitMap
clear_each b [] = b
clear_each b (x ∷ xs) = clear_each (cleared b x) xs

-- The sectors, from entry `i` on.
abbrev pub write_each : ℕ → List ℕ → List ℤ → List ℤ
write_each i [] sectors = sectors
write_each i (x ∷ xs) sectors = write_each (i + 1) xs (set sectors i (pos x))

abbrev pub IsFree : BitMap → ℕ → Type 0
IsFree b x = (x < b.num_bits) × (holds b x ≡ false)

clears-of : (b : BitMap) (c : ℕ) → IsValid b → num_clear b ≡ ok c → clears b b.num_bits ≡ c
clears-of b c v e = let e' = num_clear_lem b v in cc

IsFree-marked :
    (b : BitMap) (i x : ℕ)
    → IsValid b
    → i < b.num_bits
    → IsFree (marked b i) x
    → IsFree b x × (x ≢ i)
IsFree-marked b i x v h (small, free) =
    let e = holds-marked b i x v h in
    elim (Bool-cases (i == x)) [
      | inl same ↦ absurd (let e' = rw same at e in cc)
      | inr other ↦ let e' = rw other at e in ((small, sym e' ∙ free), λ same. ground arith)
    ]

All-IsFree-marked :
    (b : BitMap) (i : ℕ) (xs : List ℕ)
    → IsValid b
    → i < b.num_bits
    → All (IsFree (marked b i)) xs
    → All (IsFree b) xs × Without i xs
All-IsFree-marked b i [] v h all = (tt, tt)
All-IsFree-marked b i (x ∷ xs) v h (here, all) =
    let (f, ne) = IsFree-marked b i x v h here in
    let (fs, nes) = All-IsFree-marked b i xs v h all in ((f, fs), (ne, nes))

-- With enough free sectors and enough entries, the loop takes free sectors, each once.
pub allocate_from_lem :
    (n i : ℕ) (h : FileHeader) (b : BitMap)
    → IsValid b
    → n ≤ clears b b.num_bits
    → i + n ≤ length h.data_sectors
    → (taken : List ℕ) × (length taken ≡ n)
      × Distinct taken
      × All (IsFree b) taken
      × (allocate_from i n h b
          ≡ ok (record h { data_sectors = write_each i taken h.data_sectors }, mark_each b taken))
unfolding allocate_from
allocate_from_lem zero i h b v enough room = ([], refl, tt, tt, refl)
allocate_from_lem (suc n) i h b v enough room = elim (find-num_clear b v) [
  | inl (none_left, r) ↦ absurd (omega (arith, clears-of b 0 v none_left))
  | inr (x, c, r, small, free, _, e, e') ↦
      let h' : FileHeader = record h { data_sectors = set h.data_sectors i (pos x) } in
      let (xs, len, once, frees, step) =
        allocate_from_lem n (i + 1) h' (marked b x) (marked-IsValid b x v)
          (omega
            (arith, clears-of b (suc c) v e, clears-of (marked b x) c (marked-IsValid b x v) e'))
          (omega (arith, length-set h.data_sectors i (pos x))) in
      let (frees', out) = All-IsFree-marked b x xs v small frees in
      let inside : ltb i (length h.data_sectors) ≡ true = lt→ltb _ _ (omega arith) in
      (x ∷ xs, ap suc len, (out, once), ((small, free), frees'), rw (r, inside) step)
]

-- With enough free sectors, the entry after the last is written to.
pub allocate_from-fault :
    (n i : ℕ) (h : FileHeader) (b : BitMap)
    → IsValid b
    → n ≤ clears b b.num_bits
    → i ≤ length h.data_sectors
    → length h.data_sectors < i + n
    → allocate_from i n h b ≡ fault
unfolding allocate_from
allocate_from-fault zero i h b v enough at over = absurd (omega arith)
allocate_from-fault (suc n) i h b v enough at over = elim (find-num_clear b v) [
  | inl (none_left, r) ↦ absurd (omega (arith, clears-of b 0 v none_left))
  | inr (x, c, r, small, free, _, e, e') ↦ elim (Bool-cases (ltb i (length h.data_sectors))) [
    | inl inside ↦
        let h' : FileHeader = record h { data_sectors = set h.data_sectors i (pos x) } in
        rw (r, inside)
          (allocate_from-fault n (i + 1) h' (marked b x) (marked-IsValid b x v)
            (omega
              (arith, clears-of b (suc c) v e, clears-of (marked b x) c (marked-IsValid b x v) e'))
            (ground (arith, length-set h.data_sectors i (pos x)))
            (omega (arith, length-set h.data_sectors i (pos x))))
    | inr outside ↦ rw (r, outside) refl
  ]
]

abbrev pub member : ℕ → List ℕ → Bool
member j [] = false
member j (x ∷ xs) = if x == j then true else member j xs

pub member-IsFree :
    (b : BitMap) (j : ℕ) (xs : List ℕ) → All (IsFree b) xs → member j xs ≡ true → holds b j ≡ false
member-IsFree b j [] all m = cc
member-IsFree b j (x ∷ xs) ((small, free), all) m = elim (Bool-cases (x == j)) [
  | inl here ↦ let same : x ≡ j = ground arith in rw same at free
  | inr there ↦ member-IsFree b j xs all (rw there at m)
]

pub holds-mark_each :
    (b : BitMap) (xs : List ℕ) (j : ℕ)
    → IsValid b
    → All (λ x. x < b.num_bits) xs
    → holds (mark_each b xs) j ≡ (if member j xs then true else holds b j)
holds-mark_each b [] j v small = refl
holds-mark_each b (x ∷ xs) j v (here, small) =
    holds-mark_each (marked b x) xs j (marked-IsValid b x v) small
    ∙ rw (holds-marked b x j v here) (elim (Bool-cases (x == j)) [
      | inl e ↦ rw e (elim (Bool-cases (member j xs)) [ inl m ↦ rw m refl | inr m ↦ rw m refl ])
      | inr e ↦ rw e refl
    ])

pub holds-clear_each :
    (b : BitMap) (xs : List ℕ) (j : ℕ)
    → IsValid b
    → All (λ x. x < b.num_bits) xs
    → holds (clear_each b xs) j ≡ (if member j xs then false else holds b j)
holds-clear_each b [] j v small = refl
holds-clear_each b (x ∷ xs) j v (here, small) =
    holds-clear_each (cleared b x) xs j (cleared-IsValid b x v) small
    ∙ rw (holds-cleared b x j v here) (elim (Bool-cases (x == j)) [
      | inl e ↦ rw e (elim (Bool-cases (member j xs)) [ inl m ↦ rw m refl | inr m ↦ rw m refl ])
      | inr e ↦ rw e refl
    ])

-- The entries from `i` on hold these sectors.
abbrev pub Stored : List ℤ → ℕ → List ℕ → Type 0
Stored sectors i [] = Unit
Stored sectors i (x ∷ xs) = (get_elem? sectors i ≡ some (pos x)) × Stored sectors (i + 1) xs

-- A sector that is taken.
abbrev pub IsTaken : BitMap → ℕ → Type 0
IsTaken b x = (x < b.num_bits) × (holds b x ≡ true)

All-IsTaken-cleared :
    (b : BitMap) (x : ℕ) (xs : List ℕ)
    → IsValid b
    → x < b.num_bits
    → Without x xs
    → All (IsTaken b) xs
    → All (IsTaken (cleared b x)) xs
All-IsTaken-cleared b x [] v h out all = tt
All-IsTaken-cleared b x (y ∷ ys) v h (ne, out) ((small, taken), all) =
    ((small, ground (arith, holds-cleared b x y v h)), All-IsTaken-cleared b x ys v h out all)

pub deallocate_from_lem :
    (xs : List ℕ) (i : ℕ) (h : FileHeader) (b : BitMap)
    → IsValid b
    → Stored h.data_sectors i xs
    → Distinct xs
    → All (IsTaken b) xs
    → deallocate_from i (length xs) h b ≡ ok (clear_each b xs)
unfolding deallocate_from
deallocate_from_lem [] i h b v stored once all = refl
deallocate_from_lem (x ∷ xs) i h b v (at, stored) (out, once) ((small, taken), all) =
    rw (at, test_lem b x v small, taken, clear_lem b x v small)
      (deallocate_from_lem xs (i + 1) h (cleared b x) (cleared-IsValid b x v) stored once
        (All-IsTaken-cleared b x xs v small out all))

write_each-before :
    (xs : List ℕ) (i j : ℕ) (l : List ℤ) → j < i → get_elem? (write_each i xs l) j ≡ get_elem? l j
write_each-before [] i j l h = refl
write_each-before (x ∷ xs) i j l h =
    write_each-before xs (i + 1) j (set l i (pos x)) (omega arith)
    ∙ get_elem?-set_ne l i j (pos x) (λ e. omega arith)

pub write_each-Stored :
    (xs : List ℕ) (i : ℕ) (l : List ℤ) → i + length xs ≤ length l → Stored (write_each i xs l) i xs
write_each-Stored [] i l h = tt
write_each-Stored (x ∷ xs) i l h = (
  write_each-before xs (i + 1) i (set l i (pos x)) (omega arith)
      ∙ get_elem?-set_self l i (pos x) (omega arith),
  write_each-Stored xs (i + 1) (set l i (pos x)) (omega (arith, length-set l i (pos x))),
)
