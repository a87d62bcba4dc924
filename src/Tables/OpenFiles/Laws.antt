-- ===== src/Tables/OpenFiles/Laws.antt =====
-- The table of open files as a partial map from handles to UNIX handles.
use osproject.Base.{
  ℕ, ◌<◌, ◌≡◌, refl, ap, ◌∙◌, ◌≢◌, ◌⊎◌, inl, inr, Option, none, some, length, get_or, set,
  length-set, get_elem?-eq-get_or, get_or-set_self, get_or-set_ne, ltb, ◌==◌, if◌then◌else◌, arith,
  Bool-cases,
}
use native.Mathlib.Decide.{ℕ_discrete}
use osproject.Base.Int.{ℤ, pos, negsuc, minus_one}
use osproject.Base.Outcome.{ok}
use osproject.BitMap.{BitMap, mark, make, find, div_round_up}
use osproject.BitMap
use osproject.BitMap.Abstract.{
  holds, marked, cleared, mark_lem, clear_lem, test_lem, marked-IsValid, cleared-IsValid,
  holds-marked, holds-cleared,
}
use osproject.BitMap.Search.{find-Finds}
use osproject.Tables.OpenFiles.{
  NachosOpenFilesTable, max_files, open_file, close_file, get_unix_handle,
}

pub record IsValid (t : NachosOpenFilesTable) : Type 0 where
  pub map_valid : BitMap.Abstract.IsValid t.open_files_map
  pub slots : t.open_files_map.num_bits ≡ max_files
  pub files : length t.open_files ≡ max_files

-- The UNIX handle that an open handle stands for.
abbrev pub unix_handle : NachosOpenFilesTable → ℕ → Option ℤ
unix_handle t h =
    if ltb h max_files
    then (if holds t.open_files_map h then some (get_or t.open_files h (pos 0)) else none)
    else none

pub as_int : Option ℤ → ℤ
as_int none = minus_one
as_int (some u) = u

-- On a well-formed table getUnixHandle gives the UNIX handle of an open handle, and -1 for one
-- that is not open, out of range or negative.
pub get_unix_handle_lem :
    (t : NachosOpenFilesTable)
    → IsValid t
    → ((h : ℕ) → get_unix_handle t (pos h) ≡ ok (as_int (unix_handle t h)))
      × ((n : ℕ) → get_unix_handle t (negsuc n) ≡ ok minus_one)
unfolding get_unix_handle as_int
get_unix_handle_lem t v = (at, λ n. refl)
  where
    at : (h : ℕ) → get_unix_handle t (pos h) ≡ ok (as_int (unix_handle t h))
    at h = elim (Bool-cases (ltb h max_files)) [
      | inl below ↦ ground (
        arith,
        test_lem t.open_files_map h v.map_valid,
        get_elem?-eq-get_or t.open_files h (pos 0),
      )
      | inr above ↦ ground arith
    ]

-- What `Open` leaves: a table that differs at one handle, which was free and the least such.
pub record Opens (t : NachosOpenFilesTable) (u : ℤ) : Type 0 where
  pub out : NachosOpenFilesTable
  pub handle : ℕ
  pub returns : open_file t u ≡ ok (out, pos handle)
  pub valid : IsValid out
  pub in_range : handle < max_files
  pub was_free : unix_handle t handle ≡ none
  pub least : (j : ℕ) → j < handle → unix_handle t j ≢ none
  pub maps : (j : ℕ) → unix_handle out j ≡ (if handle == j then some u else unix_handle t j)

module _ (t : NachosOpenFilesTable) (u : ℤ) (v : IsValid t) where
  with_slot : ℕ → NachosOpenFilesTable
  with_slot i = record t {
    open_files = set t.open_files i u;
    open_files_map = marked t.open_files_map i;
  }

  with_slot-IsValid : (i : ℕ) → IsValid (with_slot i)
  unfolding with_slot
  with_slot-IsValid i = record {
    map_valid = marked-IsValid t.open_files_map i v.map_valid;
    slots = v.slots;
    files = length-set t.open_files i u ∙ v.files;
  }

  with_slot_maps :
      (i j : ℕ)
      → i < max_files
      → unix_handle (with_slot i) j ≡ (if i == j then some u else unix_handle t j)
  unfolding with_slot
  with_slot_maps i j h = elim (ℕ_discrete i j) [
    | yes e ↦ ground (
      arith,
      holds-marked t.open_files_map i j v.map_valid,
      get_or-set_self t.open_files i u (pos 0),
      ap (λ k. get_or (set t.open_files i u) k (pos 0)) e,
      v.slots,
      v.files,
    )
    | no ne ↦ ground (
      arith,
      holds-marked t.open_files_map i j v.map_valid,
      get_or-set_ne t.open_files i j u (pos 0) ne,
      v.slots,
    )
  ]

  with_slot_returns :
      (i : ℕ)
      → i < max_files
      → find t.open_files_map ≡ ok (marked t.open_files_map i, some i)
      → open_file t u ≡ ok (with_slot i, pos i)
  unfolding open_file with_slot
  with_slot_returns i h e = rw e (ground (arith, v.files))

  -- On a well-formed table Open returns the least free handle, which it maps to the given UNIX
  -- handle and nothing else; when every handle is in use it returns -1 and changes nothing.
  pub open_file_lem :
      Opens t u
      ⊎ ((open_file t u ≡ ok (t, minus_one)) × ((h : ℕ) → h < max_files → unix_handle t h ≢ none))
  unfolding open_file
  open_file_lem = elim (find-Finds t.open_files_map v.map_valid) [
    | inl (all, r) ↦ inr (rw r refl, λ h lt e. ground (arith, all h, v.slots))
    | inr (i, lt, free, all, r) ↦
        let in_range : i < max_files = omega (arith, v.slots) in
        inl (record {
          out = with_slot i;
          handle = i;
          returns = with_slot_returns i in_range r;
          valid = with_slot-IsValid i;
          in_range = in_range;
          was_free = ground arith;
          least = λ j h e. ground (arith, all j h);
          maps = λ j. with_slot_maps i j in_range;
        })
  ]

-- What `Close` leaves at an open handle: that handle is no longer open, the others are as before.
pub record Closes (t : NachosOpenFilesTable) (h : ℕ) : Type 0 where
  pub out : NachosOpenFilesTable
  pub returns : close_file t (pos h) ≡ ok (out, pos 0)
  pub valid : IsValid out
  pub maps : (j : ℕ) → unix_handle out j ≡ (if h == j then none else unix_handle t j)

-- On a well-formed table, for a handle that is not negative, Close frees an open one and returns
-- 0, and at any other gives -1 and changes nothing.
pub close_file_lem :
    (t : NachosOpenFilesTable) (h : ℕ)
    → IsValid t
    → Closes t h ⊎ ((unix_handle t h ≡ none) × (close_file t (pos h) ≡ ok (t, minus_one)))
unfolding close_file
close_file_lem t h v = elim (Bool-cases (ltb h max_files)) [
  | inl below ↦ elim (Bool-cases (holds t.open_files_map h)) [
    | inl used ↦ inl (record {
      out = freed;
      returns = ground (
        arith,
        test_lem t.open_files_map h v.map_valid,
        clear_lem t.open_files_map h v.map_valid,
        v.slots,
        v.files,
      );
      valid = record {
        map_valid = cleared-IsValid t.open_files_map h v.map_valid;
        slots = v.slots;
        files = length-set t.open_files h (pos 0) ∙ v.files;
      };
      maps = λ j. elim (ℕ_discrete h j) [
        | yes e ↦ ground (arith, holds-cleared t.open_files_map h j v.map_valid, v.slots)
        | no ne ↦ ground (
          arith,
          holds-cleared t.open_files_map h j v.map_valid,
          get_or-set_ne t.open_files h j (pos 0) (pos 0) ne,
          v.slots,
        )
      ];
    })
    | inr free ↦
        inr (ground arith, ground (arith, test_lem t.open_files_map h v.map_valid, v.slots))
  ]
  | inr above ↦ inr (ground arith, ground arith)
]
  where
    freed : NachosOpenFilesTable
    freed = record t {
      open_files = set t.open_files h (pos 0);
      open_files_map = cleared t.open_files_map h;
    }

close_open :
    (t t' : NachosOpenFilesTable) (u : ℤ) (h : ℕ)
    → IsValid t'
    → unix_handle t h ≡ none
    → ((j : ℕ) → unix_handle t' j ≡ (if h == j then some u else unix_handle t j))
    → (t'' : NachosOpenFilesTable) × (close_file t' (pos h) ≡ ok (t'', pos 0))
      × ((j : ℕ) → unix_handle t'' j ≡ unix_handle t j)
close_open t t' u h v free maps = elim (close_file_lem t' h v) [
  | inl c ↦ (
    c.out,
    c.returns,
    λ j. elim (ℕ_discrete h j) [
      | yes e ↦ ground (arith, c.maps j, ap (unix_handle t) e)
      | no ne ↦ ground (arith, c.maps j, maps j)
    ],
  )
  | inr (gone, _) ↦ absurd (ground (arith, maps h))
]

-- On a well-formed table of open files, a handle that Open returns stands for the UNIX handle that
-- it was given, and closing it takes the table back to the map that it was before.
pub open-close :
    (t : NachosOpenFilesTable) (u : ℤ) {t' : NachosOpenFilesTable} {h : ℕ}
    → IsValid t
    → open_file t u ≡ ok (t', pos h)
    → (get_unix_handle t' (pos h) ≡ ok u)
      × ((t'' : NachosOpenFilesTable) × (close_file t' (pos h) ≡ ok (t'', pos 0))
          × ((j : ℕ) → unix_handle t'' j ≡ unix_handle t j))
unfolding as_int
open-close t u {t'} {h} v e = elim (open_file_lem t u v) [
  | inl o ↦
      let same_table : o.out ≡ t' = ground (arith, o.returns) in
      let same_handle : o.handle ≡ h = ground (arith, o.returns) in
      rw (← same_table, ← same_handle)
        (
          ground (arith, (get_unix_handle_lem o.out o.valid).0 o.handle, o.maps o.handle),
          close_open t o.out u o.handle o.valid o.was_free o.maps,
        )
  | inr (r, _) ↦ absurd (ground arith)
]
