-- ===== src/FileSys/Directory/Names.antt =====
-- Names are compared and stored by their first nine characters.
use osproject.Base.{ℕ, zero, suc, ◌≡◌, refl, true, List, [], ◌∷◌, ◌==◌, if◌then◌else◌, arith}
use osproject.FileSys.Directory.{head, tail, same_name, strncpy}

-- The first `n` characters of a string.
abbrev pub key : ℕ → List ℕ → List ℕ
key zero a = []
key (suc n) a = if head a == 0 then [] else head a ∷ key n (tail a)

pub same_name-key : (n : ℕ) (a b : List ℕ) → same_name n a b ≡ true → key n a ≡ key n b
unfolding same_name
same_name-key zero a b h = refl
same_name-key (suc n) a b h = ground (arith, same_name-key n (tail a) (tail b))

pub key-same_name : (n : ℕ) (a b : List ℕ) → key n a ≡ key n b → same_name n a b ≡ true
unfolding same_name
key-same_name zero a b h = refl
key-same_name (suc n) a b h = ground (arith, key-same_name n (tail a) (tail b))

key-nil : (n : ℕ) → key n [] ≡ []
key-nil zero = refl
key-nil (suc n) = refl

pub key-strncpy : (n : ℕ) (to from : List ℕ) → key n (strncpy n to from) ≡ key n from
unfolding strncpy
key-strncpy zero to from = refl
key-strncpy (suc n) to from = ground (arith, key-strncpy n (tail to) (tail from))

pub same_name_self : (n : ℕ) (a : List ℕ) → same_name n a a ≡ true
same_name_self n a = key-same_name n a a refl
