-- ===== src/NatDict.antt =====
-- Dictionaries with numbers for keys, in insertion order, and sets of numbers.
use prodinamik_engine.Prelude.{
  ℕ, ◌≡◌, refl, Bool, false, ◌||◌, Option, none, some, List, [], ◌∷◌, ◌++◌, arith, ◌==◌,
  if◌then◌else◌,
}

abbrev pub NatDict {ℓ} : Type ℓ → Type ℓ
NatDict V = List (ℕ × V)

module _ {ℓ} {V : Type ℓ} where
  unfoldable pub get : NatDict V → ℕ → Option V
  get [] k = none
  get ((j, v) ∷ m) k = if j == k then some v else get m k

  unfoldable pub put : NatDict V → ℕ → V → NatDict V
  put [] k v = (k, v) ∷ []
  put ((j, w) ∷ m) k v = if j == k then (k, v) ∷ m else (j, w) ∷ put m k v

  unfoldable pub remove : NatDict V → ℕ → NatDict V
  remove [] k = []
  remove ((j, v) ∷ m) k = let rest = remove m k in if j == k then rest else (j, v) ∷ rest

  pub get-put :
      (d : NatDict V) (k : ℕ) (v : V) (j : ℕ)
      → get (put d k v) j ≡ (if k == j then some v else get d j)
  unfolding get put
  get-put [] k v j = refl
  get-put ((i, w) ∷ d) k v j = ground (arith, get-put d k v j)

  pub get-remove :
      (d : NatDict V) (k j : ℕ) → get (remove d k) j ≡ (if k == j then none else get d j)
  unfolding get remove
  get-remove [] k j = ground arith
  get-remove ((i, w) ∷ d) k j = ground (arith, get-remove d k j)

-- The keys of a dictionary whose values are not looked at.
abbrev pub has : List ℕ → ℕ → Bool
has [] a = false
has (x ∷ xs) a = x == a || has xs a

unfoldable pub include : ℕ → List ℕ → List ℕ
include a xs = if has xs a then xs else xs ++ a ∷ []

unfoldable pub exclude : ℕ → List ℕ → List ℕ
exclude a [] = []
exclude a (x ∷ xs) = let rest = exclude a xs in if x == a then rest else x ∷ rest

pub has-append : (xs ys : List ℕ) (b : ℕ) → has (xs ++ ys) b ≡ (has xs b || has ys b)
has-append [] ys b = refl
has-append (x ∷ xs) ys b = ground (arith, has-append xs ys b)

pub has-include : (a : ℕ) (xs : List ℕ) (b : ℕ) → has (include a xs) b ≡ (a == b || has xs b)
unfolding include
has-include a xs b = ground (arith, has-append xs (a ∷ []) b)

pub has-exclude :
    (a : ℕ) (xs : List ℕ) (b : ℕ) → has (exclude a xs) b ≡ (if a == b then false else has xs b)
unfolding exclude
has-exclude a [] b = ground arith
has-exclude a (x ∷ xs) b = ground (arith, has-exclude a xs b)
