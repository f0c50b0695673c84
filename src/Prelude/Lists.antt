-- ===== src/Prelude/Lists.antt =====
-- Lists measured and indexed by native numbers, and lists of names used as sets.
use Prim.Native.Nat.{ℕ, zero, suc, ◌+◌, ◌≤◌, ◌<◌, min}
use Prim.Native.String.{String}
use mathlib.Core.Path.{◌≡◌, refl, ap}
use mathlib.Core.Bool.{Bool, false, ◌||◌}
use mathlib.Core.List.{List, [], ◌∷◌, ◌++◌}
use mathlib.Core.Option.{Option, none, some}
use native.Mathlib.Omega.{arith}
use text.Mathlib.TextEquality.{eq_iff}
use prodinamik_engine.Prelude.Tests.{str_eq, if◌then◌else◌}

module _ {ℓ} {A : Type ℓ} where
  abbrev pub length : List A → ℕ
  length [] = 0
  length (x ∷ xs) = suc (length xs)

  abbrev pub get_elem? : List A → ℕ → Option A
  get_elem? [] i = none
  get_elem? (x ∷ xs) zero = some x
  get_elem? (x ∷ xs) (suc i) = get_elem? xs i

  abbrev pub take : ℕ → List A → List A
  take zero xs = []
  take (suc n) [] = []
  take (suc n) (x ∷ xs) = x ∷ take n xs

  pub length-append : (xs ys : List A) → length (xs ++ ys) ≡ length xs + length ys
  length-append [] ys = omega arith
  length-append (x ∷ xs) ys = omega (arith, length-append xs ys)

  pub length-take : (n : ℕ) (xs : List A) → length (take n xs) ≡ min n (length xs)
  length-take zero xs = omega arith
  length-take (suc n) [] = omega arith
  length-take (suc n) (x ∷ xs) = omega (arith, length-take n xs)

  -- The elements that pass a test, in order.
  unfoldable pub select : (A → Bool) → List A → List A
  select p [] = []
  select p (x ∷ xs) = let rest = select p xs in if p x then x ∷ rest else rest

  pub length-select : (p : A → Bool) (xs : List A) → length (select p xs) ≤ length xs
  unfolding select
  length-select p [] = omega arith
  length-select p (x ∷ xs) = ground (arith, length-select p xs)

  -- A test that holds of some element, and one that holds of all.
  abbrev pub any : (A → Bool) → List A → Bool
  any p [] = false
  any p (x ∷ xs) = p x || any p xs

  pub get_elem?-append_left :
      (xs ys : List A) (i : ℕ) → i < length xs → get_elem? (xs ++ ys) i ≡ get_elem? xs i
  get_elem?-append_left [] ys i h = elim h [ ]
  get_elem?-append_left (x ∷ xs) ys zero h = refl
  get_elem?-append_left (x ∷ xs) ys (suc i) h = get_elem?-append_left xs ys i (omega arith)

  pub get_elem?-append_end : (xs : List A) (y : A) → get_elem? (xs ++ y ∷ []) (length xs) ≡ some y
  get_elem?-append_end [] y = refl
  get_elem?-append_end (x ∷ xs) y = get_elem?-append_end xs y

  pub get_elem?-take :
      (n : ℕ) (xs : List A) (i : ℕ) → i < n → get_elem? (take n xs) i ≡ get_elem? xs i
  get_elem?-take zero xs i h = elim h [ ]
  get_elem?-take (suc n) [] i h = refl
  get_elem?-take (suc n) (x ∷ xs) zero h = refl
  get_elem?-take (suc n) (x ∷ xs) (suc i) h = get_elem?-take n xs i (omega arith)

  pub get_elem?-some : (xs : List A) (i : ℕ) → i < length xs → (a : A) × (get_elem? xs i ≡ some a)
  get_elem?-some [] i h = elim h [ ]
  get_elem?-some (x ∷ xs) zero h = (x, refl)
  get_elem?-some (x ∷ xs) (suc i) h = get_elem?-some xs i (omega arith)

  -- A prefix one longer has the next element at its end.
  pub take-suc :
      (n : ℕ) (xs : List A) (a : A)
      → get_elem? xs n ≡ some a
      → take (suc n) xs ≡ take n xs ++ a ∷ []
  take-suc zero [] a h = ground arith
  take-suc zero (x ∷ xs) a h = ground arith
  take-suc (suc n) [] a h = ground arith
  take-suc (suc n) (x ∷ xs) a h = ap (λ t. x ∷ t) (take-suc n xs a h)

  pub take-append : (n : ℕ) (xs ys : List A) → n ≤ length xs → take n (xs ++ ys) ≡ take n xs
  take-append zero xs ys h = refl
  take-append (suc n) [] ys h = elim h [ ]
  take-append (suc n) (x ∷ xs) ys h = ap (λ t. x ∷ t) (take-append n xs ys (omega arith))

  pub take-length : (xs : List A) → take (length xs) xs ≡ xs
  take-length [] = refl
  take-length (x ∷ xs) = ap (λ t. x ∷ t) (take-length xs)

  pub take-take : (n m : ℕ) (xs : List A) → n ≤ m → take n (take m xs) ≡ take n xs
  take-take zero m xs h = refl
  take-take (suc n) zero xs h = elim h [ ]
  take-take (suc n) (suc m) [] h = refl
  take-take (suc n) (suc m) (x ∷ xs) h = ap (λ t. x ∷ t) (take-take n m xs (omega arith))

-- A set of names: membership, `add` and `discard`.
abbrev pub contains : List String → String → Bool
contains [] a = false
contains (x ∷ xs) a = str_eq x a || contains xs a

unfoldable pub add : String → List String → List String
add a xs = if contains xs a then xs else xs ++ a ∷ []

unfoldable pub discard : String → List String → List String
discard a [] = []
discard a (x ∷ xs) = let rest = discard a xs in if str_eq x a then rest else x ∷ rest

pub contains-append :
    (xs ys : List String) (b : String) → contains (xs ++ ys) b ≡ (contains xs b || contains ys b)
contains-append [] ys b = refl
contains-append (x ∷ xs) ys b = ground (arith, contains-append xs ys b)

pub contains-add :
    (a : String) (xs : List String) (b : String)
    → contains (add a xs) b ≡ (str_eq a b || contains xs b)
unfolding add
contains-add a xs b = ground (arith, contains-append xs (a ∷ []) b, eq_iff a b)

pub contains-discard :
    (a : String) (xs : List String) (b : String)
    → contains (discard a xs) b ≡ (if str_eq a b then false else contains xs b)
unfolding discard
contains-discard a [] b = ground arith
contains-discard a (x ∷ xs) b =
    ground (arith, contains-discard a xs b, eq_iff a b, eq_iff x b, eq_iff x a)

pub length-add-le : (a : String) (xs : List String) → length (add a xs) ≤ suc (length xs)
unfolding add
length-add-le a xs = ground (arith, length-append xs (a ∷ []))

pub length-le-add : (a : String) (xs : List String) → length xs ≤ length (add a xs)
unfolding add
length-le-add a xs = ground (arith, length-append xs (a ∷ []))
