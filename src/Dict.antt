-- ===== src/Dict.antt =====
-- Python's `dict` with text keys, as an association list in insertion order: an assignment to a key
-- that is there keeps its place, and a new key goes to the end.
use mathlib.Core.Path.{subst}
use prodinamik_engine.Prelude.{
  String, ◌≡◌, refl, Bool, false, Option, none, some, List, [], ◌∷◌, arith, str_eq, eq_iff, eq_refl,
  if◌then◌else◌, is_some, Bool-cases, inl, inr, ap, sym, ◌∙◌,
}

abbrev pub Dict {ℓ} : Type ℓ → Type ℓ
Dict V = List (String × V)

module _ {ℓ} {V : Type ℓ} where
  -- `d.get(k)`
  unfoldable pub get : Dict V → String → Option V
  get [] k = none
  get ((j, v) ∷ m) k = if str_eq j k then some v else get m k

  -- `d[k] = v`
  unfoldable pub put : Dict V → String → V → Dict V
  put [] k v = (k, v) ∷ []
  put ((j, w) ∷ m) k v = if str_eq j k then (k, v) ∷ m else (j, w) ∷ put m k v

  -- `d.pop(k, None)`
  unfoldable pub remove : Dict V → String → Dict V
  remove [] k = []
  remove ((j, v) ∷ m) k = let rest = remove m k in if str_eq j k then rest else (j, v) ∷ rest

  abbrev pub has : Dict V → String → Bool
  has d k = is_some (get d k)

  abbrev pub keys : Dict V → List String
  keys [] = []
  keys ((j, v) ∷ m) = j ∷ keys m

  abbrev pub values : Dict V → List V
  values [] = []
  values ((j, v) ∷ m) = v ∷ values m

  pub get-put :
      (d : Dict V) (k : String) (v : V) (j : String)
      → get (put d k v) j ≡ (if str_eq k j then some v else get d j)
  unfolding get put
  get-put [] k v j = refl
  get-put ((i, w) ∷ d) k v j = ground (arith, eq_iff k j, eq_iff i k, eq_iff i j, get-put d k v j)

  pub get-put_self : (d : Dict V) (k : String) (v : V) → get (put d k v) k ≡ some v
  get-put_self d k v = simp (get-put, eq_refl)

  pub get-remove :
      (d : Dict V) (k j : String) → get (remove d k) j ≡ (if str_eq k j then none else get d j)
  unfolding get remove
  get-remove [] k j = ground arith
  get-remove ((i, w) ∷ d) k j = ground (arith, eq_iff k j, eq_iff i k, eq_iff i j, get-remove d k j)

pub ruleset dict_laws = (get-put, get-remove)

-- No key occurs twice, as in every dictionary that `put` and `remove` build.
abbrev pub IsDistinct {ℓ} : {V : Type ℓ} → Dict V → Type ℓ
IsDistinct [] = Unit
IsDistinct ((k, v) ∷ d) = (get d k ≡ none) × IsDistinct d

module _ {ℓ} {V : Type ℓ} where
  pub IsDistinct-put : (d : Dict V) (k : String) (v : V) → IsDistinct d → IsDistinct (put d k v)
  unfolding get put
  IsDistinct-put [] k v h = (refl, tt)
  IsDistinct-put ((j, w) ∷ d) k v h = elim (Bool-cases (str_eq j k)) [
    | inl e ↦ rw e (ap (λ x. get d x) (sym ((eq_iff j k).0 e)) ∙ h.0, h.1)
    | inr e ↦
        rw e (ground (arith, get-put d k v j, eq_iff k j, eq_iff j k), IsDistinct-put d k v h.1)
  ]

  pub IsDistinct-remove : (d : Dict V) (k : String) → IsDistinct d → IsDistinct (remove d k)
  unfolding get remove
  IsDistinct-remove [] k h = tt
  IsDistinct-remove ((j, w) ∷ d) k h = elim (Bool-cases (str_eq j k)) [
    | inl e ↦ rw e (IsDistinct-remove d k h.1)
    | inr e ↦ rw e (ground (arith, get-remove d k j), IsDistinct-remove d k h.1)
  ]

-- To prove of every name what holds of one name and of the others.
pub at_key : (P : String → Type 0) (j k : String) → P j → (str_eq j k ≡ false → P k) → P k
at_key P j k own other = elim (Bool-cases (str_eq j k)) [
  | inl t ↦ subst P ((eq_iff j k).0 t) own
  | inr t ↦ other t
]
