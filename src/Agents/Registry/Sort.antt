-- ===== src/Agents/Registry/Sort.antt =====
-- The sort of nodes by load (engine/agent_runtime/agent_registry.py), by fractions compared without
-- division.
use native.Mathlib.Nat.{le_of_mul-le-mul_right, mul-le-mul_right, mul_right_comm}
use prodinamik_engine.Prelude.{
  ℕ, ◌*◌, ◌≤◌, ◌<◌, ◌≡◌, refl, inl, inr, ◌⊎◌, true, false, Bool-cases, List, [], ◌∷◌, arith, ltb,
}
use prodinamik_engine.Agents.Registry.{NodeInfo, ratio_lt}
use prodinamik_engine.Agents.Registry.Queries.{
  CapabilityQuery, query_of, insert_by_load, sort_by_load,
}

abbrev pub In : CapabilityQuery → List CapabilityQuery → Type 0
In x [] = ⊥
In x (y ∷ ys) = (x ≡ y) ⊎ In x ys

-- At most as loaded.
abbrev pub Lighter : CapabilityQuery → CapabilityQuery → Type 0
Lighter p q = ratio_lt q.ratio p.ratio ≡ false

abbrev pub HasRatio : CapabilityQuery → Type 0
HasRatio q = 0 < q.ratio.1

-- Least first.
abbrev pub IsSorted : List CapabilityQuery → Type 0
IsSorted [] = Unit
IsSorted (q ∷ qs) = ((x : CapabilityQuery) → In x qs → Lighter q x) × IsSorted qs

pub ratio_trans : (a b c d e f : ℕ) → 0 < d → a * d ≤ c * b → c * f ≤ e * d → a * f ≤ e * b
ratio_trans a b c d e f pos h h' = le_of_mul-le-mul_right left pos
  where
    left : a * f * d ≤ e * b * d
    left = omega (
      arith,
      mul_right_comm a f d,
      mul-le-mul_right f h,
      mul_right_comm c b f,
      mul-le-mul_right b h',
      mul_right_comm e d b,
    )

pub Lighter-trans : (p q r : CapabilityQuery) → HasRatio q → Lighter p q → Lighter q r → Lighter p r
Lighter-trans p q r pos h h' =
    let t = ratio_trans p.ratio.0 p.ratio.1 q.ratio.0 q.ratio.1 r.ratio.0 r.ratio.1 pos in
    ground (arith, t)

abbrev pub AllRatios : List CapabilityQuery → Type 0
AllRatios qs = (x : CapabilityQuery) → In x qs → HasRatio x

pub In-insert_by_load :
    (q : CapabilityQuery) (qs : List CapabilityQuery) (x : CapabilityQuery)
    → In x (insert_by_load q qs)
    → (x ≡ q) ⊎ In x qs
unfolding insert_by_load
In-insert_by_load q [] x = λ i. i
In-insert_by_load q (y ∷ ys) x = elim (Bool-cases (ratio_lt y.ratio q.ratio)) [
  | inl e ↦ rw e (λ i. elim i [
    | inl same ↦ inr (inl same)
    | inr later ↦ elim (In-insert_by_load q ys x later) [ inl a ↦ inl a | inr b ↦ inr (inr b) ]
  ])
  | inr e ↦ rw e (λ i. i)
]

pub insert_by_load-In :
    (q : CapabilityQuery) (qs : List CapabilityQuery) (x : CapabilityQuery)
    → (x ≡ q) ⊎ In x qs
    → In x (insert_by_load q qs)
unfolding insert_by_load
insert_by_load-In q [] x = λ i. i
insert_by_load-In q (y ∷ ys) x = elim (Bool-cases (ratio_lt y.ratio q.ratio)) [
  | inl e ↦ rw e (λ i. elim i [
    | inl new ↦ inr (insert_by_load-In q ys x (inl new))
    | inr (inl same) ↦ inl same
    | inr (inr later) ↦ inr (insert_by_load-In q ys x (inr later))
  ])
  | inr e ↦ rw e (λ i. i)
]

pub insert_by_load-IsSorted :
    (q : CapabilityQuery) (qs : List CapabilityQuery)
    → HasRatio q
    → AllRatios qs
    → IsSorted qs
    → IsSorted (insert_by_load q qs)
unfolding insert_by_load
insert_by_load-IsSorted q [] pos all s = (λ x i. elim i [ ], tt)
insert_by_load-IsSorted q (y ∷ ys) pos all s = elim (Bool-cases (ratio_lt y.ratio q.ratio)) [
  | inl e ↦ rw e (
    λ x i. elim (In-insert_by_load q ys x i) [
      | inl same ↦ rw same (ltb_asym (y.ratio.0 * q.ratio.1) (q.ratio.0 * y.ratio.1) e)
      | inr later ↦ s.0 x later
    ],
    insert_by_load-IsSorted q ys pos (λ x i. all x (inr i)) s.1,
  )
  | inr e ↦ rw e (
    λ x i. elim i [
      | inl same ↦ rw same e
      | inr later ↦ Lighter-trans q y x (all y (inl refl)) e (s.0 x later)
    ],
    s,
  )
]
  where
    ltb_asym : (m n : ℕ) → ltb m n ≡ true → ltb n m ≡ false
    ltb_asym m n h = ground arith

pub In-sort_by_load :
    (qs : List CapabilityQuery) (x : CapabilityQuery)
    → (In x (sort_by_load qs) → In x qs) × (In x qs → In x (sort_by_load qs))
unfolding sort_by_load
In-sort_by_load [] x = (λ i. i, λ i. i)
In-sort_by_load (q ∷ qs) x =
    let ih = In-sort_by_load qs x in
    (
      λ i. elim (In-insert_by_load q (sort_by_load qs) x i) [
        | inl a ↦ inl a
        | inr b ↦ inr (ih.0 b)
      ],
      λ i.
          insert_by_load-In q (sort_by_load qs) x (elim i [ inl a ↦ inl a | inr b ↦ inr (ih.1 b) ]),
    )

pub sort_by_load-IsSorted : (qs : List CapabilityQuery) → AllRatios qs → IsSorted (sort_by_load qs)
unfolding sort_by_load
sort_by_load-IsSorted [] all = tt
sort_by_load-IsSorted (q ∷ qs) all =
    insert_by_load-IsSorted q (sort_by_load qs) (all q (inl refl))
      (λ x i. all x (inr ((In-sort_by_load qs x).0 i)))
      (sort_by_load-IsSorted qs (λ x i. all x (inr i)))

pub query_of-HasRatio : (n : NodeInfo) → HasRatio (query_of n)
query_of-HasRatio n = ground arith
