-- ===== src/Raft/Merge/Laws.antt =====
-- What a merge of two states returns, and when two replicas that merge come to agree.
use prodinamik_engine.Prelude.{
  ◌≡◌, ◌≢◌, refl, sym, ◌∙◌, ap, ◌⊎◌, inl, inr, String, true, false, none, some, List, [], ◌∷◌,
  arith, eq_iff, is_some, Option-cases, if◌then◌else◌, max,
}
use native.Mathlib.Decide.{ℕ_discrete}
use prodinamik_engine.Dict
use prodinamik_engine.Dict.{Dict}
use prodinamik_engine.Raft.Types.{NodeState}
use prodinamik_engine.Raft.Merge.{is_empty, path_between, is_on_same_path, ends_in, merge}
use prodinamik_engine.Raft.Merge.Search.{IsPath}
use prodinamik_engine.Raft.Merge.Search.Complete.{Reaches, IsPath-Reaches, path_between_lem}

IsPath-ends_in :
    (t : Dict (List String)) (a b : String) (p : List String)
    → IsPath t a b p
    → ends_in (some p) b ≡ true
unfolding ends_in
IsPath-ends_in t a b [] h = elim h [ ]
IsPath-ends_in t a b (x ∷ []) h = (eq_iff x b).1 h.1
IsPath-ends_in t a b (x ∷ y ∷ p) h = IsPath-ends_in t y b (y ∷ p) h.2

none-ends_in : (s : String) → ends_in none s ≡ false
unfolding ends_in
none-ends_in s = refl

IsPath-empty : (a b : String) (p : List String) → IsPath [] a b p → a ≡ b
unfolding Dict.get
IsPath-empty a b [] h = elim h [ ]
IsPath-empty a b (x ∷ []) h = sym h.0 ∙ h.1
IsPath-empty a b (x ∷ y ∷ p) h = cc (h.1)

-- A path between two different states makes the table not empty.
path-is_empty :
    (t : Dict (List String)) (a b : String) (p : List String)
    → a ≢ b
    → IsPath t a b p
    → is_empty t ≡ false
path-is_empty [] a b p ne h = absurd (ne (IsPath-empty a b p h))
path-is_empty (x ∷ t) a b p ne h = refl

-- Two states of one version, at different places: the remote one wins exactly if a path of the
-- table leads from the local one to it.
merge_concurrent :
    (l r : NodeState) (t : Dict (List String))
    → l.version ≡ r.version
    → l.current_state ≢ r.current_state
    → merge l r t ≡ (if is_some (path_between t l.current_state r.current_state) then r else l)
unfolding merge is_on_same_path
merge_concurrent l r t same ne =
    elim (Option-cases (path_between t l.current_state r.current_state)) [
      | inl missed ↦
          ground
            (arith, missed, none-ends_in r.current_state, eq_iff r.current_state l.current_state)
      | inr (p, found) ↦
          let path = (path_between_lem t l.current_state r.current_state).0 p found in
          ground (
            arith,
            found,
            eq_iff r.current_state l.current_state,
            IsPath-ends_in t l.current_state r.current_state p path,
            path-is_empty t l.current_state r.current_state p ne path,
          )
    ]

-- A merge keeps the higher version, and returns one of its two states.
pub merge_chooses :
    (l r : NodeState) (t : Dict (List String))
    → ((merge l r t).version ≡ max l.version r.version) × ((merge l r t ≡ l) ⊎ (merge l r t ≡ r))
unfolding merge
merge_chooses l r t = (ground arith, ground arith)

-- Two states of one version at different places: the remote one is taken if the table leads from the
-- local one to it, and the local one is kept if it does not.
pub merge_follows_path :
    (l r : NodeState) (t : Dict (List String))
    → l.version ≡ r.version
    → l.current_state ≢ r.current_state
    → (Reaches t l.current_state r.current_state → merge l r t ≡ r)
      × (¬ Reaches t l.current_state r.current_state → merge l r t ≡ l)
merge_follows_path l r t same ne =
    let between = path_between_lem t l.current_state r.current_state in
    (
      λ reach.
          let (p, found) = between.1 reach in
          merge_concurrent l r t same ne ∙ ground (arith, found),
      λ not_reach.
          merge_concurrent l r t same ne
          ∙ elim (Option-cases (path_between t l.current_state r.current_state)) [
            | inl missed ↦ ground (arith, missed)
            | inr (p, found) ↦ absurd (not_reach (IsPath-Reaches t _ _ p (between.0 p found)))
          ],
    )

versions_decide :
    (l r : NodeState) (t : Dict (List String)) → l.version ≢ r.version → merge l r t ≡ merge r l t
unfolding merge
versions_decide l r t ne = ground arith

-- The table leads from the one place to the other, and not back.
pub record OneWay (t : Dict (List String)) (a b : String) : Type 0 where
  pub forth : Reaches t a b
  pub not_back : ¬ Reaches t b a

-- Two replicas that merge each other's state come to agree, if their versions differ, or the table
-- leads from one of the two places to the other and not back.
pub merge_agrees :
    (l r : NodeState) (t : Dict (List String))
    → (l.version ≢ r.version)
      ⊎ (OneWay t l.current_state r.current_state ⊎ OneWay t r.current_state l.current_state)
    → merge l r t ≡ merge r l t
merge_agrees l r t h = elim (ℕ_discrete l.version r.version) [
  | no ne ↦ versions_decide l r t ne
  | yes same ↦ elim h [
    | inl ne ↦ absurd (ne same)
    | inr (inl w) ↦
        let apart = λ (e : l.current_state ≡ r.current_state). w.not_back (stay w.forth e) in
        (merge_follows_path l r t same apart).0 w.forth
        ∙ sym ((merge_follows_path r l t (sym same) (λ e. apart (sym e))).1 w.not_back)
    | inr (inr w) ↦
        let apart = λ (e : r.current_state ≡ l.current_state). w.not_back (stay w.forth e) in
        (merge_follows_path l r t same (λ e. apart (sym e))).1 w.not_back
        ∙ sym ((merge_follows_path r l t (sym same) apart).0 w.forth)
  ]
]
  where
    stay : {a b : String} → Reaches t a b → a ≡ b → Reaches t b a
    stay reach e = rw e Reaches.here

-- Two replicas of one version at different places, with no way in the table between the two, keep
-- apart: each merge returns the replica's own state.
pub merge_keeps_apart :
    (l r : NodeState) (t : Dict (List String))
    → l.version ≡ r.version
    → l.current_state ≢ r.current_state
    → ¬ Reaches t l.current_state r.current_state
    → ¬ Reaches t r.current_state l.current_state
    → merge l r t ≢ merge r l t
merge_keeps_apart l r t same ne out back e = ne (
    ap (λ (s : NodeState). s.current_state)
      (sym ((merge_follows_path l r t same ne).1 out)
        ∙ e
        ∙ (merge_follows_path r l t (sym same) (λ p. ne (sym p))).1 back))
