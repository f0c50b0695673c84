-- ===== src/Events/Log/Reopen.antt =====
-- Opening a store again (engine/event_store.py, `_load_last_sequence` and `_load_index`).
use prodinamik_engine.Prelude.{
  ℕ, ◌≤◌, ◌≡◌, refl, ap, sym, ◌∙◌, ◌⊎◌, inl, inr, max, true, false, Option, List, [], ◌∷◌, arith,
  ◌==◌, is_some, Bool-cases, leb,
}
use prodinamik_engine.NatDict
use prodinamik_engine.NatDict.{NatDict, has}
use prodinamik_engine.Events.{
  Event, EventRetentionPolicy, greatest, greatest_of, load_last_sequence, open_store,
}
use prodinamik_engine.Events.Log.{Log, top, reopened}
use prodinamik_engine.Events.Log.Ascending.{IsAscending, sequences, IsAscending-bound}
use prodinamik_engine.Events.Log.Append.{stored, IsStored}

le-greatest :
    (files : NatDict (Option Event)) (k : ℕ)
    → is_some (NatDict.get files k) ≡ true
    → k ≤ greatest files
unfolding NatDict.get
le-greatest [] k h = ground (arith, h)
le-greatest ((seq, c) ∷ files) k h = elim (Bool-cases (seq == k)) [
  | inl t ↦ ground (arith, t)
  | inr t ↦ omega (arith, le-greatest files k (ground (arith, t, h)))
]

at_greatest :
    (seq n : ℕ) (c : Option Event) (files : NatDict (Option Event))
    → leb n seq ≡ false
    → is_some (NatDict.get files n) ≡ true
    → is_some (NatDict.get ((seq, c) ∷ files) (max seq n)) ≡ true
unfolding NatDict.get
at_greatest seq n c files t h =
    let m : max seq n ≡ n = ground (arith, t) in
    let other : (seq == n) ≡ false = ground (arith, t) in rw (m, other) h

greatest-get :
    (files : NatDict (Option Event))
    → (greatest files ≡ 0) ⊎ (is_some (NatDict.get files (greatest files)) ≡ true)
unfolding NatDict.get
greatest-get [] = inl refl
greatest-get ((seq, c) ∷ files) = elim (Bool-cases (leb (greatest files) seq)) [
  | inl t ↦ inr (ground (arith, t))
  | inr t ↦ elim (greatest-get files) [
    | inl z ↦ ground (arith, t, z)
    | inr h ↦ inr (at_greatest seq (greatest files) c files t h)
  ]
]

IsAscending-top :
    (low high : ℕ) (es : List Event) → IsAscending low high es → IsAscending low (top low es) es
IsAscending-top low high [] a = omega arith
IsAscending-top low high (e ∷ es) a = (a.0, IsAscending-top e.sequence high es a.1)

pub IsAscending-raise :
    (low high high' : ℕ) (es : List Event)
    → high ≤ high'
    → IsAscending low high es
    → IsAscending low high' es
IsAscending-raise low high high' [] h a = omega arith
IsAscending-raise low high high' (e ∷ es) h a =
    (a.0, IsAscending-raise e.sequence high high' es h a.1)

le-top :
    (low high k : ℕ) (es : List Event)
    → IsAscending low high es
    → has (sequences es) k ≡ true
    → k ≤ high
le-top low high k [] a h = ground (arith, h)
le-top low high k (e ∷ es) a h = elim (Bool-cases (e.sequence == k)) [
  | inl t ↦ ground (arith, t, IsAscending-bound e.sequence high es a.1)
  | inr t ↦ le-top e.sequence high k es a.1 (ground (arith, t, h))
]

has-top :
    (low : ℕ) (es : List Event) → (top low es ≡ low) ⊎ (has (sequences es) (top low es) ≡ true)
has-top low [] = inl refl
has-top low (e ∷ es) = elim (has-top e.sequence es) [
  | inl h ↦ inr (ground (arith, h))
  | inr h ↦ inr (ground (arith, h))
]

-- The greatest number of a file is that of the latest event.
greatest_lem :
    (files : NatDict (Option Event)) (l : Log) → IsStored files l → greatest files ≡ top 0 l.events
greatest_lem files l h =
    let up : greatest files ≤ top 0 l.events = elim (greatest-get files) [
      | inl z ↦ omega (arith, z)
      | inr g ↦
          le-top 0 (top 0 l.events) (greatest files) l.events
            (IsAscending-top 0 l.last l.events h.0) (sym (h.2 (greatest files)) ∙ g)
    ] in
    let down : top 0 l.events ≤ greatest files = elim (has-top 0 l.events) [
      | inl z ↦ omega (arith, z)
      | inr g ↦ le-greatest files (top 0 l.events) (h.2 (top 0 l.events) ∙ g)
    ] in
    omega (arith, up, down)

pub open_store_lem :
    (p : EventRetentionPolicy) (files : NatDict (Option Event)) (l : Log) (archived : List ℕ)
    → IsStored files l
    → open_store archived (stored p files l) ≡ stored p files (reopened archived l)
unfolding open_store load_last_sequence
open_store_lem p files l archived h =
    ap (λ n. stored p files (record l { last = max n (greatest_of archived) }))
      (greatest_lem files l h)

pub reopened-IsStored :
    (files : NatDict (Option Event)) (l : Log) (archived : List ℕ)
    → IsStored files l
    → IsStored files (reopened archived l)
reopened-IsStored files l archived h = (
  IsAscending-raise 0 (top 0 l.events) (max (top 0 l.events) (greatest_of archived)) l.events
      (omega arith) (IsAscending-top 0 l.last l.events h.0),
  h.1,
  h.2,
  h.3,
)
