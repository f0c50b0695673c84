-- ===== src/RateLimit/Laws.antt =====
-- Requests to the token bucket of engine/ratelimit.py, and what is granted.
use prodinamik_engine.Prelude.{
  ℕ, zero, suc, ◌+◌, ◌-◌, ◌*◌, ◌≤◌, ◌&&◌, ◌∙◌, ◌≡◌, refl, sym, ap, min, String, true, false, some,
  List, [], ◌∷◌, arith, leb, leb→le, str_eq, eq_iff, if◌then◌else◌, Bool-cases, Option-cases, inl,
  inr,
}
use prodinamik_engine.Dict
use prodinamik_engine.Dict.{Dict, get-put, get-put_self}
use prodinamik_engine.RateLimit.{Bucket, RateLimiter, refilled, check}

-- A request: its time, its key and its cost.
abbrev pub Request : Type 0
Request = ℕ × String × ℕ

-- The cost of the requests of a key that are granted.
unfoldable pub granted : RateLimiter → String → List Request → ℕ
granted l k [] = 0
granted l k ((now, key, cost) ∷ requests) =
    let (ok, wait, l') = check l now key cost in
    let rest = granted l' k requests in if str_eq key k && ok then cost + rest else rest

-- The requests come in the order of time, from `start` to `end`.
abbrev pub InOrder : ℕ → List Request → ℕ → Type 0
InOrder start [] end = start ≤ end
InOrder start ((now, key, cost) ∷ requests) end = (start ≤ now) × InOrder now requests end

mul_split : (r x y : ℕ) → (x + y) * r ≡ x * r + y * r
mul_split zero x y = omega arith
mul_split (suc r) x y = omega (arith, mul_split r x y)

-- Tokens that come in until `now` and from then on are those that come in until the end.
refill_split : (r a b c : ℕ) → a ≤ b → b ≤ c → (b - a) * r + (c - b) * r ≡ (c - a) * r
refill_split r a b c h h' = sym (ap (λ n. n * r) (split a b c h h') ∙ mul_split r (b - a) (c - b))
  where
    split : (a b c : ℕ) → a ≤ b → b ≤ c → c - a ≡ (b - a) + (c - b)
    split a b c h h' = omega arith

module _ (rate : ℕ) where
  -- Everything a bucket may spend from `last` to `end`, once it has been filled up and has spent.
  spend_bound :
      (tokens last now end burst cost rest spent : ℕ)
      → last ≤ now
      → now ≤ end
      → cost ≤ min burst (tokens + (now - last) * rate)
      → rest ≡ min burst (tokens + (now - last) * rate) - cost
      → spent ≤ rest + (end - now) * rate
      → cost + spent ≤ tokens + (end - last) * rate
  spend_bound tokens last now end burst cost rest spent h h' fits e s =
      let split = refill_split rate last now end h h' in omega (arith, split, fits, e, s)

InOrder-le :
    (start : ℕ) (requests : List Request) (end : ℕ) → InOrder start requests end → start ≤ end
InOrder-le start [] end h = h
InOrder-le start ((now, key, cost) ∷ requests) end h =
    let rest = InOrder-le now requests end h.1 in omega (arith, h.0, rest)

abbrev filled : Bucket → RateLimiter → ℕ → Bucket
filled b l now = record b { tokens = refilled l b now; last_refill = now }

abbrev spent_from : Bucket → RateLimiter → ℕ → ℕ → Bucket
spent_from b l now cost = record b { tokens = refilled l b now - cost; last_refill = now }

module _ (l : RateLimiter) (now : ℕ) (k : String) (cost : ℕ) where
  check-rate : (check l now k cost).2.rate ≡ l.rate
  unfolding check
  check-rate = elim (Option-cases (Dict.get l.buckets k)) [
    | inl e ↦ rw (e, check) refl
    | inr (b, e) ↦ elim (Bool-cases (leb cost (refilled l b now))) [
      | inl g ↦ rw (e, check) (rw (g, check) refl)
      | inr g ↦ rw (e, check) (rw (g, check) refl)
    ]
  ]

  check_other :
      (key : String)
      → str_eq k key ≡ false
      → Dict.get (check l now k cost).2.buckets key ≡ Dict.get l.buckets key
  unfolding check
  check_other key other = elim (Option-cases (Dict.get l.buckets k)) [
    | inl e ↦ rw (e, check) (rw get-put (rw other refl))
    | inr (b, e) ↦ elim (Bool-cases (leb cost (refilled l b now))) [
      | inl g ↦ rw (e, check) (rw (g, check) (rw get-put (rw other refl)))
      | inr g ↦ rw (e, check) (rw (g, check) (rw get-put (rw other refl)))
    ]
  ]

  module _ (b : Bucket) (found : Dict.get l.buckets k ≡ some b) where
    check_grants :
        leb cost (refilled l b now) ≡ true
        → ((check l now k cost).0 ≡ true)
          × (Dict.get (check l now k cost).2.buckets k ≡ some (spent_from b l now cost))
    unfolding check
    check_grants g = rw (found, check) (rw (g, check) (refl, get-put_self l.buckets k _))

    check_denies :
        leb cost (refilled l b now) ≡ false
        → ((check l now k cost).0 ≡ false)
          × (Dict.get (check l now k cost).2.buckets k ≡ some (filled b l now))
    unfolding check
    check_denies g = rw (found, check) (rw (g, check) (refl, get-put_self l.buckets k _))

-- From a limiter that has a bucket for the key, refilled at `start` or before: whatever requests of
-- this key and of others come in the order of time until `end`, the cost of the key's requests that
-- are granted is at most the tokens of its bucket and what the rate brings in until `end`.
pub granted_bounded :
    (requests : List Request) (l : RateLimiter) (b : Bucket) (key : String) (start end : ℕ)
    → Dict.get l.buckets key ≡ some b
    → b.last_refill ≤ start
    → InOrder start requests end
    → granted l key requests ≤ b.tokens + (end - b.last_refill) * l.rate
unfolding granted
granted_bounded [] l b key start end h before o = omega arith
granted_bounded ((now, k, cost) ∷ requests) l b key start end h before o =
    let later = InOrder-le now requests end o.1 in
    let l' = (check l now k cost).2 in
    let rate : (n : ℕ) → n * l'.rate ≡ n * l.rate =
      λ n. ap (λ r. n * r) (check-rate l now k cost) in
    elim (Bool-cases (str_eq k key)) [
      | inl same ↦
          let there = ap (λ x. Dict.get l.buckets x) ((eq_iff k key).0 same) ∙ h in
          elim (Bool-cases (leb cost (refilled l b now))) [
            | inl g ↦
                let c = check_grants l now k cost b there g in
                let found = ap (λ x. Dict.get l'.buckets x) (sym ((eq_iff k key).0 same)) ∙ c.1 in
                let ih =
                  granted_bounded requests l' (spent_from b l now cost) key now end found
                    (omega arith) o.1 in
                rw (same, c.0)
                  (spend_bound l.rate b.tokens b.last_refill now end l.burst cost
                    (refilled l b now - cost) (granted l' key requests) (omega (arith, before, o.0))
                    later (leb→le cost (refilled l b now) g) refl
                    (omega (arith, ih, rate (end - now))))
            | inr g ↦
                let c = check_denies l now k cost b there g in
                let found = ap (λ x. Dict.get l'.buckets x) (sym ((eq_iff k key).0 same)) ∙ c.1 in
                let ih =
                  granted_bounded requests l' (filled b l now) key now end found (omega arith)
                    o.1 in
                let bound =
                  spend_bound l.rate b.tokens b.last_refill now end l.burst 0 (refilled l b now)
                    (granted l' key requests) (omega (arith, before, o.0)) later (omega arith)
                    (omega arith) (omega (arith, ih, rate (end - now))) in
                rw (same, c.0) (omega (arith, bound))
          ]
      | inr other ↦
          let ih =
            granted_bounded requests l' b key now end (check_other l now k cost key other ∙ h)
              (omega (arith, before, o.0)) o.1 in
          rw other (omega (arith, ih, rate (end - b.last_refill)))
    ]
