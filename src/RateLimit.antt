-- ===== src/RateLimit.antt =====
-- The token bucket (engine/ratelimit.py). Time is counted in ticks and tokens in a unit so fine that
-- `rate`, the tokens of one tick, is whole; a wait is given in tokens that are missing, which the
-- code divides by the rate.
pub mod Laws
use prodinamik_engine.Prelude.{
  ℕ, ◌+◌, ◌-◌, ◌*◌, min, String, Bool, true, false, Option, none, some, List, [], ◌∷◌, leb, ◌==◌,
  str_eq, get_or, if◌then◌else◌,
}
use prodinamik_engine.Dict
use prodinamik_engine.Dict.{Dict}

pub record Bucket : Type 0 where
  pub tokens : ℕ
  pub last_refill : ℕ
  pub burst : ℕ

pub record KeyStats : Type 0 where
  pub allowed : ℕ
  pub denied : ℕ
  pub last : ℕ

pub record RateLimiter : Type 0 where
  pub rate : ℕ
  pub burst : ℕ
  pub buckets : Dict Bucket
  pub stats : Dict KeyStats

-- `burst or rate`: 0 counts as not given.
abbrev pub burst_of : Option ℕ → ℕ → ℕ
burst_of none rate = rate
burst_of (some b) rate = if b == 0 then rate else b

abbrev pub new_limiter : ℕ → Option ℕ → RateLimiter
new_limiter rate burst = record {
  rate = rate;
  burst = burst_of burst rate;
  buckets = [];
  stats = [];
}

abbrev pub stats_of : Dict KeyStats → String → KeyStats
stats_of stats key = get_or (Dict.get stats key) (record { allowed = 0; denied = 0; last = 0 })

abbrev pub count_allowed : Dict KeyStats → String → ℕ → Dict KeyStats
count_allowed stats key now =
    let s = stats_of stats key in
    Dict.put stats key (record { allowed = s.allowed + 1; denied = s.denied; last = now })

abbrev pub count_denied : Dict KeyStats → String → ℕ → Dict KeyStats
count_denied stats key now =
    let s = stats_of stats key in
    Dict.put stats key (record { allowed = s.allowed; denied = s.denied + 1; last = now })

-- `min(self.burst, bucket.tokens + elapsed * self.rate)`
abbrev pub refilled : RateLimiter → Bucket → ℕ → ℕ
refilled l b now = min l.burst (b.tokens + (now - b.last_refill) * l.rate)

abbrev pub with_bucket : RateLimiter → String → Bucket → Dict KeyStats → RateLimiter
with_bucket l key b stats = record l { buckets = Dict.put l.buckets key b; stats = stats }

-- `check`: whether the request is allowed, the tokens that are missing, and the limiter after it. The
-- first request of a key is allowed at any cost.
unfoldable pub check : RateLimiter → ℕ → String → ℕ → Bool × ℕ × RateLimiter
check l now key cost = elim (Dict.get l.buckets key) [
  | none ↦ (
    true,
    0,
    with_bucket l key (record { tokens = l.burst - cost; last_refill = now; burst = l.burst })
        (count_allowed l.stats key now),
  )
  | some b ↦
      if leb cost (refilled l b now)
      then (
        true,
        0,
        with_bucket l key (record b { tokens = refilled l b now - cost; last_refill = now })
            (count_allowed l.stats key now),
      )
      else (
        false,
        cost - refilled l b now,
        with_bucket l key (record b { tokens = refilled l b now; last_refill = now })
            (count_denied l.stats key now),
      )
]

-- `reset`: one key, or all of them.
unfoldable pub reset : RateLimiter → Option String → RateLimiter
reset l none = record l { buckets = []; stats = [] }
reset l (some key) =
    if str_eq key ""
    then record l { buckets = []; stats = [] }
    else record l { buckets = Dict.remove l.buckets key; stats = Dict.remove l.stats key }
