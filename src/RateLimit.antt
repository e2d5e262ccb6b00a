-- ===== src/RateLimit.antt =====
-- The in-memory limiter of apps/api/src/security/rate-limit.ts; `now` is `this.now()` in milliseconds.
pub mod Window
pub mod Tests
use manage_call_ai.Base.{
  ℕ, ◌+◌, ◌-◌, String, Bool, true, false, List, Option, none, some, if◌then◌else◌, leb, map_get,
  map_set,
}

pub record RateLimitBucket : Type 0 where
  pub remaining : ℕ
  pub reset_at : ℕ

pub record RateLimitPolicy : Type 0 where
  pub name : String
  pub limit : ℕ
  pub window_ms : ℕ

pub record RateLimitResult : Type 0 where
  pub allowed : Bool
  pub remaining : ℕ
  pub reset_at : ℕ

abbrev pub Buckets : Type 0
Buckets = List (String × RateLimitBucket)

pub record Taken : Type 0 where
  pub buckets : Buckets
  pub result : RateLimitResult

abbrev pub fresh : RateLimitPolicy → ℕ → RateLimitBucket
fresh policy now = record { remaining = policy.limit; reset_at = now + policy.window_ms }

-- `!existing || existing.resetAt <= now ? … : existing`.
unfoldable pub bucket_at : RateLimitPolicy → ℕ → Option RateLimitBucket → RateLimitBucket
bucket_at policy now none = fresh policy now
bucket_at policy now (some b) = if leb b.reset_at now then fresh policy now else b

unfoldable pub spend : String → RateLimitBucket → Buckets → Taken
spend key b buckets =
    if leb b.remaining 0
    then record {
      buckets = map_set key b buckets;
      result = record { allowed = false; remaining = 0; reset_at = b.reset_at };
    }
    else record {
      buckets = map_set key (record { remaining = b.remaining - 1; reset_at = b.reset_at }) buckets;
      result = record { allowed = true; remaining = b.remaining - 1; reset_at = b.reset_at };
    }

unfoldable pub take : ℕ → String → RateLimitPolicy → Buckets → Taken
take now key policy buckets = spend key (bucket_at policy now (map_get key buckets)) buckets
