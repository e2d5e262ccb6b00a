-- ===== src/RateLimit/Window.antt =====
-- How many requests a window allows, whatever other clients do in between.
use manage_call_ai.Base.{
  ℕ, suc, ◌+◌, ◌-◌, ◌≤◌, ◌<◌, String, ◌≡◌, refl, ap, ◌∙◌, false, not, ◌&&◌, List, [], ◌∷◌, All,
  Option, none, some, if◌then◌else◌, arith, str_eq, eq_refl, leb, map_get, map_set, map_get-map_set,
  Bool-cases, str_eq-cases, inl, inr,
}
use manage_call_ai.RateLimit.{
  RateLimitBucket, RateLimitPolicy, Buckets, fresh, bucket_at, spend, take,
}

abbrev pub min : ℕ → ℕ → ℕ
min a b = if leb a b then a else b

-- The requests with a key, among requests by their time and key.
abbrev pub requests_of : String → List (ℕ × String) → ℕ
requests_of key [] = 0
requests_of key ((now, k) ∷ rest) =
    let more = requests_of key rest in if str_eq k key then suc more else more

abbrev spent : RateLimitBucket → RateLimitBucket
spent b = record { remaining = b.remaining - 1; reset_at = b.reset_at }

spend-buckets :
    (key : String) (b : RateLimitBucket) (buckets : Buckets)
    → (spend key b buckets).buckets ≡ map_set key (spent b) buckets
unfolding spend
spend-buckets key b buckets = elim (Bool-cases (leb b.remaining 0)) [
  | inl e ↦
      let same : b.remaining ≡ b.remaining - 1 = ground (arith, e) in
      rw e (ap (λ n. map_set key (record { remaining = n; reset_at = b.reset_at }) buckets) same)
  | inr ne ↦ rw ne refl
]

spend-allowed :
    (key : String) (b : RateLimitBucket) (buckets : Buckets)
    → (spend key b buckets).result.allowed ≡ not (leb b.remaining 0)
unfolding spend
spend-allowed key b buckets = ground arith

module _ (policy_of : String → RateLimitPolicy) where
  -- How many requests with a key are allowed.
  abbrev pub allowed_of : String → List (ℕ × String) → Buckets → ℕ
  allowed_of key [] buckets = 0
  allowed_of key ((now, k) ∷ rest) buckets =
      let t = take now k (policy_of k) buckets in
      let more = allowed_of key rest t.buckets in
      if str_eq k key && t.result.allowed then suc more else more

  take-other :
      (now : ℕ) (key k : String) (buckets : Buckets)
      → str_eq k key ≡ false
      → map_get key (take now k (policy_of k) buckets).buckets ≡ map_get key buckets
  unfolding take
  take-other now key k buckets ne =
      let b = bucket_at (policy_of k) now (map_get k buckets) in
      ap (map_get key) (spend-buckets k b buckets)
      ∙ map_get-map_set k key (spent b) buckets
      ∙ rw ne refl

  live :
      (key : String) (now : ℕ) (b : RateLimitBucket)
      → now < b.reset_at
      → bucket_at (policy_of key) now (some b) ≡ b
  unfolding bucket_at
  live key now b l = ground (arith, l)

  take-bucket :
      (now : ℕ) (key : String) (buckets : Buckets) (b : RateLimitBucket)
      → bucket_at (policy_of key) now (map_get key buckets) ≡ b
      → map_get key (take now key (policy_of key) buckets).buckets ≡ some (spent b)
  unfolding take
  take-bucket now key buckets b e = rw e (
      ap (map_get key) (spend-buckets key b buckets)
      ∙ map_get-map_set key key (spent b) buckets
      ∙ rw eq_refl refl)

  take-allowed :
      (now : ℕ) (key : String) (buckets : Buckets) (b : RateLimitBucket)
      → bucket_at (policy_of key) now (map_get key buckets) ≡ b
      → (take now key (policy_of key) buckets).result.allowed ≡ not (leb b.remaining 0)
  unfolding take
  take-allowed now key buckets b e = rw e (spend-allowed key b buckets)

  abbrev Before : ℕ → List (ℕ × String) → Type 0
  Before reset_at requests = All (λ r. r.0 < reset_at) requests

  -- A request that finds the bucket, and those after it.
  allowed_first :
      (now : ℕ) (key : String) (rest : List (ℕ × String)) (buckets : Buckets) (b : RateLimitBucket)
      → bucket_at (policy_of key) now (map_get key buckets) ≡ b
      → allowed_of key rest (take now key (policy_of key) buckets).buckets
        ≡ min (b.remaining - 1) (requests_of key rest)
      → allowed_of key ((now, key) ∷ rest) buckets ≡ min b.remaining (suc (requests_of key rest))
  allowed_first now key rest buckets b at more =
      rw (eq_refl, take-allowed now key buckets b at, more) (ground arith)

  -- Requests within the window of a bucket.
  allowed_in_window :
      (key : String) (requests : List (ℕ × String)) (buckets : Buckets) (b : RateLimitBucket)
      → map_get key buckets ≡ some b
      → Before b.reset_at requests
      → allowed_of key requests buckets ≡ min b.remaining (requests_of key requests)
  allowed_in_window key [] buckets b h l = ground arith
  allowed_in_window key ((now, k) ∷ rest) buckets b h (l, ls) = elim (str_eq-cases k key) [
    | inl e ↦
        let at : bucket_at (policy_of key) now (map_get key buckets) ≡ b =
          rw h (live key now b l) in
        let more =
          allowed_in_window key rest (take now key (policy_of key) buckets).buckets (spent b)
            (take-bucket now key buckets b at) ls in
        rw e (allowed_first now key rest buckets b at more ∙ rw eq_refl refl)
    | inr ne ↦ rw ne (
        allowed_in_window key rest (take now k (policy_of k) buckets).buckets b
          (take-other now key k buckets ne ∙ h) ls)
  ]

-- There is no bucket, or its window is over.
abbrev pub IsOver : ℕ → Option RateLimitBucket → Type 0
IsOver now none = Unit
IsOver now (some b) = b.reset_at ≤ now

bucket_at-fresh :
    (policy : RateLimitPolicy) (now : ℕ) (o : Option RateLimitBucket)
    → IsOver now o
    → bucket_at policy now o ≡ fresh policy now
unfolding bucket_at
bucket_at-fresh policy now none h = refl
bucket_at-fresh policy now (some b) h = ground (arith, h)

-- Where a request of a key opens a window, and all requests that follow, of this key and of others in
-- any order, come before the window's end, the limiter allows as many of the key's requests as there
-- are, and no more than the limit. The window is fixed and not sliding: requests before it, just before
-- it too, do not count.
pub allowed_of-window :
    (policy_of : String → RateLimitPolicy) (key : String) (start : ℕ) (requests : List (ℕ × String))
    (buckets : Buckets)
    → IsOver start (map_get key buckets)
    → All (λ r. r.0 < start + (policy_of key).window_ms) requests
    → allowed_of policy_of key ((start, key) ∷ requests) buckets
      ≡ min (policy_of key).limit (suc (requests_of key requests))
allowed_of-window policy_of key start requests buckets over h =
    let b = fresh (policy_of key) start in
    let at = bucket_at-fresh (policy_of key) start (map_get key buckets) over in
    allowed_first policy_of start key requests buckets b at (
      allowed_in_window policy_of key requests (take start key (policy_of key) buckets).buckets
        (spent b) (take-bucket policy_of start key buckets b at) h)
