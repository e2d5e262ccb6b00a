-- ===== src/RateLimit/Tests.antt =====
-- Two clients within a minute, with a limit of two.
use manage_call_ai.Base.{ℕ, suc, String, ◌≡◌, List, [], ◌∷◌, arith, map_get}
use manage_call_ai.RateLimit.{RateLimitPolicy}
use manage_call_ai.RateLimit.Window.{min, requests_of, allowed_of, allowed_of-window}

abbrev policy : String → RateLimitPolicy
policy key = record { name = "auth"; limit = 2; window_ms = 60000 }

abbrev later : List (ℕ × String)
later = (1100, "b") ∷ (1200, "a") ∷ (1300, "a") ∷ []

allowed_of-window_example :
    allowed_of policy "a" ((1000, "a") ∷ later) [] ≡ min 2 (suc (requests_of "a" later))
unfolding map_get
allowed_of-window_example =
    allowed_of-window policy "a" 1000 later [] tt (omega arith, (omega arith, (omega arith, tt)))
