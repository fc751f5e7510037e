-- ===== src/Portal/Tests.antt =====
-- A limiter of portal/ at which the theorems apply.
use api_gatewahy.Base.{
  ℕ, ◌≤◌, ◌≡◌, refl, Bool, true, false, List, [], ◌∷◌, Text, codes, length, ltb, arith,
}
use api_gatewahy.Portal.Limiter.{Limiter, allow, recent, hits_of}
use api_gatewahy.Portal.Limiter.Window.{IsKept, allow_decision}
use api_gatewahy.Portal.Limiter.Allowed.{
  new_limiter, allowed_times, of_last_hour, allowed_times-of_last_hour,
}

abbrev once_hit : Limiter
once_hit = record { hits = (codes "k", 5 ∷ []) ∷ []; calls = 1 }

once_hit-IsKept : IsKept once_hit
unfolding api_gatewahy.Base.contains
once_hit-IsKept = record { ordered = refl; once = refl }

allow_decision_example :
    (allow once_hit (codes "k") 2 9).1
    ≡ ltb (length (recent 9 (hits_of once_hit.hits (codes "k")))) 2
allow_decision_example = allow_decision once_hit (codes "k") 2 9 once_hit-IsKept

abbrev three_calls : List (Text × ℕ)
three_calls = (codes "k", 5) ∷ (codes "j", 7) ∷ (codes "k", 9) ∷ (codes "k", 12) ∷ []

allowed_twice : allowed_times new_limiter 2 (codes "k") three_calls ≡ 5 ∷ 9 ∷ []
unfolding allowed_times allow api_gatewahy.Base.filter api_gatewahy.Base.lookup
    api_gatewahy.Base.eqb api_gatewahy.Base.insert_key
allowed_twice = refl

allowed_times-of_last_hour_example :
    length (of_last_hour 20 (allowed_times new_limiter 2 (codes "k") three_calls)) ≤ 2
allowed_times-of_last_hour_example = allowed_times-of_last_hour 2 (codes "k") three_calls 20 refl
