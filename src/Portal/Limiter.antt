-- ===== src/Portal/Limiter.antt =====
-- portal/limiter.go: events per key over a sliding hour.
-- `t.After(now.Add(-time.Hour))` is `now < t + hour`, and `Before` is `t + hour < now`. Of `calls`
-- only the remainder by 256 is read, which the counter's wrap-around keeps.
pub mod Window
pub mod Kept
pub mod Allowed
use api_gatewahy.Base.{
  ℕ, ◌+◌, ◌*◌, ◌%◌, Bool, true, false, Option, none, some, List, [], ◌∷◌, ◌++◌, Text, ltb, leb,
  ◌==◌, length, filter, lookup, insert_key, if◌then◌else◌,
}

abbrev pub hour : ℕ
hour = 3_600_000_000_000

abbrev pub Hits : Type 0
Hits = List (Text × List ℕ)

pub record Limiter : Type 0 where
  pub hits : Hits
  pub calls : ℕ

-- A missing key reads as no hits.
abbrev or_empty : Option (List ℕ) → List ℕ
or_empty none = []
or_empty (some ts) = ts

unfoldable pub hits_of : Hits → Text → List ℕ
hits_of m key = or_empty (lookup key m)

-- The hits of the last hour.
unfoldable pub recent : ℕ → List ℕ → List ℕ
recent now ts = filter (λ t. ltb now (t + hour)) ts

-- The newest hit is older than an hour, or there is none.
is_stale : ℕ → List ℕ → Bool
is_stale now [] = true
is_stale now (t ∷ []) = ltb (t + hour) now
is_stale now (t ∷ u ∷ ts) = is_stale now (u ∷ ts)

-- sweep
pub sweep : ℕ → Hits → Hits
sweep now [] = []
sweep now ((k, ts) ∷ m) = let rest = sweep now m in if is_stale now ts then rest else (k, ts) ∷ rest

-- Every 256th call sweeps.
pub swept : ℕ → ℕ → Hits → Hits
swept now calls m = if calls % 256 == 0 then sweep now m else m

unfoldable pub record_hit : ℕ → Hits → Text → ℕ → ℕ → Limiter × Bool
record_hit calls hits key limit now =
    let kept = recent now (hits_of hits key) in
    if leb limit (length kept)
    then (record { hits = hits; calls = calls }, false)
    else (record { hits = insert_key key (kept ++ (now ∷ [])) hits; calls = calls }, true)

unfoldable pub allow : Limiter → Text → ℕ → ℕ → Limiter × Bool
unfolding hits_of recent is_stale sweep swept record_hit
allow l key limit now = record_hit (l.calls + 1) (swept now (l.calls + 1) l.hits) key limit now
