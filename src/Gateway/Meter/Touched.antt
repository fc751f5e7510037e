-- ===== src/Gateway/Meter/Touched.antt =====
-- The marks of TouchKeys in gateway/meter.go: the last use of each key of a stored batch.
use api_gatewahy.Base.{ℕ, ◌≡◌, refl, ◌&&◌, List, [], ◌∷◌, ltb, ◌==◌, arith, if◌then◌else◌}
use api_gatewahy.ApiAccess.Usage.{Usage}
use api_gatewahy.Gateway.Meter.{seen_at, see_at, last_seen}

-- The latest time at which a row of the key stands in the batch, 0 where there is none.
abbrev pub latest : ℕ → ℕ → List Usage → ℕ
latest k t [] = t
latest k t (u ∷ us) = latest k (if u.key_id == k && ltb t u.ts then u.ts else t) us

seen_at-see_at :
    (k j t : ℕ) (seen : List (ℕ × ℕ))
    → seen_at j (see_at k t seen) ≡ (if k == j then t else seen_at j seen)
unfolding seen_at see_at
seen_at-see_at k j t [] = refl
seen_at-see_at k j t ((i, s) ∷ seen) = ground (arith, seen_at-see_at k j t seen)

seen_at-last_seen_from :
    (k : ℕ) (seen : List (ℕ × ℕ)) (us : List Usage)
    → seen_at k (last_seen seen us) ≡ latest k (seen_at k seen) us
unfolding last_seen
seen_at-last_seen_from k seen [] = refl
seen_at-last_seen_from k seen (u ∷ us) = ground (
  arith,
  seen_at-last_seen_from k seen us,
  seen_at-last_seen_from k (see_at u.key_id u.ts seen) us,
  seen_at-see_at u.key_id k u.ts seen,
)

-- The mark of each key is the time of its latest row in the batch.
pub seen_at-last_seen : (k : ℕ) (us : List Usage) → seen_at k (last_seen [] us) ≡ latest k 0 us
unfolding seen_at
seen_at-last_seen k us = seen_at-last_seen_from k [] us
