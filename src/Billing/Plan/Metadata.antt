-- ===== src/Billing/Plan/Metadata.antt =====
-- `Plan.Metadata` and `PlanFromMetadata` of billing/plan.go: the plan that a subscription carries.
use api_gatewahy.Base.{
  ℕ, ◌<◌, ◌≡◌, refl, ap, ◌∙◌, Bool, true, false, not, ◌&&◌, ◌||◌, ℤ, pos, none, some, List, [], ◌∷◌,
  Text, codes, eqb, eqb_iff, is_empty, all, trim_space, split, join, free, split-join, lookup,
  format_int, parse_int, parse_int-format_int, Result, ok, err, arith, if◌then◌else◌,
}
use api_gatewahy.ApiAccess.Grants.{split_list, trimmed}
use api_gatewahy.Billing.Plan.{Plan}

-- ErrNoPlan
pub data MetadataError : Type 0 where
  no_plan : MetadataError

-- m[k], which is the empty string on a missing key
unfoldable pub value_at : List (Text × Text) → Text → Text
unfolding lookup
value_at m k = elim (lookup k m) [ none ↦ [] | some v ↦ v ]

-- `Metadata` of a plan
unfoldable pub metadata : Plan → ℕ → List (Text × Text)
metadata p account_id =
    (codes "package", p.package_key)
    ∷ (codes "interval", p.interval)
    ∷ (codes "games", join p.games (codes ","))
    ∷ (codes "stores", join p.stores (codes ","))
    ∷ (codes "addons", join p.mode_addons (codes ","))
    ∷ (codes "account_id", format_int account_id)
    ∷ []

-- PlanFromMetadata
unfoldable pub plan_from_metadata : List (Text × Text) → Result MetadataError (Plan × ℤ)
unfolding value_at
plan_from_metadata m =
    let read : Plan = record {
      package_key = value_at m (codes "package");
      interval = value_at m (codes "interval");
      games = split_list (value_at m (codes "games"));
      stores = split_list (value_at m (codes "stores"));
      mode_addons = split_list (value_at m (codes "addons"));
    } in
    if is_empty (value_at m (codes "package")) || is_empty (value_at m (codes "interval"))
    then err no_plan
    else ok (read, parse_int (value_at m (codes "account_id")))

-- A key that a comma-separated list keeps: it has no comma and no blanks around it, and is not empty.
abbrev pub is_listable : Text → Bool
is_listable s = free b',' s && eqb (trim_space s) s && not (is_empty s)

trimmed-listable : (xs : List Text) → all is_listable xs ≡ true → trimmed xs ≡ xs
unfolding trimmed
trimmed-listable [] h = refl
trimmed-listable (x ∷ xs) h = ground (arith, eqb_iff (trim_space x) x, trimmed-listable xs)

all-free : (xs : List Text) → all is_listable xs ≡ true → all (free b',') xs ≡ true
all-free [] h = refl
all-free (x ∷ xs) h = ground (arith, all-free xs)

split_list-nil : split_list [] ≡ []
unfolding split_list split trim_space
split_list-nil = refl

-- Reading a joined list of such keys gives the list.
pub split_list-join :
    (xs : List Text) → all is_listable xs ≡ true → split_list (join xs (codes ",")) ≡ xs
unfolding split_list join
split_list-join [] h = split_list-nil
split_list-join (x ∷ xs) h =
    ap trimmed (split-join x xs b',' (all-free (x ∷ xs) h)) ∙ trimmed-listable (x ∷ xs) h

-- A plan of a package and an interval, whose lists hold keys that a comma-separated list keeps, is
-- read back from its metadata, with the id of its account (a positive int64).
pub plan_from_metadata-metadata :
    (p : Plan) (account_id : ℕ)
    → is_empty p.package_key ≡ false
    → is_empty p.interval ≡ false
    → all is_listable p.games ≡ true
    → all is_listable p.stores ≡ true
    → all is_listable p.mode_addons ≡ true
    → account_id < 9223372036854775808
    → plan_from_metadata (metadata p account_id) ≡ ok (p, pos account_id)
unfolding plan_from_metadata metadata value_at eqb
plan_from_metadata-metadata p account_id k i g s a b =
    rw
      (
        k,
        i,
        split_list-join p.games g,
        split_list-join p.stores s,
        split_list-join p.mode_addons a,
        parse_int-format_int account_id b,
      )
      refl
