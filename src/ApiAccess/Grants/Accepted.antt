-- ===== src/ApiAccess/Grants/Accepted.antt =====
-- What a manual grant that is accepted satisfies.
use api_gatewahy.Base.{
  ◌≡◌, ◌≢◌, refl, ◌≤◌, ℕ, inl, inr, true, false, List, [], ◌∷◌, Text, Option, none, some, contains,
  all, subst, is_empty, parse_date, Result, ok, err, Bool-cases, arith, if◌then◌else◌,
}
use api_gatewahy.ApiAccess.Entitlement.{Entitlement, manual, mode_history, is_history}
use api_gatewahy.ApiAccess.Modes.{ModesError, validate_modes, validate_modes_idem}
use api_gatewahy.ApiAccess.Scope.{ScopeError, canonical_store_scope}
use api_gatewahy.ApiAccess.Scope.Laws.{
  canonical_store_scope-IsCanonical, canonical_store_scope_idem,
}
use api_gatewahy.ApiAccess.Canonical.{canonical_entitlement}
use api_gatewahy.ApiAccess.Canonical.History.{
  IsHistoryRow, IsPriceRow, lone_mode, days_of, zero_of_eq,
}
use api_gatewahy.ApiAccess.Canonical.Rule.{canonical_entitlement_fixed}
use api_gatewahy.ApiAccess.Grants.{
  ManualGrantInput, GrantError, first_missing, history_refusal, grant, until_date, with_until,
  with_stores, unrefused, granted_modes, known_games, nonempty_games, manual_grant,
}

-- The end of a grant is left open, or lies at `now` or later.
abbrev Ends : ℕ → Option ℕ → Type 0
Ends now none = Unit {0}
Ends now (some t) = now ≤ t

pub record Granted (i : ManualGrantInput) (games : List Text) (now : ℕ) (e : Entitlement)
    : Type 0 where
  pub source : e.source ≡ manual
  pub account : e.account_id ≡ i.account_id
  pub some_game : e.games ≢ []
  pub known : all (contains games) e.games ≡ true
  pub ends : Ends now e.valid_until
  pub stored : canonical_entitlement e ≡ ok e

first_missing-none :
    (games gs : List Text) → first_missing games gs ≡ none → all (contains games) gs ≡ true
unfolding first_missing
first_missing-none games [] h = refl
first_missing-none games (g ∷ gs) h = ground (arith, first_missing-none games gs)

with_until-Ends :
    (i : ManualGrantInput) (now : ℕ) (e0 : Entitlement) {e : Entitlement}
    → e0.valid_until ≡ none
    → with_until i now e0 ≡ ok e
    → (u : Option ℕ) × (record e0 { valid_until = u } ≡ e) × Ends now u
with_until-Ends i now e0 {e} n h = elim (Bool-cases (is_empty i.until)) [
  | inl y ↦ (none, unfold with_until in ground (arith, y), tt)
  | inr x ↦ dated (parse_date i.until) (unfold with_until in ground (arith, x))
]
  where
    dated :
        (d : Option ℕ)
        → until_date now e0 d ≡ ok e
        → (u : Option ℕ) × (record e0 { valid_until = u } ≡ e) × Ends now u
    dated none q = unfold until_date in ground arith
    dated (some t) q = unfold until_date in (some t, ground arith, ground arith)

module _ (i : ManualGrantInput) (modes : List Text) (u : Option ℕ) where
  granted_history :
      history_refusal i modes ≡ none
      → contains modes mode_history ≡ true
      → IsHistoryRow (record (grant i modes []) { valid_until = u })
  unfolding history_refusal
  granted_history r h =
      let (n, d, low, high) = days_of i.lookback (ground arith) (ground arith) in
      record {
        alone = lone_mode modes (ground arith) h;
        scopeless = refl;
        days = n;
        lookback = d;
        at_least = low;
        at_most = high;
      }

  granted_price :
      (scope : Text)
      → history_refusal i modes ≡ none
      → contains modes mode_history ≡ false
      → canonical_store_scope i.stores ≡ ok scope
      → IsPriceRow (record (grant i modes scope) { valid_until = u })
  unfolding history_refusal is_history
  granted_price scope r h s = record {
    no_history = h;
    scoped = canonical_store_scope-IsCanonical i.stores s;
    no_lookback = zero_of_eq i.lookback (ground arith);
  }

-- The store accepts what the form built, as it stands.
granted-stored :
    (i : ManualGrantInput) (modes : List Text) (u : Option ℕ) (scope : Text)
    → validate_modes i.modes ≡ ok modes
    → history_refusal i modes ≡ none
    → (if contains modes mode_history then ok [] else canonical_store_scope i.stores) ≡ ok scope
    → canonical_entitlement (record (grant i modes scope) { valid_until = u })
      ≡ ok (record (grant i modes scope) { valid_until = u })
granted-stored i modes u scope v r s = elim (Bool-cases (contains modes mode_history)) [
  | inl y ↦
      let e : scope ≡ [] = ground (arith, y) in
      rw e (
        canonical_entitlement_fixed _ (validate_modes_idem i.modes modes v)
          (inl (granted_history i modes u r y)))
  | inr n ↦
      let c : canonical_store_scope i.stores ≡ ok scope = ground (arith, n) in
      canonical_entitlement_fixed _ (validate_modes_idem i.modes modes v)
        (inr (granted_price i modes u scope r n c, canonical_store_scope_idem i.stores scope c))
]

with_stores-Granted :
    (i : ManualGrantInput) (games : List Text) (now : ℕ) (modes : List Text)
    (r : Result ScopeError Text) {e : Entitlement}
    → i.games ≢ []
    → all (contains games) i.games ≡ true
    → validate_modes i.modes ≡ ok modes
    → history_refusal i modes ≡ none
    → (if contains modes mode_history then ok [] else canonical_store_scope i.stores) ≡ r
    → with_stores i now modes r ≡ ok e
    → Granted i games now e
unfolding with_stores
with_stores-Granted i games now modes (err x) g k v r s h = ground arith
with_stores-Granted i games now modes (ok scope) g k v r s h =
    let (u, eq, ends) = with_until-Ends i now (grant i modes scope) refl h in
    subst (λ e. Granted i games now e) eq
      (record {
        source = refl;
        account = refl;
        some_game = g;
        known = k;
        ends = ends;
        stored = granted-stored i modes u scope v r s;
      })

granted_modes-Granted :
    (i : ManualGrantInput) (games : List Text) (now : ℕ) (m : Result ModesError (List Text))
    {e : Entitlement}
    → i.games ≢ []
    → all (contains games) i.games ≡ true
    → validate_modes i.modes ≡ m
    → granted_modes i now m ≡ ok e
    → Granted i games now e
unfolding granted_modes unrefused
granted_modes-Granted i games now (err x) g k v h = ground arith
granted_modes-Granted i games now (ok modes) {e} g k v h = go (history_refusal i modes) refl h
  where
    go :
        (o : Option GrantError)
        → history_refusal i modes ≡ o
        → unrefused i now modes o ≡ ok e
        → Granted i games now e
    go (some x) r q = ground arith
    go none r q =
        with_stores-Granted i games now modes
          (if contains modes mode_history then ok [] else canonical_store_scope i.stores) g k v r
          refl q

manual_grant_games :
    (i : ManualGrantInput) (games : List Text) (now : ℕ) (gs : List Text) {e : Entitlement}
    → i.games ≡ gs
    → nonempty_games i games now gs ≡ ok e
    → Granted i games now e
unfolding nonempty_games known_games
manual_grant_games i games now [] g h = ground arith
manual_grant_games i games now (x ∷ xs) {e} g h = go (first_missing games (x ∷ xs)) refl h
  where
    go :
        (o : Option Text)
        → first_missing games (x ∷ xs) ≡ o
        → known_games i now o ≡ ok e
        → Granted i games now e
    go (some y) m q = ground arith
    go none m q =
        granted_modes-Granted i games now (validate_modes i.modes) (λ n. cc (g, n))
          (rw g (first_missing-none games (x ∷ xs) m)) refl q

-- A manual grant that is accepted names some games, all of them configured, is a manual row of the
-- account, ends at `now` or later if it ends, and is a row that the store takes as it stands: the
-- forms let nothing through that `CanonicalEntitlement` refuses or rewrites.
pub manual_grant-Granted :
    (i : ManualGrantInput) (games : List Text) (now : ℕ) {e : Entitlement}
    → manual_grant i games now ≡ ok e
    → Granted i games now e
unfolding manual_grant
manual_grant-Granted i games now h = manual_grant_games i games now i.games refl h
