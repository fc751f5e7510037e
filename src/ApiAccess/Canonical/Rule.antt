-- ===== src/ApiAccess/Canonical/Rule.antt =====
-- `canonical_entitlement` establishes the history rule, changes nothing else, and is idempotent.
use api_gatewahy.Base.{
  ◌≡◌, refl, ap, subst, ◌⊎◌, inl, inr, true, List, Text, Result, ok, err, Bool-cases, arith, eqb,
  contains, length, trim_space,
}
use api_gatewahy.ApiAccess.Entitlement.{Entitlement, is_history}
use api_gatewahy.ApiAccess.Modes.{ModesError, validate_modes, validate_modes_idem}
use api_gatewahy.ApiAccess.Scope.{canonical_store_scope}
use api_gatewahy.ApiAccess.Scope.Laws.{canonical_store_scope_idem}
use api_gatewahy.ApiAccess.Canonical.{
  canonical_entitlement, canonical_history, canonical_price, with_modes, with_scope,
}
use api_gatewahy.ApiAccess.Canonical.History.{
  IsHistoryRow, IsPriceRow, history-IsHistoryRow, price-IsPriceRow,
}

pub record Canonicalized (e e' : Entitlement) : Type 0 where
  pub modes : validate_modes e.modes ≡ ok e'.modes
  pub frame : record e { modes = e'.modes; store_scope = e'.store_scope } ≡ e'
  pub rule : IsHistoryRow e' ⊎ IsPriceRow e'
  pub scope : (canonical_store_scope e.store_scope ≡ ok e'.store_scope) ⊎ IsHistoryRow e'

with_modes-Canonicalized :
    (e : Entitlement) (r : Result ModesError (List Text)) {e' : Entitlement}
    → validate_modes e.modes ≡ r
    → with_modes e r ≡ ok e'
    → Canonicalized e e'
unfolding with_modes
with_modes-Canonicalized e (err x) v h = ground arith
with_modes-Canonicalized e (ok modes) v h =
    let m : Entitlement = record e { modes = modes } in
    elim (Bool-cases (is_history m)) [
      | inl y ↦
          let (eq, row) = history-IsHistoryRow m y (ground (arith, y)) in
          subst (λ x. Canonicalized e x) eq
            (record { modes = v; frame = refl; rule = inl row; scope = inr row })
      | inr n ↦
          let (t, s, eq, row) = price-IsPriceRow m n (ground (arith, n)) in
          subst (λ x. Canonicalized e x) eq
            (record { modes = v; frame = refl; rule = inr row; scope = inl s })
    ]

-- A row that is accepted obeys the history rule, in its canonical modes and scope, and differs from
-- what was given in those two fields alone.
pub canonical_entitlement-Canonicalized :
    (e : Entitlement) {e' : Entitlement} → canonical_entitlement e ≡ ok e' → Canonicalized e e'
unfolding canonical_entitlement
canonical_entitlement-Canonicalized e h = with_modes-Canonicalized e (validate_modes e.modes) refl h

canonical_history_fixed : (e : Entitlement) → IsHistoryRow e → canonical_history e ≡ ok e
unfolding canonical_history trim_space
canonical_history_fixed e row = ground (
  arith,
  ap (λ (ms : List Text). length ms) row.alone,
  ap (λ (s : Text). trim_space s) row.scopeless,
)

is_history-row : (e : Entitlement) → IsHistoryRow e → is_history e ≡ true
unfolding is_history contains eqb
is_history-row e row = rw row.alone

canonical_price_fixed :
    (e : Entitlement)
    → IsPriceRow e
    → canonical_store_scope e.store_scope ≡ ok e.store_scope
    → canonical_price e ≡ ok e
unfolding canonical_price with_scope
canonical_price_fixed e row s = ground (arith, row.no_lookback)

with_modes_fixed :
    (e : Entitlement)
    → IsHistoryRow e ⊎ (IsPriceRow e × (canonical_store_scope e.store_scope ≡ ok e.store_scope))
    → with_modes e (ok e.modes) ≡ ok e
unfolding with_modes
with_modes_fixed e (inl row) = rw (is_history-row e row) (canonical_history_fixed e row)
with_modes_fixed e (inr (row, s)) = rw row.no_history (canonical_price_fixed e row s)

-- A row that obeys the history rule, in canonical modes and scope, is accepted as it stands.
pub canonical_entitlement_fixed :
    (e : Entitlement)
    → validate_modes e.modes ≡ ok e.modes
    → IsHistoryRow e ⊎ (IsPriceRow e × (canonical_store_scope e.store_scope ≡ ok e.store_scope))
    → canonical_entitlement e ≡ ok e
unfolding canonical_entitlement
canonical_entitlement_fixed e v rule = rw v (with_modes_fixed e rule)

stable_rule :
    (e e' : Entitlement)
    → Canonicalized e e'
    → IsHistoryRow e' ⊎ (IsPriceRow e' × (canonical_store_scope e'.store_scope ≡ ok e'.store_scope))
stable_rule e e' c = elim c.scope [
  | inr row ↦ inl row
  | inl s ↦ elim c.rule [
    | inl row ↦ inl row
    | inr row ↦ inr (row, canonical_store_scope_idem e.store_scope e'.store_scope s)
  ]
]

-- What is accepted is accepted again, unchanged.
pub canonical_entitlement_idem :
    (e e' : Entitlement) → canonical_entitlement e ≡ ok e' → canonical_entitlement e' ≡ ok e'
canonical_entitlement_idem e e' h =
    let c = canonical_entitlement-Canonicalized e h in
    canonical_entitlement_fixed e' (validate_modes_idem e.modes e'.modes c.modes)
      (stable_rule e e' c)
