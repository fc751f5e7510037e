-- ===== src/ApiAccess/Canonical/History.antt =====
-- The history rule, for every entitlement that is stored.
use api_gatewahy.Base.{
  ◌≡◌, refl, ℤ, pos, ◌≤◌, ℕ, true, false, List, [], ◌∷◌, Text, length, contains, eqb→≡, lt_ℤ, eq_ℤ,
  ◌==◌, Result, ok, err, arith,
}
use api_gatewahy.ApiAccess.Entitlement.{Entitlement, is_history, mode_history, max_lookback_days}
use api_gatewahy.ApiAccess.Scope.{canonical_store_scope}
use api_gatewahy.ApiAccess.Scope.Laws.{IsCanonical, canonical_store_scope-IsCanonical}
use api_gatewahy.ApiAccess.Canonical.{canonical_history, canonical_price, with_scope}

-- A history row stands alone, takes no scope and looks back 1 to 3650 days.
pub record IsHistoryRow (e : Entitlement) : Type 0 where
  pub alone : e.modes ≡ mode_history ∷ []
  pub scopeless : e.store_scope ≡ []
  pub days : ℕ
  pub lookback : e.lookback_days ≡ pos days
  pub at_least : 1 ≤ days
  pub at_most : days ≤ max_lookback_days

-- Every other row has a canonical scope and no lookback.
pub record IsPriceRow (e : Entitlement) : Type 0 where
  pub no_history : is_history e ≡ false
  pub scoped : IsCanonical e.store_scope
  pub no_lookback : e.lookback_days ≡ pos 0

pub lone_mode :
    (modes : List Text)
    → (length modes == 1) ≡ true
    → contains modes mode_history ≡ true
    → modes ≡ mode_history ∷ []
unfolding contains
lone_mode [] l c = ground arith
lone_mode (m ∷ []) l c = ground (arith, eqb→≡ m mode_history)
lone_mode (m ∷ n ∷ ms) l c = ground arith

pub days_of :
    (d : ℤ)
    → lt_ℤ d (pos 1) ≡ false
    → lt_ℤ (pos max_lookback_days) d ≡ false
    → (n : ℕ) × (d ≡ pos n) × (1 ≤ n) × (n ≤ max_lookback_days)
days_of (ℤ.pos n) l h = (n, refl, ground arith, ground arith)
days_of (ℤ.negsuc n) l h = ground arith

pub history-IsHistoryRow :
    (e : Entitlement) {e' : Entitlement}
    → is_history e ≡ true
    → canonical_history e ≡ ok e'
    → (record e { store_scope = [] } ≡ e') × IsHistoryRow (record e { store_scope = [] })
unfolding canonical_history is_history
history-IsHistoryRow e h c =
    let (n, d, low, high) = days_of e.lookback_days (ground arith) (ground arith) in
    (
      ground arith,
      record {
        alone = lone_mode e.modes (ground arith) h;
        scopeless = refl;
        days = n;
        lookback = d;
        at_least = low;
        at_most = high;
      },
    )

scope-IsPriceRow :
    (e : Entitlement) (r : Result _ Text) {e' : Entitlement}
    → is_history e ≡ false
    → e.lookback_days ≡ pos 0
    → canonical_store_scope e.store_scope ≡ r
    → with_scope e r ≡ ok e'
    → (t : Text) × (r ≡ ok t)
      × (record e { store_scope = t } ≡ e')
      × IsPriceRow (record e { store_scope = t })
unfolding with_scope is_history
scope-IsPriceRow e (err x) h l s c = ground arith
scope-IsPriceRow e (ok t) h l s c = (
  t,
  refl,
  ground arith,
  record {
    no_history = h;
    scoped = canonical_store_scope-IsCanonical e.store_scope s;
    no_lookback = l;
  },
)

pub zero_of_eq : (d : ℤ) → eq_ℤ d (pos 0) ≡ true → d ≡ pos 0
zero_of_eq (ℤ.pos n) h = ground arith
zero_of_eq (ℤ.negsuc n) h = ground arith

pub price-IsPriceRow :
    (e : Entitlement) {e' : Entitlement}
    → is_history e ≡ false
    → canonical_price e ≡ ok e'
    → (t : Text) × (canonical_store_scope e.store_scope ≡ ok t)
      × (record e { store_scope = t } ≡ e')
      × IsPriceRow (record e { store_scope = t })
unfolding canonical_price
price-IsPriceRow e h c =
    scope-IsPriceRow e (canonical_store_scope e.store_scope) h
      (zero_of_eq e.lookback_days (ground arith)) refl (ground arith)
