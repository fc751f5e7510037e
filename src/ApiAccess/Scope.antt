-- ===== src/ApiAccess/Scope.antt =====
-- `canonicalStoreScope` of apiaccess/entitlements.go: a preset, or a list of backend shorthands.
pub mod Laws
use api_gatewahy.Base.{
  ℕ, Bool, true, false, not, ◌&&◌, ◌||◌, List, [], ◌∷◌, ◌++◌, Text, codes, eqb, is_empty, contains,
  any, is_space, trim_space, to_upper, split, join, sort, Result, ok, err, if◌then◌else◌,
}
use api_gatewahy.ApiAccess.Entitlement.{scope_all, scope_base, scope_dev}

pub data ScopeError : Type 0 where
  dev_access : ScopeError
  preset_in_list : Text → ScopeError
  has_space : Text → ScopeError
  scope_empty : ScopeError

abbrev pub preset_scope_names : List Text
preset_scope_names = scope_all ∷ scope_base ∷ scope_dev ∷ []

-- strings.EqualFold, at a text whose letters have no fold outside ASCII but that of `S`.
equal_fold : Text → Text → Bool
equal_fold p s = eqb (to_upper p) (to_upper s)

unfoldable pub is_preset : Text → Bool
unfolding equal_fold
is_preset s = any (λ p. equal_fold p s) preset_scope_names

-- The loop over the parts; an empty part is passed over before the two refusals.
scope_loop : List Text → List Text → Result ScopeError (List Text)
scope_loop out [] = ok out
scope_loop out (part ∷ parts) =
    let s = trim_space part in
    let rest = scope_loop (if is_empty s || contains out s then out else out ++ (s ∷ [])) parts in
    if is_empty s
    then rest
    else if is_preset s
    then err (preset_in_list s)
    else if any is_space s
    then err (has_space s)
    else rest

join_scope : Result ScopeError (List Text) → Result ScopeError Text
join_scope (err e) = err e
join_scope (ok []) = err scope_empty
join_scope (ok (w ∷ ws)) = ok (join (sort (w ∷ ws)) (codes ","))

canonical_trimmed : Text → Result ScopeError Text
canonical_trimmed scope =
    if eqb (to_upper scope) scope_all || eqb (to_upper scope) scope_base
    then ok (to_upper scope)
    else if eqb (to_upper scope) scope_dev
    then err dev_access
    else join_scope (scope_loop [] (split scope b','))

unfoldable pub canonical_store_scope : Text → Result ScopeError Text
unfolding is_preset scope_loop join_scope canonical_trimmed
canonical_store_scope scope = canonical_trimmed (trim_space scope)
