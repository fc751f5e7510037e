-- ===== src/ApiAccess/Scope/Laws.antt =====
-- What a canonical store scope looks like, and that it is canonical again.
use api_gatewahy.Base.{
  ◌≡◌, ◌≢◌, refl, sym, ap, ◌∙◌, ◌⊎◌, inl, inr, Bool, true, false, not, ◌&&◌, ◌||◌, ◌==◌, List, [],
  ◌∷◌, ◌++◌, Text, codes, eqb, eqb_iff, eqb→≡, eqb_refl, eqb_symm, is_empty, contains,
  contains-sort, any, all, is_space, all_of_contains, of_all, trim_space, trim_space-solid,
  all-trim_space, to_upper, solid, free, split, split-join, all-split, all-join, join, sort,
  sort-IsSorted, sort-eq_self, is_sorted, distinct, distinct-sort, all-append, distinct-append,
  disjoint, disjoint-append, disjoint-nil, Result, ok, err, Bool-cases, arith,
}
use mathlib.Core.List.{append-nil, append_assoc}
use api_gatewahy.ApiAccess.Entitlement.{scope_all, scope_base, scope_dev}
use api_gatewahy.ApiAccess.Scope.{
  ScopeError, is_preset, scope_loop, join_scope, canonical_store_scope,
}

-- A backend shorthand that a list may hold.
unfoldable pub is_shorthand : Text → Bool
is_shorthand s = not (is_empty s) && (not (is_preset s) && (solid s && free b',' s))

not-any-space : (s : Text) → any is_space s ≡ false → solid s ≡ true
not-any-space [] h = refl
not-any-space (c ∷ s) h = ground (arith, not-any-space s)

any-space : (s : Text) → solid s ≡ true → any is_space s ≡ false
any-space [] h = refl
any-space (c ∷ s) h = ground (arith, any-space s)

-- What the loop collects from pieces of a split are shorthands, each once.
scope_loop-ok :
    (out parts ws : List Text)
    → scope_loop out parts ≡ ok ws
    → all (free b',') parts ≡ true
    → (all is_shorthand out ≡ true) × (distinct out ≡ true)
    → (all is_shorthand ws ≡ true) × (distinct ws ≡ true)
unfolding scope_loop is_shorthand
scope_loop-ok out [] ws h f good = ground arith
scope_loop-ok out (part ∷ parts) ws h f good =
    let s = trim_space part in
    ground (
      arith,
      scope_loop-ok out parts ws,
      scope_loop-ok (out ++ (s ∷ [])) parts ws,
      all-append is_shorthand out (s ∷ []),
      distinct-append out s,
      all-trim_space (λ c. not (c == b',')) part,
      not-any-space s,
    )

-- Shorthands that are distinct pass the loop as they are.
scope_loop-shorthands :
    (out ws : List Text)
    → all is_shorthand ws ≡ true
    → distinct ws ≡ true
    → disjoint out ws ≡ true
    → scope_loop out ws ≡ ok (out ++ ws)
unfolding scope_loop is_shorthand
scope_loop-shorthands out [] a d n = ap ok (sym (append-nil out))
scope_loop-shorthands out (w ∷ ws) a d n = ground (
  arith,
  trim_space-solid w,
  scope_loop-shorthands (out ++ (w ∷ [])) ws,
  append_assoc out (w ∷ []) ws,
  any-space w,
  disjoint-append out ws w,
)

-- A store list in canonical form: shorthands, sorted, each once, joined by commas.
pub record IsStoreList (t : Text) : Type 0 where
  pub head : Text
  pub tail : List Text
  pub joined : t ≡ join (head ∷ tail) (codes ",")
  pub shorthands : all is_shorthand (head ∷ tail) ≡ true
  pub once : distinct (head ∷ tail) ≡ true
  pub sorted : is_sorted (head ∷ tail) ≡ true

abbrev pub IsCanonical : Text → Type 0
IsCanonical t = (t ≡ scope_all) ⊎ (t ≡ scope_base) ⊎ IsStoreList t

all-sort : (ws : List Text) → all is_shorthand ws ≡ true → all is_shorthand (sort ws) ≡ true
all-sort ws h =
    all_of_contains is_shorthand (sort ws)
      (λ x m. of_all is_shorthand ws x h (sym (contains-sort ws x) ∙ m))

sort-ne_nil : (w : Text) (ws : List Text) → sort (w ∷ ws) ≢ []
unfolding contains
sort-ne_nil w ws e = ground (arith, ap (λ l. contains l w) e, contains-sort (w ∷ ws) w, eqb_refl w)

store_list :
    (w : Text) (ws vs : List Text) (t : Text)
    → sort (w ∷ ws) ≡ vs
    → (all is_shorthand (w ∷ ws) ≡ true) × (distinct (w ∷ ws) ≡ true)
    → t ≡ join vs (codes ",")
    → IsStoreList t
store_list w ws [] t e good j = absurd (sort-ne_nil w ws e)
store_list w ws (v ∷ vs) t e good j = record {
  head = v;
  tail = vs;
  joined = j;
  shorthands = rw e at (all-sort (w ∷ ws) good.0);
  once = rw e at (distinct-sort (w ∷ ws) good.1);
  sorted = rw e at (sort-IsSorted (w ∷ ws));
}

join_scope-IsStoreList :
    (parts : List Text) (r : Result ScopeError (List Text)) {t : Text}
    → scope_loop [] parts ≡ r
    → all (free b',') parts ≡ true
    → join_scope r ≡ ok t
    → IsStoreList t
unfolding join_scope
join_scope-IsStoreList parts (err e) eq f h = ground arith
join_scope-IsStoreList parts (ok []) eq f h = ground arith
join_scope-IsStoreList parts (ok (w ∷ ws)) {t} eq f h =
    store_list w ws (sort (w ∷ ws)) t refl (scope_loop-ok [] parts (w ∷ ws) eq f (refl, refl))
      (ground arith)

-- An accepted scope is one of the two presets that may be granted, or a list of shorthands in
-- canonical form; DEV_ACCESS is neither, and no preset stands in a list.
pub canonical_store_scope-IsCanonical :
    (scope : Text) {t : Text} → canonical_store_scope scope ≡ ok t → IsCanonical t
unfolding canonical_store_scope
canonical_store_scope-IsCanonical scope {t} h =
    let s = trim_space scope in
    elim (Bool-cases (eqb (to_upper s) scope_all || eqb (to_upper s) scope_base)) [
      | inl y ↦ ground (arith, y, eqb_iff (to_upper s) scope_all, eqb_iff (to_upper s) scope_base)
      | inr n ↦ inr (
          inr (
            join_scope-IsStoreList (split s b',') (scope_loop [] (split s b',')) refl
              (all-split s b',') (ground (arith, n))))
    ]

no_comma_upper : (s : Text) → free b',' (to_upper s) ≡ free b',' s
unfolding to_upper
no_comma_upper [] = refl
no_comma_upper (c ∷ s) = ground (arith, no_comma_upper s)

-- A store list is no preset, whatever its case.
abbrev NoPreset : Text → Type 0
NoPreset t =
    (eqb (to_upper t) scope_all ≡ false)
    × (eqb (to_upper t) scope_base ≡ false)
    × (eqb (to_upper t) scope_dev ≡ false)

shorthand-NoPreset : (t : Text) → is_preset t ≡ false → NoPreset t
unfolding is_preset to_upper
shorthand-NoPreset t h = (
  ground (arith, eqb_symm scope_all (to_upper t)),
  ground (arith, eqb_symm scope_base (to_upper t)),
  ground (arith, eqb_symm scope_dev (to_upper t)),
)

comma-NoPreset : (t : Text) → free b',' t ≡ false → NoPreset t
comma-NoPreset t h =
    let e = no_comma_upper t in
    (
      ground (arith, e, eqb→≡ (to_upper t) scope_all),
      ground (arith, e, eqb→≡ (to_upper t) scope_base),
      ground (arith, e, eqb→≡ (to_upper t) scope_dev),
    )

join-NoPreset :
    (w : Text) (ws : List Text)
    → all is_shorthand (w ∷ ws) ≡ true
    → NoPreset (join (w ∷ ws) (codes ","))
unfolding join is_shorthand
join-NoPreset w [] h = shorthand-NoPreset w (ground arith)
join-NoPreset w (v ∷ vs) h =
    comma-NoPreset (w ++ (b',' ∷ join (v ∷ vs) (codes ",")))
      (ground (arith, all-append (λ c. not (c == b',')) w (b',' ∷ join (v ∷ vs) (codes ","))))

solid-join : (ws : List Text) → all is_shorthand ws ≡ true → solid (join ws (codes ",")) ≡ true
unfolding is_shorthand is_space
solid-join ws h =
    all-join (λ c. not (is_space c)) b',' ws refl
      (all_of_contains _ ws (λ x m. ground (arith, of_all is_shorthand ws x h m)))

free-shorthands : (ws : List Text) → all is_shorthand ws ≡ true → all (free b',') ws ≡ true
unfolding is_shorthand
free-shorthands ws h =
    all_of_contains (free b',') ws (λ x m. ground (arith, of_all is_shorthand ws x h m))

canonical_list :
    (w : Text) (ws : List Text)
    → all is_shorthand (w ∷ ws) ≡ true
    → distinct (w ∷ ws) ≡ true
    → is_sorted (w ∷ ws) ≡ true
    → canonical_store_scope (join (w ∷ ws) (codes ",")) ≡ ok (join (w ∷ ws) (codes ","))
unfolding canonical_store_scope
canonical_list w ws a d s =
    let t = join (w ∷ ws) (codes ",") in
    let (na, nb, nd) = join-NoPreset w ws a in
    rw (
      trim_space-solid t (solid-join (w ∷ ws) a),
      na,
      nb,
      nd,
      split-join w ws b',' (free-shorthands (w ∷ ws) a),
      scope_loop-shorthands [] (w ∷ ws) a d (disjoint-nil (w ∷ ws)),
      sort-eq_self (w ∷ ws) s,
    )

-- An accepted scope is accepted again, unchanged: what the store holds round-trips through the forms.
pub canonical_store_scope_idem :
    (scope t : Text) → canonical_store_scope scope ≡ ok t → canonical_store_scope t ≡ ok t
canonical_store_scope_idem scope t h = elim (canonical_store_scope-IsCanonical scope h) [
  | inl e ↦ rw e (unfold canonical_store_scope trim_space to_upper eqb in refl)
  | inr (inl e) ↦ rw e (unfold canonical_store_scope trim_space to_upper eqb in refl)
  | inr (inr l) ↦ rw l.joined (canonical_list l.head l.tail l.shorthands l.once l.sorted)
]
