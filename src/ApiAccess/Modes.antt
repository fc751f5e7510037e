-- ===== src/ApiAccess/Modes.antt =====
-- `ValidateModes` of apiaccess/entitlements.go: the canonical list of the modes that are named.
use api_gatewahy.Base.{
  ◌≡◌, ◌≢◌, refl, sym, ap, ◌∙◌, Bool, true, false, not, ◌&&◌, Option, none, some, List, [], ◌∷◌,
  ◌++◌, Text, contains, contains-append, contains-filter, filter_congr, any-eq-contains, of_all,
  all_of_contains, eqb→≡, disjoint, distinct, disjoint-append, disjoint-nil, eqb, inl, inr,
  eqb_refl, any, all, filter, trim_space, to_lower, Result, ok, err, Bool-cases, arith,
  if◌then◌else◌,
}
use mathlib.Core.List.{append-nil, append_assoc}
use api_gatewahy.ApiAccess.Entitlement.{valid_modes}

pub data ModesError : Type 0 where
  unknown_mode : Text → ModesError
  no_modes : ModesError

-- strings.ToLower(strings.TrimSpace(m))
unfoldable pub canonical_mode : Text → Text
canonical_mode m = to_lower (trim_space m)

-- The inner loop at one valid mode.
collect_mode : Text → List Text → List Text → List Text
collect_mode valid out [] = out
collect_mode valid out (m ∷ ms) =
    collect_mode valid
      (if eqb (canonical_mode m) valid && not (contains out valid)
        then out ++ (valid ∷ [])
        else out)
      ms

collect_modes : List Text → List Text → List Text → List Text
collect_modes [] out modes = out
collect_modes (valid ∷ rest) out modes = collect_modes rest (collect_mode valid out modes) modes

-- The second loop: the first mode that is not valid.
first_unknown : List Text → Option Text
first_unknown [] = none
first_unknown (m ∷ ms) =
    let rest = first_unknown ms in if contains valid_modes (canonical_mode m) then rest else some m

refuse_empty : List Text → Result ModesError (List Text)
refuse_empty [] = err no_modes
refuse_empty (m ∷ ms) = ok (m ∷ ms)

after_unknown : Option Text → List Text → Result ModesError (List Text)
after_unknown (some m) out = err (unknown_mode m)
after_unknown none out = refuse_empty out

unfoldable pub validate_modes : List Text → Result ModesError (List Text)
unfolding canonical_mode collect_mode collect_modes first_unknown after_unknown refuse_empty
validate_modes modes = after_unknown (first_unknown modes) (collect_modes valid_modes [] modes)

-- Some mode of the list is `valid` but for case and blanks.
abbrev pub names : List Text → Text → Bool
names modes valid = any (λ m. eqb (canonical_mode m) valid) modes

collect_mode_lem :
    (valid : Text) (out modes : List Text)
    → collect_mode valid out modes
      ≡ (if not (contains out valid) && names modes valid then out ++ (valid ∷ []) else out)
unfolding collect_mode contains
collect_mode_lem valid out [] = ground arith
collect_mode_lem valid out (m ∷ ms) = ground (
  arith,
  collect_mode_lem valid out ms,
  collect_mode_lem valid (out ++ (valid ∷ [])) ms,
  contains-append out (valid ∷ []) valid,
  eqb_refl valid,
)

collect_modes_lem :
    (vs out modes : List Text)
    → disjoint out vs ≡ true
    → distinct vs ≡ true
    → collect_modes vs out modes ≡ out ++ filter (names modes) vs
unfolding collect_modes filter
collect_modes_lem [] out modes f d = sym (append-nil out)
collect_modes_lem (v ∷ vs) out modes f d = elim (Bool-cases (names modes v)) [
  | inl y ↦
      rw (collect_mode_lem v out modes, y, fresh)
        (collect_modes_lem vs (out ++ (v ∷ [])) modes (disjoint-append out vs v rest apart)
            (ground arith)
          ∙ append_assoc out (v ∷ []) _)
  | inr n ↦
      rw (collect_mode_lem v out modes, n, fresh)
        (collect_modes_lem vs out modes rest (ground arith))
]
  where
    fresh : contains out v ≡ false
    fresh = ground arith

    rest : disjoint out vs ≡ true
    rest = ground arith

    apart : contains vs v ≡ false
    apart = ground arith

distinct-valid_modes : distinct valid_modes ≡ true
unfolding contains eqb
distinct-valid_modes = refl

collect_valid_modes :
    (modes : List Text) → collect_modes valid_modes [] modes ≡ filter (names modes) valid_modes
collect_valid_modes modes =
    collect_modes_lem valid_modes [] modes (disjoint-nil valid_modes) distinct-valid_modes

first_unknown-none :
    (modes : List Text)
    → first_unknown modes ≡ none
    → all (λ m. contains valid_modes (canonical_mode m)) modes ≡ true
unfolding first_unknown
first_unknown-none [] h = refl
first_unknown-none (m ∷ ms) h = ground (arith, first_unknown-none ms)

all-first_unknown :
    (modes : List Text)
    → all (λ m. contains valid_modes (canonical_mode m)) modes ≡ true
    → first_unknown modes ≡ none
unfolding first_unknown
all-first_unknown [] h = refl
all-first_unknown (m ∷ ms) h = ground (arith, all-first_unknown ms)

-- A list that is accepted names valid modes only, and the result is those of them that it names, in
-- the canonical order and each once; there is at least one.
pub validate_modes-eq_ok :
    (modes : List Text) {out : List Text}
    → validate_modes modes ≡ ok out
    → (all (λ m. contains valid_modes (canonical_mode m)) modes ≡ true)
      × (out ≡ filter (names modes) valid_modes)
      × (out ≢ [])
unfolding validate_modes
validate_modes-eq_ok modes h = ground (arith, first_unknown-none modes, collect_valid_modes modes)

refuse_empty-contains :
    (out : List Text) (x : Text) → contains out x ≡ true → refuse_empty out ≡ ok out
unfolding contains refuse_empty
refuse_empty-contains [] x h = ground arith
refuse_empty-contains (m ∷ ms) x h = refl

-- A list of valid modes, in any case and order, is accepted unless it is empty.
pub validate_modes_complete :
    (m : Text) (ms : List Text)
    → all (λ x. contains valid_modes (canonical_mode x)) (m ∷ ms) ≡ true
    → validate_modes (m ∷ ms) ≡ ok (filter (names (m ∷ ms)) valid_modes)
unfolding validate_modes
validate_modes_complete m ms h =
    rw (all-first_unknown (m ∷ ms) h, collect_valid_modes (m ∷ ms))
      (refuse_empty-contains _ (canonical_mode m) (
        rw (contains-filter (names (m ∷ ms)) valid_modes (canonical_mode m))
          (ground (arith, eqb_refl (canonical_mode m)))))

canonical_valid_modes : all (λ v. eqb (canonical_mode v) v) valid_modes ≡ true
unfolding canonical_mode eqb trim_space to_lower
canonical_valid_modes = refl

canonical_mode-valid : (v : Text) → contains valid_modes v ≡ true → canonical_mode v ≡ v
canonical_mode-valid v h =
    eqb→≡ _ _ (of_all (λ x. eqb (canonical_mode x) x) valid_modes v canonical_valid_modes h)

valid-filter :
    (modes : List Text) (x : Text)
    → contains (filter (names modes) valid_modes) x ≡ true
    → contains valid_modes x ≡ true
valid-filter modes x h = ground (arith, contains-filter (names modes) valid_modes x)

names-filter :
    (modes : List Text) (v : Text)
    → contains valid_modes v ≡ true
    → names (filter (names modes) valid_modes) v ≡ names modes v
names-filter modes v h =
    any-eq-contains canonical_mode (filter (names modes) valid_modes) v
      (λ y m. canonical_mode-valid y (valid-filter modes y m))
    ∙ ground (arith, contains-filter (names modes) valid_modes v)

-- The names that a result names are the result.
filter-names_again :
    (modes : List Text) {out : List Text}
    → out ≡ filter (names modes) valid_modes
    → (all (λ x. contains valid_modes (canonical_mode x)) out ≡ true)
      × (filter (names out) valid_modes ≡ out)
filter-names_again modes e = rw e (
  all_of_contains _ _
      (λ x m. let v = valid-filter modes x m in ground (arith, canonical_mode-valid x v)),
  filter_congr _ _ valid_modes (names-filter modes),
)

-- What it returns it accepts again, unchanged.
pub validate_modes_idem :
    (modes out : List Text) → validate_modes modes ≡ ok out → validate_modes out ≡ ok out
validate_modes_idem modes [] h = absurd ((validate_modes-eq_ok modes h).2 refl)
validate_modes_idem modes (m ∷ ms) h =
    let (valid, again) = filter-names_again modes (validate_modes-eq_ok modes h).1 in
    validate_modes_complete m ms valid ∙ ap ok again
