-- ===== src/Billing/Plan/Normal/Dedupe.antt =====
-- What `dedupe` of billing/plan.go returns.
use api_gatewahy.Base.{
  ◌≡◌, refl, sym, Bool, true, false, not, ◌&&◌, ◌||◌, List, [], ◌∷◌, ◌++◌, Text, eqb, eqb_refl,
  eqb_iff, is_empty, contains, contains-append, distinct, distinct-append, disjoint,
  disjoint-append, trim_space, to_lower, trim_space_idem, trim_space-to_lower, to_lower_idem, all,
  all-append, sort, is_sorted, distinct-sort, sort-IsSorted, sort-eq_self, any, disjoint-nil,
  contains-sort, all_of_contains, of_all, arith,
}
use mathlib.Core.List.{append-nil, append_assoc}
use api_gatewahy.Billing.Plan.{dedupe, dedupe_from}

-- A key that `dedupe` keeps: it is in lower case, trimmed, and not blank.
abbrev pub is_clean : Text → Bool
is_clean s = eqb (to_lower (trim_space s)) s && not (is_empty s)

pub is_clean-canonical :
    (x : Text)
    → is_empty (to_lower (trim_space x)) ≡ false
    → is_clean (to_lower (trim_space x)) ≡ true
is_clean-canonical x h =
    rw (trim_space-to_lower (trim_space x), trim_space_idem x, to_lower_idem (trim_space x), h)
      (ground (arith, eqb_refl (to_lower (trim_space x))))

dedupe_from-clean :
    (out xs : List Text)
    → all is_clean out ≡ true
    → distinct out ≡ true
    → (all is_clean (dedupe_from to_lower out xs) ≡ true)
      × (distinct (dedupe_from to_lower out xs) ≡ true)
unfolding dedupe_from
dedupe_from-clean out [] c d = (c, d)
dedupe_from-clean out (x ∷ xs) c d =
    let s = to_lower (trim_space x) in
    ground (
      arith,
      dedupe_from-clean out xs,
      dedupe_from-clean (out ++ (s ∷ [])) xs,
      all-append is_clean out (s ∷ []),
      distinct-append out s,
      is_clean-canonical x,
    )

pub dedupe-clean :
    (xs : List Text)
    → (all is_clean (dedupe xs to_lower) ≡ true) × (distinct (dedupe xs to_lower) ≡ true)
unfolding dedupe
dedupe-clean xs = dedupe_from-clean [] xs refl refl

dedupe_from_fixed :
    (out xs : List Text)
    → all is_clean xs ≡ true
    → distinct xs ≡ true
    → disjoint out xs ≡ true
    → dedupe_from to_lower out xs ≡ out ++ xs
unfolding dedupe_from
dedupe_from_fixed out [] c d f = sym (append-nil out)
dedupe_from_fixed out (x ∷ xs) c d f = ground (
  arith,
  eqb_iff (to_lower (trim_space x)) x,
  dedupe_from_fixed (out ++ (x ∷ [])) xs,
  disjoint-append out xs x,
  append_assoc out (x ∷ []) xs,
)

pub dedupe_fixed :
    (xs : List Text)
    → all is_clean xs ≡ true
    → distinct xs ≡ true
    → disjoint [] xs ≡ true
    → dedupe xs to_lower ≡ xs
unfolding dedupe
dedupe_fixed xs c d f = dedupe_from_fixed [] xs c d f

-- A text is in the result when it is not blank and some text of the list is it but for case and
-- blanks.
abbrev pub names_key : List Text → Text → Bool
names_key xs k = not (is_empty k) && any (λ x. eqb (to_lower (trim_space x)) k) xs

contains-dedupe_from :
    (out xs : List Text) (k : Text)
    → contains (dedupe_from to_lower out xs) k ≡ (contains out k || names_key xs k)
unfolding dedupe_from contains
contains-dedupe_from out [] k = ground arith
contains-dedupe_from out (x ∷ xs) k =
    let s = to_lower (trim_space x) in
    ground (
      arith,
      eqb_iff s k,
      contains-dedupe_from out xs k,
      contains-dedupe_from (out ++ (s ∷ [])) xs k,
      contains-append out (s ∷ []) k,
    )

-- A list in the form that Normalize leaves its lists in.
abbrev pub is_canonical : List Text → Bool
is_canonical xs = all is_clean xs && distinct xs && is_sorted xs

-- What is left of a list of keys is canonical, and holds the keys that the list names.
pub sort-dedupe :
    (xs : List Text)
    → (is_canonical (sort (dedupe xs to_lower)) ≡ true)
      × ((k : Text) → contains (sort (dedupe xs to_lower)) k ≡ names_key xs k)
unfolding dedupe contains
sort-dedupe xs =
    let d = dedupe_from to_lower [] xs in
    let (c, u) = dedupe-clean xs in
    (
      ground (
        arith,
        distinct-sort d,
        sort-IsSorted d,
        all_of_contains is_clean (sort d)
            (λ x m. of_all is_clean d x (ground arith) (ground (arith, contains-sort d x))),
      ),
      λ k. ground (arith, contains-sort d k, contains-dedupe_from [] xs k),
    )

pub sort-dedupe_fixed : (xs : List Text) → is_canonical xs ≡ true → sort (dedupe xs to_lower) ≡ xs
sort-dedupe_fixed xs h =
    rw (dedupe_fixed xs (ground arith) (ground arith) (disjoint-nil xs))
      (sort-eq_self xs (ground arith))
