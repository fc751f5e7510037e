-- ===== src/Gateway/Relay/Laws.antt =====
-- What the reverse proxy of gateway/handler.go keeps from the backends and from the clients.
use api_gatewahy.Base.{
  ℕ, ◌≡◌, ◌⊎◌, refl, ap, ◌∙◌, Bool, true, false, not, ◌&&◌, none, some, List, [], ◌∷◌, Text, codes,
  eqb, eqb_refl, is_empty, free, split-free, split-append, all-split, all-trim_space, grow, split,
  join, ◌==◌, lookup, insert_key, erase, lookup-erase, lookup-insert_key, all, inl, inr, arith,
  Option, grow_cut, Bool-cases, contains, to_lower, trim_space, cut, filter, eqb_symm,
  if◌then◌else◌,
}
use api_gatewahy.Gateway.Relay.{
  Values, ProxyParams, authorization, forwarded_for, rewrite_query, rewrite_header, rewrite,
  is_dropped, kept_directives, private_cache_control, Response, relay_error, client_status, name_of,
  directive_name,
}

lookup-rewrite_query :
    (p : ProxyParams) (q : Values)
    → (lookup (codes "key") (rewrite_query p q) ≡ none)
      × (lookup (codes "sig") (rewrite_query p q) ≡ some (p.sig ∷ []))
unfolding rewrite_query eqb
lookup-rewrite_query p q = (
  lookup-insert_key (codes "sig") (codes "key") (p.sig ∷ []) _
      ∙ lookup-erase (codes "key") (codes "key") _,
  lookup-insert_key (codes "sig") (codes "sig") (p.sig ∷ []) _,
)

erase-gone : (k j : Text) (m : Values) → lookup j m ≡ none → lookup j (erase k m) ≡ none
erase-gone k j m h = ground (arith, lookup-erase k j m)

erase_self : (k : Text) (m : Values) → lookup k (erase k m) ≡ none
erase_self k m = ground (arith, lookup-erase k k m, eqb_refl k)

insert_key-gone :
    (k j : Text) (v : List Text) (m : Values)
    → eqb k j ≡ false
    → lookup j m ≡ none
    → lookup j (insert_key k v m) ≡ none
insert_key-gone k j v m d h = ground (arith, lookup-insert_key k j v m)

-- A name that is deleted before the last steps of the header stays out of it.
rewrite_header-gone :
    (c : Text) (p : ProxyParams) (h : Values) (j : Text)
    → eqb forwarded_for j ≡ false
    → eqb (codes "X-Forwarded-Proto") j ≡ false
    → lookup j (erase authorization (erase (codes "Cookie") h)) ≡ none
    → lookup j (rewrite_header c p h) ≡ none
unfolding rewrite_header
rewrite_header-gone c p h j f x g =
    insert_key-gone (codes "X-Forwarded-Proto") j _ _ x (for_client _ (for_header _ g2))
  where
    h1 : Values
    h1 =
        erase (codes "Forwarded")
          (erase (codes "X-Real-Ip") (erase authorization (erase (codes "Cookie") h)))

    g2 : lookup j h1 ≡ none
    g2 = erase-gone (codes "Forwarded") j _ (erase-gone (codes "X-Real-Ip") j _ g)

    for_header :
        (m : Values) → lookup j m ≡ none → lookup j (if is_empty c then m else erase c m) ≡ none
    for_header m e = ground (arith, erase-gone c j m)

    for_client :
        (m : Values)
        → lookup j m ≡ none
        → lookup j (
            if is_empty p.client_ip
            then erase forwarded_for m
            else insert_key forwarded_for (p.client_ip ∷ []) m)
          ≡ none
    for_client m e =
        ground (
          arith,
          erase-gone forwarded_for j m,
          insert_key-gone forwarded_for j (p.client_ip ∷ []) m,
        )

lookup-rewrite_header :
    (c : Text) (p : ProxyParams) (h : Values)
    → (lookup authorization (rewrite_header c p h) ≡ none)
      × (lookup (codes "Cookie") (rewrite_header c p h) ≡ none)
unfolding eqb
lookup-rewrite_header c p h = (
  rewrite_header-gone c p h authorization refl refl
      (erase_self authorization (erase (codes "Cookie") h)),
  rewrite_header-gone c p h (codes "Cookie") refl refl (
      erase-gone authorization (codes "Cookie") (erase (codes "Cookie") h)
        (erase_self (codes "Cookie") h)),
)

-- The request that a backend gets has the decided path, the minted signature and no other, no API
-- key in its query, and neither credentials nor cookies in its header.
pub rewrite-secrets :
    (client_ip_header : Text) (p : ProxyParams) (query header : Values)
    → ((rewrite client_ip_header p query header).path ≡ p.path)
      × (lookup (codes "key") (rewrite client_ip_header p query header).query ≡ none)
      × (lookup (codes "sig") (rewrite client_ip_header p query header).query ≡ some (p.sig ∷ []))
      × (lookup authorization (rewrite client_ip_header p query header).header ≡ none)
      × (lookup (codes "Cookie") (rewrite client_ip_header p query header).header ≡ none)
unfolding rewrite
rewrite-secrets c p query header =
    let (k, s) = lookup-rewrite_query p query in
    let (a, o) = lookup-rewrite_header c p header in (refl, k, s, a, o)

-- A backend's refusal of the gateway, 401 or 403, is a 502 on every route.
pub client_status-refused :
    (p : ProxyParams) (resp : Response)
    → (resp.status ≡ 401) ⊎ (resp.status ≡ 403)
    → client_status p resp ≡ 502
unfolding client_status relay_error
client_status-refused p resp (inl e) = ground arith
client_status-refused p resp (inr e) = ground arith

abbrev pub spaced : List Text → List Text
spaced [] = []
spaced (d ∷ ds) = (b' ' ∷ d) ∷ spaced ds

split-join-spaced :
    (w : Text) (ws : List Text)
    → all (free b',') (w ∷ ws) ≡ true
    → split (join (w ∷ ws) (codes ", ")) b',' ≡ w ∷ spaced ws
unfolding join split
split-join-spaced w [] h = split-free w b',' (ground arith)
split-join-spaced w (v ∷ ws) h =
    split-append w (b' ' ∷ join (v ∷ ws) (codes ", ")) b',' (ground arith)
    ∙ ap (λ (r : List Text). w ∷ r) (rest (split-join-spaced v ws (ground arith)))
  where
    rest :
        split (join (v ∷ ws) (codes ", ")) b',' ≡ v ∷ spaced ws
        → split (b' ' ∷ join (v ∷ ws) (codes ", ")) b',' ≡ (b' ' ∷ v) ∷ spaced ws
    rest e = ap (grow b' ') e

kept_directives-free :
    (ds : List Text) → all (free b',') ds ≡ true → all (free b',') (kept_directives ds) ≡ true
unfolding kept_directives
kept_directives-free [] h = refl
kept_directives-free (d ∷ ds) h =
    ground (arith, kept_directives-free ds, all-trim_space (λ c. not (c == b',')) d)

-- The part of a directive before its `=`.
abbrev pub before_equals : Text → Text
before_equals [] = []
before_equals (c ∷ s) = if c == b'=' then [] else c ∷ before_equals s

-- The directives that would let a shared cache keep the answer, and the one that is there already.
abbrev pub replaced_names : List Text
replaced_names = codes "public" ∷ codes "private" ∷ codes "s-maxage" ∷ []

-- A directive that is not blank and not one of those, in whatever case it is written.
abbrev pub stays : Text → Bool
stays d = not (is_empty d) && not (contains replaced_names (before_equals (to_lower d)))

abbrev pub trimmed : List Text → List Text
trimmed [] = []
trimmed (d ∷ ds) = trim_space d ∷ trimmed ds

name_of-step :
    (c : ℕ) (s : Text) (rest : Option (Text × Text))
    → name_of (grow_cut c rest) (c ∷ s) ≡ c ∷ name_of rest s
name_of-step c s none = refl
name_of-step c s (some (a, b)) = refl

name_of-cut : (s : Text) → name_of (cut s b'=') s ≡ before_equals s
unfolding cut
name_of-cut [] = refl
name_of-cut (c ∷ s) = elim (Bool-cases (c == b'=')) [
  | inl y ↦ simp y refl
  | inr n ↦ simp n (name_of-step c s (cut s b'=') ∙ ap (λ (t : Text). c ∷ t) (name_of-cut s))
]

is_dropped-stays : (d : Text) → is_dropped d ≡ not (stays d)
unfolding is_dropped directive_name contains
is_dropped-stays d = ground (
  arith,
  name_of-cut (to_lower d),
  eqb_symm (codes "public") (before_equals (to_lower d)),
  eqb_symm (codes "private") (before_equals (to_lower d)),
  eqb_symm (codes "s-maxage") (before_equals (to_lower d)),
)

kept_directives-filter : (ds : List Text) → kept_directives ds ≡ filter stays (trimmed ds)
unfolding kept_directives filter
kept_directives-filter [] = refl
kept_directives-filter (d ∷ ds) =
    ground (arith, kept_directives-filter ds, is_dropped-stays (trim_space d))

-- The directives of the Cache-Control that a history or newspaper answer gets are `private` and those
-- of its own header, trimmed and in their order, but for the blank ones and those whose name is
-- `public`, `private` or `s-maxage` in any case.
pub private_cache_control-directives :
    (v : Text)
    → split (private_cache_control v) b','
      ≡ codes "private" ∷ spaced (filter stays (trimmed (split v b',')))
unfolding private_cache_control
private_cache_control-directives v =
    split-join-spaced (codes "private") (kept_directives (split v b','))
      (kept_directives-free (split v b',') (all-split v b','))
    ∙ ap (λ (ds : List Text). codes "private" ∷ spaced ds) (kept_directives-filter (split v b','))
