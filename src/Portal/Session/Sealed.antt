-- ===== src/Portal/Session/Sealed.antt =====
-- What session/session.go seals, it opens, for the same purpose alone.
use api_gatewahy.Base.{
  ℕ, ℤ, ◌+◌, ◌*◌, ◌/◌, ◌<◌, ◌≡◌, refl, sym, ap, subst, ◌∙◌, true, false, not, ◌&&◌, ◌||◌, Option,
  none, some, [], ◌∷◌, ◌++◌, Text, codes, eqb, eqb_refl, eqb→≡, is_empty, cut, cut-append,
  cut-eq_some, free, lookup-insert_key, format_int64, format_int, parse_int64,
  parse_int64-format_int, ltb, ok, err, arith, Bool-cases, inl, inr, if◌then◌else◌,
}
use api_gatewahy.Portal.Session.{
  Values, get, set, Purpose, session, pending, purpose_text, Primitives, Codec, invalid, second,
  is_before, sign, sealed_values, seal, check_expiry, check_values, read_body, open_parts,
  open_token,
}

-- What the package documents of base64.RawURLEncoding, whose alphabet has no dot, and of the query
-- encoding, which keeps the first value of every key.
pub record Lawful (p : Primitives) : Type 0 where
  pub decode_encode : (s : Text) → p.decode_base64 (p.encode_base64 s) ≡ some s
  pub dot_free : (s : Text) → free b'.' (p.encode_base64 s) ≡ true
  pub parse_encode :
      (v : Values)
      → (w : Values) × (p.parse_query (p.encode_query v) ≡ some w)
        × ((k : Text) → get k w ≡ get k v)

pub get-set : (k j x : Text) (v : Values) → get j (set k x v) ≡ (if eqb k j then x else get j v)
get-set k j x v = ground (arith, lookup-insert_key k j (x ∷ []) v)

some_purpose : (q : Purpose) → is_empty (purpose_text q) ≡ false
some_purpose session = refl
some_purpose pending = refl

module _ (p : Primitives) (laws : Lawful p) where
  -- What Open says of the values that Seal signed, once they are read back as `w`.
  check_sealed :
      (d : Codec) (purpose : Text) (w : Values) (exp : ℕ)
      → get (codes "_exp") w ≡ format_int exp
      → exp < 9223372036854775808
      → check_values p d purpose (some w) ≡ (
          if is_empty purpose
            || not (eqb (get (codes "_p") w) purpose)
            || not (ltb d.now (exp * second))
          then err invalid
          else ok w)
  unfolding check_values check_expiry
  check_sealed d purpose w exp e b =
      ground (arith, e, ap parse_int64 e, parse_int64-format_int exp b)

  sign_same :
      (c d : Codec) (body : Text) → d.secret ≡ c.secret → eqb (sign p c body) (sign p d body) ≡ true
  unfolding sign
  sign_same c d body s =
      subst (λ k. eqb (sign p c body) (p.encode_base64 (p.hmac k body)) ≡ true) (sym s)
        (eqb_refl (sign p c body))

  open_sealed :
      (c d : Codec) (body : Text) (purpose : Text)
      → d.secret ≡ c.secret
      → open_token p d (p.encode_base64 body ++ (b'.' ∷ sign p c (p.encode_base64 body))) purpose
        ≡ check_values p d purpose (p.parse_query body)
  unfolding open_token open_parts read_body
  open_sealed c d body purpose s =
      simp
        (
          cut-append (p.encode_base64 body) b'.' (sign p c (p.encode_base64 body))
              (laws.dot_free body),
          sign_same c d (p.encode_base64 body) s,
          laws.decode_encode body,
        )
        refl

  -- The values that Seal signs hold the expiry and the purpose, whatever the caller's values hold.
  get-sealed_values :
      (c : Codec) (v : Values) (ttl : ℕ) (q : Purpose)
      → (get (codes "_exp") (sealed_values p c v ttl q) ≡ format_int ((c.now + ttl) / second))
        × (get (codes "_p") (sealed_values p c v ttl q) ≡ purpose_text q)
  unfolding sealed_values format_int64 eqb
  get-sealed_values c v ttl q =
      let exp = format_int ((c.now + ttl) / second) in
      (
        get-set (codes "_p") (codes "_exp") (purpose_text q) (set (codes "_exp") exp v)
            ∙ get-set (codes "_exp") (codes "_exp") exp v,
        get-set (codes "_p") (codes "_p") (purpose_text q) (set (codes "_exp") exp v),
      )

  -- A token that one codec seals, another of the same secret opens exactly for the purpose that it was
  -- sealed for and before it expires, and it reads the caller's values with the purpose and the expiry.
  pub open_token-seal :
      (c d : Codec) (v : Values) (ttl : ℕ) (q r : Purpose)
      → d.secret ≡ c.secret
      → (c.now + ttl) / second < 9223372036854775808
      → (w : Values) × ((k : Text) → get k w ≡ get k (sealed_values p c v ttl q))
        × (open_token p d (seal p c v ttl q) (purpose_text r) ≡ (
            if eqb (purpose_text q) (purpose_text r) && ltb d.now ((c.now + ttl) / second * second)
            then ok w
            else err invalid))
  unfolding seal
  open_token-seal c d v ttl q r s b =
      let values = sealed_values p c v ttl q in
      let exp = (c.now + ttl) / second in
      let (w, e, g) = laws.parse_encode values in
      let (x, y) = get-sealed_values c v ttl q in
      (
        w,
        g,
        open_sealed c d (p.encode_query values) (purpose_text r) s
            ∙ (ap (check_values p d (purpose_text r)) e
                ∙ (check_sealed d (purpose_text r) w exp (g (codes "_exp") ∙ x) b
                    ∙ ground (
                      arith,
                      ap (λ t. eqb t (purpose_text r)) (g (codes "_p") ∙ y),
                      some_purpose r,
                    ))),
      )

  unexpired :
      (c : Codec) (w v : Values) (o : Option ℤ)
      → check_expiry p c w o ≡ ok v
      → (w ≡ v) × ((exp : ℤ) × (o ≡ some exp) × (is_before c.now exp ≡ true))
  unfolding check_expiry
  unexpired c w v none = λ h. ground (arith, h)
  unexpired c w v (some exp) = elim (Bool-cases (is_before c.now exp)) [
    | inl y ↦ simp y (λ h. (ground (arith, h), (exp, refl, y)))
    | inr n ↦ simp n (λ h. ground (arith, h))
  ]

  -- What Open read of a body is that of the body, and it is for the purpose and has not expired.
  abbrev pub Checks : Codec → Text → Values → Type 0
  Checks c purpose v =
      (get (codes "_p") v ≡ purpose)
      × ((exp : ℤ) × (parse_int64 (get (codes "_exp") v) ≡ some exp) × (is_before c.now exp ≡ true))

  checked :
      (c : Codec) (purpose : Text) (o : Option Values) (v : Values)
      → check_values p c purpose o ≡ ok v
      → (o ≡ some v) × Checks c purpose v
  unfolding check_values
  checked c purpose none v = λ h. ground (arith, h)
  checked c purpose (some w) v =
      elim (Bool-cases (is_empty purpose || not (eqb (get (codes "_p") w) purpose))) [
        | inl y ↦ simp y (λ h. ground (arith, h))
        | inr n ↦ simp n (λ h.
            let (e, x) = unexpired c w v (parse_int64 (get (codes "_exp") w)) h in
            (
              ap some e,
              subst (Checks c purpose) e
                  (eqb→≡ (get (codes "_p") w) purpose (ground (arith, n)), x),
            ))
      ]

  read_checked :
      (c : Codec) (purpose : Text) (o : Option Text) (v : Values)
      → read_body p c purpose o ≡ ok v
      → (raw : Text) × (o ≡ some raw) × (p.parse_query raw ≡ some v) × Checks c purpose v
  unfolding read_body
  read_checked c purpose none v h = ground arith
  read_checked c purpose (some raw) v h =
      let (e, x) = checked c purpose (p.parse_query raw) v h in (raw, refl, e, x)

  -- A token that Open takes is a body with its signature under the secret; its values are those of the
  -- body, and they hold the purpose and an expiry that has not come.
  pub record Opened (c : Codec) (token purpose : Text) (v : Values) : Type 0 where
    pub body : Text
    pub raw : Text
    pub signed : token ≡ body ++ (b'.' ∷ sign p c body)
    pub decoded : p.decode_base64 body ≡ some raw
    pub parsed : p.parse_query raw ≡ some v
    pub checks : Checks c purpose v

  open_parts-Opened :
      (c : Codec) (token purpose : Text) (o : Option (Text × Text)) (v : Values)
      → cut token b'.' ≡ o
      → open_parts p c purpose o ≡ ok v
      → Opened c token purpose v
  unfolding open_parts
  open_parts-Opened c token purpose none v q = λ h. ground (arith, h)
  open_parts-Opened c token purpose (some (body, sig)) v q =
      elim (Bool-cases (eqb sig (sign p c body))) [
        | inl y ↦ simp y (λ h.
            let (raw, d, e, x) = read_checked c purpose (p.decode_base64 body) v h in
            record {
              body = body;
              raw = raw;
              signed =
                  cut-eq_some token b'.' q
                  ∙ ap (λ t. body ++ (b'.' ∷ t)) (eqb→≡ sig (sign p c body) y);
              decoded = d;
              parsed = e;
              checks = x;
            })
        | inr n ↦ simp n (λ h. ground (arith, h))
      ]

  -- Open takes no token but one that Seal could have made: a body, signed under the secret, of values
  -- for the purpose and an expiry that has not come.
  pub open_token-Opened :
      (c : Codec) (token purpose : Text) (v : Values)
      → open_token p c token purpose ≡ ok v
      → Opened c token purpose v
  unfolding open_token
  open_token-Opened c token purpose v h =
      open_parts-Opened c token purpose (cut token b'.') v refl h
