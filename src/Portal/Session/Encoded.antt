-- ===== src/Portal/Session/Encoded.antt =====
-- A session that session/session.go encodes is read back.
use api_gatewahy.Base.{
  ℕ, suc, ℤ, pos, ◌+◌, ◌*◌, ◌/◌, ◌<◌, ◌≡◌, refl, ap, ◌∙◌, false, Text, codes, eqb, eqb_refl,
  is_empty, lookup, insert_key, format_int64, format_int, parse_int-format_int,
  parse_int64-format_int, ok, arith,
}
use api_gatewahy.Portal.Session.{
  Values, get, session, purpose_text, Primitives, Codec, Session, second, ttl_of, sealed_values,
  seal, open_token, stamped, session_values, encode, session_of, session_from, decode,
}
use api_gatewahy.Portal.Session.Sealed.{Lawful, open_token-seal}

module _ (p : Primitives) (laws : Lawful p) where
  -- What session_of reads of values that hold the printed fields.
  session_of_printed :
      (w : Values) (id epoch iat exp : ℕ) (email : Text)
      → get (codes "a") w ≡ format_int (suc id)
      → get (codes "e") w ≡ email
      → get (codes "ep") w ≡ format_int epoch
      → get (codes "iat") w ≡ format_int iat
      → get (codes "_exp") w ≡ format_int exp
      → is_empty email ≡ false
      → suc id < 9223372036854775808
      → epoch < 9223372036854775808
      → iat < 9223372036854775808
      → exp < 9223372036854775808
      → session_of p w
        ≡ ok (record {
          account_id = pos (suc id);
          email = email;
          epoch = pos epoch;
          issued_at = pos iat;
          expires_at = pos exp;
        })
  unfolding session_of
  session_of_printed w id epoch iat exp email a e ep i x n b1 b2 b3 b4 =
      simp
        (
          a,
          e,
          ep,
          i,
          x,
          n,
          parse_int64-format_int (suc id) b1,
          parse_int-format_int epoch b2,
          parse_int64-format_int iat b3,
          parse_int-format_int exp b4,
        )
        (ground arith)

  -- The fields among the values that are signed.
  get-session_values :
      (c : Codec) (id epoch iat ttl : ℕ) (email : Text) (exp : ℤ)
      → let s : Session = record {
        account_id = pos (suc id);
        email = email;
        epoch = pos epoch;
        issued_at = pos iat;
        expires_at = exp;
      } in
        let v = sealed_values p c (session_values p s) ttl session in
        (get (codes "a") v ≡ format_int (suc id))
        × (get (codes "e") v ≡ email)
        × (get (codes "ep") v ≡ format_int epoch)
        × (get (codes "iat") v ≡ format_int iat)
        × (get (codes "_exp") v ≡ format_int ((c.now + ttl) / second))
  unfolding sealed_values session_values format_int64 lookup insert_key eqb
  get-session_values c id epoch iat ttl email exp = (refl, refl, refl, refl, refl)

  -- Whole seconds of lifetime are not lost when the clock's are cut off.
  whole_seconds :
      (now ttl life : ℕ)
      → ttl ≡ life * second
      → (now + ttl) / second ≡ (now / second * second + ttl) / second
  whole_seconds now ttl life l = omega (arith, l)

  -- A session of an account, with an email and a lifetime of whole seconds, is read back from its token as
  -- it was stamped, by any codec of the same secret, at every time before it expires.
  pub decode-encode :
      (c d : Codec) (id epoch life : ℕ) (email : Text) (issued expires : ℤ)
      → d.secret ≡ c.secret
      → is_empty email ≡ false
      → ttl_of c ≡ life * second
      → suc id < 9223372036854775808
      → epoch < 9223372036854775808
      → (c.now + ttl_of c) / second < 9223372036854775808
      → d.now < (c.now + ttl_of c) / second * second
      → let s : Session = record {
        account_id = pos (suc id);
        email = email;
        epoch = pos epoch;
        issued_at = issued;
        expires_at = expires;
      } in
        decode p d (encode p c s).0 ≡ ok (encode p c s).1
  unfolding decode encode stamped session_from
  decode-encode c d id epoch life email issued expires se n l b1 b2 b3 t =
      let iat = c.now / second in
      let exp = (c.now + ttl_of c) / second in
      let s : Session = record {
        account_id = pos (suc id);
        email = email;
        epoch = pos epoch;
        issued_at = issued;
        expires_at = expires;
      } in
      let v = session_values p (stamped p c s) in
      let (w, g, o) = open_token-seal p laws c d v (ttl_of c) session session se b3 in
      let (ga, ge, gp, gi, gx) =
        get-session_values c id epoch iat (ttl_of c) email
          (pos ((c.now / second * second + ttl_of c) / second)) in
      let opened : open_token p d (seal p c v (ttl_of c) session) (purpose_text session) ≡ ok w =
        ground (arith, o, t, eqb_refl (purpose_text session)) in
      ap (session_from p) opened
      ∙ (session_of_printed w id epoch iat exp email (g (codes "a") ∙ ga) (g (codes "e") ∙ ge)
            (g (codes "ep") ∙ gp) (g (codes "iat") ∙ gi) (g (codes "_exp") ∙ gx) n b1 b2
            (omega (arith, b3)) b3
          ∙ ap
              (λ x. ok (record {
                account_id = pos (suc id);
                email = email;
                epoch = pos epoch;
                issued_at = pos iat;
                expires_at = pos x;
              }))
              (whole_seconds c.now (ttl_of c) life l))
