-- ===== src/Portal/Session.antt =====
-- session/session.go: sealed tokens, the session of a cookie, and its CSRF token. Times are nanoseconds
-- since 1970, and seconds in a token. HMAC-SHA256, base64 and the query encoding of url.Values are
-- parameters; url.Values is an association list.
pub mod Sealed
pub mod Encoded
mod Tests
use api_gatewahy.Base.{
  ℕ, ℤ, pos, negsuc, ◌+◌, ◌*◌, ◌/◌, Bool, true, false, not, ◌&&◌, ◌||◌, Option, none, some, List,
  [], ◌∷◌, ◌++◌, Text, codes, eqb, is_empty, cut, lookup, insert_key, format_int64, parse_int,
  parse_int64, lt_ℤ, le_ℤ, pos_part, ltb, length, Result, ok, err, if◌then◌else◌,
}

abbrev pub Values : Type 0
Values = List (Text × List Text)

abbrev first_value : Option (List Text) → Text
first_value none = []
first_value (some []) = []
first_value (some (x ∷ xs)) = x

-- v.Get(k)
abbrev pub get : Text → Values → Text
get k v = first_value (lookup k v)

-- v.Set(k, x)
abbrev pub set : Text → Text → Values → Values
set k x v = insert_key k (x ∷ []) v

pub data Purpose : Type 0 where
  session pending : Purpose

abbrev pub purpose_text : Purpose → Text
purpose_text session = codes "session"
purpose_text pending = codes "pending"

pub record Primitives : Type 0 where
  pub encode_base64 : Text → Text
  pub decode_base64 : Text → Option Text
  pub encode_query : Values → Text
  pub parse_query : Text → Option Values
  pub hmac : Text → Text → Text

pub record Session : Type 0 where
  pub account_id : ℤ
  pub email : Text
  pub epoch : ℤ
  pub issued_at : ℤ
  pub expires_at : ℤ

-- `now` is what the clock reads.
pub record Codec : Type 0 where
  pub secret : Text
  pub ttl : ℤ
  pub secure : Bool
  pub now : ℕ

pub data SessionError : Type 0 where
  invalid short_secret : SessionError

abbrev pub second : ℕ
second = 1_000_000_000

abbrev pub default_ttl : ℕ
default_ttl = 30 * 24 * 3600 * second

-- The method `ttl`
unfoldable pub ttl_of : Codec → ℕ
ttl_of c = if lt_ℤ (pos 0) c.ttl then pos_part c.ttl else default_ttl

-- NewCodec
unfoldable pub new_codec : Text → ℤ → Bool → ℕ → Result SessionError Codec
new_codec secret ttl secure now =
    if ltb (length secret) 32
    then err short_secret
    else ok (record { secret = secret; ttl = ttl; secure = secure; now = now })

-- c.now().Before(time.Unix(exp, 0))
abbrev pub is_before : ℕ → ℤ → Bool
is_before now (pos exp) = ltb now (exp * second)
is_before now (negsuc n) = false

pub record Cookie : Type 0 where
  pub name : Text
  pub value : Text
  pub path : Text
  pub max_age : ℤ
  pub http_only : Bool
  pub secure : Bool

abbrev pub cookie_name : Text
cookie_name = codes "ban_session"

abbrev pub pending_name : Text
pending_name = codes "ban_pending"

-- cookie
unfoldable pub cookie : Codec → Text → Text → ℤ → Cookie
cookie c name value max_age = record {
  name = name;
  value = value;
  path = codes "/";
  max_age = max_age;
  http_only = true;
  secure = c.secure;
}

module _ (p : Primitives) where
  -- sign
  unfoldable pub sign : Codec → Text → Text
  sign c body = p.encode_base64 (p.hmac c.secret body)

  -- The values that Seal signs.
  unfoldable pub sealed_values : Codec → Values → ℕ → Purpose → Values
  sealed_values c v ttl purpose =
      set (codes "_p") (purpose_text purpose)
        (set (codes "_exp") (format_int64 (pos ((c.now + ttl) / second))) v)

  -- Seal
  unfoldable pub seal : Codec → Values → ℕ → Purpose → Text
  unfolding sign sealed_values
  seal c v ttl purpose =
      let body = p.encode_base64 (p.encode_query (sealed_values c v ttl purpose)) in
      body ++ (b'.' ∷ sign c body)

  unfoldable pub check_expiry : Codec → Values → Option ℤ → Result SessionError Values
  check_expiry c v none = err invalid
  check_expiry c v (some exp) = if not (is_before c.now exp) then err invalid else ok v

  unfoldable pub check_values : Codec → Text → Option Values → Result SessionError Values
  unfolding check_expiry
  check_values c purpose none = err invalid
  check_values c purpose (some v) =
      if is_empty purpose || not (eqb (get (codes "_p") v) purpose)
      then err invalid
      else check_expiry c v (parse_int64 (get (codes "_exp") v))

  unfoldable pub read_body : Codec → Text → Option Text → Result SessionError Values
  unfolding check_values
  read_body c purpose none = err invalid
  read_body c purpose (some raw) = check_values c purpose (p.parse_query raw)

  unfoldable pub open_parts : Codec → Text → Option (Text × Text) → Result SessionError Values
  unfolding read_body sign
  open_parts c purpose none = err invalid
  open_parts c purpose (some (body, sig)) =
      if not (eqb sig (sign c body))
      then err invalid
      else read_body c purpose (p.decode_base64 body)

  -- Open
  unfoldable pub open_token : Codec → Text → Text → Result SessionError Values
  unfolding open_parts
  open_token c token purpose = open_parts c purpose (cut token b'.')

  -- The session that Encode stamps.
  unfoldable pub stamped : Codec → Session → Session
  unfolding ttl_of
  stamped c s = record s {
    issued_at = pos (c.now / second);
    expires_at = pos ((c.now / second * second + ttl_of c) / second);
  }

  -- The values of a session.
  unfoldable pub session_values : Session → Values
  session_values s = set (codes "ep") (format_int64 s.epoch) (
      set (codes "iat") (format_int64 s.issued_at)
        (set (codes "e") s.email (set (codes "a") (format_int64 s.account_id) [])))

  -- Encode
  unfoldable pub encode : Codec → Session → Text × Session
  unfolding stamped session_values seal ttl_of
  encode c s = let t = stamped c s in (seal c (session_values t) (ttl_of c) session, t)

  abbrev or_zero : Option ℤ → ℤ
  or_zero none = pos 0
  or_zero (some z) = z

  abbrev is_error : Option ℤ → Bool
  is_error none = true
  is_error (some z) = false

  unfoldable pub session_of : Values → Result SessionError Session
  session_of v =
      let id = parse_int64 (get (codes "a") v) in
      let iat = parse_int64 (get (codes "iat") v) in
      if is_error id || is_error iat || le_ℤ (or_zero id) (pos 0) || is_empty (get (codes "e") v)
      then err invalid
      else ok (record {
        account_id = or_zero id;
        email = get (codes "e") v;
        epoch = parse_int (get (codes "ep") v);
        issued_at = or_zero iat;
        expires_at = parse_int (get (codes "_exp") v);
      })

  unfoldable pub session_from : Result SessionError Values → Result SessionError Session
  unfolding session_of
  session_from (err e) = err e
  session_from (ok v) = session_of v

  -- Decode
  unfoldable pub decode : Codec → Text → Result SessionError Session
  unfolding session_from open_token
  decode c token = session_from (open_token c token (purpose_text session))

  -- Issue: the cookie that is set, and the session as stamped.
  unfoldable pub issue : Codec → Session → Cookie × Session
  unfolding encode cookie ttl_of
  issue c s =
      let (token, t) = encode c s in (cookie c cookie_name token (pos (ttl_of c / second)), t)

  -- Read, of the cookie's value, none where there is no cookie.
  unfoldable pub read : Codec → Option Text → Result SessionError Session
  unfolding decode
  read c none = err invalid
  read c (some value) = decode c value

  -- Clear
  unfoldable pub clear : Codec → Cookie
  unfolding cookie
  clear c = cookie c cookie_name [] (negsuc 0)

  -- SetPending
  unfoldable pub set_pending : Codec → Values → ℕ → Cookie
  unfolding cookie seal
  set_pending c v ttl = cookie c pending_name (seal c v ttl pending) (pos (ttl / second))

  -- Pending
  unfoldable pub read_pending : Codec → Option Text → Result SessionError Values
  unfolding open_token
  read_pending c none = err invalid
  read_pending c (some value) = open_token c value (purpose_text pending)

  -- ClearPending
  unfoldable pub clear_pending : Codec → Cookie
  unfolding cookie
  clear_pending c = cookie c pending_name [] (negsuc 0)

  -- CSRF
  unfoldable pub csrf : Codec → Session → Text
  unfolding sign
  csrf c s =
      sign c
        (codes "csrf|" ++ (format_int64 s.account_id ++ (codes "|" ++ format_int64 s.issued_at)))

  -- CheckCSRF
  unfoldable pub check_csrf : Codec → Session → Text → Bool
  unfolding csrf
  check_csrf c s token = not (is_empty token) && eqb token (csrf c s)
