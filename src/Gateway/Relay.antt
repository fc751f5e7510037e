-- ===== src/Gateway/Relay.antt =====
-- The reverse proxy of `newProxy` in gateway/handler.go: what goes to a backend, and which of its
-- answers reach the client. Headers and queries are maps from canonical names to their values.
pub mod Laws
use api_gatewahy.Base.{
  ℕ, Bool, true, false, not, ◌&&◌, ◌||◌, Option, none, some, List, [], ◌∷◌, ◌++◌, Text, codes, eqb,
  is_empty, has_prefix, trim_space, to_lower, split, cut, join, take, leb, ltb, ◌==◌, lookup,
  insert_key, erase, if◌then◌else◌,
}

abbrev pub Values : Type 0
Values = List (Text × List Text)

-- proxyParams
pub record ProxyParams : Type 0 where
  pub sig : Text
  pub path : Text
  pub client_ip : Text
  pub game : Text
  pub kind : Text

pub record Outgoing : Type 0 where
  pub path : Text
  pub query : Values
  pub header : Values

abbrev pub authorization : Text
authorization = codes "Authorization"

abbrev pub forwarded_for : Text
forwarded_for = codes "X-Forwarded-For"

-- The query: `sig` and `key` are deleted, and the minted signature is set.
unfoldable pub rewrite_query : ProxyParams → Values → Values
rewrite_query p q =
    insert_key (codes "sig") (p.sig ∷ []) (erase (codes "key") (erase (codes "sig") q))

unfoldable pub rewrite_header : Text → ProxyParams → Values → Values
rewrite_header client_ip_header p h =
    let h1 =
      erase (codes "Forwarded")
        (erase (codes "X-Real-Ip") (erase authorization (erase (codes "Cookie") h))) in
    let h2 = if is_empty client_ip_header then h1 else erase client_ip_header h1 in
    let h3 =
      if is_empty p.client_ip
      then erase forwarded_for h2
      else insert_key forwarded_for (p.client_ip ∷ []) h2 in
    insert_key (codes "X-Forwarded-Proto") (codes "https" ∷ []) h3

-- Rewrite; the option ClientIPHeader is given in its canonical form.
unfoldable pub rewrite : Text → ProxyParams → Values → Values → Outgoing
unfolding rewrite_query rewrite_header
rewrite client_ip_header p query header = record {
  path = p.path;
  query = rewrite_query p query;
  header = rewrite_header client_ip_header p header;
}

-- passStatus
unfoldable pub pass_status : ProxyParams → Bool
pass_status p = eqb p.kind (codes "history") || eqb p.kind (codes "newspaper")

-- The name of a Cache-Control directive that privateCacheControl drops.
abbrev pub name_of : Option (Text × Text) → Text → Text
name_of none d = d
name_of (some (name, value)) d = name

unfoldable pub directive_name : Text → Text
directive_name d = name_of (cut (to_lower d) b'=') (to_lower d)

unfoldable pub is_dropped : Text → Bool
unfolding directive_name
is_dropped d =
    is_empty d
    || eqb (directive_name d) (codes "public")
    || eqb (directive_name d) (codes "private")
    || eqb (directive_name d) (codes "s-maxage")

unfoldable pub kept_directives : List Text → List Text
unfolding is_dropped
kept_directives [] = []
kept_directives (d ∷ ds) =
    let t = trim_space d in let rest = kept_directives ds in if is_dropped t then rest else t ∷ rest

-- privateCacheControl
unfoldable pub private_cache_control : Text → Text
unfolding kept_directives
private_cache_control v = join (codes "private" ∷ kept_directives (split v b',')) (codes ", ")

-- sigRejected
unfoldable pub sig_rejected : Text → Bool
sig_rejected head =
    has_prefix (trim_space head) (codes "{\"error\": \"invalid")
    || has_prefix (trim_space head) (codes "{\"error\":\"invalid")

pub record Response : Type 0 where
  pub status : ℕ
  pub header : Values
  pub body : Text

-- errUpstreamStatus and errSigRejected
pub data RelayError : Type 0 where
  upstream_status : ℕ → RelayError
  signature_rejected : RelayError

abbrev first_value : Option (List Text) → Text
first_value none = []
first_value (some []) = []
first_value (some (v ∷ vs)) = v

abbrev all_values : Option (List Text) → List Text
all_values none = []
all_values (some vs) = vs

unfoldable pub relayed_header : ProxyParams → Values → Values
unfolding pass_status private_cache_control
relayed_header p h =
    let h1 = erase (codes "RateLimit-Limit") h in
    let v = join (all_values (lookup (codes "Cache-Control") h1)) (codes ",") in
    if pass_status p
    then insert_key (codes "Cache-Control") (private_cache_control v ∷ []) h1
    else h1

-- ModifyResponse: the error that it returns, or `none` when the answer passes; the body is read up
-- to 300 bytes and passes whole.
unfoldable pub relay_error : ProxyParams → Response → Option RelayError
unfolding sig_rejected pass_status
relay_error p resp =
    let s = resp.status in
    if s == 429 || s == 304
    then none
    else if pass_status p
        && not (s == 401)
        && not (s == 403)
        && ((leb 400 s && ltb s 500) || s == 503)
    then none
    else if ltb s 200 || leb 300 s
    then some (upstream_status s)
    else if s == 200
        && has_prefix (first_value (lookup (codes "Content-Type") resp.header))
            (codes "application/json")
        && sig_rejected (take 300 resp.body)
    then some signature_rejected
    else none

-- The status that the client sees: the answer's own, or that of ErrorHandler.
unfoldable pub client_status : ProxyParams → Response → ℕ
unfolding relay_error
client_status p resp = elim (relay_error p resp) [ none ↦ resp.status | some e ↦ 502 ]
