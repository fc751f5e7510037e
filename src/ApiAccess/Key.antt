-- ===== src/ApiAccess/Key.antt =====
-- apiaccess/keys.go and accounts.go: customers, their keys, and the shape of a key.
pub mod Shape
use api_gatewahy.Base.{
  ℕ, ◌+◌, ◌%◌, Bool, true, false, ◌&&◌, ◌||◌, Option, none, some, List, [], ◌∷◌, ◌++◌, Text, codes,
  has_prefix, leb, ◌==◌, all, length, take, drop, map, if◌then◌else◌,
}
use api_gatewahy.ApiAccess.Entitlement.{Entitlement}

-- Migration 2 checks the column against these two.
pub data AccountStatus : Type 0 where
  active suspended : AccountStatus

pub record Account : Type 0 where
  pub id : ℕ
  pub email : Text
  pub status : AccountStatus
  pub created_at : ℕ
  pub note : Text
  pub stripe_customer_id : Text
  pub session_epoch : ℕ

pub data KeyKind : Type 0 where
  key_live key_demo : KeyKind

-- The string of a kind, which is the prefix of its keys.
abbrev pub kind_text : KeyKind → Text
kind_text key_live = codes "ban_live"
kind_text key_demo = codes "ban_demo"

pub record Key : Type 0 where
  pub id : ℕ
  pub account_id : ℕ
  pub hash : Text
  pub prefix : Text
  pub label : Text
  pub kind : KeyKind
  pub created_at : ℕ
  pub last_used_at : Option ℕ
  pub revoked_at : Option ℕ

-- Everything that a request is decided by; the rows have the active status.
pub record Lookup : Type 0 where
  pub key : Key
  pub account : Account
  pub entitlements : List Entitlement

abbrev is_key_char : ℕ → Bool
is_key_char c = (leb b'a' c && leb c b'z') || (leb b'0' c && leb c b'9')

-- What follows the prefix: 32 letters and digits.
is_key_body : Text → Bool
is_key_body s = length s == 32 && all is_key_char s

after_prefix : Text → ℕ → Text → Bool
after_prefix p n s = has_prefix s p && is_key_body (drop n s)

-- LooksLikeKey, the regular expression ^(mtgban_live|ban_live|ban_demo)_[a-z0-9]{32}$.
unfoldable pub looks_like_key : Text → Bool
unfolding is_key_body after_prefix
looks_like_key s =
    after_prefix (codes "mtgban_live_") 12 s
    || after_prefix (codes "ban_live_") 9 s
    || after_prefix (codes "ban_demo_") 9 s

-- keyAlphabet[i]: the letters, then the digits.
key_char : ℕ → ℕ
key_char i = if leb i 25 then b'a' + i else 22 + i

pub key_body : List ℕ → Text
key_body = map (λ x. key_char (x % 36))

-- GenerateKey from the bytes that `rand.Read` gave: the plaintext and the prefix that is shown. Its
-- hash is `HashKey` of the plaintext.
unfoldable pub generate_key : KeyKind → List ℕ → Text × Text
unfolding key_char key_body
generate_key kind buf =
    let plaintext = kind_text kind ++ (codes "_" ++ key_body buf) in
    (plaintext, take 8 (drop 9 plaintext))
