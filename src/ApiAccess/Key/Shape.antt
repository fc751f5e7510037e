-- ===== src/ApiAccess/Key/Shape.antt =====
-- Keys that are generated have the shape that the gateway accepts.
use api_gatewahy.Base.{◌≡◌, refl, ℕ, ◌%◌, true, List, [], ◌∷◌, has_prefix, length, all, take, arith}
use api_gatewahy.ApiAccess.Key.{
  KeyKind, key_live, key_demo, is_key_char, key_char, key_body, looks_like_key, generate_key,
}

key_char-valid : (x : ℕ) → is_key_char (key_char (x % 36)) ≡ true
unfolding key_char
key_char-valid x = ground arith

length-key_body : (buf : List ℕ) → length (key_body buf) ≡ length buf
unfolding key_body
length-key_body [] = refl
length-key_body (x ∷ buf) = omega (arith, length-key_body buf)

all-key_body : (buf : List ℕ) → all is_key_char (key_body buf) ≡ true
unfolding key_body
all-key_body [] = refl
all-key_body (x ∷ buf) = ground (arith, key_char-valid x, all-key_body buf)

-- From 32 bytes, whatever they are, both kinds of key are generated in the shape that the gateway
-- takes for a key, and the prefix that is shown is the 8 characters behind the kind.
pub generate_key-looks :
    (kind : KeyKind) (buf : List ℕ)
    → length buf ≡ 32
    → (looks_like_key (generate_key kind buf).0 ≡ true)
      × ((generate_key kind buf).1 ≡ take 8 (key_body buf))
unfolding looks_like_key generate_key has_prefix
generate_key-looks key_live buf h = (ground (arith, length-key_body buf, all-key_body buf), refl)
generate_key-looks key_demo buf h = (ground (arith, length-key_body buf, all-key_body buf), refl)
