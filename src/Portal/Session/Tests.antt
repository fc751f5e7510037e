-- ===== src/Portal/Session/Tests.antt =====
-- Tokens of session/session.go over codes that can be run: lengths are written before what they count,
-- and the base64 alphabet is the numbers without the dot.
use api_gatewahy.Base.{
  ℕ, zero, suc, pos, ◌+◌, ◌-◌, ◌*◌, ◌≡◌, refl, ap, true, some, List, [], ◌∷◌, ◌++◌, Text, codes,
  free, length, take, drop, map, ltb, eqb, ok, arith, if◌then◌else◌,
}
use mathlib.Core.List.{append_assoc}
use api_gatewahy.Portal.Session.{
  Values, get, Primitives, Codec, Session, Purpose, session, pending, purpose_text, seal,
  open_token, encode, decode, sealed_values, invalid, second,
}
use api_gatewahy.Portal.Session.Sealed.{Lawful, Opened, open_token-seal, open_token-Opened}
use api_gatewahy.Portal.Session.Encoded.{decode-encode}

abbrev skip_dot : ℕ → ℕ
skip_dot c = if ltb c b'.' then c else c + 1

abbrev unskip : ℕ → ℕ
unskip c = if ltb c b'.' then c else c - 1

unskip-skip_dot : (s : Text) → map unskip (map skip_dot s) ≡ s
unskip-skip_dot [] = refl
unskip-skip_dot (c ∷ s) = ground (arith, unskip-skip_dot s)

skip_dot-free : (s : Text) → free b'.' (map skip_dot s) ≡ true
skip_dot-free [] = refl
skip_dot-free (c ∷ s) = ground (arith, skip_dot-free s)

abbrev head_or_zero : Text → ℕ
head_or_zero [] = 0
head_or_zero (n ∷ s) = n

-- Texts with their lengths before them.
abbrev write_text : Text → Text
write_text s = length s ∷ s

abbrev write_texts : List Text → Text
write_texts [] = []
write_texts (s ∷ ss) = write_text s ++ write_texts ss

abbrev write_values : Values → Text
write_values [] = []
write_values ((k, xs) ∷ v) =
    write_text k ++ ((length xs ∷ []) ++ (write_texts xs ++ write_values v))

-- What is read, and what follows it.
abbrev read_text : Text → Text × Text
read_text s = (take (head_or_zero s) (drop 1 s), drop (head_or_zero s) (drop 1 s))

read_texts : ℕ → Text → List Text × Text
read_texts zero s = ([], s)
read_texts (suc n) s =
    let (x, rest) = read_text s in let (xs, end) = read_texts n rest in (x ∷ xs, end)

read_values : ℕ → Text → Values
read_values zero s = []
read_values (suc n) s =
    let (k, rest) = read_text s in
    let (xs, end) = read_texts (head_or_zero rest) (drop 1 rest) in (k, xs) ∷ read_values n end

take-length : (s t : Text) → take (length s) (s ++ t) ≡ s
take-length [] t = refl
take-length (c ∷ s) t = ap (λ x. c ∷ x) (take-length s t)

drop-length : (s t : Text) → drop (length s) (s ++ t) ≡ t
drop-length [] t = refl
drop-length (c ∷ s) t = drop-length s t

read-write_text : (s t : Text) → read_text (write_text s ++ t) ≡ (s, t)
read-write_text s t = simp (take-length s t, drop-length s t) refl

read-write_texts :
    (ss : List Text) (t : Text) → read_texts (length ss) (write_texts ss ++ t) ≡ (ss, t)
unfolding read_texts
read-write_texts [] t = refl
read-write_texts (s ∷ ss) t =
    simp
      (
        append_assoc s (write_texts ss) t,
        take-length s (write_texts ss ++ t),
        drop-length s (write_texts ss ++ t),
        read-write_texts ss t,
      )
      refl

read-write_values : (v : Values) → read_values (length v) (write_values v) ≡ v
unfolding read_values
read-write_values [] = refl
read-write_values ((k, xs) ∷ v) =
    let rest = (length xs ∷ []) ++ (write_texts xs ++ write_values v) in
    simp
      (
        take-length k rest,
        drop-length k rest,
        read-write_texts xs (write_values v),
        read-write_values v,
      )
      refl

abbrev codes_of : Primitives
codes_of = record {
  encode_base64 = map skip_dot;
  decode_base64 = λ s. some (map unskip s);
  encode_query = λ v. length v ∷ write_values v;
  parse_query = λ s. some (read_values (head_or_zero s) (drop 1 s));
  hmac = λ secret body. secret ++ body;
}

lawful : Lawful codes_of
lawful = record {
  decode_encode = λ s. ap some (unskip-skip_dot s);
  dot_free = skip_dot-free;
  parse_encode = λ v. (v, ap some (read-write_values v), λ k. refl);
}

abbrev at : ℕ → Codec
at now = record { secret = codes "secret"; ttl = pos (60 * second); secure = true; now = now }

-- A pending checkout that is opened as a pending one, half a second later.
open_token-seal_example :
    (w : Values) × ((k : Text)
      → get k w
        ≡ get k
            (sealed_values codes_of (at 1) ((codes "plan", codes "pro" ∷ []) ∷ []) second pending))
    × (open_token codes_of
          (at 500_000_000)
          (seal codes_of (at 1) ((codes "plan", codes "pro" ∷ []) ∷ []) second pending)
          (purpose_text pending)
        ≡ ok w)
unfolding eqb
open_token-seal_example =
    open_token-seal codes_of lawful (at 1) (at 500_000_000) ((codes "plan", codes "pro" ∷ []) ∷ [])
      second pending pending refl (omega arith)

abbrev no_values : Values
no_values = []

abbrev token : Text
token = seal codes_of (at 1) no_values second session

-- The values that the token opens to.
seal_opens : (w : Values) × (open_token codes_of (at 2) token (purpose_text session) ≡ ok w)
unfolding eqb
seal_opens =
    let (w, g, o) =
      open_token-seal codes_of lawful (at 1) (at 2) no_values second session session refl
        (omega arith) in
    (w, o)

open_token-Opened_example : Opened codes_of lawful (at 2) token (purpose_text session) seal_opens.0
open_token-Opened_example =
    open_token-Opened codes_of lawful (at 2) token (purpose_text session) seal_opens.0 seal_opens.1

abbrev visitor : Session
visitor = record {
  account_id = pos 7;
  email = codes "a@x.com";
  epoch = pos 2;
  issued_at = pos 0;
  expires_at = pos 0;
}

decode-encode_example :
    decode codes_of (at 30_000_000_000) (encode codes_of (at 1) visitor).0
    ≡ ok (encode codes_of (at 1) visitor).1
unfolding api_gatewahy.Portal.Session.ttl_of
decode-encode_example =
    decode-encode codes_of lawful (at 1) (at 30_000_000_000) 6 2 60 (codes "a@x.com") (pos 0)
      (pos 0) refl refl refl (omega arith) (omega arith) (omega arith) (omega arith)
