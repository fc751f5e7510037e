-- ===== src/Gateway/Route.antt =====
-- gateway/route.go: public paths, the backend paths they map to, and the modes they need.
pub mod Shape
pub mod Safety
use api_gatewahy.Base.{
  ℕ, Bool, true, false, not, ◌&&◌, ◌||◌, Option, none, some, List, [], ◌∷◌, ◌++◌, Text, codes, eqb,
  is_empty, has_prefix, contains_text, leb, any, all, drop, split, cut, if◌then◌else◌,
}

pub record Route : Type 0 where
  pub game : Text
  pub kind : Text
  pub rest : Text

-- The regular expression ^[a-z0-9]+$.
abbrev pub is_game_char : ℕ → Bool
is_game_char c = (leb b'a' c && leb c b'z') || (leb b'0' c && leb c b'9')

unfoldable pub is_game_name : Text → Bool
is_game_name s = not (is_empty s) && all is_game_char s

abbrev pub v1_prefix : Text
v1_prefix = codes "/v1/"

abbrev pub v2_prefix : Text
v2_prefix = codes "/v2/"

abbrev pub dotdot : Text
dotdot = codes ".."

-- The first `switch`: what follows the version, and whether it is version 2.
unfoldable pub strip_version : Text → Option (Text × Bool)
strip_version path =
    if has_prefix path v1_prefix
    then some (drop 4 path, false)
    else if has_prefix path v2_prefix
    then some (drop 4 path, true)
    else none

abbrev plain_kinds : List Text
plain_kinds = codes "retail" ∷ codes "buylist" ∷ codes "all" ∷ codes "sealed" ∷ []

abbrev serves : Text → Text → Bool
serves sub kind =
    eqb sub (kind ++ codes ".json")
    || eqb sub (kind ++ codes ".csv")
    || has_prefix sub (kind ++ codes "/")

-- The loop of the `default` case stops at the first kind that fits; "" is no kind.
first_kind : Text → List Text → Text
first_kind sub [] = []
first_kind sub (kind ∷ kinds) =
    let rest = first_kind sub kinds in if serves sub kind then kind else rest

-- The second `switch`.
unfoldable pub kind_of : Bool → Text → Text
unfolding first_kind
kind_of v2 sub =
    if has_prefix sub (codes "search/")
    then codes "search"
    else if eqb sub (codes "sets.json")
        || eqb sub (codes "sets.csv")
        || eqb sub (codes "stores.json")
        || eqb sub (codes "stores.csv")
    then codes "meta"
    else if v2 && (eqb sub (codes "finishes.json") || eqb sub (codes "finishes.csv"))
    then codes "meta"
    else if v2 && has_prefix sub (codes "history/")
    then codes "history"
    else if v2 && has_prefix sub (codes "newspaper/")
    then codes "newspaper"
    else first_kind sub plain_kinds

abbrev pub backend_prefix : Bool → Text
backend_prefix true = codes "v2/"
backend_prefix false = codes "mtgban/"

-- From the game and what follows it.
finish : Bool → Option (Text × Text) → Option Route
finish v2 none = none
finish v2 (some (game, sub)) =
    if not (is_game_name game) || is_empty sub
    then none
    else let r : Route = record {
      game = game;
      kind = kind_of v2 sub;
      rest = backend_prefix v2 ++ sub;
    } in
      if is_empty r.kind then none else some r

-- `none` is ErrNoRoute.
parse_rest : Option (Text × Bool) → Option Route
parse_rest none = none
parse_rest (some (rest, v2)) =
    if any (λ seg. contains_text seg dotdot) (split rest b'/')
    then none
    else finish v2 (cut rest b'/')

unfoldable pub parse_route : Text → Option Route
unfolding strip_version parse_rest finish
parse_route path = parse_rest (strip_version path)

unfoldable pub backend_path : Route → Text
backend_path r = codes "/api/" ++ r.rest

unfoldable pub needs_modes : Route → List Text
needs_modes r =
    if eqb r.kind (codes "all")
    then codes "retail" ∷ codes "buylist" ∷ []
    else if eqb r.kind (codes "retail")
        || eqb r.kind (codes "buylist")
        || eqb r.kind (codes "sealed")
        || eqb r.kind (codes "history")
        || eqb r.kind (codes "newspaper")
    then r.kind ∷ []
    else []
