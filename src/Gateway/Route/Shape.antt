-- ===== src/Gateway/Route/Shape.antt =====
-- Which paths `parse_route` accepts, and what it makes of them.
use api_gatewahy.Base.{
  ◌≡◌, refl, sym, ap, Bool, true, false, Option, none, some, ◌∷◌, ◌++◌, [], subst, Text, is_empty,
  contains_text, all, cut, has_prefix, has_prefix-drop, cut-eq_some, cut-append, free, any-split,
  arith,
}
use api_gatewahy.Gateway.Route.{
  Route, is_game_name, v1_prefix, v2_prefix, is_game_char, dotdot, strip_version, kind_of,
  backend_prefix, finish, parse_rest, parse_route,
}

abbrev pub version_prefix : Bool → Text
version_prefix true = v2_prefix
version_prefix false = v1_prefix

-- What the parser promises of a route: the path it came from can be written from its parts.
pub record Parsed (path : Text) (r : Route) : Type 0 where
  pub v2 : Bool
  pub sub : Text
  pub path_eq : path ≡ version_prefix v2 ++ (r.game ++ (b'/' ∷ sub))
  pub rest_eq : r.rest ≡ backend_prefix v2 ++ sub
  pub kind_eq : r.kind ≡ kind_of v2 sub
  pub kind_known : is_empty r.kind ≡ false
  pub game_ok : is_game_name r.game ≡ true
  pub sub_ok : is_empty sub ≡ false
  pub no_dotdot : contains_text (r.game ++ (b'/' ∷ sub)) dotdot ≡ false

finish-eq_some :
    (v2 : Bool) (game sub : Text) {r : Route}
    → finish v2 (some (game, sub)) ≡ some r
    → (record { game = game; kind = kind_of v2 sub; rest = backend_prefix v2 ++ sub } ≡ r)
      × (is_game_name game ≡ true)
      × (is_empty sub ≡ false)
      × (is_empty (kind_of v2 sub) ≡ false)
unfolding finish
finish-eq_some v2 game sub h = (ground arith, ground arith, ground arith, ground arith)

finish-Parsed :
    (v2 : Bool) (rest : Text) (c : Option (Text × Text)) {r : Route}
    → cut rest b'/' ≡ c
    → contains_text rest dotdot ≡ false
    → finish v2 c ≡ some r
    → Parsed (version_prefix v2 ++ rest) r
finish-Parsed v2 rest none e n h = unfold finish in ground arith
finish-Parsed v2 rest (some (game, sub)) e n h =
    let (eq, g, s, k) = finish-eq_some v2 game sub h in
    let split_at : rest ≡ game ++ (b'/' ∷ sub) = cut-eq_some rest b'/' e in
    subst (λ r. Parsed (version_prefix v2 ++ rest) r) eq
      (record {
        v2 = v2;
        sub = sub;
        path_eq = ap (λ t. version_prefix v2 ++ t) split_at;
        rest_eq = refl;
        kind_eq = refl;
        kind_known = k;
        game_ok = g;
        sub_ok = s;
        no_dotdot = rw (← split_at) n;
      })

strip_version-eq_some :
    (path : Text) {rest : Text} {v2 : Bool}
    → strip_version path ≡ some (rest, v2)
    → path ≡ version_prefix v2 ++ rest
unfolding strip_version
strip_version-eq_some path h =
    ground (arith, has_prefix-drop path v1_prefix, has_prefix-drop path v2_prefix)

-- `parse_route` looks for ".." in each segment, which is looking in the whole rest.
parse_rest-Parsed :
    (path : Text) (o : Option (Text × Bool)) {r : Route}
    → strip_version path ≡ o
    → parse_rest o ≡ some r
    → Parsed path r
unfolding parse_rest
parse_rest-Parsed path none e h = ground arith
parse_rest-Parsed path (some (rest, v2)) {r} e h =
    subst (λ p. Parsed p r) (sym (strip_version-eq_some path e))
      (finish-Parsed v2 rest (cut rest b'/') refl
        (ground (arith, any-split rest b'/' b'.' (b'.' ∷ []) refl)) (ground arith))

-- Every route that the parser accepts can be read back from its path: the path is the version, the
-- game, a slash and the rest; the game is a game name, the rest is not empty and holds no "..";
-- the backend path under /api/ is the version's prefix and the same rest; the kind is the rest's.
pub parse_route-Parsed : (path : Text) {r : Route} → parse_route path ≡ some r → Parsed path r
unfolding parse_route
parse_route-Parsed path h = parse_rest-Parsed path (strip_version path) refl h

free-of-game : (game : Text) → all (λ c. is_game_char c) game ≡ true → free b'/' game ≡ true
free-of-game [] h = refl
free-of-game (c ∷ game) h = ground (arith, free-of-game game)

strip_version-append :
    (v2 : Bool) (rest : Text) → strip_version (version_prefix v2 ++ rest) ≡ some (rest, v2)
unfolding strip_version has_prefix
strip_version-append false rest = refl
strip_version-append true rest = refl

-- Conversely, every path of that shape whose rest has a kind is accepted, with exactly that route.
pub parse_route_complete :
    (v2 : Bool) (game sub : Text)
    → is_game_name game ≡ true
    → is_empty sub ≡ false
    → is_empty (kind_of v2 sub) ≡ false
    → contains_text (game ++ (b'/' ∷ sub)) dotdot ≡ false
    → parse_route (version_prefix v2 ++ (game ++ (b'/' ∷ sub)))
      ≡ some (record { game = game; kind = kind_of v2 sub; rest = backend_prefix v2 ++ sub })
unfolding parse_route is_game_name
parse_route_complete v2 game sub g s k n = rw (strip_version-append v2 (game ++ (b'/' ∷ sub))) (
    ground (
      arith,
      any-split (game ++ (b'/' ∷ sub)) b'/' b'.' (b'.' ∷ []) refl,
      cut-append game b'/' sub,
      free-of-game game,
    ))
