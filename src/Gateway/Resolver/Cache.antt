-- ===== src/Gateway/Resolver/Cache.antt =====
-- Making room in a cache: it invents no entry, and it does make room.
use api_gatewahy.Base.{
  ◌≡◌, refl, ◌≤◌, ◌<◌, ℕ, true, none, List, [], ◌∷◌, Text, eqb_iff, contains, keys, lookup, erase,
  lookup-erase, keys-erase, length, arith,
}
use api_gatewahy.Gateway.Resolver.{Cache, Resolver, make_room, drop_expired, drop_until}

-- A range over the map meets each of its keys.
abbrev pub Covers : List Text → Cache → Type 0
Covers order m = (j : Text) → contains (keys m) j ≡ true → contains order j ≡ true

drop_expired-lookup :
    (r : Resolver) (now : ℕ) (m : Cache) (h : Text)
    → lookup h m ≡ none
    → lookup h (drop_expired r now m) ≡ none
unfolding drop_expired lookup
drop_expired-lookup r now [] h n = refl
drop_expired-lookup r now ((j, e) ∷ m) h n = ground (arith, drop_expired-lookup r now m h)

drop_expired-keys :
    (r : Resolver) (now : ℕ) (m : Cache) (j : Text)
    → contains (keys (drop_expired r now m)) j ≡ true
    → contains (keys m) j ≡ true
unfolding drop_expired contains
drop_expired-keys r now [] j h = h
drop_expired-keys r now ((i, e) ∷ m) j h = ground (arith, drop_expired-keys r now m j)

drop_until-lookup :
    (order : List Text) (limit : ℕ) (m : Cache) (h : Text)
    → lookup h m ≡ none
    → lookup h (drop_until order limit m) ≡ none
unfolding drop_until
drop_until-lookup [] limit m h n = n
drop_until-lookup (k ∷ ks) limit m h n =
    ground (arith, drop_until-lookup ks limit (erase k m) h, lookup-erase k h m)

-- A key that has no entry gets none.
pub make_room-lookup :
    (r : Resolver) (limit now : ℕ) (order : List Text) (m : Cache) (h : Text)
    → lookup h m ≡ none
    → lookup h (make_room r limit now order m) ≡ none
unfolding make_room
make_room-lookup r limit now order m h n =
    ground
      (arith, drop_until-lookup order limit (drop_expired r now m) h, drop_expired-lookup r now m h)

covered_nil : (m : Cache) → Covers [] m → m ≡ []
unfolding contains
covered_nil [] c = refl
covered_nil ((j, e) ∷ m) c = absurd (cc (c j (ground (arith, eqb_iff j j))))

Covers-erase : (k : Text) (ks : List Text) (m : Cache) → Covers (k ∷ ks) m → Covers ks (erase k m)
unfolding contains
Covers-erase k ks m c j h = ground (arith, keys-erase k j m, c j)

drop_until-lt :
    (order : List Text) (limit : ℕ) (m : Cache)
    → 1 ≤ limit
    → Covers order m
    → length (drop_until order limit m) < limit
unfolding drop_until
drop_until-lt [] limit m l c = rw (covered_nil m c) l
drop_until-lt (k ∷ ks) limit m l c =
    let rest = drop_until-lt ks limit (erase k m) l (Covers-erase k ks m c) in ground arith

-- Over an order that meets every key, room is made for one more entry.
pub make_room-lt :
    (r : Resolver) (limit now : ℕ) (order : List Text) (m : Cache)
    → 1 ≤ limit
    → Covers order m
    → length (make_room r limit now order m) < limit
unfolding make_room
make_room-lt r limit now order m l c =
    let rest =
      drop_until-lt order limit (drop_expired r now m) l
        (λ j h. c j (drop_expired-keys r now m j h)) in
    ground arith
