-- ===== src/Gateway/Probe/Alerts.antt =====
-- The alerts of gateway/probe.go: each change of state is told once.
use api_gatewahy.Base.{
  ℕ, ◌≡◌, refl, sym, Bool, true, false, not, ◌&&◌, ◌||◌, Option, List, [], ◌∷◌, ◌++◌, Text, eqb,
  eqb_iff, eqb_symm, contains, distinct, distinct-sort, contains-sort, sort, keys, lookup,
  insert_key, lookup-insert_key, arith, if◌then◌else◌,
}
use mathlib.Core.List.{append-nil}
use api_gatewahy.Gateway.Probe.{
  ProbeError, Prober, Results, failing_at, is_failed, change, named, tick_names, tick, check,
  check_from, TickInput, run_ticks, db_probe_name,
}

-- The alerts of one name, in their order.
abbrev pub alerts_for : Text → List (Text × Bool) → List Bool
alerts_for k [] = []
alerts_for k ((j, b) ∷ ms) = if eqb j k then b ∷ alerts_for k ms else alerts_for k ms

alerts_for-append :
    (k : Text) (ms ns : List (Text × Bool))
    → alerts_for k (ms ++ ns) ≡ alerts_for k ms ++ alerts_for k ns
alerts_for-append k [] ns = refl
alerts_for-append k ((j, b) ∷ ms) ns = ground (arith, alerts_for-append k ms ns)

alerts_for-named :
    (k j : Text) (bs : List Bool) → alerts_for k (named j bs) ≡ (if eqb j k then bs else [])
alerts_for-named k j [] = ground arith
alerts_for-named k j (b ∷ bs) = ground (arith, alerts_for-named k j bs)

-- What the loop leaves and tells for one name.
tick_names_lem :
    (results : Results) (failing messages : List (Text × Bool)) (ks : List Text) (k : Text)
    → distinct ks ≡ true
    → (failing_at (tick_names results failing messages ks).0 k
        ≡ (if contains ks k then is_failed (lookup k results) else failing_at failing k))
      × (alerts_for k (tick_names results failing messages ks).1
          ≡ alerts_for k messages
            ++ (if contains ks k
                then change (failing_at failing k) (is_failed (lookup k results))
                else []))
unfolding tick_names contains
tick_names_lem results failing messages [] k d = (refl, sym (append-nil (alerts_for k messages)))
tick_names_lem results failing messages (j ∷ ks) k d =
    let now = is_failed (lookup j results) in
    let told = named j (change (failing_at failing j) now) in
    ground (
      arith,
      eqb_iff j k,
      tick_names_lem results (insert_key j now failing) (messages ++ told) ks k,
      lookup-insert_key j k now failing,
      alerts_for-append k messages told,
      alerts_for-named k j (change (failing_at failing j) now),
      append-nil (alerts_for k messages),
      append-nil (alerts_for k messages ++ change (failing_at failing j) now),
    )

keys_distinct-insert_key :
    (k : Text) (v : Option ProbeError) (m : Results)
    → distinct (keys m) ≡ true
    → (distinct (keys (insert_key k v m)) ≡ true)
      × ((j : Text) → contains (keys (insert_key k v m)) j ≡ (eqb k j || contains (keys m) j))
unfolding insert_key contains
keys_distinct-insert_key k v [] d = (refl, λ j. refl)
keys_distinct-insert_key k v ((i, w) ∷ m) d =
    let (u, c) = keys_distinct-insert_key k v m (ground arith) in
    (
      ground (arith, eqb_iff i k, eqb_symm i k, c i),
      λ j. ground (arith, eqb_iff i k, eqb_iff k j, eqb_iff i j, c j),
    )

check_from-distinct :
    (p : Prober) (expires : ℕ) (gs : List Text) (out : Results)
    → distinct (keys out) ≡ true
    → distinct (keys (check_from p expires gs out)) ≡ true
unfolding check_from
check_from-distinct p expires [] out d = d
check_from-distinct p expires (g ∷ gs) out d =
    check_from-distinct p expires gs _ (keys_distinct-insert_key g _ out d).0

-- The results of a tick: those of the games, and the ping under the name of the database.
abbrev pub results_of : Prober → ℕ → Option ProbeError → Results
results_of p expires ping = insert_key db_probe_name ping (check p expires)

results_of-distinct :
    (p : Prober) (expires : ℕ) (ping : Option ProbeError)
    → distinct (keys (results_of p expires ping)) ≡ true
unfolding check contains
results_of-distinct p expires ping =
    (keys_distinct-insert_key db_probe_name ping _
      (check_from-distinct p expires (keys p.games) [] refl)).0

-- What a tick leaves for a name is whether its probe failed, or what it was where it was not probed;
-- and it tells of the name once if that is a change, and else not.
pub tick_lem :
    (p : Prober) (expires : ℕ) (ping : Option ProbeError) (k : Text)
    → let results = results_of p expires ping in
      (failing_at (tick p expires ping).0.failing k ≡ (
        if contains (keys results) k then is_failed (lookup k results) else failing_at p.failing k))
      × (alerts_for k (tick p expires ping).1
          ≡ change (failing_at p.failing k) (failing_at (tick p expires ping).0.failing k))
unfolding tick
tick_lem p expires ping k =
    let results = results_of p expires ping in
    let names = sort (keys results) in
    let (f, a) =
      tick_names_lem results p.failing [] names k
        (distinct-sort (keys results) (results_of-distinct p expires ping)) in
    ground (arith, f, a, contains-sort (keys results) k)

-- Each alert says another state than the one before it.
abbrev pub alternates : Bool → List Bool → Bool
alternates was [] = true
alternates was (now ∷ bs) = (if now then not was else was) && alternates now bs

-- The state after the alerts.
abbrev pub state_after : Bool → List Bool → Bool
state_after was [] = was
state_after was (now ∷ bs) = state_after now bs

alternates-append :
    (was : Bool) (bs cs : List Bool)
    → alternates was bs ≡ true
    → alternates (state_after was bs) cs ≡ true
    → (alternates was (bs ++ cs) ≡ true)
      × (state_after was (bs ++ cs) ≡ state_after (state_after was bs) cs)
alternates-append was [] cs h k = (k, refl)
alternates-append was (b ∷ bs) cs h k = ground (arith, alternates-append b bs cs)

change-alternates :
    (was now : Bool)
    → (alternates was (change was now) ≡ true) × (state_after was (change was now) ≡ now)
change-alternates true true = (refl, refl)
change-alternates true false = (refl, refl)
change-alternates false true = (refl, refl)
change-alternates false false = (refl, refl)

-- Over any run of ticks, whatever the backends and the database answer, the alerts of a name alternate
-- between FAILING and recovered, from the state before the run to the state after it.
pub run_ticks-alternates :
    (p : Prober) (is : List TickInput) (k : Text)
    → (alternates (failing_at p.failing k) (alerts_for k (run_ticks p is).1) ≡ true)
      × (state_after (failing_at p.failing k) (alerts_for k (run_ticks p is).1)
          ≡ failing_at (run_ticks p is).0.failing k)
unfolding run_ticks
run_ticks-alternates p [] k = (refl, refl)
run_ticks-alternates p (i ∷ is) k =
    let p' : Prober = record p { fetch = i.fetch } in
    let t = tick p' i.expires i.ping in
    let (f, a) = tick_lem p' i.expires i.ping k in
    let (c, s) = change-alternates (failing_at p.failing k) (failing_at t.0.failing k) in
    let (d, e) = run_ticks-alternates t.0 is k in
    ground (
      arith,
      a,
      c,
      s,
      d,
      e,
      alerts_for-append k t.1 (run_ticks t.0 is).1,
      alternates-append (failing_at p.failing k)
          (change (failing_at p.failing k) (failing_at t.0.failing k))
          (alerts_for k (run_ticks t.0 is).1),
    )
