-- ===== src/Gateway/Meter/Tests.antt =====
-- Runs of the meter of gateway/meter.go.
use api_gatewahy.Base.{ℕ, pos, ◌+◌, ◌≡◌, refl, Bool, false, List, [], ◌∷◌, codes, length, leb}
use api_gatewahy.ApiAccess.Usage.{Usage}
use api_gatewahy.Gateway.Meter.{
  new_meter, Event, records, receives, drains, sees_done, closes, run, UsageMeter,
}
use api_gatewahy.Gateway.Meter.Counts.{run-stopped, recorded}
use api_gatewahy.Gateway.Meter.Sizes.{run-IsWithin, new_meter-IsWithin, IsWithin}

abbrev row : ℕ → Usage
row t = record {
  ts = t;
  key_id = 1;
  account_id = 2;
  game = codes "mtg";
  path = codes "/v1/mtg/search";
  status = 200;
  bytes = 10;
  duration_ms = 3;
  client_ip = [];
}

-- The first attempt of a flush fails, the second works.
abbrev second_works : ℕ → Bool
second_works i = leb 1 i

abbrev never_works : ℕ → Bool
never_works i = false

abbrev two_batches : List Event
two_batches =
    records (row 5)
    ∷ records (row 6)
    ∷ receives second_works
    ∷ receives never_works
    ∷ records (row 7)
    ∷ records (row 8)
    ∷ records (row 9)
    ∷ closes
    ∷ records (row 10)
    ∷ sees_done
    ∷ drains second_works
    ∷ drains second_works
    ∷ drains second_works
    ∷ drains second_works
    ∷ []

-- The last loop flushes more rows at once than a batch has.
flushes_three : (run (new_meter (pos 2)) two_batches).stored ≡ row 7 ∷ row 8 ∷ row 9 ∷ []
unfolding run api_gatewahy.Gateway.Meter.step new_meter
flushes_three = refl

run-stopped_example :
    length (run (new_meter (pos 2)) two_batches).stored
      + (run (new_meter (pos 2)) two_batches).dropped
    ≡ recorded two_batches
unfolding run api_gatewahy.Gateway.Meter.step new_meter
run-stopped_example = run-stopped (pos 2) two_batches refl

run-IsWithin_example : IsWithin (run (new_meter (pos 2)) two_batches)
run-IsWithin_example = run-IsWithin (new_meter (pos 2)) two_batches (new_meter-IsWithin (pos 2))
