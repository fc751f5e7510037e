-- ===== src/ApiAccess/MemStore/Reports.antt =====
-- The reports of apiaccess/apiaccesstest/memstore.go: usage.
-- A map of a loop is an association list in the order of the keys' first rows; what is returned is
-- sorted by the whole key, so that no order of iteration shows.
use api_gatewahy.Base.{
  day_ns, ◌*◌, ◌/◌, ℕ, ℤ, pos, ◌+◌, Bool, ◌&&◌, ◌||◌, Option, none, some, List, [], ◌∷◌, ◌++◌, Text,
  codes, eqb, length, take, sort_by, leb_text, map, ok, ltb, leb, le_ℤ, pos_part, ◌==◌,
  if◌then◌else◌,
}
use api_gatewahy.ApiAccess.Key.{Account, Key}
use api_gatewahy.ApiAccess.Usage.{Usage, UsageRow, KeyUsageRow, PathUsageRow}
use api_gatewahy.ApiAccess.MemStore.{MemStore, pg_time, Operation, entered}
use api_gatewahy.ApiAccess.MemStore.Accounts.{account_of}
use api_gatewahy.ApiAccess.MemStore.Trials.{in_window}

unfoldable rounded : Usage → Usage
unfolding pg_time
rounded u = record u { ts = pg_time u.ts }

-- InsertUsage
unfoldable pub insert_usage : List Usage → Operation ℕ
unfolding entered rounded
insert_usage rows =
    entered (codes "InsertUsage") 0
      (λ m. (ok (length rows), record m { usage = m.usage ++ map rounded rows }))

-- errorCount
abbrev pub error_count : ℕ → ℕ
error_count status = if leb 400 status then 1 else 0

abbrev pub same_group : Usage → UsageRow → Bool
same_group u r = r.account_id == u.account_id && eqb r.game u.game

abbrev pub counted : Usage → UsageRow → UsageRow
counted u r = record r {
  requests = r.requests + 1;
  bytes = r.bytes + u.bytes;
  errors = r.errors + error_count u.status;
}

-- The group of a usage row, which is made where it is missing, and its counts.
unfoldable pub count_usage : Text → Usage → List UsageRow → List UsageRow
count_usage email u [] =
    counted u (record {
      account_id = u.account_id;
      email = email;
      game = u.game;
      requests = 0;
      bytes = 0;
      errors = 0;
    })
    ∷ []
count_usage email u (r ∷ rs) =
    let rest = count_usage email u rs in if same_group u r then counted u r ∷ rs else r ∷ rest

abbrev pub asked_usage : ℕ → ℕ → ℕ → Usage → Bool
asked_usage since until account_id u =
    in_window u.ts since until && (account_id == 0 || u.account_id == account_id)

unfoldable pub count_of_account : ℕ → ℕ → ℕ → Usage → Option Account → List UsageRow → List UsageRow
unfolding count_usage
count_of_account since until account_id u none rs = rs
count_of_account since until account_id u (some a) rs =
    if asked_usage since until account_id u then count_usage a.email u rs else rs

-- The loop of SummarizeUsage.
unfoldable pub summarize : MemStore → ℕ → ℕ → ℕ → List Usage → List UsageRow → List UsageRow
unfolding count_of_account account_of
summarize m since until account_id [] rs = rs
summarize m since until account_id (u ∷ us) rs =
    summarize m since until account_id us
      (count_of_account since until account_id u (account_of u.account_id m) rs)

abbrev leb_usage_row : UsageRow → UsageRow → Bool
leb_usage_row a b = if eqb a.email b.email then leb_text a.game b.game else leb_text a.email b.email

-- SummarizeUsage
unfoldable pub summarize_usage : ℕ → ℕ → ℕ → Operation (List UsageRow)
unfolding entered summarize
summarize_usage since until account_id =
    entered (codes "SummarizeUsage") 0
      (λ m. (ok (sort_by leb_usage_row (summarize m since until account_id m.usage [])), m))

-- The last key of the id, as the loop without a break leaves it.
unfoldable key_with : ℕ → Option Key → List Key → Option Key
key_with id found [] = found
key_with id found (k ∷ ks) = key_with id (if k.id == id then some k else found) ks

-- Midnight in UTC: the zero time is one.
abbrev day_of : ℕ → ℕ
day_of ts = ts / day_ns * day_ns

unfoldable count_key_usage : Key → Usage → List KeyUsageRow → List KeyUsageRow
count_key_usage k u [] =
    record {
      key_id = k.id;
      prefix = k.prefix;
      label = k.label;
      day = day_of u.ts;
      requests = 1;
      bytes = u.bytes;
      errors = error_count u.status;
    }
    ∷ []
count_key_usage k u (r ∷ rs) =
    let rest = count_key_usage k u rs in
    if r.key_id == k.id && r.day == day_of u.ts
    then record r {
      requests = r.requests + 1;
      bytes = r.bytes + u.bytes;
      errors = r.errors + error_count u.status;
    }
      ∷ rs
    else r ∷ rest

unfoldable count_of_key : Usage → Option Key → List KeyUsageRow → List KeyUsageRow
unfolding count_key_usage
count_of_key u none rs = rs
count_of_key u (some k) rs = count_key_usage k u rs

-- The loop of UsageByKey.
unfoldable by_key : List Key → ℕ → ℕ → ℕ → List Usage → List KeyUsageRow → List KeyUsageRow
unfolding key_with count_of_key
by_key ks since until account_id [] rs = rs
by_key ks since until account_id (u ∷ us) rs = by_key ks since until account_id us (
    if asked_usage since until account_id u
    then count_of_key u (key_with u.key_id none ks) rs
    else rs)

abbrev leb_key_row : KeyUsageRow → KeyUsageRow → Bool
leb_key_row a b = ltb a.key_id b.key_id || (a.key_id == b.key_id && leb a.day b.day)

-- UsageByKey
unfoldable pub usage_by_key : ℕ → ℕ → ℕ → Operation (List KeyUsageRow)
unfolding entered by_key
usage_by_key since until account_id =
    entered (codes "UsageByKey") 0
      (λ m. (ok (sort_by leb_key_row (by_key m.keys since until account_id m.usage [])), m))

unfoldable count_path : Usage → List PathUsageRow → List PathUsageRow
count_path u [] = record { path = u.path; requests = 1; errors = error_count u.status } ∷ []
count_path u (r ∷ rs) =
    let rest = count_path u rs in
    if eqb r.path u.path
    then record r { requests = r.requests + 1; errors = r.errors + error_count u.status } ∷ rs
    else r ∷ rest

unfoldable count_paths : ℕ → ℕ → ℕ → List Usage → List PathUsageRow → List PathUsageRow
unfolding count_path
count_paths since until key_id [] rs = rs
count_paths since until key_id (u ∷ us) rs =
    count_paths since until key_id us
      (if u.key_id == key_id && in_window u.ts since until then count_path u rs else rs)

abbrev leb_path_row : PathUsageRow → PathUsageRow → Bool
leb_path_row a b = ltb b.requests a.requests || (a.requests == b.requests && leb_text a.path b.path)

-- TopPaths
unfoldable pub top_paths : ℕ → ℕ → ℕ → ℤ → Operation (List PathUsageRow)
unfolding entered count_paths
top_paths since until key_id limit = entered (codes "TopPaths") 0 (λ m. (
  ok (
      take (if le_ℤ limit (pos 0) then 10 else pos_part limit)
        (sort_by leb_path_row (count_paths since until key_id m.usage []))),
  m,
))
