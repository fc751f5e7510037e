-- ===== src/ApiAccess/MemStore/Audit.antt =====
-- The audit of the admins and the demo access of apiaccess/apiaccesstest/memstore.go.
use api_gatewahy.Base.{
  ℕ, ℤ, pos, ◌+◌, Bool, true, false, not, ◌&&◌, ◌||◌, Option, none, some, List, [], ◌∷◌, ◌++◌, Text,
  codes, filter, length, take, sort_by, ok, err, ltb, leb, lt_ℤ, pos_part, ◌==◌, if◌then◌else◌,
}
use api_gatewahy.ApiAccess.Entitlement.{
  Entitlement, Source, stripe, manual, trial, is_active_status,
}
use api_gatewahy.ApiAccess.Key.{Account}
use api_gatewahy.ApiAccess.Usage.{AdminAction, DemoAccess, Trial}
use api_gatewahy.ApiAccess.MemStore.{
  negative_limit, MemStore, pg_time, pg_time_ptr, normalize_email, Operation, entered,
}
use api_gatewahy.ApiAccess.MemStore.Accounts.{account_of}
use api_gatewahy.ApiAccess.MemStore.Keys.{is_live}

-- RecordAdminAction
unfoldable pub record_admin_action : ℕ → Text → Text → ℕ → Text → Text → Operation ℕ
unfolding entered pg_time normalize_email
record_admin_action clock actor action account_id target detail =
    entered (codes "RecordAdminAction") 0 (λ m.
      let a : AdminAction = record {
        id = m.action_seq + 1;
        at = pg_time clock;
        actor = normalize_email actor;
        action = action;
        account_id = account_id;
        target = target;
        detail = detail;
      } in
      (ok a.id, record m { actions = m.actions ++ (a ∷ []); action_seq = m.action_seq + 1 }))

abbrev newest_first : AdminAction → AdminAction → Bool
newest_first a b = ltb b.at a.at || (a.at == b.at && leb b.id a.id)

-- ListAdminActions
unfoldable pub list_admin_actions : ℕ → ℤ → Operation (List AdminAction)
unfolding entered
list_admin_actions account_id limit = entered (codes "ListAdminActions") account_id (λ m.
    if lt_ℤ limit (pos 0) then (err negative_limit, m) else (
      ok (
          take (pos_part limit) (
            sort_by newest_first
              (filter (λ a. account_id == 0 || a.account_id == account_id) m.actions))),
      m,
    ))

abbrev is_demo : Source → Bool
is_demo trial = true
is_demo manual = true
is_demo stripe = false

abbrev is_over : ℕ → Option ℕ → Bool
is_over now none = false
is_over now (some until) = not (ltb now until)

unfoldable latest_from : ℕ → Option Trial → List Trial → Option Trial
latest_from account_id last [] = last
latest_from account_id last (t ∷ ts) =
    latest_from account_id
      (if t.account_id == account_id
          && elim last [ none ↦ true | some l ↦ ltb l.granted_at t.granted_at ]
        then some t
        else last)
      ts

abbrev is_trial : Source → Bool
is_trial trial = true
is_trial manual = false
is_trial stripe = false

-- d.Requester: the email of the latest trial of a trial row's account.
unfoldable requester_of : Entitlement → MemStore → Text
unfolding latest_from
requester_of e m =
    if is_trial e.source
    then elim (latest_from e.account_id none m.trials) [ none ↦ [] | some t ↦ t.patreon_email ]
    else []

unfoldable demo_of : Entitlement → MemStore → Option Account → List DemoAccess
unfolding requester_of pg_time_ptr
demo_of e m none = []
demo_of e m (some a) =
    record {
      account_id = e.account_id;
      email = a.email;
      source = e.source;
      requester = requester_of e m;
      note = e.note;
      granted_at = e.valid_from;
      ends_at = pg_time_ptr e.valid_until;
      keys = length (filter (λ k. k.account_id == e.account_id && is_live k) m.keys);
      last_used = none;
    }
    ∷ []

-- The loop of ListDemoAccess.
unfoldable demos : ℕ → MemStore → List Entitlement → List DemoAccess
unfolding demo_of account_of
demos now m [] = []
demos now m (e ∷ es) =
    let rest = demos now m es in
    if not (is_active_status e.status) || not (is_demo e.source) || is_over now e.valid_until
    then rest
    else demo_of e m (account_of e.account_id m) ++ rest

-- ListDemoAccess
unfoldable pub list_demo_access : ℕ → Operation (List DemoAccess)
unfolding entered demos
list_demo_access clock =
    entered (codes "ListDemoAccess") 0
      (λ m. (ok (sort_by (λ a b. leb b.granted_at a.granted_at) (demos clock m m.ents)), m))
