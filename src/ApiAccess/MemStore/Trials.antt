-- ===== src/ApiAccess/MemStore/Trials.antt =====
-- The operations on trials of apiaccess/apiaccesstest/memstore.go.
use api_gatewahy.Base.{
  ℕ, ◌+◌, Bool, true, false, not, ◌&&◌, Option, none, some, List, [], ◌∷◌, ◌++◌, Text, codes, eqb,
  any, filter, find_first, update_first, sort_by, map, Result, ok, err, ltb, leb, ◌==◌,
  if◌then◌else◌,
}
use api_gatewahy.ApiAccess.Entitlement.{Entitlement}
use api_gatewahy.ApiAccess.Usage.{Trial}
use api_gatewahy.ApiAccess.MemStore.{
  StoreError, not_found, unique_violation, trial_too_soon, MemStore, pg_time, pg_time_ptr,
  normalize_email, Operation, entered,
}
use api_gatewahy.ApiAccess.MemStore.Accounts.{account_of, or_not_found}
use api_gatewahy.ApiAccess.MemStore.Rows.{
  canonical, check_columns, account_known, ent_by_ref, insert_entitlement,
}

-- inWindow
abbrev pub in_window : ℕ → ℕ → ℕ → Bool
in_window ts since until = not (ltb ts since) && ltb ts until

-- copyTrial
unfoldable pub copy_trial : Trial → Trial
unfolding pg_time_ptr
copy_trial t = record t { reminder_sent_at = pg_time_ptr t.reminder_sent_at }

abbrev pub granted_after : Text → ℕ → Trial → Bool
granted_after email not_before t = eqb t.patreon_email email && ltb not_before t.granted_at

unfoldable pub new_trial : ℕ → ℕ → Text → ℕ → ℕ → Trial
unfolding pg_time
new_trial id clock email account_id ends_at = record {
  id = id;
  patreon_email = email;
  account_id = account_id;
  granted_at = pg_time clock;
  ends_at = pg_time ends_at;
  reminder_sent_at = none;
}

abbrev pub with_trial : Trial → MemStore → MemStore
with_trial t m = record m { trials = m.trials ++ (t ∷ []); trial_seq = m.trial_seq + 1 }

-- Both inserts of CreateTrial.
unfoldable pub insert_trial : ℕ → Text → ℕ → Entitlement → Operation Trial
unfolding insert_entitlement copy_trial new_trial
insert_trial clock email ends_at ent m =
    let t = new_trial (m.trial_seq + 1) clock email ent.account_id ends_at in
    (ok (copy_trial t), (insert_entitlement clock ent (with_trial t m)).1)

unfoldable pub trial_unless : ℕ → Text → ℕ → Entitlement → Option Entitlement → Operation Trial
unfolding insert_trial
trial_unless clock email ends_at ent (some have) m = (err unique_violation, m)
trial_unless clock email ends_at ent none m = insert_trial clock email ends_at ent m

unfoldable pub trial_checked : ℕ → Text → ℕ → Entitlement → Option StoreError → Operation Trial
unfolding trial_unless ent_by_ref
trial_checked clock email ends_at ent (some f) m = (err f, m)
trial_checked clock email ends_at ent none m =
    trial_unless clock email ends_at ent (ent_by_ref ent.external_ref m) m

-- The check of the foreign key, then the entry of the second insert, under its own name in the faults.
unfoldable pub trial_for : ℕ → Text → ℕ → Bool → Entitlement → Option StoreError → Operation Trial
unfolding entered trial_checked check_columns
trial_for clock email ends_at nil_games ent (some f) m = (err f, m)
trial_for clock email ends_at nil_games ent none m =
    entered (codes "CreateTrial.entitlement") 0
      (λ n. trial_checked clock email ends_at ent (check_columns nil_games ent n) n) m

unfoldable pub trial_of : ℕ → Text → ℕ → ℕ → Bool → Result StoreError Entitlement → Operation Trial
unfolding trial_for account_of
trial_of clock email ends_at not_before nil_games (err f) m = (err f, m)
trial_of clock email ends_at not_before nil_games (ok ent) m =
    if any (granted_after email not_before) m.trials
    then (err trial_too_soon, m)
    else trial_for clock email ends_at nil_games ent (account_known (account_of ent.account_id m)) m

-- CreateTrial
unfoldable pub create_trial : ℕ → Text → ℕ → ℕ → Bool → Entitlement → Operation Trial
unfolding entered canonical trial_of
create_trial clock email ends_at not_before nil_games ent = entered (codes "CreateTrial") 0 (
    trial_of clock (normalize_email email) ends_at not_before nil_games
      (canonical clock (record ent { valid_until = some ends_at })))

abbrev newer_or_same : Trial → Option Trial → Bool
newer_or_same t none = true
newer_or_same t (some last) = not (ltb t.granted_at last.granted_at)

-- The loop of LastTrial.
unfoldable pub last_of : Text → Option Trial → List Trial → Option Trial
last_of email last [] = last
last_of email last (t ∷ ts) =
    last_of email (if eqb t.patreon_email email && newer_or_same t last then some t else last) ts

abbrev copied_trial : Option Trial → Option Trial
copied_trial none = none
copied_trial (some t) = some (copy_trial t)

-- LastTrial
unfoldable pub last_trial : Text → Operation Trial
unfolding entered last_of copy_trial
last_trial email =
    entered (codes "LastTrial") 0
      (λ m. (or_not_found (copied_trial (last_of (normalize_email email) none m.trials)), m))

abbrev pub not_reminded : Trial → Bool
not_reminded t = elim t.reminder_sent_at [ none ↦ true | some at ↦ false ]

-- TrialsToRemind
unfoldable pub trials_to_remind : ℕ → ℕ → Operation (List Trial)
unfolding entered copy_trial
trials_to_remind from to = entered (codes "TrialsToRemind") 0 (λ m. (
  ok (
      sort_by (λ a b. leb a.ends_at b.ends_at)
        (map copy_trial (filter (λ t. not_reminded t && in_window t.ends_at from to) m.trials))),
  m,
))

abbrev pub has_trial_id : ℕ → Trial → Bool
has_trial_id id t = t.id == id

unfoldable pub reminded : ℕ → Trial → Trial
unfolding pg_time
reminded at t = record t { reminder_sent_at = some (pg_time at) }

unfoldable pub mark_row : ℕ → ℕ → Option Trial → Operation ℕ
unfolding reminded
mark_row id at none m = (err not_found, m)
mark_row id at (some t) m =
    (ok id, record m { trials = update_first (has_trial_id id) (reminded at) m.trials })

-- MarkTrialReminded
unfoldable pub mark_trial_reminded : ℕ → ℕ → Operation ℕ
unfolding entered mark_row
mark_trial_reminded id at =
    entered (codes "MarkTrialReminded") id
      (λ m. mark_row id at (find_first (has_trial_id id) m.trials) m)
