-- ===== src/ApiAccess/MemStore/Run.antt =====
-- Calls of the store of apiaccess/apiaccesstest/memstore.go, in the order in which its mutex lets them in.
pub mod Kept
use api_gatewahy.Base.{
  ℕ, ◌≡◌, refl, Bool, Option, none, some, List, [], ◌∷◌, Text, Result, lookup, find_first, filter,
  arith, true, false, Bool-cases, inl, inr, ◌||◌, not, if◌then◌else◌, ltb, ◌+◌, ok, err,
}
use api_gatewahy.ApiAccess.Entitlement.{Entitlement}
use api_gatewahy.ApiAccess.Key.{Account, AccountStatus, KeyKind}
use api_gatewahy.ApiAccess.Usage.{Usage, Invite, Trial}
use api_gatewahy.ApiAccess.Events.{event_reclaim_after}
use api_gatewahy.ApiAccess.MemStore.{
  MemStore, new, normalize_email, pg_time, MagicLink, ClaimedEvent,
}
use api_gatewahy.ApiAccess.MemStore.Accounts.{
  create_account, get_account_by_email, get_account, set_account_status, set_stripe_customer_id,
  get_account_by_stripe_customer, get_or_create_account, set_account_note, bump_session_epoch,
  account_of, account_by_email, with_note, bumped,
}
use api_gatewahy.ApiAccess.MemStore.Keys.{
  create_key, revoke_key, revoke_key_by_prefix, create_key_attempts, revocable, lives_with,
}
use api_gatewahy.ApiAccess.MemStore.Rows.{
  add_entitlement, upsert_stripe_entitlement, end_entitlement, canonical, add_prepared, endable,
}
use api_gatewahy.ApiAccess.MemStore.Trials.{
  create_trial, mark_trial_reminded, has_trial_id, mark_row,
}
use api_gatewahy.ApiAccess.MemStore.Tokens.{
  create_invite, consume_invite, release_invite, create_magic_link, consume_magic_link,
  delete_magic_link, begin_stripe_event, finish_stripe_event, delete_stripe_event, consume_nonce,
  notify, sweep_links, sweep_nonces, insert_invite, consume_row, release_row, insert_link,
  follow_link, claim_row, process_row, spend_nonce, consume_swept,
}
use api_gatewahy.ApiAccess.MemStore.Audit.{record_admin_action}
use api_gatewahy.ApiAccess.MemStore.Reports.{insert_usage}

-- The calls that change the store, or that only count.
pub data Call : Type 0 where
  creates_account : ℕ → Text → Text → Call
  gets_account_by_email : Text → Call
  gets_account : ℕ → Call
  sets_account_status : ℕ → Option AccountStatus → Call
  sets_stripe_customer_id : ℕ → Text → Call
  gets_account_by_customer : Text → Call
  gets_or_creates_account : ℕ → Text → Text → Call
  sets_account_note : ℕ → Text → Call
  bumps_session_epoch : ℕ → Call
  creates_key : (ℕ → Option (List ℕ)) → ℕ → ℕ → Text → KeyKind → Call
  revokes_key : ℕ → ℕ → ℕ → Call
  revokes_key_by_prefix : ℕ → Text → Call
  adds_entitlement : ℕ → Bool → Entitlement → Call
  upserts_stripe_entitlement : ℕ → Bool → Entitlement → Call
  ends_entitlement : ℕ → ℕ → ℕ → Call
  inserts_usage : List Usage → Call
  creates_trial : ℕ → Text → ℕ → ℕ → Bool → Entitlement → Call
  marks_trial_reminded : ℕ → ℕ → Call
  creates_invite : ℕ → Text → Text → ℕ → Text → Option Text → Call
  consumes_invite : Text → Text → ℕ → Call
  releases_invite : Text → Call
  creates_magic_link : ℕ → ℕ → ℕ → Option Text → Call
  consumes_magic_link : Text → ℕ → Call
  deletes_magic_link : Text → Call
  begins_stripe_event : ℕ → Text → Call
  finishes_stripe_event : Text → Call
  deletes_stripe_event : Text → Call
  consumes_nonce : Text → ℕ → ℕ → Call
  notifies : Text → Call
  records_admin_action : ℕ → Text → Text → ℕ → Text → Text → Call

module _ (hash_key : Text → Text) where
  -- The store after a call.
  unfoldable pub perform : Call → MemStore → MemStore
  unfolding create_account get_account_by_email get_account set_account_status
      set_stripe_customer_id get_account_by_stripe_customer get_or_create_account set_account_note
      bump_session_epoch create_key revoke_key revoke_key_by_prefix add_entitlement
      upsert_stripe_entitlement end_entitlement insert_usage create_trial mark_trial_reminded
      create_invite consume_invite release_invite create_magic_link consume_magic_link
      delete_magic_link begin_stripe_event finish_stripe_event delete_stripe_event consume_nonce
      notify record_admin_action
  perform (creates_account clock email note) m = (create_account clock email note m).1
  perform (gets_account_by_email email) m = (get_account_by_email email m).1
  perform (gets_account id) m = (get_account id m).1
  perform (sets_account_status id status) m = (set_account_status id status m).1
  perform (sets_stripe_customer_id id customer) m = (set_stripe_customer_id id customer m).1
  perform (gets_account_by_customer customer) m = (get_account_by_stripe_customer customer m).1
  perform (gets_or_creates_account clock email note) m =
      (get_or_create_account clock email note m).1
  perform (sets_account_note id note) m = (set_account_note id note m).1
  perform (bumps_session_epoch id) m = (bump_session_epoch id m).1
  perform (creates_key rand clock account_id label kind) m =
      (create_key hash_key rand clock account_id label kind m).1
  perform (revokes_key clock id account_id) m = (revoke_key clock id account_id m).1
  perform (revokes_key_by_prefix clock prefix) m = (revoke_key_by_prefix clock prefix m).1
  perform (adds_entitlement clock nil_games e) m = (add_entitlement clock nil_games e m).1
  perform (upserts_stripe_entitlement clock nil_games e) m =
      (upsert_stripe_entitlement clock nil_games e m).1
  perform (ends_entitlement id account_id at) m = (end_entitlement id account_id at m).1
  perform (inserts_usage rows) m = (insert_usage rows m).1
  perform (creates_trial clock email ends_at not_before nil_games e) m =
      (create_trial clock email ends_at not_before nil_games e m).1
  perform (marks_trial_reminded id at) m = (mark_trial_reminded id at m).1
  perform (creates_invite clock interval_key email ttl note token) m =
      (create_invite hash_key clock interval_key email ttl note token m).1
  perform (consumes_invite token email now) m = (consume_invite hash_key token email now m).1
  perform (releases_invite token) m = (release_invite hash_key token m).1
  perform (creates_magic_link clock account_id ttl token) m =
      (create_magic_link hash_key clock account_id ttl token m).1
  perform (consumes_magic_link token now) m = (consume_magic_link hash_key token now m).1
  perform (deletes_magic_link token) m = (delete_magic_link hash_key token m).1
  perform (begins_stripe_event clock id) m = (begin_stripe_event clock id m).1
  perform (finishes_stripe_event id) m = (finish_stripe_event id m).1
  perform (deletes_stripe_event id) m = (delete_stripe_event id m).1
  perform (consumes_nonce nonce expires_at now) m = (consume_nonce nonce expires_at now m).1
  perform (notifies payload) m = (notify payload m).1
  perform (records_admin_action clock actor action account_id target detail) m =
      (record_admin_action clock actor action account_id target detail m).1

  unfoldable pub perform_all : List Call → MemStore → MemStore
  perform_all [] m = m
  perform_all (c ∷ cs) m = perform_all cs (perform c m)
