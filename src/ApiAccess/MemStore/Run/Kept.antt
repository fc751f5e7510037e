-- ===== src/ApiAccess/MemStore/Run/Kept.antt =====
-- Any calls keep the constraints of the store of apiaccess/apiaccesstest/memstore.go, in the order in which its mutex lets them in.
use api_gatewahy.Base.{
  ℕ, refl, Option, none, some, List, [], ◌∷◌, Text, lookup, find_first, filter, Bool-cases, inl,
  inr, ◌||◌, not, ltb, ◌+◌,
}
use api_gatewahy.ApiAccess.Key.{Account}
use api_gatewahy.ApiAccess.Usage.{Invite, Trial}
use api_gatewahy.ApiAccess.Events.{event_reclaim_after}
use api_gatewahy.ApiAccess.MemStore.{
  MemStore, Faults, new, normalize_email, pg_time, MagicLink, ClaimedEvent,
}
use api_gatewahy.ApiAccess.MemStore.Sound.{IsSound}
use api_gatewahy.ApiAccess.MemStore.Sound.Accounts.{
  create_unless-IsSound, set_valid_status-IsSound, set_customer-IsSound, get_or_insert-IsSound,
  change_account-IsSound,
}
use api_gatewahy.ApiAccess.MemStore.Sound.Keys.{
  create_key_from-IsSound, revoked_row-IsSound, revoke_only-IsSound,
}
use api_gatewahy.ApiAccess.MemStore.Sound.Rows.{
  prepared_then-IsSound, add_prepared-IsSound, upsert_with_ref-IsSound, end_row-IsSound,
}
use api_gatewahy.ApiAccess.MemStore.Sound.Trials.{entered-IsSound, trial_of-IsSound}
use api_gatewahy.ApiAccess.MemStore.Run.{
  Call, creates_account, gets_account_by_email, gets_account, sets_account_status,
  sets_stripe_customer_id, gets_account_by_customer, gets_or_creates_account, sets_account_note,
  bumps_session_epoch, creates_key, revokes_key, revokes_key_by_prefix, adds_entitlement,
  upserts_stripe_entitlement, ends_entitlement, inserts_usage, creates_trial, marks_trial_reminded,
  creates_invite, consumes_invite, releases_invite, creates_magic_link, consumes_magic_link,
  deletes_magic_link, begins_stripe_event, finishes_stripe_event, deletes_stripe_event,
  consumes_nonce, notifies, records_admin_action, perform, perform_all,
}
use api_gatewahy.ApiAccess.MemStore.Accounts.{account_of, account_by_email, with_note, bumped}
use api_gatewahy.ApiAccess.MemStore.Keys.{create_key_attempts, revocable, lives_with}
use api_gatewahy.ApiAccess.MemStore.Rows.{canonical, add_prepared, endable}
use api_gatewahy.ApiAccess.MemStore.Trials.{has_trial_id, mark_row}
use api_gatewahy.ApiAccess.MemStore.Tokens.{
  sweep_links, sweep_nonces, insert_invite, consume_row, release_row, insert_link, follow_link,
  claim_row, process_row, spend_nonce, consume_swept, is_usable,
}

mark_row-IsSound :
    (id at : ℕ) (o : Option Trial) (m : MemStore) → IsSound m → IsSound (mark_row id at o m).1
unfolding mark_row
mark_row-IsSound id at none m w = w
mark_row-IsSound id at (some t) m w = w

claim_row-IsSound :
    (id : Text) (now : ℕ) (o : Option ClaimedEvent) (m : MemStore)
    → IsSound m
    → IsSound (claim_row id now o m).1
unfolding claim_row
claim_row-IsSound id now none m w = w
claim_row-IsSound id now (some e) m w =
    elim (Bool-cases (e.processed || not (ltb (e.received_at + event_reclaim_after) now))) [
      | inl t ↦ simp t w
      | inr f ↦ simp f w
    ]

process_row-IsSound :
    (id : Text) (o : Option ClaimedEvent) (m : MemStore)
    → IsSound m
    → IsSound (process_row id o m).1
unfolding process_row
process_row-IsSound id none m w = w
process_row-IsSound id (some e) m w = w

spend_nonce-IsSound :
    (nonce : Text) (at : ℕ) (o : Option ℕ) (m : MemStore)
    → IsSound m
    → IsSound (spend_nonce nonce at o m).1
unfolding spend_nonce
spend_nonce-IsSound nonce at none m w = w
spend_nonce-IsSound nonce at (some t) m w = w

module _ (hash_key : Text → Text) where
  insert_invite-IsSound :
      (clock : ℕ) (interval_key email : Text) (ttl : ℕ) (note : Text) (o : Option Text)
      (m : MemStore)
      → IsSound m
      → IsSound (insert_invite hash_key clock interval_key email ttl note o m).1
  unfolding insert_invite
  insert_invite-IsSound clock interval_key email ttl note none m w = w
  insert_invite-IsSound clock interval_key email ttl note (some t) m w = w

  consume_row-IsSound :
      (token email : Text) (now : ℕ) (o : Option Invite) (m : MemStore)
      → IsSound m
      → IsSound (consume_row hash_key token email now o m).1
  unfolding consume_row
  consume_row-IsSound token email now none m w = w
  consume_row-IsSound token email now (some i) m w = elim (Bool-cases (is_usable email now i)) [
    | inl t ↦ simp t w
    | inr f ↦ simp f w
  ]

  release_row-IsSound :
      (token : Text) (o : Option Invite) (m : MemStore)
      → IsSound m
      → IsSound (release_row hash_key token o m).1
  unfolding release_row
  release_row-IsSound token none m w = w
  release_row-IsSound token (some i) m w = w

  insert_link-IsSound :
      (clock account_id ttl : ℕ) (o : Option Text) (a : Option Account) (m : MemStore)
      → IsSound m
      → IsSound (insert_link hash_key clock account_id ttl o a m).1
  unfolding insert_link
  insert_link-IsSound clock account_id ttl none a m w = w
  insert_link-IsSound clock account_id ttl (some t) none m w = w
  insert_link-IsSound clock account_id ttl (some t) (some a) m w = w

  follow_link-IsSound :
      (token : Text) (now : ℕ) (o : Option MagicLink) (m : MemStore)
      → IsSound m
      → IsSound (follow_link hash_key token now o m).1
  unfolding follow_link
  follow_link-IsSound token now none m w = w
  follow_link-IsSound token now (some l) m w =
      elim (Bool-cases (l.used || not (ltb now l.expires_at))) [
        | inl t ↦ simp t w
        | inr f ↦ simp f w
      ]

  perform-IsSound : (c : Call) (m : MemStore) → IsSound m → IsSound (perform hash_key c m)
  unfolding perform consume_swept
  perform-IsSound (creates_account clock email note) m w =
      entered-IsSound _ _ _ m
        (λ n v. create_unless-IsSound clock email note n (account_by_email email n) refl v) w
  perform-IsSound (gets_account_by_email email) m w = entered-IsSound _ _ _ m (λ n v. v) w
  perform-IsSound (gets_account id) m w = entered-IsSound _ _ _ m (λ n v. v) w
  perform-IsSound (sets_account_status id status) m w =
      entered-IsSound _ _ _ m (λ n v. set_valid_status-IsSound id status n v) w
  perform-IsSound (sets_stripe_customer_id id customer) m w =
      entered-IsSound _ _ _ m (λ n v. set_customer-IsSound id customer (account_of id n) n refl v) w
  perform-IsSound (gets_account_by_customer customer) m w = entered-IsSound _ _ _ m (λ n v. v) w
  perform-IsSound (gets_or_creates_account clock email note) m w =
      entered-IsSound _ _ _ m
        (λ n v. get_or_insert-IsSound clock email note n (account_by_email email n) refl v) w
  perform-IsSound (sets_account_note id note) m w =
      entered-IsSound _ _ _ m
        (λ n v.
          change_account-IsSound id (with_note note) (λ a. a.note) (account_of id n) n
            (λ a. (refl, refl, refl)) v)
        w
  perform-IsSound (bumps_session_epoch id) m w =
      entered-IsSound _ _ _ m
        (λ n v.
          change_account-IsSound id bumped (λ a. a.session_epoch) (account_of id n) n
            (λ a. (refl, refl, refl)) v)
        w
  perform-IsSound (creates_key rand clock account_id label kind) m w =
      entered-IsSound _ _ _ m
        (λ n v.
          create_key_from-IsSound hash_key rand clock account_id label kind 0 create_key_attempts n
            v)
        w
  perform-IsSound (revokes_key clock id account_id) m w =
      entered-IsSound _ _ _ m
        (λ n v.
          revoked_row-IsSound clock (revocable id account_id)
            (find_first (revocable id account_id) n.keys) n v)
        w
  perform-IsSound (revokes_key_by_prefix clock prefix) m w =
      entered-IsSound _ _ _ m
        (λ n v. revoke_only-IsSound clock prefix (filter (lives_with prefix) n.keys) n v) w
  perform-IsSound (adds_entitlement clock nil_games e) m w =
      entered-IsSound _ _ _ m
        (λ n v.
          prepared_then-IsSound nil_games (add_prepared clock) (canonical clock e) n
            (λ x k. add_prepared-IsSound clock x n v k) v)
        w
  perform-IsSound (upserts_stripe_entitlement clock nil_games e) m w =
      entered-IsSound _ _ _ m (λ n v. upsert_with_ref-IsSound clock nil_games e n v) w
  perform-IsSound (ends_entitlement id account_id at) m w =
      entered-IsSound _ _ _ m
        (λ n v. end_row-IsSound id account_id at (find_first (endable id account_id) n.ents) n v) w
  perform-IsSound (inserts_usage rows) m w = entered-IsSound _ _ _ m (λ n v. v) w
  perform-IsSound (creates_trial clock email ends_at not_before nil_games e) m w =
      entered-IsSound _ _ _ m
        (λ n v.
          trial_of-IsSound clock (normalize_email email) ends_at not_before nil_games
            (canonical clock (record e { valid_until = some ends_at })) n v)
        w
  perform-IsSound (marks_trial_reminded id at) m w =
      entered-IsSound _ _ _ m
        (λ n v. mark_row-IsSound id at (find_first (has_trial_id id) n.trials) n v) w
  perform-IsSound (creates_invite clock interval_key email ttl note token) m w =
      entered-IsSound _ _ _ m
        (λ n v. insert_invite-IsSound clock interval_key email ttl note token n v) w
  perform-IsSound (consumes_invite token email now) m w =
      entered-IsSound _ _ _ m
        (λ n v. consume_row-IsSound token email now (lookup (hash_key token) n.invites) n v) w
  perform-IsSound (releases_invite token) m w =
      entered-IsSound _ _ _ m
        (λ n v. release_row-IsSound token (lookup (hash_key token) n.invites) n v) w
  perform-IsSound (creates_magic_link clock account_id ttl token) m w =
      entered-IsSound _ _ _ m
        (λ n v.
          insert_link-IsSound clock account_id ttl token (account_of account_id n)
            (record n { links = sweep_links clock n.links }) v)
        w
  perform-IsSound (consumes_magic_link token now) m w =
      entered-IsSound _ _ _ m
        (λ n v. follow_link-IsSound token now (lookup (hash_key token) n.links) n v) w
  perform-IsSound (deletes_magic_link token) m w = entered-IsSound _ _ _ m (λ n v. v) w
  perform-IsSound (begins_stripe_event clock id) m w =
      entered-IsSound _ _ _ m (λ n v. claim_row-IsSound id (pg_time clock) (lookup id n.events) n v)
        w
  perform-IsSound (finishes_stripe_event id) m w =
      entered-IsSound _ _ _ m (λ n v. process_row-IsSound id (lookup id n.events) n v) w
  perform-IsSound (deletes_stripe_event id) m w = entered-IsSound _ _ _ m (λ n v. v) w
  perform-IsSound (consumes_nonce nonce expires_at now) m w =
      entered-IsSound _ _ _ m
        (λ n v.
          spend_nonce-IsSound nonce expires_at (lookup nonce (sweep_nonces now n.nonces))
            (record n { nonces = sweep_nonces now n.nonces }) v)
        w
  perform-IsSound (notifies payload) m w = entered-IsSound _ _ _ m (λ n v. v) w
  perform-IsSound (records_admin_action clock actor action account_id target detail) m w =
      entered-IsSound _ _ _ m (λ n v. v) w

  perform_all-IsSound :
      (cs : List Call) (m : MemStore) → IsSound m → IsSound (perform_all hash_key cs m)
  unfolding perform_all
  perform_all-IsSound [] m w = w
  perform_all-IsSound (c ∷ cs) m w =
      perform_all-IsSound cs (perform hash_key c m) (perform-IsSound c m w)

  -- In every store that calls make of a new one, whatever they are and whatever faults are injected:
  -- no email, no Stripe customer, no external reference and no prefix of a live key stands twice, the ids
  -- of each of these tables rise, and every key and every row belongs to an account.
  pub perform_all-new :
      (cs : List Call) (f : Faults) → IsSound (perform_all hash_key cs (record new { faults = f }))
  perform_all-new cs f =
      perform_all-IsSound cs (record new { faults = f })
        (
          record { ids = refl; unique_emails = refl; unique_customers = refl },
          record { ids = refl; unique_prefixes = refl; owners = refl },
          record { ids = refl; unique_refs = refl; owners = refl },
        )
