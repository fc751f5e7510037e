-- ===== src/ApiAccess/MemStore/Tokens.antt =====
-- Invites, magic links, Stripe events, nonces and notices of apiaccess/apiaccesstest/memstore.go.
use api_gatewahy.Base.{
  ℕ, ◌+◌, Bool, true, false, not, ◌&&◌, ◌||◌, Option, none, some, List, [], ◌∷◌, ◌++◌, Text, codes,
  eqb, is_empty, lookup, insert_key, erase, ok, err, ltb, if◌then◌else◌,
}
use api_gatewahy.ApiAccess.Key.{Account}
use api_gatewahy.ApiAccess.Events.{event_reclaim_after}
use api_gatewahy.ApiAccess.Usage.{Invite}
use api_gatewahy.ApiAccess.MemStore.{
  not_found, foreign_key, invite_invalid, nonce_used, no_randomness, MagicLink, ClaimedEvent,
  pg_time, pg_time_ptr, normalize_email, Operation, entered,
}
use api_gatewahy.ApiAccess.MemStore.Accounts.{account_of, or_not_found}

-- copyInvite
unfoldable pub copy_invite : Invite → Invite
unfolding pg_time_ptr
copy_invite i = record i { used_at = pg_time_ptr i.used_at }

abbrev pub is_used : Invite → Bool
is_used i = elim i.used_at [ none ↦ false | some t ↦ true ]

-- What ConsumeInvite asks of the row.
abbrev pub is_usable : Text → ℕ → Invite → Bool
is_usable email now i = not (
    is_used i
    || not (ltb now i.expires_at)
    || (not (is_empty i.email) && not (eqb i.email (normalize_email email))))

-- The maps from which a loop deletes what expired before `now`: links, and nonces.
unfoldable pub sweep_links : ℕ → List (Text × MagicLink) → List (Text × MagicLink)
sweep_links now [] = []
sweep_links now ((h, l) ∷ ls) =
    let rest = sweep_links now ls in if ltb l.expires_at now then rest else (h, l) ∷ rest

unfoldable pub sweep_nonces : ℕ → List (Text × ℕ) → List (Text × ℕ)
sweep_nonces now [] = []
sweep_nonces now ((n, at) ∷ ns) =
    let rest = sweep_nonces now ns in if ltb at now then rest else (n, at) ∷ rest

-- `hash_key` is apiaccess.HashKey; a token is what newToken returns, none where rand.Read fails.
module _ (hash_key : Text → Text) where
  unfoldable pub insert_invite :
      ℕ → Text → Text → ℕ → Text → Option Text → Operation (Text × Invite)
  unfolding copy_invite pg_time
  insert_invite clock interval_key email ttl note none m = (err no_randomness, m)
  insert_invite clock interval_key email ttl note (some token) m =
      let i : Invite = record {
        token_hash = hash_key token;
        interval_key = interval_key;
        email = normalize_email email;
        expires_at = pg_time (clock + ttl);
        used_at = none;
        created_at = pg_time clock;
        note = note;
      } in
      (ok (token, copy_invite i), record m { invites = insert_key (hash_key token) i m.invites })

  -- CreateInvite
  unfoldable pub create_invite :
      ℕ → Text → Text → ℕ → Text → Option Text → Operation (Text × Invite)
  unfolding entered insert_invite
  create_invite clock interval_key email ttl note token =
      entered (codes "CreateInvite") 0 (insert_invite clock interval_key email ttl note token)

  unfoldable pub consume_row : Text → Text → ℕ → Option Invite → Operation Invite
  unfolding copy_invite pg_time
  consume_row token email now none m = (err invite_invalid, m)
  consume_row token email now (some i) m =
      let used : Invite = record i { used_at = some (pg_time now) } in
      if is_usable email now i
      then (
        ok (copy_invite used),
        record m { invites = insert_key (hash_key token) used m.invites },
      )
      else (err invite_invalid, m)

  -- ConsumeInvite
  unfoldable pub consume_invite : Text → Text → ℕ → Operation Invite
  unfolding entered consume_row
  consume_invite token email now =
      entered (codes "ConsumeInvite") 0
        (λ m. consume_row token email now (lookup (hash_key token) m.invites) m)

  unfoldable pub release_row : Text → Option Invite → Operation Text
  release_row token none m = (ok token, m)
  release_row token (some i) m = (
    ok token,
    record m { invites = insert_key (hash_key token) (record i { used_at = none }) m.invites },
  )

  -- ReleaseInvite
  unfoldable pub release_invite : Text → Operation Text
  unfolding entered release_row
  release_invite token =
      entered (codes "ReleaseInvite") 0
        (λ m. release_row token (lookup (hash_key token) m.invites) m)

  unfoldable pub insert_link : ℕ → ℕ → ℕ → Option Text → Option Account → Operation Text
  unfolding pg_time
  insert_link clock account_id ttl none a m = (err no_randomness, m)
  insert_link clock account_id ttl (some token) none m = (err foreign_key, m)
  insert_link clock account_id ttl (some token) (some a) m =
      let l : MagicLink = record {
        account_id = account_id;
        expires_at = pg_time (clock + ttl);
        used = false;
      } in
      (ok token, record m { links = insert_key (hash_key token) l m.links })

  -- CreateMagicLink
  unfoldable pub create_magic_link : ℕ → ℕ → ℕ → Option Text → Operation Text
  unfolding entered insert_link sweep_links account_of
  create_magic_link clock account_id ttl token = entered (codes "CreateMagicLink") account_id (λ m.
      insert_link clock account_id ttl token (account_of account_id m)
        (record m { links = sweep_links clock m.links }))

  unfoldable pub follow_link : Text → ℕ → Option MagicLink → Operation Account
  unfolding account_of
  follow_link token now none m = (err not_found, m)
  follow_link token now (some l) m =
      if l.used || not (ltb now l.expires_at) then (err not_found, m) else (
        or_not_found (account_of l.account_id m),
        record m { links = insert_key (hash_key token) (record l { used = true }) m.links },
      )

  -- ConsumeMagicLink
  unfoldable pub consume_magic_link : Text → ℕ → Operation Account
  unfolding entered follow_link
  consume_magic_link token now =
      entered (codes "ConsumeMagicLink") 0
        (λ m. follow_link token now (lookup (hash_key token) m.links) m)

  -- DeleteMagicLink
  unfoldable pub delete_magic_link : Text → Operation Text
  unfolding entered
  delete_magic_link token =
      entered (codes "DeleteMagicLink") 0
        (λ m. (ok token, record m { links = erase (hash_key token) m.links }))

-- `receivedAt.Before(now.Add(-eventReclaimAfter))`
unfoldable pub claim_row : Text → ℕ → Option ClaimedEvent → Operation Bool
claim_row id now none m = (
  ok true,
  record m { events = insert_key id (record { received_at = now; processed = false }) m.events },
)
claim_row id now (some e) m =
    if e.processed || not (ltb (e.received_at + event_reclaim_after) now)
    then (ok false, m)
    else (ok true, record m { events = insert_key id (record e { received_at = now }) m.events })

-- BeginStripeEvent
unfoldable pub begin_stripe_event : ℕ → Text → Operation Bool
unfolding entered claim_row pg_time
begin_stripe_event clock id =
    entered (codes "BeginStripeEvent") 0 (λ m. claim_row id (pg_time clock) (lookup id m.events) m)

unfoldable pub process_row : Text → Option ClaimedEvent → Operation Text
process_row id none m = (ok id, m)
process_row id (some e) m =
    (ok id, record m { events = insert_key id (record e { processed = true }) m.events })

-- FinishStripeEvent
unfoldable pub finish_stripe_event : Text → Operation Text
unfolding entered process_row
finish_stripe_event id =
    entered (codes "FinishStripeEvent") 0 (λ m. process_row id (lookup id m.events) m)

-- DeleteStripeEvent
unfoldable pub delete_stripe_event : Text → Operation Text
unfolding entered
delete_stripe_event id =
    entered (codes "DeleteStripeEvent") 0 (λ m. (ok id, record m { events = erase id m.events }))

unfoldable pub spend_nonce : Text → ℕ → Option ℕ → Operation Text
unfolding pg_time
spend_nonce nonce expires_at (some at) m = (err nonce_used, m)
spend_nonce nonce expires_at none m =
    (ok nonce, record m { nonces = insert_key nonce (pg_time expires_at) m.nonces })

unfoldable pub consume_swept : Text → ℕ → Operation Text
unfolding spend_nonce
consume_swept nonce expires_at m = spend_nonce nonce expires_at (lookup nonce m.nonces) m

-- ConsumeNonce
unfoldable pub consume_nonce : Text → ℕ → ℕ → Operation Text
unfolding entered consume_swept sweep_nonces
consume_nonce nonce expires_at now =
    entered (codes "ConsumeNonce") 0
      (λ m. consume_swept nonce expires_at (record m { nonces = sweep_nonces now m.nonces }))

-- Notify
unfoldable pub notify : Text → Operation Text
unfolding entered
notify payload =
    entered (codes "Notify") 0
      (λ m. (ok payload, record m { notified = m.notified ++ (payload ∷ []) }))
