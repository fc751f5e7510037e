-- ===== src/ApiAccess/MemStore/Invites.antt =====
-- An invite of apiaccess/apiaccesstest/memstore.go is spent once, and a release gives it back.
use api_gatewahy.Base.{
  ℕ, ◌≡◌, refl, sym, ◌∙◌, ap, subst, true, Option, none, some, Text, eqb_refl, lookup,
  lookup-insert_key, Result, ok, err, arith, Bool-cases, inl, inr, codes,
}
use api_gatewahy.ApiAccess.Usage.{Invite}
use api_gatewahy.ApiAccess.MemStore.{
  MemStore, StoreError, invite_invalid, pg_time, entered, enter_id, after_entry,
}
use api_gatewahy.ApiAccess.MemStore.Tokens.{
  is_used, is_usable, consume_row, consume_invite, release_row, release_invite,
}
use api_gatewahy.ApiAccess.MemStore.Nonces.{Free, entered-Free}

module _ (hash_key : Text → Text) where
  -- The invite of a token.
  abbrev pub invite_of : Text → MemStore → Option Invite
  invite_of token m = lookup (hash_key token) m.invites

  -- What a consume has done to the row of the token: it was usable and is marked, or it stays.
  abbrev pub Spent : Text → Text → ℕ → Option Invite → Result StoreError Invite × MemStore → Type 0
  Spent token email now before (ok i, n) =
      (row : Invite) × (before ≡ some row)
      × (is_usable email now row ≡ true)
      × (invite_of token n ≡ some (record row { used_at = some (pg_time now) }))
  Spent token email now before (err e, n) = invite_of token n ≡ before

  consume_row-Spent :
      (token email : Text) (now : ℕ) (o : Option Invite) (m : MemStore)
      → invite_of token m ≡ o
      → Spent token email now o (consume_row hash_key token email now o m)
  unfolding consume_row
  consume_row-Spent token email now none m h = h
  consume_row-Spent token email now (some i) m h = elim (Bool-cases (is_usable email now i)) [
    | inl t ↦ simp t (
      i,
      refl,
      t,
      ground (
        arith,
        lookup-insert_key (hash_key token) (hash_key token)
            (record i { used_at = some (pg_time now) }) m.invites,
        eqb_refl (hash_key token),
      ),
    )
    | inr f ↦ simp f h
  ]

  -- Every result of ConsumeInvite: an invite is handed out only where it is live, unused and bound to
  -- the email or to no one, and it is marked used then; after an error its row is what it was.
  pub consume_invite-Spent :
      (token email : Text) (now : ℕ) (m : MemStore)
      → Spent token email now (invite_of token m) (consume_invite hash_key token email now m)
  unfolding consume_invite entered enter_id
  consume_invite-Spent token email now m = go (enter_id (codes "ConsumeInvite") 0 m).0
    where
      go :
          (o : Option StoreError)
          → Spent token email now (invite_of token m) (
              after_entry
                (λ n. consume_row hash_key token email now (lookup (hash_key token) n.invites) n)
                (o, (enter_id (codes "ConsumeInvite") 0 m).1))
      go (some f) = refl
      go none =
          consume_row-Spent token email now (invite_of token m)
            (enter_id (codes "ConsumeInvite") 0 m).1 refl

  consume_row-used :
      (token email : Text) (now : ℕ) (i : Invite) (m : MemStore)
      → is_used i ≡ true
      → (consume_row hash_key token email now (some i) m).0 ≡ err invite_invalid
  unfolding consume_row
  consume_row-used token email now i m h = ground (arith, h)

  unused : (email : Text) (now : ℕ) (i : Invite) → is_usable email now i ≡ true → i.used_at ≡ none
  unused email now i h = go i.used_at refl
    where
      go : (o : Option ℕ) → i.used_at ≡ o → i.used_at ≡ none
      go none e = e
      go (some t) e = ground (arith, e, h)

  consume_invite-used :
      (token email : Text) (now : ℕ) (i : Invite) (m : MemStore)
      → Free m
      → invite_of token m ≡ some i
      → is_used i ≡ true
      → (consume_invite hash_key token email now m).0 ≡ err invite_invalid
  unfolding consume_invite enter_id
  consume_invite-used token email now i m f h u =
      subst (λ x. x.0 ≡ err invite_invalid)
        (sym (
          entered-Free (codes "ConsumeInvite") 0
            (λ n. consume_row hash_key token email now (lookup (hash_key token) n.invites) n) m f))
        (simp h (consume_row-used token email now i (enter_id (codes "ConsumeInvite") 0 m).1 u))

  release_row-frees :
      (token : Text) (i : Invite) (m : MemStore)
      → invite_of token (release_row hash_key token (some i) m).1
        ≡ some (record i { used_at = none })
  unfolding release_row
  release_row-frees token i m = ground (
    arith,
    lookup-insert_key (hash_key token) (hash_key token) (record i { used_at = none }) m.invites,
    eqb_refl (hash_key token),
  )

  release_invite-frees :
      (token : Text) (i : Invite) (m : MemStore)
      → Free m
      → invite_of token m ≡ some i
      → invite_of token (release_invite hash_key token m).1 ≡ some (record i { used_at = none })
  unfolding release_invite enter_id
  release_invite-frees token i m f h =
      subst (λ x. invite_of token x.1 ≡ some (record i { used_at = none }))
        (sym (
          entered-Free (codes "ReleaseInvite") 0
            (λ n. release_row hash_key token (lookup (hash_key token) n.invites) n) m f))
        (simp h (release_row-frees token i (enter_id (codes "ReleaseInvite") 0 m).1))

  same_row : (i : Invite) → i.used_at ≡ none → record i { used_at = none } ≡ i
  same_row i e = ap (λ u. record i { used_at = u }) (sym e)

  consume_row-faults :
      (token email : Text) (now : ℕ) (o : Option Invite) (m : MemStore)
      → (consume_row hash_key token email now o m).1.faults ≡ m.faults
  unfolding consume_row
  consume_row-faults token email now none m = refl
  consume_row-faults token email now (some i) m = elim (Bool-cases (is_usable email now i)) [
    | inl t ↦ simp t refl
    | inr f ↦ simp f refl
  ]

  pub consume_invite-faults :
      (token email : Text) (now : ℕ) (m : MemStore)
      → (consume_invite hash_key token email now m).1.faults ≡ m.faults
  unfolding consume_invite entered enter_id
  consume_invite-faults token email now m =
      go (enter_id (codes "ConsumeInvite") 0 m).0 (invite_of token m)
    where
      go :
          (o : Option StoreError) (u : Option Invite)
          → (after_entry
              (λ n. consume_row hash_key token email now (lookup (hash_key token) n.invites) n)
              (o, (enter_id (codes "ConsumeInvite") 0 m).1)).1.faults
            ≡ m.faults
      go (some f) u = refl
      go none u =
          consume_row-faults token email now (lookup (hash_key token) m.invites)
            (enter_id (codes "ConsumeInvite") 0 m).1

  kept_on_failure :
      (token email : Text) (now : ℕ) (before : Option Invite)
      (x : Result StoreError Invite × MemStore) (e : StoreError)
      → x.0 ≡ err e
      → Spent token email now before x
      → invite_of token x.1 ≡ before
  kept_on_failure token email now before (err f, n) e h s = s
  kept_on_failure token email now before (ok i, n) e h s = ground arith

  -- A consume that fails leaves the row of its invite.
  pub consume_invite_fails :
      (token email : Text) (now : ℕ) (m : MemStore) (e : StoreError)
      → (consume_invite hash_key token email now m).0 ≡ err e
      → invite_of token (consume_invite hash_key token email now m).1 ≡ invite_of token m
  consume_invite_fails token email now m e h =
      kept_on_failure token email now (invite_of token m)
        (consume_invite hash_key token email now m) e h (consume_invite-Spent token email now m)

  -- What is shown of a store `n` that holds the invite as the consume left it.
  later_consumes :
      (token email : Text) (now : ℕ) (before : Option Invite)
      (x : Result StoreError Invite × MemStore) (i : Invite) (n : MemStore)
      → Free n
      → x.0 ≡ ok i
      → Spent token email now before x
      → invite_of token n ≡ invite_of token x.1
      → ((email' : Text) (now' : ℕ)
          → (consume_invite hash_key token email' now' n).0 ≡ err invite_invalid)
        × (invite_of token (release_invite hash_key token n).1 ≡ before)
  later_consumes token email now before (err e, m) i n f h s r = ground arith
  later_consumes token email now before (ok j, m) i n f h (row, b, u, a) r = (
    λ email' now'.
        consume_invite-used token email' now' (record row { used_at = some (pg_time now) }) n f
          (r ∙ a) refl,
    release_invite-frees token (record row { used_at = some (pg_time now) }) n f (r ∙ a)
        ∙ (ap some (same_row row (unused email now row u)) ∙ sym b),
  )

  -- An invite that was spent is refused to everyone at any time, and a release brings its row back to
  -- what it was before, in every later store that holds the row as the consume left it.
  pub consume_invite_once :
      (token email : Text) (now : ℕ) (i : Invite) (m n : MemStore)
      → Free n
      → (consume_invite hash_key token email now m).0 ≡ ok i
      → invite_of token n ≡ invite_of token (consume_invite hash_key token email now m).1
      → ((email' : Text) (now' : ℕ)
          → (consume_invite hash_key token email' now' n).0 ≡ err invite_invalid)
        × (invite_of token (release_invite hash_key token n).1 ≡ invite_of token m)
  consume_invite_once token email now i m n f h r =
      later_consumes token email now (invite_of token m) (consume_invite hash_key token email now m)
        i n f h (consume_invite-Spent token email now m) r
