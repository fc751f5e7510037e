-- ===== src/ApiAccess/Usage.antt =====
-- The row types of apiaccess/usage.go, audit.go, demo.go, invites.go, trials.go and entitlements.go.
use api_gatewahy.Base.{ℕ, Option, Text}
use api_gatewahy.ApiAccess.Entitlement.{Source}

pub record Usage : Type 0 where
  pub ts : ℕ
  pub key_id : ℕ
  pub account_id : ℕ
  pub game : Text
  pub path : Text
  pub status : ℕ
  pub bytes : ℕ
  pub duration_ms : ℕ
  pub client_ip : Text

pub record UsageRow : Type 0 where
  pub account_id : ℕ
  pub email : Text
  pub game : Text
  pub requests : ℕ
  pub bytes : ℕ
  pub errors : ℕ

pub record PathUsageRow : Type 0 where
  pub path : Text
  pub requests : ℕ
  pub errors : ℕ

pub record AdminAction : Type 0 where
  pub id : ℕ
  pub at : ℕ
  pub actor : Text
  pub action : Text
  pub account_id : ℕ
  pub target : Text
  pub detail : Text

pub record DemoAccess : Type 0 where
  pub account_id : ℕ
  pub email : Text
  pub source : Source
  pub requester : Text
  pub note : Text
  pub granted_at : ℕ
  pub ends_at : Option ℕ
  pub keys : ℕ
  pub last_used : Option ℕ

pub record Invite : Type 0 where
  pub token_hash : Text
  pub interval_key : Text
  pub email : Text
  pub expires_at : ℕ
  pub used_at : Option ℕ
  pub created_at : ℕ
  pub note : Text

pub record Trial : Type 0 where
  pub id : ℕ
  pub patreon_email : Text
  pub account_id : ℕ
  pub granted_at : ℕ
  pub ends_at : ℕ
  pub reminder_sent_at : Option ℕ

-- An active row of a subscription.
pub record StripeRef : Type 0 where
  pub account_id : ℕ
  pub sub_id : Text

-- One key on one UTC day; `day` is the time at which it starts.
pub record KeyUsageRow : Type 0 where
  pub key_id : ℕ
  pub prefix : Text
  pub label : Text
  pub day : ℕ
  pub requests : ℕ
  pub bytes : ℕ
  pub errors : ℕ
