-- ===== src/Invites/Outcomes.antt =====
-- When an invite link is redeemed, and what is written otherwise.
use planmaker.Common.{ℕ, ◌≡◌, Bool, false, Option, none, some, arith, Option-cases, inl, inr}
use planmaker.Common.Text.{Text}
use planmaker.Common.Result.{Result, ok, err}
use planmaker.Database.{Db, Time, User}
use planmaker.Database.Action.{◌>>=◌, audit_log}
use planmaker.Users
use planmaker.Users.{by_invite_token, revoke_invite}
use planmaker.Invites.{
  InviteOutcome, InviteResult, outcome, outcome_ok, id_of, has_expired, is_someone_else, claim_for,
  claim_token, claim_invite, log_invite,
}

-- The call returned the outcome.
abbrev pub Returns : InviteOutcome → Result InviteResult × Db → Type 0
Returns o (ok r, db) = r.outcome ≡ o
Returns o (err e, db) = ⊥

module _ (a : Option User) (t : ℕ) (name : Option Text) (s : User) (db : Db) where
  claim_for-refused :
      (r : InviteResult)
      → (claim_for a t name s db).0 ≡ ok r
      → outcome_ok r.outcome ≡ false
      → (claim_for a t name s db).1.users ≡ db.users
  unfolding claim_for outcome log_invite audit_log ◌>>=◌
  claim_for-refused r = ground arith

-- The account that a token leads to, if it may be redeemed now by this account.
pub record MayRedeem (now : Time) (token : Text) (a : Option User) (db : Db) (s : User)
    : Type 0 where
  pub found : by_invite_token token db ≡ some s
  pub fresh : has_expired now s.invite_expires_at ≡ false
  pub unclaimed : s.telegram_id ≡ none
  pub own : is_someone_else a s ≡ false

-- The tables once the opening of the link is in the audit log.
abbrev pub opened : Option User → Db → Db
opened a db = (audit_log "invite.opened" (id_of a) none none db).1

module _ (now : Time) (token : Text) (t : ℕ) (name : Option Text) (a : Option User) where
  claim_token-refused :
      (db : Db) (r : InviteResult)
      → (claim_token now token a t name db).0 ≡ ok r
      → outcome_ok r.outcome ≡ false
      → (claim_token now token a t name db).1.users ≡ db.users
  unfolding claim_token outcome log_invite audit_log ◌>>=◌
  claim_token-refused db r h e = elim (Option-cases (by_invite_token token db)) [
    | inl missing ↦ ground arith
    | inr (s, found) ↦ ground (arith, claim_for-refused a t name s db r)
  ]

  -- Every outcome but a link, and the owner opening their own link again, writes no account.
  pub claim_invite-refused :
      (env : Bool) (db : Db) (r : InviteResult)
      → (claim_invite now token t name a env db).0 ≡ ok r
      → outcome_ok r.outcome ≡ false
      → (claim_invite now token t name a env db).1.users ≡ db.users
  unfolding claim_invite outcome log_invite audit_log ◌>>=◌
  claim_invite-refused env db r h e = ground (arith, claim_token-refused (opened a db) r)
