-- ===== src/Invites/Roles.antt =====
-- Invite links and the roles of accounts.
use planmaker.Common.{
  ℕ, ◌≡◌, refl, ap, Bool, Option, none, some, List, [], ◌∷◌, map, ◌==◌, Bool-cases, inl, inr,
}
use planmaker.Common.Text.{Text}
use planmaker.Database.{Db, Time, User, Role}
use planmaker.Database.Keeps.{
  Keeps, keeps_rules, Keeps-pure, Keeps-gets, Keeps-raise_if, Keeps-bind, Keeps-if, Keeps-modify,
  Keeps-audit_log,
}
use planmaker.Users
use planmaker.Users.{update_user, set_user, fold_duplicate, other_account, revoke_invite}
use planmaker.Invites.{claim_for, claim_token, claim_invite, InviteOutcome, outcome}

abbrev pub role_of : User → ℕ × Role
role_of u = (u.id, u.role)

-- Who has an account, and in which role.
abbrev pub roles : Db → List (ℕ × Role)
roles db = map role_of db.users

pub update_user-roles :
    (i : ℕ) (f : User → User) (us : List User)
    → ((u : User) → role_of (f u) ≡ role_of u)
    → map role_of (update_user i f us) ≡ map role_of us
update_user-roles i f [] h = refl
update_user-roles i f (u ∷ us) h = elim (Bool-cases (u.id == i)) [
  | inl here ↦ rw here (ap (λ r. r ∷ map role_of us) (h u))
  | inr later ↦ rw later (ap (λ r. role_of u ∷ r) (update_user-roles i f us h))
]

pub set_user-roles :
    (i : ℕ) (f : User → User)
    → ((u : User) → role_of (f u) ≡ role_of u)
    → Keeps roles (set_user i f)
set_user-roles i f h = Keeps-modify _ (λ db. update_user-roles i f db.users h)

fold_duplicate-roles : (o : Option User) → Keeps roles (fold_duplicate o)
unfolding fold_duplicate
fold_duplicate-roles none = Keeps-pure tt
fold_duplicate-roles (some d) =
    Keeps-bind _ _ (Keeps-raise_if _ _) (λ _. set_user-roles d.id _ (λ u. refl))

claim-roles : (s : User) (t : ℕ) (name : Option Text) → Keeps roles (Users.claim_invite s t name)
unfolding Users.claim_invite
claim-roles s t name = Keeps-bind _ _ (Keeps-gets _) λ d.
    Keeps-bind _ _ (fold_duplicate-roles (other_account s d))
      (λ _. set_user-roles s.id _ (λ u. refl))

revoke_invite-roles : (s : User) → Keeps roles (revoke_invite s)
unfolding revoke_invite
revoke_invite-roles s = set_user-roles s.id Users.without_invite (λ u. refl)

outcome-roles : (o : InviteOutcome) (a s r : Option User) → Keeps roles (outcome o a s r)
unfolding outcome
outcome-roles o a s r =
    Keeps-bind _ _ (Keeps-audit_log _ _ _ _ (λ db rows. refl)) (λ _. Keeps-pure _)

ruleset role_rules = (keeps_rules, claim-roles, revoke_invite-roles, outcome-roles)

claim_for-roles :
    (a : Option User) (t : ℕ) (name : Option Text) (s : User) → Keeps roles (claim_for a t name s)
unfolding claim_for
claim_for-roles a t name s = search role_rules

claim_token-roles :
    (now : Time) (token : Text) (a : Option User) (t : ℕ) (name : Option Text)
    → Keeps roles (claim_token now token a t name)
unfolding claim_token
claim_token-roles now token a t name = search (role_rules, claim_for-roles)

-- Whatever the token, the account and the state: redeeming an invite link creates and removes no
-- account, and changes no account's role.
pub claim_invite-roles :
    (now : Time) (token : Text) (t : ℕ) (name : Option Text) (actor : Option User) (env : Bool)
    (db : Db)
    → roles (claim_invite now token t name actor env db).1 ≡ roles db
unfolding claim_invite
claim_invite-roles now token t name actor env =
    (Keeps-bind _ _ (Keeps-audit_log _ _ _ _ (λ db rows. refl))
      (λ _. Keeps-if _ _ _ (outcome-roles _ _ _ _) (claim_token-roles now token actor t name))).at
