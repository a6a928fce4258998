-- ===== src/Bot/Throttle.antt =====
-- app/bot/middlewares.py, ThrottleMiddleware: a token bucket for each user, and a cooldown for each
-- heavy button.
--
-- Times are milliseconds of `time.monotonic()`. The float `tokens` is kept as the time that it is
-- worth, `tokens * rate`, so one token is `rate` milliseconds and nothing is rounded: `tokens < 1`
-- is `credit < rate`, and `(now - last_seen) / rate` tokens are `now - last_seen` of credit.
pub mod Rate
use planmaker.Common.{
  ℕ, zero, suc, ◌+◌, ◌-◌, ◌*◌, min, Bool, true, false, Option, none, some, List, [], ◌∷◌, ltb, ◌==◌,
  ◌&&◌, if◌then◌else◌, ==_iff, ◌≡◌, ◌↔◌, arith,
}
use planmaker.Common.Dict.{Key, lookup, insert}

-- HEAVY_ACTIONS: "p:generate", "p:regenerate", "p:preview".
pub data Heavy : Type 0 where
  generate regenerate preview : Heavy

abbrev pub heavy_eq : Heavy → Heavy → Bool
heavy_eq generate generate = true
heavy_eq regenerate regenerate = true
heavy_eq preview preview = true
heavy_eq _ _ = false

heavy_eq_iff : (a b : Heavy) → (heavy_eq a b ≡ true) ↔ (a ≡ b)
heavy_eq_iff a b = ground arith

abbrev pub heavy_beq : ℕ × Heavy → ℕ × Heavy → Bool
heavy_beq (u, a) (v, b) = (u == v) && heavy_eq a b

pub heavy_beq_iff : (a b : ℕ × Heavy) → (heavy_beq a b ≡ true) ↔ (a ≡ b)
heavy_beq_iff a b = ground (arith, heavy_eq_iff a.1 b.1)

abbrev pub user_key : Key ℕ
user_key = record { beq = ◌==◌; beq_iff = ==_iff }

abbrev pub heavy_key : Key (ℕ × Heavy)
heavy_key = record { beq = heavy_beq; beq_iff = heavy_beq_iff }

-- The constructor's arguments; `rate` and `heavy_cooldown` in milliseconds.
pub record Limits : Type 0 where
  pub rate : ℕ
  pub burst : ℕ
  pub heavy_cooldown : ℕ

-- ThrottleMiddleware(rate=0.25, burst=20, heavy_cooldown=2.0)
abbrev pub default_limits : Limits
default_limits = record { rate = 250; burst = 20; heavy_cooldown = 2000 }

-- The credit and the time when it was last counted.
pub record Bucket : Type 0 where
  pub credit : ℕ
  pub last_seen : ℕ

pub record Throttle : Type 0 where
  pub tokens : List (ℕ × Bucket)
  pub heavy : List ((ℕ × Heavy) × ℕ)

abbrev pub fresh : Throttle
fresh = record { tokens = []; heavy = [] }

-- One update: who sent it, which heavy button it is, and when.
pub record Event : Type 0 where
  pub uid : ℕ
  pub payload : Option Heavy
  pub now : ℕ

abbrev pub capacity : Limits → ℕ
capacity l = l.burst * l.rate

-- `self._tokens.get(uid, (burst, now))`
abbrev pub bucket_of : Limits → ℕ → ℕ → Option Bucket → Bucket
bucket_of l uid now none = record { credit = capacity l; last_seen = now }
bucket_of l uid now (some b) = b

-- The credit of a bucket by a time.
abbrev pub refilled : Limits → Bucket → ℕ → ℕ
refilled l b now = min (capacity l) (b.credit + (now - b.last_seen))

-- The second half of the middleware: take a token, or drop the update.
unfoldable pub take_token : Limits → Throttle → Event → Bool × Throttle
take_token l s e =
    let credit = refilled l (bucket_of l e.uid e.now (lookup user_key e.uid s.tokens)) e.now in
    if ltb credit l.rate
    then (
      false,
      record s {
        tokens = insert user_key e.uid (record { credit = credit; last_seen = e.now }) s.tokens;
      },
    )
    else (
      true,
      record s {
        tokens =
            insert user_key e.uid (record { credit = credit - l.rate; last_seen = e.now }) s.tokens;
      },
    )

-- `self._heavy.get(key, 0.0)`
abbrev pub last_press : Option ℕ → ℕ
last_press none = 0
last_press (some t) = t

-- The first half: a heavy button pressed again within its cooldown is dropped, before the bucket.
unfoldable pub handle_payload : Limits → Throttle → Event → Option Heavy → Bool × Throttle
handle_payload l s e none = take_token l s e
handle_payload l s e (some a) =
    if ltb (e.now - last_press (lookup heavy_key (e.uid, a) s.heavy)) l.heavy_cooldown
    then (false, s)
    else take_token l (record s { heavy = insert heavy_key (e.uid, a) e.now s.heavy }) e

-- Whether the update reaches its handler, and the middleware's new state.
unfoldable pub handle : Limits → Throttle → Event → Bool × Throttle
unfolding handle_payload take_token
handle l s e = handle_payload l s e e.payload

-- How many updates of a user pass, in a sequence of updates.
pub passed : Limits → ℕ → Throttle → List Event → ℕ
passed l u s [] = 0
passed l u s (e ∷ es) =
    let (pass, s') = handle l s e in (if (e.uid == u) && pass then 1 else 0) + passed l u s' es
