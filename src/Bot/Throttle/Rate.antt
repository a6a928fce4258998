-- ===== src/Bot/Throttle/Rate.antt =====
-- The rate that the bucket allows.
use planmaker.Common.{
  ℕ, ◌+◌, ◌-◌, ◌*◌, ◌≤◌, ◌≡◌, Bool, true, Option, none, some, List, [], ◌∷◌, ◌==◌, ◌&&◌, ltb,
  if◌then◌else◌, arith, ==_iff, Bool-cases, Option-cases, inl, inr, ap, sym,
}
use planmaker.Common.Dict.{lookup, insert, lookup-insert}
use planmaker.Bot.Throttle.{
  Limits, Throttle, Event, Heavy, capacity, bucket_of, refilled, take_token, handle, handle_payload,
  passed, user_key, heavy_key, last_press,
}

-- The credit of a user by a time.
abbrev worth : Limits → ℕ → Throttle → ℕ → ℕ
worth l u s now = refilled l (bucket_of l u now (lookup user_key u s.tokens)) now

-- The updates come in the order of the clock, from `now` on.
abbrev pub InOrder : ℕ → List Event → Type 0
InOrder now [] = Unit
InOrder now (e ∷ es) = (now ≤ e.now) × InOrder e.now es

-- The time of the last update.
abbrev pub end_time : ℕ → List Event → ℕ
end_time now [] = now
end_time now (e ∷ es) = end_time e.now es

abbrev spent : Limits → ℕ → Event → Bool → ℕ
spent l u e pass = if (e.uid == u) && pass then l.rate else 0

-- The state after a token was asked for, with `pass` and `credit` as the bucket decided.
abbrev stored : ℕ → ℕ → ℕ → Throttle → Throttle
stored u credit now s = record s {
  tokens = insert user_key u (record { credit = credit; last_seen = now }) s.tokens;
}

worth-stored :
    (l : Limits) (u v credit now : ℕ) (s : Throttle)
    → credit ≤ capacity l
    → worth l v (stored u credit now s) now ≡ (if u == v then credit else worth l v s now)
worth-stored l u v credit now s h = elim (Bool-cases (u == v)) [
  | inl same ↦ rw (lookup-insert user_key u v _ s.tokens, same) (omega arith)
  | inr other ↦ rw (lookup-insert user_key u v _ s.tokens, other)
]

worth_same :
    (l : Limits) (u v now : ℕ) (s : Throttle) → u == v ≡ true → worth l v s now ≡ worth l u s now
worth_same l u v now s h = ap (λ w. worth l w s now) (sym ((==_iff u v).0 h))

take_token-worth :
    (l : Limits) (u : ℕ) (s : Throttle) (e : Event)
    → spent l u e (take_token l s e).0 + worth l u (take_token l s e).1 e.now ≤ worth l u s e.now
unfolding take_token
take_token-worth l u s e =
    let credit = worth l e.uid s e.now in
    elim (Bool-cases (ltb credit l.rate)) [
      | inl empty ↦
          rw (empty, worth-stored l e.uid u credit e.now s (omega arith))
            (ground (arith, worth_same l e.uid u e.now s))
      | inr full ↦
          rw (full, worth-stored l e.uid u (credit - l.rate) e.now s (omega arith))
            (ground (arith, worth_same l e.uid u e.now s))
    ]

worth_later :
    (l : Limits) (u now later : ℕ) (s : Throttle)
    → now ≤ later
    → worth l u s later ≤ worth l u s now + (later - now)
worth_later l u now later s h = elim (Option-cases (lookup user_key u s.tokens)) [
  | inl unseen ↦ rw unseen (omega arith)
  | inr (b, seen) ↦ rw seen (omega arith)
]

handle_payload-worth :
    (l : Limits) (u : ℕ) (s : Throttle) (e : Event) (o : Option Heavy)
    → spent l u e (handle_payload l s e o).0 + worth l u (handle_payload l s e o).1 e.now
      ≤ worth l u s e.now
unfolding handle_payload
handle_payload-worth l u s e none = take_token-worth l u s e
handle_payload-worth l u s e (some a) =
    let again = ltb (e.now - last_press (lookup heavy_key (e.uid, a) s.heavy)) l.heavy_cooldown in
    elim (Bool-cases again) [
      | inl dropped ↦ rw dropped (ground arith)
      | inr new ↦
          rw new (
            take_token-worth l u (record s { heavy = insert heavy_key (e.uid, a) e.now s.heavy }) e)
    ]

handle-worth :
    (l : Limits) (u : ℕ) (s : Throttle) (e : Event)
    → spent l u e (handle l s e).0 + worth l u (handle l s e).1 e.now ≤ worth l u s e.now
unfolding handle
handle-worth l u s e = handle_payload-worth l u s e e.payload

end_time-ge : (now : ℕ) (es : List Event) → InOrder now es → now ≤ end_time now es
end_time-ge now [] h = omega arith
end_time-ge now (e ∷ es) h = omega (arith, end_time-ge e.now es h.1)

passed-worth :
    (l : Limits) (u now : ℕ) (s : Throttle) (es : List Event)
    → InOrder now es
    → passed l u s es * l.rate ≤ worth l u s now + (end_time now es - now)
unfolding passed
passed-worth l u now s [] h = omega arith
passed-worth l u now s (e ∷ es) h =
    let rest = passed-worth l u e.now (handle l s e).1 es h.1 in
    let step = handle-worth l u s e in
    let later = worth_later l u now e.now s h.0 in
    let end = end_time-ge e.now es h.1 in
    elim (Bool-cases ((e.uid == u) && (handle l s e).0)) [
      | inl counted ↦ let paid = rw counted at step in rw counted (omega arith)
      | inr free ↦ let unpaid = rw free at step in rw free (omega arith)
    ]

-- Whatever updates arrive, from whomever and for whichever buttons: as long as the clock does not
-- go back, the updates of one user that pass are worth no more than a full bucket and the time
-- that has gone by, `passed * rate ≤ burst * rate + elapsed`.
pub passed_bound :
    (l : Limits) (u now : ℕ) (s : Throttle) (es : List Event)
    → InOrder now es
    → passed l u s es * l.rate ≤ capacity l + (end_time now es - now)
passed_bound l u now s es h = omega (arith, passed-worth l u now s es h)
