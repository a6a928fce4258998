-- ===== src/Manager/Edits.antt =====
-- app/services/plan_manager.py: what an allowed edit does to the plans.
use planmaker.Common.{
  ℕ, suc, ◌+◌, ◌≡◌, refl, ap, ◌∙◌, true, false, ◌||◌, Option, none, some, List, [], ◌∷◌, ◌==◌, find,
  if◌then◌else◌, arith,
}
use planmaker.Common.Text.{Text}
use planmaker.Common.Result.{ok}
use planmaker.Common.Settings.{Settings}
use planmaker.Calendar.{Weekday, weekday_eq}
use planmaker.Domain.Activity.{Activity, has_text, activity_is_empty}
use planmaker.Domain.Plan.{PlanStatus, draft, ready, generated, sent, archived}
use planmaker.Database.{Db, User, PlanRow, DayRow}
use planmaker.Database.Action.{audit_log, ◌>>=◌}
use planmaker.Plans
use planmaker.Plans.{
  get, update_plan, set_plan, bump_version, bumped, is_issued, day_of, plan_day, on_day, write_slot,
  numbered, stripped, replace_assignments,
}
use planmaker.Plans.Slots.{
  get-update_plan, get-update_other, id_of_plan, in_slot, write_slot_lem, cell_of, cells, row_cells,
  on_day-cells,
}
use planmaker.Manager
use planmaker.Manager.{
  is_locked, may_edit, ensure_active, ensure_can_edit_plan, get_editable, edited, values_of,
  set_assignments,
}

bumped-id : (p : PlanRow) → (bumped p).id ≡ p.id
bumped-id p = ground arith

bumped-days : (p : PlanRow) → (bumped p).days ≡ p.days
bumped-days p = ground arith

-- What an edit does to the version of a plan, by the status before it.
abbrev pub IsRenewed : PlanStatus → PlanRow → PlanRow → Type 0
IsRenewed generated p q =
    (q.version ≡ p.version + 1)
    × (q.status ≡ draft)
    × (q.image_file_id ≡ none)
    × (q.pdf_file_id ≡ none)
IsRenewed sent p q =
    (q.version ≡ p.version + 1)
    × (q.status ≡ draft)
    × (q.image_file_id ≡ none)
    × (q.pdf_file_id ≡ none)
IsRenewed s p q = (q.version ≡ p.version) × (q.status ≡ s)

bumped-IsRenewed :
    (p q : PlanRow) (s : PlanStatus)
    → p.status ≡ s
    → q.version ≡ (bumped p).version
    → q.status ≡ (bumped p).status
    → q.image_file_id ≡ (bumped p).image_file_id
    → q.pdf_file_id ≡ (bumped p).pdf_file_id
    → IsRenewed s p q
bumped-IsRenewed p q draft h v t i d = (v ∙ rw h refl, t ∙ rw h refl)
bumped-IsRenewed p q ready h v t i d = (v ∙ rw h refl, t ∙ rw h refl)
bumped-IsRenewed p q archived h v t i d = (v ∙ rw h refl, t ∙ rw h refl)
bumped-IsRenewed p q generated h v t i d =
    (v ∙ rw h refl, t ∙ rw h refl, i ∙ rw h refl, d ∙ rw h refl)
bumped-IsRenewed p q sent h v t i d = (v ∙ rw h refl, t ∙ rw h refl, i ∙ rw h refl, d ∙ rw h refl)

-- What a sheet shows of an activity in a slot: nothing without a text other than notes.
abbrev pub shown : ℕ → Option Activity → List Activity
shown slot none = []
shown slot (some a) =
    if has_text a.subject || has_text a.topic || has_text a.description || has_text a.duration
    then record a { slot_index = slot } ∷ []
    else []

values_of-shown : (slot : ℕ) (a : Option Activity) → cell_of slot (values_of a) ≡ shown slot a
unfolding activity_is_empty
values_of-shown slot none = refl
values_of-shown slot (some a) = ground arith

next_slot : (slot : ℕ) → slot == suc slot ≡ false
next_slot slot = ground arith

on_day-bumped :
    (w : Weekday) (f : List Activity → List Activity) (p : PlanRow) (d : DayRow)
    → day_of w p ≡ some d
    → (cells w (on_day w f (bumped p)) ≡ f d.activities)
      × ((v : Weekday) → weekday_eq w v ≡ false → cells v (on_day w f (bumped p)) ≡ cells v p)
on_day-bumped w f p d h =
    let days = bumped-days p in
    let (here, elsewhere) =
      on_day-cells w f (bumped p) d
        (ap (λ (ds : List DayRow). find (λ x. weekday_eq x.weekday w) ds) days ∙ h) in
    (
      here,
      λ v other.
          elsewhere v other
          ∙ ap (λ (ds : List DayRow). row_cells (find (λ x. weekday_eq x.weekday v) ds)) days,
    )

-- The actor may change the plan, and this is its row.
pub record Editable (cfg : Settings) (actor : User) (i : ℕ) (db : Db) (p : PlanRow) : Type 0 where
  pub not_locked : is_locked cfg actor ≡ false
  pub found : get i db ≡ some p
  pub allowed : may_edit actor p ≡ true

-- The tables behind two changes of the plan `i`: the row has both, the other plans are the same.
two_changes :
    (i : ℕ) (f g : PlanRow → PlanRow) (ps : List PlanRow) (p : PlanRow)
    → ((x : PlanRow) → (f x).id ≡ x.id)
    → ((x : PlanRow) → (g x).id ≡ x.id)
    → find (λ x. x.id == i) ps ≡ some p
    → (find (λ x. x.id == i) (update_plan i g (update_plan i f ps)) ≡ some (g (f p)))
      × ((j : ℕ)
          → i == j ≡ false
          → find (λ x. x.id == j) (update_plan i g (update_plan i f ps)) ≡ find (λ x. x.id == j) ps)
two_changes i f g ps p kf kg h = (
  get-update_plan i g (update_plan i f ps) (f p) kg (get-update_plan i f ps p kf h),
  λ j other.
      get-update_other i j g (update_plan i f ps) kg other ∙ get-update_other i j f ps kf other,
)

module _ (cfg : Settings) (actor : User) (i : ℕ) (db : Db) (p : PlanRow)
    (e : Editable cfg actor i db p) where
  get_editable-ok : get_editable cfg actor i db ≡ (ok p, db)
  unfolding get_editable ensure_active ensure_can_edit_plan ◌>>=◌
  get_editable-ok =
      let a = e.not_locked in let b = e.found in let c = e.allowed in rw (a, b, c) refl

  same_id : p.id ≡ i
  unfolding get
  same_id = id_of_plan i db.plans p e.found

  set_assignments-plans :
      (texts : List Text)
      → (set_assignments cfg actor i texts db).1.plans
        ≡ update_plan p.id
            (λ q. record q { assignments = numbered 0 (stripped texts) })
            (update_plan p.id bumped db.plans)
  unfolding set_assignments bump_version replace_assignments set_plan audit_log ◌>>=◌
  set_assignments-plans texts = rw get_editable-ok refl

  day_after_bump :
      (w : Weekday) (d : DayRow)
      → day_of w p ≡ some d
      → Plans.day p.id w (record db { plans = update_plan p.id bumped db.plans }) ≡ some d
  unfolding Plans.day get
  day_after_bump w d h =
      let found : find (λ x. x.id == p.id) db.plans ≡ some p =
        ap (λ k. find (λ (x : PlanRow). x.id == k) db.plans) same_id ∙ e.found in
      ap (plan_day w) (get-update_plan p.id bumped db.plans p bumped-id found)
      ∙ ap (λ (ds : List DayRow). find (λ x. weekday_eq x.weekday w) ds) (bumped-days p)
      ∙ h

  set_slot-plans :
      (w : Weekday) (slot : ℕ) (a : Option Activity) (d : DayRow)
      → day_of w p ≡ some d
      → (Manager.set_slot cfg actor i w slot a db).1.plans
        ≡ update_plan p.id
            (on_day w (write_slot slot (values_of a)))
            (update_plan p.id bumped db.plans)
  unfolding Manager.set_slot bump_version Plans.set_slot set_plan audit_log ◌>>=◌
  set_slot-plans w slot a d h = rw (get_editable-ok, day_after_bump w d h) refl

  -- What the tables hold behind a bump and a change `g` of the plan.
  edited_plans :
      (g : PlanRow → PlanRow) (db' : Db)
      → ((x : PlanRow) → (g x).id ≡ x.id)
      → db'.plans ≡ update_plan p.id g (update_plan p.id bumped db.plans)
      → (get i db' ≡ some (g (bumped p))) × ((j : ℕ) → i == j ≡ false → get j db' ≡ get j db)
  unfolding get
  edited_plans g db' kg written =
      let at_i : db'.plans ≡ update_plan i g (update_plan i bumped db.plans) =
        written ∙ ap (λ k. update_plan k g (update_plan k bumped db.plans)) same_id in
      let (own, others) = two_changes i bumped g db.plans p bumped-id kg e.found in
      (
        ap (λ ps. find (λ (x : PlanRow). x.id == i) ps) at_i ∙ own,
        λ j other. ap (λ ps. find (λ (x : PlanRow). x.id == j) ps) at_i ∙ others j other,
      )

  set_slot-returns :
      (w : Weekday) (slot : ℕ) (a : Option Activity) (d : DayRow)
      → day_of w p ≡ some d
      → (Manager.set_slot cfg actor i w slot a db).0 ≡ ok tt
  unfolding Manager.set_slot bump_version Plans.set_slot set_plan audit_log ◌>>=◌
  set_slot-returns w slot a d h = rw (get_editable-ok, day_after_bump w d h) refl

  set_assignments-returns : (texts : List Text) → (set_assignments cfg actor i texts db).0 ≡ ok tt
  unfolding set_assignments bump_version replace_assignments set_plan audit_log ◌>>=◌
  set_assignments-returns texts = rw get_editable-ok refl

  clear_day-plans :
      (w : Weekday) (d : DayRow)
      → day_of w p ≡ some d
      → ((Manager.clear_day cfg actor i w db).0 ≡ ok tt)
        × ((Manager.clear_day cfg actor i w db).1.plans
            ≡ update_plan p.id (on_day w (λ _. [])) (update_plan p.id bumped db.plans))
  unfolding Manager.clear_day bump_version Plans.clear_day set_plan audit_log ◌>>=◌
  clear_day-plans w d h = rw (get_editable-ok, day_after_bump w d h) (refl, refl)

  -- An allowed write of a slot, on a weekday that the plan has, succeeds. A plan that was generated
  -- or sent has a new version then, a draft without Telegram's file ids, and any other keeps its
  -- version and status. The slot holds the activity if it has a text other than notes, and nothing
  -- otherwise; the other slots, the other weekdays and the other plans are as they were.
  pub set_slot_lem :
      (w : Weekday) (slot : ℕ) (a : Option Activity) (d : DayRow)
      → day_of w p ≡ some d
      → let (r, db') = Manager.set_slot cfg actor i w slot a db in
        (r ≡ ok tt)
        × ((q : PlanRow) × (get i db' ≡ some q)
            × IsRenewed p.status p q
            × (in_slot slot (cells w q) ≡ shown slot a)
            × ((k : ℕ) → slot == k ≡ false → in_slot k (cells w q) ≡ in_slot k (cells w p))
            × ((v : Weekday) → weekday_eq w v ≡ false → cells v q ≡ cells v p))
        × ((j : ℕ) → i == j ≡ false → get j db' ≡ get j db)
  set_slot_lem w slot a d h =
      let f = write_slot slot (values_of a) in
      let (own, others) = edited_plans (on_day w f) _ (λ x. refl) (set_slot-plans w slot a d h) in
      let (here, elsewhere) = on_day-bumped w f p d h in
      let before : cells w p ≡ d.activities = ap row_cells h in
      (
        set_slot-returns w slot a d h,
        (
          on_day w f (bumped p),
          own,
          bumped-IsRenewed p (on_day w f (bumped p)) p.status refl refl refl refl refl,
          rw here (
              (write_slot_lem slot (suc slot) (values_of a) d.activities (next_slot slot)).0
              ∙ values_of-shown slot a),
          λ k other. rw (here, before) (write_slot_lem slot k (values_of a) d.activities other).1,
          elsewhere,
        ),
        others,
      )

  -- An allowed clearing of a weekday that the plan has succeeds. A plan that was generated or sent
  -- has a new version then, a draft without Telegram's file ids, and any other keeps its version and
  -- status. The weekday has no cells left; the other weekdays and the other plans are as they were.
  pub clear_day_lem :
      (w : Weekday) (d : DayRow)
      → day_of w p ≡ some d
      → let (r, db') = Manager.clear_day cfg actor i w db in
        (r ≡ ok tt)
        × ((q : PlanRow) × (get i db' ≡ some q)
            × IsRenewed p.status p q
            × (cells w q ≡ [])
            × ((v : Weekday) → weekday_eq w v ≡ false → cells v q ≡ cells v p))
        × ((j : ℕ) → i == j ≡ false → get j db' ≡ get j db)
  clear_day_lem w d h =
      let (returns, written) = clear_day-plans w d h in
      let (own, others) = edited_plans (on_day w (λ _. [])) _ (λ x. refl) written in
      let (here, elsewhere) = on_day-bumped w (λ _. []) p d h in
      (
        returns,
        (
          on_day w (λ _. []) (bumped p),
          own,
          bumped-IsRenewed p (on_day w (λ _. []) (bumped p)) p.status refl refl refl refl refl,
          here,
          elsewhere,
        ),
        others,
      )

  -- An allowed change of the assignments succeeds: the plan is then the bumped one with the
  -- stripped texts that are not blank, numbered in order, and every other plan is as it was.
  pub set_assignments_lem :
      (texts : List Text)
      → let (r, db') = set_assignments cfg actor i texts db in
        (r ≡ ok tt)
        × (get i db' ≡ some (record (bumped p) { assignments = numbered 0 (stripped texts) }))
        × ((j : ℕ) → i == j ≡ false → get j db' ≡ get j db)
  set_assignments_lem texts =
      let (own, others) =
        edited_plans (λ q. record q { assignments = numbered 0 (stripped texts) }) _ (λ x. refl)
          (set_assignments-plans texts) in
      (set_assignments-returns texts, own, others)
