-- ===== src/Statistics/Weeks.antt =====
-- The week that the counts of the administrator's panel are about.
use planmaker.Common.{
  ℕ, ◌+◌, ◌%◌, ◌≤◌, ◌≡◌, refl, Bool, ◌&&◌, ◌||◌, not, Option, none, some, List, [], ◌∷◌, ◌==◌, leb,
  length, arith,
}
use planmaker.Calendar.{Date, py_weekday, weekday_index, saturday_of}
use planmaker.Calendar.Weekdays.{weekday_index-eq}
use planmaker.Database.{Db, User, Role, admin, advisor, student, PlanRow}
use planmaker.Security.{role_eq}
use planmaker.Users.{by_id}
use planmaker.Statistics.{
  count, may_advise, monday_of, week_of, AdvisorDetail, detail_of, advisor_detail, plans_since,
  statistics, db_stats,
}

py_weekday-eq : (d : Date) → py_weekday d ≡ (d + 6) % 7
unfolding py_weekday
py_weekday-eq d = refl

-- The week of the statistics begins on the Saturday of the calendar.
week_of-saturday_of : (d : Date) → week_of d ≡ saturday_of d
unfolding saturday_of
week_of-saturday_of d = ground (arith, py_weekday-eq d, weekday_index-eq d)

-- The week of an advisor's detail begins on a Monday, and from Monday to Friday this is two days
-- after that Saturday.
monday_of-saturday_of : (d : Date) → 6 ≤ d → 2 ≤ weekday_index d → monday_of d ≡ saturday_of d + 2
unfolding saturday_of
monday_of-saturday_of d h late = ground (arith, py_weekday-eq d, weekday_index-eq d)

-- What starts on or after a day, by the two days from it on and the rest.
count-split :
    (q : PlanRow → Bool) (m : Date) (ps : List PlanRow)
    → count (λ (p : PlanRow). q p && leb m p.week_start) ps
      ≡ count (λ (p : PlanRow). q p && leb (m + 2) p.week_start) ps
        + count (λ (p : PlanRow). q p && (p.week_start == m || p.week_start == m + 1)) ps
count-split q m [] = omega arith
count-split q m (p ∷ ps) = ground (arith, count-split q m ps)

found_detail :
    (db : Db) (today i : ℕ) (d : AdvisorDetail) (o : Option User)
    → (elim o as (λ _. Option AdvisorDetail) [
      | none ↦ none
      | some u ↦ some (detail_of db today i u)
    ])
      ≡ some d
    → (u : User) × (detail_of db today i u ≡ d)
found_detail db today i d none h = absurd (cc)
found_detail db today i d (some u) h = (u, cc)

-- From Monday to Friday, `this_week` of an advisor's detail leaves out exactly the advisor's plans
-- that start on the Saturday or the Sunday of the current week: with them it would count the
-- advisor's plans from that Saturday on, the day from which `week` of the statistics counts.
pub advisor_detail-this_week :
    (first_of_month : Date → Date) (db : Db) (today i : ℕ) (d : AdvisorDetail)
    → 6 ≤ today
    → 2 ≤ weekday_index today
    → advisor_detail db today i ≡ some d
    → let saturday = saturday_of today in
      (count (λ (p : PlanRow). (p.advisor_id == i) && leb saturday p.week_start) db.plans
        ≡ d.this_week
          + count
              (λ (p : PlanRow).
                (p.advisor_id == i) && (p.week_start == saturday || p.week_start == saturday + 1))
              db.plans)
      × ((statistics first_of_month today db).week
          ≡ count (λ (p : PlanRow). leb saturday p.week_start) db.plans)
unfolding advisor_detail statistics plans_since
advisor_detail-this_week first_of_month db today i d h late found =
    let (u, same) = found_detail db today i d (by_id i db) found in
    (
      rw (← same) (
          rw (monday_of-saturday_of today h late)
            (count-split (λ p. p.advisor_id == i) (saturday_of today) db.plans)),
      rw (week_of-saturday_of today) refl,
    )

abbrev adviser_role : Role → Bool
adviser_role r = role_eq r advisor || role_eq r admin

adviser_role-student : (r : Role) → adviser_role r ≡ not (role_eq r student)
adviser_role-student admin = refl
adviser_role-student advisor = refl
adviser_role-student student = refl

both_roles :
    (us : List User)
    → count may_advise us + count (λ (u : User). role_eq u.role student) us ≡ length us
both_roles [] = refl
both_roles (u ∷ us) = ground (arith, adviser_role-student u.role, both_roles us)

-- The panel's accounts are its advisors and its students.
pub db_stats-users :
    (db : Db) → (db_stats db).advisors + (db_stats db).students ≡ (db_stats db).users
unfolding db_stats
db_stats-users db = both_roles db.users
