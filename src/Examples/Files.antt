-- ===== src/Examples/Files.antt =====
-- Generated plans and their files, the cleanup of the storage, and written dates.
use planmaker.Common.{
  ◌≡◌, ◌≤◌, ◌==◌, ◌+◌, ◌&&◌, ◌||◌, leb, refl, true, false, none, some, List, [], ◌∷◌, select, arith,
  all,
}
use planmaker.Common.Result.{Result, ◌>>=◌, ok}
use planmaker.Common.Text.{codes, strip, is_space}
use planmaker.Common.Text.Decimal.{digits_value, is_digit}
use planmaker.Calendar.{weekday_index, saturday_of}
use planmaker.Database.{PlanRow}
use planmaker.Users.{by_id}
use planmaker.Statistics.{count, detail_of, advisor_detail, statistics}
use planmaker.Statistics.Weeks.{advisor_detail-this_week}
use planmaker.Common.Dict.{lookup}
use planmaker.Domain.Activity.{activity_is_empty}
use planmaker.Domain.Day.{filled_count}
use planmaker.Domain.Plan.{WeeklyPlan, activity_count}
use planmaker.Render.Registry.{resolve}
use planmaker.Generation.{Service, Outside, Store, Renderer, Picture, GeneratedPlan, generate}
use planmaker.Generation.Stored.{generate-IsStored, IsStored}
use planmaker.Generation.Again.{generate-again, found_again}
use planmaker.Storage.Orphans.{DiskFile, png, pdf, other, storage_report, delete_orphans}
use planmaker.Storage.Orphans.Unreferenced.{
  storage_report-eq, expected_report, is_referenced, delete_orphans-referenced,
}
use planmaker.Bot.Delivery.{input_for, local_file, text_or_none, cached_file_id, Kind}
use planmaker.Bot.Delivery.Served.{input_for-IsServable, IsServable}
use planmaker.Jalali.{Jalali, Library, short, parse}
use planmaker.Jalali.RoundTrip.{parse-short}
use planmaker.Examples.{cfg, sheet, math_day, plan, tables, coach, value_or}

abbrev picture : Picture
picture = record { png = codes "p"; width = 10; height = 7 }

abbrev backend : Renderer
backend = record {
  signature = codes "pillow";
  version = codes "rotbeland-weekly-v2";
  width = 10;
  height = 7;
  template_exists = true;
  fonts_exist = true;
  issues = λ p. [];
  render_png = λ p scale. some picture;
  render_pdf_vector = none;
}

abbrev svc : Service
svc = record { renderer = backend; fallback = none; other = λ v. backend }

abbrev out : Outside
out = record {
  digest = λ payload. codes "h";
  isoformat = λ d. codes "d";
  directory = λ d. codes "2026/05";
  today = 13;
  png_to_pdf = λ raw. raw;
  storage_root = codes "/data";
}

abbrev dated : WeeklyPlan
dated = record sheet { days = record math_day { date = some 15 } ∷ [] }

abbrev first : Result GeneratedPlan × WeeklyPlan × Store
first = generate svc out (codes "1") dated false []

abbrev blank : GeneratedPlan
blank = record {
  png_path = [];
  pdf_path = [];
  cached = false;
  renderer = [];
  template_version = [];
  plan_hash = [];
  width = 0;
  height = 0;
}

abbrev result : GeneratedPlan
result = value_or blank first.0

first-ok : generate svc out (codes "1") dated false [] ≡ (ok result, first.1, first.2)
unfolding generate activity_count filled_count activity_is_empty strip is_space resolve lookup
first-ok = refl

generate-IsStored_example : IsStored svc out (codes "1") dated [] result first.1 first.2
generate-IsStored_example =
    generate-IsStored svc out (codes "1") dated first.1 false [] first.2 result first-ok

generate-again_example :
    (generate svc out (codes "1") first.1 false first.2
      ≡ (ok (found_again svc out (codes "1") dated), first.1, first.2))
    × (result.png_path ≡ (found_again svc out (codes "1") dated).png_path)
    × (result.pdf_path ≡ (found_again svc out (codes "1") dated).pdf_path)
generate-again_example =
    generate-again svc out (codes "1") dated first.1 false [] first.2 result first-ok

late : 2 ≤ weekday_index 15
unfolding weekday_index
late = omega arith

found : advisor_detail tables 15 2 ≡ some (detail_of tables 15 2 coach)
unfolding advisor_detail by_id
found = refl

-- Ordinal 15 is a Monday, and the plan of the tables starts on the Saturday before.
advisor_detail-this_week_example :
    let saturday = saturday_of 15 in
    (count (λ (p : PlanRow). (p.advisor_id == 2) && leb saturday p.week_start) tables.plans
      ≡ (detail_of tables 15 2 coach).this_week
        + count
            (λ (p : PlanRow).
              (p.advisor_id == 2) && (p.week_start == saturday || p.week_start == saturday + 1))
            tables.plans)
    × ((statistics (λ d. 1) 15 tables).week
        ≡ count (λ (p : PlanRow). leb saturday p.week_start) tables.plans)
advisor_detail-this_week_example =
    advisor_detail-this_week (λ d. 1) tables 15 2 (detail_of tables 15 2 coach) (omega arith) late
      found

abbrev files : List DiskFile
files =
    record { path = codes "/data/a.png"; suffix = png; size = 3 }
    ∷ record { path = codes "/data/b.pdf"; suffix = pdf; size = 4 }
    ∷ record { path = codes "/data/c.txt"; suffix = other; size = 5 }
    ∷ []

storage_report-eq_example : storage_report cfg tables files ≡ expected_report cfg tables files
storage_report-eq_example = storage_report-eq cfg tables files

delete_orphans-referenced_example :
    select (is_referenced cfg tables) (delete_orphans cfg (λ f. true) tables files).1
    ≡ select (is_referenced cfg tables) files
delete_orphans-referenced_example = delete_orphans-referenced cfg (λ f. true) tables files

picture_input : input_for cfg tables.disk plan Kind.png ≡ some (local_file (codes "/data/a.png"))
unfolding input_for
picture_input = refl

input_for-IsServable_example :
    IsServable cfg tables.disk (codes "/data/a.png")
    × (text_or_none (cached_file_id plan Kind.png) ≡ none)
input_for-IsServable_example =
    input_for-IsServable cfg tables.disk plan Kind.png (codes "/data/a.png") picture_input

-- A calendar in which a date is the first day of its own year.
abbrev years : Library
years = record {
  to_jalali = λ d. some (record { year = d; month = 1; day = 1 });
  from_jalali = λ y m d. some y;
  isdigit = all is_digit;
  int = λ t. some (digits_value 0 t);
}

abbrev new_year : Jalali
new_year = record { year = 1405; month = 1; day = 1 }

parse-short_example : (short years 1405 >>= parse years) ≡ ok 1405
parse-short_example = parse-short years 1405 new_year (λ t h. (h.1, refl)) (refl, refl)
