-- ===== src/Examples/Filters.antt =====
-- Filters and pages on concrete days.
use munavvar_a.Prelude.{◌+◌, ◌*◌, ◌≡◌, ◌≤◌, ◌<◌, refl, some, none, arith}
use munavvar_a.Prelude.Int.{pos}
use munavvar_a.Store.{ok}
use munavvar_a.Filters.{
  DatePreset, RangeFilter, check_pagination, total_pages, validate_filter, Day, is_leap,
  days_in_month, ordinal, preset_days, resolve_date_preset, prepare_filter,
}
use munavvar_a.Filters.Bounds.{
  total_pages-bounds, IsDay, preset_days-bounds, preset_days-now, IsUsable, prepare_filter-IsUsable,
}

total_pages-bounds_example : (41 ≤ total_pages 41 20 * 20) × (total_pages 41 20 * 20 < 41 + 20)
total_pages-bounds_example = total_pages-bounds 41 20 (omega arith)

-- The last day of February in a leap year.
abbrev leap_day : Day
leap_day = record { year = 2024; month = 2; day = 29 }

leap_day-IsDay : IsDay leap_day
unfolding days_in_month is_leap
leap_day-IsDay = record {
  year_pos = omega arith;
  month_pos = omega arith;
  month_le = omega arith;
  day_pos = omega arith;
  day_le = omega arith;
}

preset_days-bounds_example :
    ((preset_days DatePreset.last_month leap_day).0
      < (preset_days DatePreset.last_month leap_day).1)
    × ((preset_days DatePreset.last_month leap_day).1
        ≤ (preset_days DatePreset.last_month leap_day).0 + 31)
preset_days-bounds_example = preset_days-bounds DatePreset.last_month leap_day leap_day-IsDay

preset_days-now_example :
    ((preset_days DatePreset.this_month leap_day).0 ≤ ordinal leap_day)
    × (ordinal leap_day < (preset_days DatePreset.this_month leap_day).1)
preset_days-now_example = preset_days-now DatePreset.this_month leap_day leap_day-IsDay refl

abbrev this_week_over : RangeFilter
this_week_over = record {
  value_eq = none;
  value_from = some (pos 100);
  value_to = none;
  date_preset = some DatePreset.this_week;
  date_from = none;
  date_to = none;
}

over_accepted :
    prepare_filter leap_day 2 50 this_week_over ≡ ok (resolve_date_preset leap_day this_week_over)
unfolding prepare_filter validate_filter check_pagination
over_accepted = refl

prepare_filter-IsUsable_example : IsUsable 2 50 (resolve_date_preset leap_day this_week_over)
prepare_filter-IsUsable_example =
    prepare_filter-IsUsable leap_day 2 50 this_week_over leap_day-IsDay over_accepted
