-- ===== src/Filters.antt =====
-- The checks on the filters of the listings by pages: `_check_pagination`, `_total_pages`,
-- `_validate_transaction_filter` and `_resolve_date_preset` of src/modules/finances/services.py,
-- which src/modules/inventory/services.py has once more for the stock transactions.
pub mod Bounds
use munavvar_a.Prelude.{
  ℕ, ⊤, zero, suc, ◌+◌, ◌-◌, ◌*◌, ◌/◌, ◌%◌, Bool, false, not, ◌&&◌, ◌||◌, ◌==◌, ltb, Option, none,
  some, is_some, if◌then◌else◌,
}
use munavvar_a.Prelude.Int.{ℤ, ltb_ℤ}
use munavvar_a.Store.{Error, Result, ok, ◌>>=◌, ◌>>◌, raise_if}

pub data DatePreset : Type 0 where
  today yesterday this_week last_week this_month last_month : DatePreset

-- The fields of a filter that the checks read; the dates are hours in UTC. For transactions the
-- value is the amount, for stock transactions the quantity.
pub record RangeFilter : Type 0 where
  pub value_eq : Option ℤ
  pub value_from : Option ℤ
  pub value_to : Option ℤ
  pub date_preset : Option DatePreset
  pub date_from : Option ℕ
  pub date_to : Option ℕ

-- `MAX_PAGE_DEPTH`
abbrev pub max_page_depth : ℕ
max_page_depth = 10000

-- `_check_pagination`
unfoldable pub check_pagination : ℕ → ℕ → Result ⊤
check_pagination page size =
    raise_if (ltb max_page_depth (page * size)) (Error.pagination_too_deep page size)

-- `_total_pages`
unfoldable pub total_pages : ℕ → ℕ → ℕ
total_pages total size = if size == 0 then 0 else (total + size - 1) / size

-- `a is not None and b is not None and a > b`
abbrev pub is_reversed_value : Option ℤ → Option ℤ → Bool
is_reversed_value (some a) (some b) = ltb_ℤ b a
is_reversed_value _ _ = false

abbrev pub is_reversed_date : Option ℕ → Option ℕ → Bool
is_reversed_date (some a) (some b) = ltb b a
is_reversed_date _ _ = false

-- `_validate_transaction_filter`
unfoldable pub validate_filter : RangeFilter → Result ⊤
validate_filter f = do
  raise_if (is_some f.value_eq && (is_some f.value_from || is_some f.value_to))
      Error.amount_conflict
  raise_if (is_reversed_value f.value_from f.value_to) Error.amount_range_invalid
  raise_if (is_some f.date_preset && (is_some f.date_from || is_some f.date_to))
      Error.date_preset_conflict
  raise_if (is_reversed_date f.date_from f.date_to) Error.date_range_invalid

-- The calendar of the language's library: a day, and its number, 1 for 1 January of the year 1.
pub record Day : Type 0 where
  pub year : ℕ
  pub month : ℕ
  pub day : ℕ

unfoldable pub is_leap : ℕ → Bool
is_leap y = y % 4 == 0 && (not (y % 100 == 0) || y % 400 == 0)

unfoldable pub days_in_month : Bool → ℕ → ℕ
days_in_month leap m =
    if m == 2
    then (if leap then 29 else 28)
    else if m == 4 || m == 6 || m == 9 || m == 11
    then 30
    else 31

-- The days of a year before a month.
unfoldable pub days_before_month : Bool → ℕ → ℕ
days_before_month leap zero = 0
days_before_month leap (suc m) =
    days_before_month leap m + (if m == 0 then 0 else days_in_month leap m)

-- The days of the years before one.
unfoldable pub days_before_year : ℕ → ℕ
days_before_year zero = 0
days_before_year (suc y) =
    days_before_year y + (if y == 0 then 0 else if is_leap y then 366 else 365)

unfoldable pub month_start : ℕ → ℕ → ℕ
month_start y m = days_before_year y + days_before_month (is_leap y) m + 1

abbrev pub ordinal : Day → ℕ
ordinal d = month_start d.year d.month + d.day - 1

-- Monday is 0; the first of January of the year 1 was a Monday.
abbrev pub weekday : ℕ → ℕ
weekday t = (t + 6) % 7

-- `start_local.replace(month=...)` of the next month and of the one before.
unfoldable pub next_month : Day → ℕ
next_month d =
    if d.month == 12 then month_start (d.year + 1) 1 else month_start d.year (d.month + 1)

unfoldable pub previous_month : Day → ℕ
previous_month d =
    if d.month == 1 then month_start (d.year - 1) 12 else month_start d.year (d.month - 1)

-- `start_local` and `end_local`, as numbers of days.
unfoldable pub preset_days : DatePreset → Day → ℕ × ℕ
preset_days DatePreset.today d = (ordinal d, ordinal d + 1)
preset_days DatePreset.yesterday d = (ordinal d - 1, ordinal d)
preset_days DatePreset.this_week d =
    (ordinal d - weekday (ordinal d), ordinal d - weekday (ordinal d) + 7)
preset_days DatePreset.last_week d =
    (ordinal d - weekday (ordinal d) - 7, ordinal d - weekday (ordinal d))
preset_days DatePreset.this_month d = (month_start d.year d.month, next_month d)
preset_days DatePreset.last_month d = (previous_month d, month_start d.year d.month)

-- `astimezone(UTC)` of midnight in Tashkent, five hours ahead.
abbrev pub utc_hour : ℕ → ℕ
utc_hour day = 24 * day - 5

-- `_resolve_date_preset`; `d` is the present day in Tashkent.
unfoldable pub resolve_date_preset : Day → RangeFilter → RangeFilter
resolve_date_preset d f = elim f.date_preset [
  | none ↦ f
  | some preset ↦
      let (first, last) = preset_days preset d in
      record f {
        date_preset = none;
        date_from = some (utc_hour first);
        date_to = some (utc_hour last);
      }
]

-- The start of `get_transactions`.
unfoldable pub prepare_filter : Day → ℕ → ℕ → RangeFilter → Result RangeFilter
prepare_filter d page size f = do
  validate_filter f
  let resolved = resolve_date_preset d f
  check_pagination page size
  ok resolved
