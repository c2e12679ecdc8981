-- ===== src/Filters/Bounds.antt =====
-- What the checks on filters and pages are good for.
use munavvar_a.Prelude.{
  ℕ, ⊤, zero, suc, ◌+◌, ◌-◌, ◌*◌, ◌/◌, ◌≡◌, ◌≤◌, ◌<◌, refl, subst, inl, inr, Bool-cases, Bool, true,
  false, ◌&&◌, ◌||◌, ◌==◌, ltb, Option, none, some, is_some, arith,
}
use native.Mathlib.Nat.{div-mul-le_self, lt-div-mul-add}
use munavvar_a.Store.{Error, ok, raise_if, >>=-eq-ok, raise_if-eq-ok, ok-injective}
use munavvar_a.Filters.{
  DatePreset, RangeFilter, max_page_depth, check_pagination, total_pages, is_reversed_value,
  is_reversed_date, validate_filter, Day, is_leap, days_in_month, days_before_month,
  days_before_year, month_start, ordinal, next_month, previous_month, preset_days, utc_hour,
  resolve_date_preset, prepare_filter,
}

-- Pages of a positive size hold all rows, and the last page is not empty.
pub total_pages-bounds :
    (total size : ℕ)
    → 0 < size
    → (total ≤ total_pages total size * size) × (total_pages total size * size < total + size)
unfolding total_pages
total_pages-bounds total size h =
    let some_size : (size == 0) ≡ false = ground arith in
    let below : total + size - 1 < (total + size - 1) / size * size + size = lt-div-mul-add h in
    rw some_size (omega (arith, below), omega (arith, div-mul-le_self (total + size - 1) size))

-- A day of the calendar.
pub record IsDay (d : Day) : Type 0 where
  pub year_pos : 2 ≤ d.year
  pub month_pos : 1 ≤ d.month
  pub month_le : d.month ≤ 12
  pub day_pos : 1 ≤ d.day
  pub day_le : d.day ≤ days_in_month (is_leap d.year) d.month

month_len : (leap : Bool) (m : ℕ) → (1 ≤ days_in_month leap m) × (days_in_month leap m ≤ 31)
unfolding days_in_month
month_len leap m = ground arith

one_more : (n : ℕ) → n + 1 ≡ suc n
one_more n = omega arith

month_step :
    (y m : ℕ) → 1 ≤ m → month_start y (m + 1) ≡ month_start y m + days_in_month (is_leap y) m
unfolding month_start days_before_month
month_step y m h =
    let later : (m == 0) ≡ false = ground arith in rw (one_more m, later) (omega arith)

year_step : (y : ℕ) → 1 ≤ y → month_start (y + 1) 1 ≡ month_start y 12 + 31
unfolding month_start days_before_month days_before_year days_in_month
year_step y h =
    let later : (y == 0) ≡ false = ground arith in
    elim (Bool-cases (is_leap y)) [
      | inl e ↦ rw (one_more y, later, e) (omega arith)
      | inr e ↦ rw (one_more y, later, e) (omega arith)
    ]

-- How far a month reaches.
record Spans (first last : ℕ) : Type 0 where
  later : first < last
  short : last ≤ first + 31

next_month-Spans : (d : Day) → IsDay d → Spans (month_start d.year d.month) (next_month d)
unfolding next_month
next_month-Spans d v = elim (Bool-cases (d.month == 12)) [
  | inl e ↦
      let december : d.month ≡ 12 = ground arith in
      let step = year_step d.year (omega (arith, v.year_pos)) in
      record {
        later = rw (e, december) (omega (arith, step));
        short = rw (e, december) (omega (arith, step));
      }
  | inr e ↦
      let step = month_step d.year d.month v.month_pos in
      let length = month_len (is_leap d.year) d.month in
      record {
        later = rw e (omega (arith, step, length.0));
        short = rw e (omega (arith, step, length.1));
      }
]

in_month : (d : Day) → IsDay d → ordinal d < next_month d
unfolding next_month days_in_month
in_month d v = elim (Bool-cases (d.month == 12)) [
  | inl e ↦
      let december : d.month ≡ 12 = ground arith in
      let step = year_step d.year (omega (arith, v.year_pos)) in
      let within = v.day_le in
      rw (e, december) (omega (arith, step, rw december at within, v.day_pos))
  | inr e ↦
      let step = month_step d.year d.month v.month_pos in
      rw e (omega (arith, step, v.day_le, v.day_pos))
]

previous_month-Spans : (d : Day) → IsDay d → Spans (previous_month d) (month_start d.year d.month)
unfolding previous_month
previous_month-Spans d v = elim (Bool-cases (d.month == 1)) [
  | inl e ↦
      let january : d.month ≡ 1 = ground arith in
      let back : d.year - 1 + 1 ≡ d.year = omega (arith, v.year_pos) in
      let step : month_start d.year 1 ≡ month_start (d.year - 1) 12 + 31 =
        rw back at (year_step (d.year - 1) (omega (arith, v.year_pos))) in
      record {
        later = rw (e, january) (omega (arith, step));
        short = rw (e, january) (omega (arith, step));
      }
  | inr e ↦
      let further : 1 ≤ d.month - 1 = ground (arith, v.month_pos) in
      let back : d.month - 1 + 1 ≡ d.month = omega (arith, v.month_pos) in
      let step : month_start d.year d.month
          ≡ month_start d.year (d.month - 1) + days_in_month (is_leap d.year) (d.month - 1) =
        rw back at (month_step d.year (d.month - 1) further) in
      let length = month_len (is_leap d.year) (d.month - 1) in
      record {
        later = rw e (omega (arith, step, length.0));
        short = rw e (omega (arith, step, length.1));
      }
]

-- The numbers of days from the year 2 on leave room for a week.
far : (y : ℕ) → 2 ≤ y → 365 ≤ days_before_year y
unfolding days_before_year
far zero h = absurd (omega arith)
far (suc zero) h = absurd (omega arith)
far (suc (suc y)) h =
    let later : (suc y == 0) ≡ false = ground arith in
    elim (Bool-cases (is_leap (suc y))) [
      | inl e ↦ rw (later, e) (omega arith)
      | inr e ↦ rw (later, e) (omega arith)
    ]

late : (d : Day) → IsDay d → 365 ≤ ordinal d
unfolding month_start
late d v = omega (arith, far d.year v.year_pos, v.day_pos)

-- On a day from the year 2 on, each preset stands for a range of hours that is not empty and is at
-- most 31 days long.
pub preset_days-bounds :
    (p : DatePreset) (d : Day)
    → IsDay d
    → ((preset_days p d).0 < (preset_days p d).1) × ((preset_days p d).1 ≤ (preset_days p d).0 + 31)
unfolding preset_days
preset_days-bounds DatePreset.today d v = (omega arith, omega arith)
preset_days-bounds DatePreset.yesterday d v =
    let far_off = late d v in (omega (arith, far_off), omega arith)
preset_days-bounds DatePreset.this_week d v = (omega arith, omega arith)
preset_days-bounds DatePreset.last_week d v =
    let far_off = late d v in (omega (arith, far_off), omega (arith, far_off))
preset_days-bounds DatePreset.this_month d v = let s = next_month-Spans d v in (s.later, s.short)
preset_days-bounds DatePreset.last_month d v =
    let s = previous_month-Spans d v in (s.later, s.short)

-- The presets for the present day, week and month.
abbrev pub is_current : DatePreset → Bool
is_current DatePreset.today = true
is_current DatePreset.this_week = true
is_current DatePreset.this_month = true
is_current _ = false

-- The range of a preset for the present day, week or month holds the present day.
pub preset_days-now :
    (p : DatePreset) (d : Day)
    → IsDay d
    → is_current p ≡ true
    → ((preset_days p d).0 ≤ ordinal d) × (ordinal d < (preset_days p d).1)
unfolding preset_days
preset_days-now DatePreset.today d v h = (omega arith, omega arith)
preset_days-now DatePreset.this_week d v h = (omega arith, omega arith)
preset_days-now DatePreset.this_month d v h = (omega (arith, v.day_pos), in_month d v)
preset_days-now DatePreset.yesterday d v h = cc
preset_days-now DatePreset.last_week d v h = cc
preset_days-now DatePreset.last_month d v h = cc

-- What the query of a listing may rely on.
pub record IsUsable (page size : ℕ) (g : RangeFilter) : Type 0 where
  pub resolved : g.date_preset ≡ none
  pub dates : is_reversed_date g.date_from g.date_to ≡ false
  pub values : is_reversed_value g.value_from g.value_to ≡ false
  pub depth : page * size ≤ max_page_depth

hours_ordered : (a b : ℕ) → a < b → ltb (utc_hour b) (utc_hour a) ≡ false
hours_ordered a b h = ground arith

not_deep : (a b : ℕ) → ltb a b ≡ false → b ≤ a
not_deep a b h = ground arith

resolve_date_preset-IsUsable :
    (d : Day) (page size : ℕ) (f : RangeFilter) (preset : Option DatePreset)
    → f.date_preset ≡ preset
    → IsDay d
    → is_reversed_date f.date_from f.date_to ≡ false
    → is_reversed_value f.value_from f.value_to ≡ false
    → page * size ≤ max_page_depth
    → IsUsable page size (resolve_date_preset d f)
unfolding resolve_date_preset
resolve_date_preset-IsUsable d page size f none e v dates values depth =
    rw e (record { resolved = refl; dates = dates; values = values; depth = depth })
resolve_date_preset-IsUsable d page size f (some p) e v dates values depth = rw e (record {
  resolved = refl;
  dates = hours_ordered (preset_days p d).0 (preset_days p d).1 (preset_days-bounds p d v).0;
  values = values;
  depth = depth;
})

unreversed : (b : Bool) (e : Error) {u : ⊤} → raise_if b e ≡ ok u → b ≡ false
unreversed true e h = cc
unreversed false e h = refl

-- On a day from the year 2 on, a filter and a page that are accepted make a query with no preset
-- left, with neither its dates nor its values reversed, and within the greatest depth of pages.
pub prepare_filter-IsUsable :
    (d : Day) (page size : ℕ) (f : RangeFilter) {g : RangeFilter}
    → IsDay d
    → prepare_filter d page size f ≡ ok g
    → IsUsable page size g
unfolding prepare_filter validate_filter check_pagination
prepare_filter-IsUsable d page size f v h =
    let (u, checked, h₁) = >>=-eq-ok (validate_filter f) _ h in
    let (_, c₁) =
      raise_if-eq-ok (is_some f.value_eq && (is_some f.value_from || is_some f.value_to)) _ _
        checked in
    let (values, c₂) = raise_if-eq-ok (is_reversed_value f.value_from f.value_to) _ _ c₁ in
    let (_, c₃) =
      raise_if-eq-ok (is_some f.date_preset && (is_some f.date_from || is_some f.date_to)) _ _ c₂ in
    let dates : is_reversed_date f.date_from f.date_to ≡ false = unreversed _ _ c₃ in
    let (shallow, h₂) = raise_if-eq-ok (ltb max_page_depth (page * size)) _ _ h₁ in
    subst (IsUsable page size) (ok-injective h₂) (
      resolve_date_preset-IsUsable d page size f f.date_preset refl v dates values
        (not_deep _ _ shallow))
