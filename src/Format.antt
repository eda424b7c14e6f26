-- ===== src/Format.antt =====
-- How the console prints durations and hashes (frontend/src/lib/format.ts).
pub mod Reading
pub mod Opening
mod Tests
use cdn_platform.Prelude.{
  ℕ, ◌-◌, ◌/◌, ◌%◌, Bool, true, false, not, ◌&&◌, ◌||◌, List, [], ◌∷◌, ◌++◌, Option, none, some,
  ◌or◌, Text, codes, decimal, ◌==◌, take, drop, length, is_truthy, join, if◌then◌else◌,
}

-- A part of a duration: the number and its unit.
abbrev pub part : ℕ → Text → Text
part n unit = decimal n ++ unit

abbrev pub day_unit : Text
day_unit = codes " 天"

abbrev pub hour_unit : Text
hour_unit = codes " 小时"

abbrev pub minute_unit : Text
minute_unit = codes " 分钟"

-- `if (n) parts.push(…)` in front of the later parts.
abbrev pub when : Bool → Text → List Text → List Text
when true text parts = text ∷ parts
when false text parts = parts

-- `formatDuration` of a number of whole seconds that is not negative.
unfoldable pub duration_parts : ℕ → List Text
duration_parts seconds =
    let days = seconds / 86400 in
    let hours = seconds % 86400 / 3600 in
    let minutes = seconds % 86400 % 3600 / 60 in
    when (not (days == 0)) (part days day_unit) (
      when (not (hours == 0)) (part hours hour_unit)
        (when (not (minutes == 0) || ((days == 0) && (hours == 0))) (part minutes minute_unit) []))

unfoldable pub format_duration : Option ℕ → Text
unfolding duration_parts join
format_duration seconds = join (codes " ") (duration_parts (seconds or 0))

-- `text.slice(-6)`
abbrev pub last_six : Text → Text
last_six text = drop (length text - 6) text

unfoldable pub short_hash : Option Text → Text
short_hash none = codes "--"
short_hash (some value) =
    if is_truthy value then take 10 value ++ (codes "..." ++ last_six value) else codes "--"

-- `formatDate`: `locale_date` prints the day of a date in the language of the console, and is
-- `none` where the text is no date.
module _ (locale_date : Text → Option Text) where
  abbrev known_date : Option Text → Text
  known_date none = codes "--"
  known_date (some text) = text

  unfoldable pub format_date : Option Text → Text
  format_date none = codes "--"
  format_date (some value) = if is_truthy value then known_date (locale_date value) else codes "--"
