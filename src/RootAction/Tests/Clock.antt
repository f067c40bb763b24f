-- ===== src/RootAction/Tests/Clock.antt =====
-- A concrete `strftime`, to evaluate the definitions with: the civil date of an instant.
use Prim.Native.String.{◌++◌, char_at}
use agent_runtime_ops.Prelude.{ℕ, ◌+◌, ◌-◌, ◌*◌, ◌/◌, ◌%◌, ◌≡◌, refl, String, leb, if◌then◌else◌}
use agent_runtime_ops.Time.{epoch}

digit_text : ℕ → String
digit_text n = String.◌∷◌ (char_at "0123456789" n) String.[]

two_text : ℕ → String
unfolding digit_text
two_text n = digit_text (n / 10) ++ digit_text (n % 10)

-- Days are counted from 1 March of the year 0, in a year that begins with March.
date_text : ℕ → String
unfolding two_text
date_text z =
    let day_of_era = z % 146_097 in
    let year_of_era =
      (day_of_era - day_of_era / 1_460 + day_of_era / 36_524 - day_of_era / 146_096) / 365 in
    let day_of_year = day_of_era - (365 * year_of_era + year_of_era / 4 - year_of_era / 100) in
    let moon = (5 * day_of_year + 2) / 153 in
    let month = if leb 10 moon then moon - 9 else moon + 3 in
    let day = day_of_year - (153 * moon + 2) / 5 + 1 in
    let year = year_of_era + (z / 146_097) * 400 + (if leb month 2 then 1 else 0) in
    two_text (year / 100) ++ two_text (year % 100) ++ "-" ++ two_text month ++ "-" ++ two_text day

-- The instant is in seconds from the start of the year 1, which is 306 days after 1 March of the
-- year 0.
unfoldable pub format_instant : ℕ → String
unfolding two_text date_text
format_instant n =
    let day_seconds = n % 86_400 in
    date_text (n / 86_400 + 306)
    ++ "T"
    ++ two_text (day_seconds / 3_600)
    ++ ":"
    ++ two_text (day_seconds / 60 % 60)
    ++ ":"
    ++ two_text (day_seconds % 60)
    ++ "Z"

new_year : format_instant (epoch + 820_540_800) ≡ "2026-01-01T00:00:00Z"
unfolding format_instant two_text date_text digit_text
new_year = refl
