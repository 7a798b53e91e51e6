-- ===== src/Window/Bounds.antt =====
-- The window of a query: `parseWindowAt` of backend/internal/mcpserver/window.go,
-- over the reading of a text as a time or a duration. A time is its nanoseconds since 1970.
use tsflow.Prelude.{
  ℕ, ◌+◌, ◌-◌, ◌≤◌, ◌<◌, String, not, Option, none, some, ◌==◌, ltb, String_eq, ℕ_eq, if◌then◌else◌,
}
use tsflow.Rolling.Cover.{Time}

-- The errors of parseWindowAt
pub data WindowError : Type 0 where
  invalid_end invalid_start start_in_future end_not_after_start too_small too_large : WindowError

pub data Parsed : Type 0 where
  window : Time → Time → Parsed
  refused : WindowError → Parsed

abbrev pub default_window : ℕ
default_window = 3600000000000

abbrev pub max_window : ℕ
max_window = 604800000000000

abbrev pub second : ℕ
second = 1000000000

-- The last four tests, over the times
unfoldable pub check_window : Time → Time → Time → Parsed
check_window now start end =
    if not (ltb start now)
    then refused start_in_future
    else if not (ltb start end)
    then refused end_not_after_start
    else if ltb (end - start) second
    then refused too_small
    else if ltb max_window (end - start)
    then refused too_large
    else window start end

abbrev pub clamp : Time → Time → Time
clamp now end = if ltb now end then now else end

-- By the start: `none` if the text is blank, else what reading it gives
unfoldable pub with_start : Time → Time → Option (Option Time) → Parsed
with_start now end none = check_window now (end - default_window) end
with_start now end (some none) = refused invalid_start
with_start now end (some (some start)) = check_window now start end

unfoldable pub with_end : Time → Option (Option Time) → Option (Option Time) → Parsed
with_end now start none = with_start now now start
with_end now start (some none) = refused invalid_end
with_end now start (some (some end)) = with_start now (clamp now end) start

module _ (trim_space : String → String) (parse_time : String → Time → Option Time) where
  abbrev pub read_time : String → Time → Option (Option Time)
  read_time raw now = if trim_space raw == "" then none else some (parse_time raw now)

  unfoldable pub parse_window_at : String → String → Time → Parsed
  parse_window_at start_raw end_raw now =
      with_end now (read_time start_raw now) (read_time end_raw now)

-- What any window returned promises of its two times
abbrev pub InBounds : Time → Parsed → Type 0
InBounds now (window start end) =
    (start < now) × (end ≤ now) × (start + second ≤ end) × (end ≤ start + max_window)
InBounds now (refused e) = Unit
