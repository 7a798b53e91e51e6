-- ===== src/Window/Tests.antt =====
-- Runs of window.go, and its theorems at concrete inputs.
use tsflow.Prelude.{
  ℕ, ◌+◌, ◌-◌, ◌≤◌, ◌<◌, String, ◌≡◌, refl, ◌↔◌, true, List, [], ◌∷◌, ◌++◌, Option, none, some,
  ◌==◌, String_eq, ℕ_eq, if◌then◌else◌, length, take, drop,
}
use tsflow.Rolling.Cover.{Time}
use tsflow.Window.Bounds.{window, parse_window_at, with_end, with_start, check_window}
use tsflow.Window.Page.{
  pos, page, page_lem, parse_page, with_offset, limit_offset, PageInBounds, parse_page-PageInBounds,
}

-- A text is the name of a time here.
abbrev read : String → Time → Option Time
read raw now = if raw == "two_hours_ago" then some (now - 7200000000000) else none

abbrev now : Time
now = 10000000000000

last_two_hours : parse_window_at (λ s. s) read "two_hours_ago" "" now ≡ window 2800000000000 now
unfolding parse_window_at with_end with_start check_window
last_two_hours = refl

abbrev five : List ℕ
five = 1 ∷ 2 ∷ 3 ∷ 4 ∷ 5 ∷ []

second_page : page five 2 2 ≡ (take 2 (drop 2 five), true)
unfolding page
second_page = refl

page_lem_example :
    (length (page five 1 2).0 ≤ 2)
    × ((page five 1 2).0 ++ drop (1 + 2) five ≡ drop 1 five)
    × (((page five 1 2).1 ≡ true) ↔ (0 < length (drop (1 + 2) five)))
page_lem_example = page_lem five 1 2

largest_page : parse_page (pos 500) (pos 7) ≡ limit_offset 100 7
unfolding parse_page with_offset
largest_page = refl

parse_page-PageInBounds_example : PageInBounds (pos 0) (pos 7) (parse_page (pos 0) (pos 7))
parse_page-PageInBounds_example = parse_page-PageInBounds (pos 0) (pos 7)
