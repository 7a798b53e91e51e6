-- ===== src/DenyLog/Tests.antt =====
-- Runs of the limiter of denylog.go, and its theorems at concrete inputs.
use tsflow.Prelude.{ℕ, ◌≤◌, ◌≡◌, refl, true, false, [], ◌∷◌, arith, String_eq, ℕ_eq, length}
use tsflow.Prelude.Maps.{lookup, insert}
use tsflow.DenyLog.{allow, allow_new, after_calls, allow_once, length-allow, deny_log_max_keys}

abbrev minute : ℕ
minute = 60

logged : allow minute 100 "a" [] ≡ (("a", 100) ∷ [], true)
unfolding allow allow_new lookup insert
logged = refl

again : allow minute 160 "a" (("a", 100) ∷ []) ≡ (("a", 160) ∷ [], true)
unfolding allow allow_new lookup insert
again = refl

first_line : (allow minute 100 "a" []).1 ≡ true
unfolding allow allow_new lookup insert
first_line = refl

allow_once_example :
    (allow minute 159 "a"
      (after_calls minute ((120, "b") ∷ (130, "a") ∷ []) (allow minute 100 "a" []).0)).1
    ≡ false
allow_once_example =
    allow_once minute 100 159 "a" ((120, "b") ∷ (130, "a") ∷ []) [] first_line
      (omega arith, (omega arith, tt)) (omega arith) (omega arith)

length-allow_example : length (allow minute 100 "a" []).0 ≤ deny_log_max_keys
length-allow_example = length-allow minute 100 "a" [] (omega arith)
