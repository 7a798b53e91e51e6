-- ===== src/DenyLog.antt =====
-- `denyLimiter` of backend/internal/access/denylog.go: one log line per key and window, over a map
-- from keys to the times of their last lines.
mod Tests
use tsflow.Prelude.{
  ℕ, zero, suc, ◌+◌, ◌-◌, ◌*◌, ◌/◌, ◌%◌, ◌≤◌, ◌<◌, String, ◌≡◌, refl, sym, ap, ◌∙◌, subst, ◌≢◌, ◌↔◌,
  ◌⊎◌, inl, inr, Bool, true, false, not, ◌&&◌, ◌||◌, List, [], ◌∷◌, ◌++◌, Option, none, some, arith,
  Eq, ◌==◌, eqb, ltb, leb, eqb_iff, eq_iff, String_eq, ℕ_eq, if◌then◌else◌, mem, length, take, drop,
  get_elem?, All, any, Bool-cases, beq_refl, Option-cases,
}
use tsflow.Prelude.Maps.{Map, lookup, insert, lookup-insert, map_laws}

abbrev pub deny_log_max_keys : ℕ
deny_log_max_keys = 1024

-- now.Sub(t) < window
abbrev pub is_recent : ℕ → ℕ → ℕ → Bool
is_recent window now t = ltb (now - t) window

-- The keys whose window is over are deleted.
unfoldable pub sweep : ℕ → ℕ → Map String ℕ → Map String ℕ
sweep window now [] = []
sweep window now ((k, t) ∷ last) =
    let rest = sweep window now last in if is_recent window now t then (k, t) ∷ rest else rest

abbrev pub recently : ℕ → ℕ → Option ℕ → Bool
recently window now none = false
recently window now (some t) = is_recent window now t

unfoldable pub allow_new : ℕ → String → Map String ℕ → Map String ℕ × Bool
allow_new now key last =
    if leb deny_log_max_keys (length last) then (last, false) else (insert key now last, true)

unfoldable pub allow : ℕ → ℕ → String → Map String ℕ → Map String ℕ × Bool
allow window now key last =
    if recently window now (lookup key last)
    then (last, false)
    else allow_new now key
        (if leb deny_log_max_keys (length last) then sweep window now last else last)

length-insert : (k : String) (t : ℕ) (m : Map String ℕ) → length (insert k t m) ≤ suc (length m)
unfolding insert
length-insert k t [] = omega arith
length-insert k t ((j, u) ∷ m) = ground (arith, length-insert k t m)

length-sweep : (window now : ℕ) (m : Map String ℕ) → length (sweep window now m) ≤ length m
unfolding sweep
length-sweep window now [] = omega arith
length-sweep window now ((k, t) ∷ m) = ground (arith, length-sweep window now m)

allow_new-bounded :
    (now : ℕ) (key : String) (last : Map String ℕ)
    → length last ≤ deny_log_max_keys
    → length (allow_new now key last).0 ≤ deny_log_max_keys
unfolding allow_new
allow_new-bounded now key last h = elim (Bool-cases (leb deny_log_max_keys (length last))) [
  | inl full ↦ rw full h
  | inr full ↦ rw full (ground (arith, full, length-insert key now last))
]

-- A limiter that holds 1024 keys at most holds no more after a call.
pub length-allow :
    (window now : ℕ) (key : String) (last : Map String ℕ)
    → length last ≤ deny_log_max_keys
    → length (allow window now key last).0 ≤ deny_log_max_keys
unfolding allow
length-allow window now key last h = elim (Bool-cases (recently window now (lookup key last))) [
  | inl r ↦ rw r h
  | inr r ↦ rw r (elim (Bool-cases (leb deny_log_max_keys (length last))) [
    | inl full ↦ rw full (
        allow_new-bounded now key (sweep window now last)
          (omega (arith, h, length-sweep window now last)))
    | inr full ↦ rw full (allow_new-bounded now key last h)
  ])
]

lookup-sweep :
    (window now t : ℕ) (key : String) (m : Map String ℕ)
    → lookup key m ≡ some t
    → is_recent window now t ≡ true
    → lookup key (sweep window now m) ≡ some t
unfolding sweep lookup
lookup-sweep window now t key [] h r = cc
lookup-sweep window now t key ((j, u) ∷ m) h r = ground (arith, lookup-sweep window now t key m)

allow_new-keeps :
    (now t : ℕ) (k key : String) (m : Map String ℕ)
    → lookup key m ≡ some t
    → (k == key) ≡ false
    → lookup key (allow_new now k m).0 ≡ some t
unfolding allow_new
allow_new-keeps now t k key m h other = elim (Bool-cases (leb deny_log_max_keys (length m))) [
  | inl full ↦ rw full h
  | inr full ↦ rw (full, lookup-insert k key now m, other) h
]

not_recent :
    (window now t : ℕ) (k key : String) (m : Map String ℕ)
    → lookup key m ≡ some t
    → is_recent window now t ≡ true
    → recently window now (lookup k m) ≡ false
    → (k == key) ≡ false
not_recent window now t k key m h r a = elim (Bool-cases (k == key)) [
  | inr e ↦ e
  | inl e ↦
      let same : k ≡ key = (eq_iff k key).0 e in
      cc (
        sym r
        ∙ ap (recently window now) (sym h)
        ∙ ap (λ x. recently window now (lookup x m)) (sym same)
        ∙ a)
]

allow-keeps :
    (window now t : ℕ) (k key : String) (m : Map String ℕ)
    → lookup key m ≡ some t
    → is_recent window now t ≡ true
    → lookup key (allow window now k m).0 ≡ some t
unfolding allow
allow-keeps window now t k key m h r = elim (Bool-cases (recently window now (lookup k m))) [
  | inl a ↦ rw a h
  | inr a ↦
      let other : (k == key) ≡ false = not_recent window now t k key m h r a in
      rw a (elim (Bool-cases (leb deny_log_max_keys (length m))) [
        | inl full ↦ rw full (
            allow_new-keeps now t k key (sweep window now m) (lookup-sweep window now t key m h r)
              other)
        | inr full ↦ rw full (allow_new-keeps now t k key m h other)
      ])
]

-- The calls of the limiter, each at a time and with a key, and the map they leave
unfoldable pub after_calls : ℕ → List (ℕ × String) → Map String ℕ → Map String ℕ
after_calls window [] m = m
after_calls window ((now, k) ∷ calls) m = after_calls window calls (allow window now k m).0

abbrev Before : ℕ → List (ℕ × String) → Type 0
Before end calls = All (λ call. call.0 < end) calls

after_calls-keeps :
    (window t : ℕ) (key : String) (calls : List (ℕ × String)) (m : Map String ℕ)
    → Before (t + window) calls
    → 0 < window
    → lookup key m ≡ some t
    → lookup key (after_calls window calls m) ≡ some t
unfolding after_calls
after_calls-keeps window t key [] m b pos h = h
after_calls-keeps window t key ((now, k) ∷ calls) m (lt, b) pos h =
    after_calls-keeps window t key calls (allow window now k m).0 b pos
      (allow-keeps window now t k key m h (ground (arith, lt, pos)))

allow_new-lookup :
    (now : ℕ) (key : String) (m : Map String ℕ)
    → (allow_new now key m).1 ≡ true
    → lookup key (allow_new now key m).0 ≡ some now
unfolding allow_new
allow_new-lookup now key m h = elim (Bool-cases (leb deny_log_max_keys (length m))) [
  | inl full ↦ ground (arith, full)
  | inr full ↦ rw (full, lookup-insert key key now m, beq_refl key) refl
]

allow-recent :
    (window now t : ℕ) (key : String) (m : Map String ℕ)
    → lookup key m ≡ some t
    → is_recent window now t ≡ true
    → allow window now key m ≡ (m, false)
unfolding allow
allow-recent window now t key m h r = rw (h, r) refl

allow-lookup :
    (window now : ℕ) (key : String) (m : Map String ℕ)
    → (allow window now key m).1 ≡ true
    → lookup key (allow window now key m).0 ≡ some now
unfolding allow
allow-lookup window now key m h = go (recently window now (lookup key m)) h
  where
    maybe_swept : Map String ℕ
    maybe_swept = if leb deny_log_max_keys (length m) then sweep window now m else m

    go :
        (b : Bool)
        → (if b then (m, false) else allow_new now key maybe_swept).1 ≡ true
        → lookup key (if b then (m, false) else allow_new now key maybe_swept).0 ≡ some now
    go true h = cc
    go false h = allow_new-lookup now key maybe_swept h

-- After a line of a key, no call with that key logs another one before the window is over, however
-- many calls with other keys, or with that one, come between them.
pub allow_once :
    (window t now : ℕ) (key : String) (calls : List (ℕ × String)) (m : Map String ℕ)
    → (allow window t key m).1 ≡ true
    → Before (t + window) calls
    → now < t + window
    → 0 < window
    → (allow window now key (after_calls window calls (allow window t key m).0)).1 ≡ false
allow_once window t now key calls m logged b lt pos =
    let kept =
      after_calls-keeps window t key calls (allow window t key m).0 b pos
        (allow-lookup window t key m logged) in
    ap (λ r. r.1)
      (allow-recent window now t key (after_calls window calls (allow window t key m).0) kept
        (ground (arith, lt, pos)))
