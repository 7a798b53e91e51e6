-- ===== src/Poller/Lifecycle.antt =====
-- `Start`, `Stop` and the end of `run` in backend/internal/services/poller.go, as the steps of a
-- poller whose methods may be called at any time. A channel is a number; `live` holds the done
-- channels of the loops that have not ended.
use tsflow.Prelude.{
  ℕ, ◌+◌, ◌≤◌, ◌<◌, ◌≡◌, refl, sym, ap, ◌∙◌, subst, ◌≢◌, ◌⊎◌, inl, inr, Bool, true, false, not,
  List, [], ◌∷◌, Option, none, some, arith, eqb, eqb_iff, String_eq, ℕ_eq, if◌then◌else◌, mem,
  length,
}

pub record Lifecycle : Type 0 where
  pub running : Bool
  pub stop_chan : Option ℕ
  pub done_chan : Option ℕ
  pub trigger_chan : Option ℕ
  pub pending : Bool
  pub next_chan : ℕ
  pub closed : List ℕ
  pub live : List ℕ

-- NewPoller
abbrev pub new_poller : Lifecycle
new_poller = record {
  running = false;
  stop_chan = some 0;
  done_chan = some 1;
  trigger_chan = some 2;
  pending = false;
  next_chan = 3;
  closed = [];
  live = [];
}

abbrev pub started : Lifecycle → Lifecycle
started s = record s {
  running = true;
  stop_chan = some s.next_chan;
  done_chan = some (s.next_chan + 1);
  trigger_chan = some (s.next_chan + 2);
  pending = false;
  next_chan = s.next_chan + 3;
  live = (s.next_chan + 1) ∷ s.live;
}

unfoldable pub start : Lifecycle → Lifecycle
start s = if s.running then s else started s

-- close(ch); `none` stands for the panic of a channel that is closed already.
unfoldable pub close : ℕ → Lifecycle → Option Lifecycle
close ch s = if mem ch s.closed then none else some (record s { closed = ch ∷ s.closed })

unfoldable pub close_stop : Option ℕ → Lifecycle → Option Lifecycle
close_stop none s = some (record s { trigger_chan = none })
close_stop (some ch) s = elim (close ch s) [
  | none ↦ none
  | some t ↦ some (record t { stop_chan = none; trigger_chan = none })
]

-- Stop, up to where it waits for the loop's done channel
unfoldable pub stop : Lifecycle → Option Lifecycle
stop s = if not s.running then some s else close_stop s.stop_chan s

abbrev send_trigger : Option ℕ → Lifecycle → Lifecycle
send_trigger none s = s
send_trigger (some ch) s = record s { pending = true }

unfoldable pub trigger_poll : Lifecycle → Lifecycle
trigger_poll s = send_trigger s.trigger_chan s

abbrev is_done_chan : ℕ → Option ℕ → Bool
is_done_chan ch none = false
is_done_chan ch (some done) = eqb done ch

unfoldable pub without : ℕ → List ℕ → List ℕ
without ch [] = []
without ch (x ∷ xs) = if eqb x ch then xs else x ∷ without ch xs

-- The deferred function of `run`, for the loop whose done channel is given
-- What `run` resets if the poller still holds its done channel
abbrev pub reset : Lifecycle → Lifecycle
reset s = record s { running = false; done_chan = none; stop_chan = none; trigger_chan = none }

-- The deferred function of `run`, for the loop whose done channel is given
unfoldable pub finish : ℕ → Lifecycle → Option Lifecycle
finish ch s =
    let t = (if is_done_chan ch s.done_chan then reset s else s) in
    close ch (record t { live = without ch t.live })

-- What may happen next. A loop may end at any time, for the context of `Start` may be done.
pub data Step : Lifecycle → Option Lifecycle → Type 0 where
  starts : (s : Lifecycle) → Step s (some (start s))
  stops : (s : Lifecycle) → Step s (stop s)
  triggers : (s : Lifecycle) → Step s (some (trigger_poll s))
  takes : (s : Lifecycle) → Step s (some (record s { pending = false }))
  finishes : (ch : ℕ) (s : Lifecycle) → mem ch s.live ≡ true → Step s (finish ch s)

pub data Reach : Option Lifecycle → Type 0 where
  fresh : Reach (some new_poller)
  next : {s : Lifecycle} {t : Option Lifecycle} → Reach (some s) → Step s t → Reach t

-- No channel from the given one on is closed.
abbrev Unused : ℕ → List ℕ → Type 0
Unused n closed = (ch : ℕ) → n ≤ ch → mem ch closed ≡ false

-- While it runs, a poller has one loop, whose done channel it holds and which is not closed; the
-- stop channel it holds is neither closed nor the done channel.
abbrev Open : Lifecycle → Option ℕ → Type 0
Open s none = Unit
Open s (some ch) = (mem ch s.closed ≡ false) × (ch < s.next_chan) × (s.done_chan ≢ some ch)

abbrev Idle : Lifecycle → Type 0
Idle s = (s.running ≡ false) × (s.live ≡ []) × Unused s.next_chan s.closed

abbrev Busy : Lifecycle → Type 0
Busy s =
    (done : ℕ) × (s.running ≡ true)
    × (s.live ≡ done ∷ [])
    × (s.done_chan ≡ some done)
    × (done < s.next_chan)
    × (mem done s.closed ≡ false)
    × Open s s.stop_chan
    × Unused s.next_chan s.closed

abbrev pub Valid : Lifecycle → Type 0
Valid s = Idle s ⊎ Busy s

-- A state that is no panic and is valid
abbrev pub Safe : Option Lifecycle → Type 0
Safe none = ⊥
Safe (some s) = Valid s

not_eqb : (a b : ℕ) → a < b → eqb a b ≡ false
not_eqb a b h = ground arith

Unused-cons : (n ch : ℕ) (closed : List ℕ) → ch < n → Unused n closed → Unused n (ch ∷ closed)
Unused-cons n ch closed lt u d le = ground (arith, u d le, lt, le)

start-Valid : (s : Lifecycle) → Valid s → Valid (start s)
unfolding start
start-Valid s (inl (r, l, u)) =
    subst (λ b. Valid (if b then s else started s)) (sym r)
      (inr (
        s.next_chan + 1,
        refl,
        ap (λ x. (s.next_chan + 1) ∷ x) l,
        refl,
        omega arith,
        u (s.next_chan + 1) (omega arith),
        (u s.next_chan (omega arith), omega arith, λ e. ground (arith, e)),
        λ ch le. u ch (omega (arith, le)),
      ))
start-Valid s (inr (done, r, l, d, lt, m, o, u)) =
    subst (λ b. Valid (if b then s else started s)) (sym r) (inr (done, r, l, d, lt, m, o, u))

send_trigger-Valid : (t : Option ℕ) (s : Lifecycle) → Valid s → Valid (send_trigger t s)
send_trigger-Valid none s v = v
send_trigger-Valid (some ch) s v = v

trigger_poll-Valid : (s : Lifecycle) → Valid s → Valid (trigger_poll s)
unfolding trigger_poll
trigger_poll-Valid s v = send_trigger-Valid s.trigger_chan s v

-- Closing an open channel below the next one
close_stop-Busy : (t : Option ℕ) (s : Lifecycle) → Busy s → Open s t → Safe (close_stop t s)
unfolding close_stop close
close_stop-Busy none s (done, r, l, d, lt, m, o, u) _ = inr (done, r, l, d, lt, m, o, u)
close_stop-Busy (some ch) s (done, r, l, d, lt, m, o, u) (opened, below, other) =
    subst
      (λ b.
        Safe
          (elim (if b then none else some (record s { closed = ch ∷ s.closed }))
            as (λ _. Option Lifecycle) [
              | none ↦ none
              | some t ↦ some (record t { stop_chan = none; trigger_chan = none })
            ]))
      (sym opened)
      (inr (
        done,
        r,
        l,
        d,
        lt,
        ground (arith, m, other, d, eqb_iff ch done),
        tt,
        Unused-cons s.next_chan ch s.closed below u,
      ))

stop-Safe : (s : Lifecycle) → Valid s → Safe (stop s)
unfolding stop
stop-Safe s (inl (r, l, u)) =
    subst (λ b. Safe (if not b then some s else close_stop s.stop_chan s)) (sym r) (inl (r, l, u))
stop-Safe s (inr (done, r, l, d, lt, m, o, u)) =
    subst (λ b. Safe (if not b then some s else close_stop s.stop_chan s)) (sym r)
      (close_stop-Busy s.stop_chan s (done, r, l, d, lt, m, o, u) o)

without-only : (done ch : ℕ) (xs : List ℕ) → xs ≡ done ∷ [] → done ≡ ch → without ch xs ≡ []
unfolding without
without-only done ch xs e f = rw (e, without) (ground (arith, f))

finish-Safe : (ch : ℕ) (s : Lifecycle) → mem ch s.live ≡ true → Valid s → Safe (finish ch s)
unfolding finish close
finish-Safe ch s h (inl (r, l, u)) = cc (sym h ∙ ap (mem ch) l)
finish-Safe ch s h (inr (done, r, l, d, lt, m, o, u)) =
    let same : done ≡ ch = ground (arith, sym h ∙ ap (mem ch) l) in
    let held : (if is_done_chan ch s.done_chan then reset s else s) ≡ reset s =
      rw d (ground (arith, same)) in
    let shut : mem ch s.closed ≡ false = ap (λ c. mem c s.closed) (sym same) ∙ m in
    subst
      (λ t. Safe (
        if mem ch t.closed
        then none
        else some (record t { live = without ch t.live; closed = ch ∷ t.closed })))
      (sym held)
      (subst
        (λ b. Safe (
          if b
          then none
          else some (record (reset s) { live = without ch s.live; closed = ch ∷ s.closed })))
        (sym shut)
        (inl (
          refl,
          without-only done ch s.live l same,
          Unused-cons s.next_chan ch s.closed (omega (arith, same, lt)) u,
        )))

Step-Safe : {s : Lifecycle} {t : Option Lifecycle} → Valid s → Step s t → Safe t
Step-Safe v (starts s) = start-Valid s v
Step-Safe v (stops s) = stop-Safe s v
Step-Safe v (triggers s) = trigger_poll-Valid s v
Step-Safe v (takes s) = v
Step-Safe v (finishes ch s h) = finish-Safe ch s h v

Reach-Safe : {t : Option Lifecycle} → Reach t → Safe t
Reach-Safe fresh = inl (refl, refl, λ ch le. refl)
Reach-Safe (next r step) = Step-Safe (Reach-Safe r) step

one_loop :
    (t : Option Lifecycle)
    → Safe t
    → (s : Lifecycle) × (t ≡ some s) × (length s.live ≡ (if s.running then 1 else 0))
one_loop none v = elim v [ ]
one_loop (some s) (inl (r, l, u)) = (s, refl, ap length l ∙ ap (λ b. if b then 1 else 0) (sym r))
one_loop (some s) (inr (done, r, l, d, lt, m, o, u)) =
    (s, refl, ap length l ∙ ap (λ b. if b then 1 else 0) (sym r))

-- However the methods of a poller are called and its loops end: no channel is closed twice, there is
-- never more than one loop, and there is one exactly while the poller says that it runs.
pub Reach-one_loop :
    (t : Option Lifecycle)
    → Reach t
    → (s : Lifecycle) × (t ≡ some s) × (length s.live ≡ (if s.running then 1 else 0))
Reach-one_loop t r = one_loop t (Reach-Safe r)
