-- ===== src/Client/X11/Turns.antt =====
-- linux/main.c: the turns of the monitor loop.

use sync_clipboard.Client.Monitor.{Look, poll_primary}
use sync_clipboard.Client.Moves.Traces.{Reach, next, step_poll, step_primary}
use sync_clipboard.Client.State.{Client, Env, Libs}
use sync_clipboard.Client.X11.{
  Seen, Watch, XEvent, clipboard_event, drain, monitor_turn, new_value, on_event, other_event,
  primary_event, selected, settle_primary,
}
use sync_clipboard.Config.{ClientConfig}
use sync_clipboard.Prelude.{
  Bool-cases, List, [], arith, false, if-both, inl, inr, leb, ltb, lt→ltb, refl, true, ℕ, ◌&&◌, ◌+◌,
  ◌<◌, ◌∷◌, ◌≡◌, ◌≤◌,
}

module _ (libs : Libs) (cfg : ClientConfig) (from : Client) where
  on_event-Reach :
      (s : Seen) (c : Client) (pending : ℕ)
      → Reach libs cfg from c
      → Reach libs cfg from (on_event libs cfg s (c, pending)).0
  unfolding on_event
  on_event-Reach s c pending way = by_event s.event
    where
      by_event :
          (e : XEvent)
          → Reach libs cfg from (on_event libs cfg (record s { event = e }) (c, pending)).0
      by_event clipboard_event = next c _ way (step_poll c s.env s.look)
      by_event primary_event = way
      by_event (selected has) = way
      by_event new_value = way
      by_event other_event = way

  drain-Reach :
      (events : List Seen) (c : Client) (pending : ℕ)
      → Reach libs cfg from c
      → Reach libs cfg from (drain libs cfg events (c, pending)).0
  unfolding drain
  drain-Reach [] c pending way = way
  drain-Reach (s ∷ events) c pending way =
      let (d, later) = on_event libs cfg s (c, pending) in
      drain-Reach events _ _ (on_event-Reach s c pending way)

  -- A turn of the monitor loop, whatever events wait and whatever is seen, is made of steps of the
  -- client.
  pub monitor_turn-Reach :
      (events : List Seen) (env : Env) (look : Look) (c : Client) (pending : ℕ)
      → Reach libs cfg from c
      → Reach libs cfg from (monitor_turn libs cfg events env look (c, pending)).0
  unfolding monitor_turn settle_primary
  monitor_turn-Reach events env look c pending way =
      let (d, waits) = drain libs cfg events (c, pending) in
      let drained = drain-Reach events c pending way in
      if-both (λ (w : Watch). Reach libs cfg from w.0) (ltb 0 waits && leb (waits + 500) env.now) _
        _ (λ e. next d _ drained (step_primary d env look)) (λ e. drained)

-- A turn: the events that wait, the time at its end and what is seen then.
pub record WatchTurn : Type 0 where
  pub events : List Seen
  pub env : Env
  pub look : Look

unfoldable pub monitor_turns : Libs → ClientConfig → List WatchTurn → Watch → Watch
unfolding monitor_turn
monitor_turns libs cfg [] w = w
monitor_turns libs cfg (t ∷ turns) w =
    monitor_turns libs cfg turns (monitor_turn libs cfg t.events t.env t.look w)

-- An event that is no change of CLIPBOARD or of PRIMARY.
abbrev pub IsOther : XEvent → Type 0
IsOther clipboard_event = ⊥
IsOther primary_event = ⊥
IsOther _ = Unit

-- Events without a change of CLIPBOARD: the time of the last change of PRIMARY before them and after
-- them.
pub data Marked : ℕ → List Seen → ℕ → Type 0 where
  no_events : {p : ℕ} → Marked p [] p
  changed :
      {p q : ℕ} {events : List Seen} (at : Env) (look : Look)
      → 0 < at.now
      → Marked at.now events q
      → Marked p (record { event = primary_event; env = at; look = look } ∷ events) q
  passed :
      {p q : ℕ} {events : List Seen} (e : XEvent) (at : Env) (look : Look)
      → IsOther e
      → Marked p events q
      → Marked p (record { event = e; env = at; look = look } ∷ events) q

-- Turns that find such events and end before 500 ms are over since the last change of PRIMARY: the time
-- of that change before them and after them.
pub data Restless : ℕ → List WatchTurn → ℕ → Type 0 where
  rested : {p : ℕ} → Restless p [] p
  went_on :
      {p q r : ℕ} {turns : List WatchTurn} (events : List Seen) (env : Env) (look : Look)
      → Marked p events q
      → env.now < q + 500
      → Restless q turns r
      → Restless p (record { events = events; env = env; look = look } ∷ turns) r

module _ (libs : Libs) (cfg : ClientConfig) where
  settle_primary-early :
      (env : Env) (look : Look) (c : Client) (p : ℕ)
      → env.now < p + 500
      → settle_primary libs cfg env look (c, p) ≡ (c, p)
  unfolding settle_primary
  settle_primary-early env look c p early =
      let not_over : leb (p + 500) env.now ≡ false = ground arith in
      elim (Bool-cases (ltb 0 p)) [ inl e ↦ rw (e, not_over) refl | inr e ↦ rw e refl ]

  drain-Marked :
      (events : List Seen) (c : Client) (p q : ℕ)
      → 0 < p
      → Marked p events q
      → (0 < q) × (drain libs cfg events (c, p) ≡ (c, q))
  unfolding drain on_event
  drain-Marked _ c p _ positive no_events = (positive, refl)
  drain-Marked _ c p q positive (changed at look since rest) = drain-Marked _ c at.now q since rest
  drain-Marked _ c p q positive (passed (selected has) at look other rest) =
      drain-Marked _ c p q positive rest
  drain-Marked _ c p q positive (passed new_value at look other rest) =
      drain-Marked _ c p q positive rest
  drain-Marked _ c p q positive (passed other_event at look other rest) =
      drain-Marked _ c p q positive rest
  drain-Marked _ c p q positive (passed clipboard_event at look other rest) = absurd other
  drain-Marked _ c p q positive (passed primary_event at look other rest) = absurd other

  monitor_turns-Restless :
      (turns : List WatchTurn) (c : Client) (p q : ℕ)
      → 0 < p
      → Restless p turns q
      → (0 < q) × (monitor_turns libs cfg turns (c, p) ≡ (c, q))
  unfolding monitor_turns monitor_turn
  monitor_turns-Restless _ c p _ positive rested = (positive, refl)
  monitor_turns-Restless _ c p r positive (went_on {q} events env look marked early rest) =
      let (since, drained) = drain-Marked events c p q positive marked in
      rw (drained, settle_primary-early env look c q early)
        (monitor_turns-Restless _ c q r since rest)

  -- While a change of PRIMARY waits, turns may find any number of changes of PRIMARY and of other events,
  -- but for changes of CLIPBOARD. As long as each ends less than 500 ms after the last change so far, the
  -- client stays as it is, and that last change is kept. A turn that ends 500 ms after it or later, and
  -- finds no event, looks at PRIMARY once, and a turn after it that finds no event does not do so again.
  pub monitor_turns-poll_primary :
      (turns : List WatchTurn) (c : Client) (p q : ℕ) (env again : Env) (look later : Look)
      → 0 < p
      → Restless p turns q
      → q + 500 ≤ env.now
      → let w = monitor_turns libs cfg turns (c, p) in
        let settled = monitor_turn libs cfg [] env look w in
        (w ≡ (c, q))
        × (settled ≡ (poll_primary libs cfg env look c, 0))
        × (monitor_turn libs cfg [] again later settled ≡ settled)
  unfolding monitor_turn settle_primary drain
  monitor_turns-poll_primary turns c p q env again look later positive rest late =
      let (since, same_client) = monitor_turns-Restless turns c p q positive rest in
      let over : leb (q + 500) env.now ≡ true = ground arith in
      rw (same_client, lt→ltb 0 q since, over) (refl, refl, refl)
