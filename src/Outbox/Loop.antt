-- ===== src/Outbox/Loop.antt =====
-- src/moneyOutbox.ts: `MoneyOutboxLoop` as a state machine. Timers and runs are numbered; `armed`
-- holds the timers that may still fire and `running` the runs in flight, which the host keeps.
use mpulse.Common.{
  ℕ, suc, ◌+◌, ◌≤◌, ◌≡◌, ◌⊎◌, refl, ap, ◌∙◌, Bool, true, false, not, Option, none, some, List, [],
  ◌∷◌, inl, inr, arith, Bool-cases, if◌then◌else◌, ◌==◌, length, filter,
}

pub record LoopState : Type 0 where
  pub stopping : Bool
  pub timer : Option ℕ
  pub active_run : Option ℕ
  pub armed : List ℕ
  pub running : List ℕ
  pub next_number : ℕ

pub data LoopEvent : Type 0 where
  start_called stop_called : LoopEvent
  timer_fired run_ended : ℕ → LoopEvent

abbrev pub initial_loop : LoopState
initial_loop = record {
  stopping = true;
  timer = none;
  active_run = none;
  armed = [];
  running = [];
  next_number = 0;
}

abbrev pub remove : ℕ → List ℕ → List ℕ
remove n numbers = filter (λ m. not (m == n)) numbers

abbrev pub contains : ℕ → List ℕ → Bool
contains n [] = false
contains n (m ∷ numbers) = if m == n then true else contains n numbers

-- `this.timer = setTimeout(...)`: a timer that was there is not cleared.
unfoldable pub schedule : LoopState → LoopState
schedule s = record s {
  timer = some s.next_number;
  armed = s.next_number ∷ s.armed;
  next_number = suc s.next_number;
}

unfoldable pub start_loop : LoopState → LoopState
unfolding schedule
start_loop s = if s.stopping then schedule (record s { stopping = false }) else s

-- `stop` up to its `await`.
unfoldable pub stop_loop : LoopState → LoopState
stop_loop s = elim s.timer [
  | none ↦ record s { stopping = true }
  | some n ↦ record s { stopping = true; timer = none; armed = remove n s.armed }
]

-- The callback of the timer starts a run.
unfoldable pub fire_timer : ℕ → LoopState → LoopState
fire_timer n s =
    if contains n s.armed
    then record s {
      timer = none;
      armed = remove n s.armed;
      active_run = some s.next_number;
      running = s.next_number ∷ s.running;
      next_number = suc s.next_number;
    }
    else s

abbrev clear_run : ℕ → Option ℕ → Option ℕ
clear_run n none = none
clear_run n (some m) = if m == n then none else some m

-- `if (!this.stopping) this.schedule(...)`
unfoldable reschedule : LoopState → LoopState
unfolding schedule
reschedule s = if s.stopping then s else schedule s

-- The `finally` of a run.
unfoldable pub end_run : ℕ → LoopState → LoopState
unfolding reschedule
end_run n s =
    if contains n s.running
    then reschedule
        (record s { active_run = clear_run n s.active_run; running = remove n s.running })
    else s

unfoldable pub loop_step : LoopEvent → LoopState → LoopState
loop_step LoopEvent.start_called s = start_loop s
loop_step LoopEvent.stop_called s = stop_loop s
loop_step (LoopEvent.timer_fired n) s = fire_timer n s
loop_step (LoopEvent.run_ended n) s = end_run n s

unfoldable pub loop_run : List LoopEvent → LoopState → LoopState
loop_run [] s = s
loop_run (e ∷ events) s = loop_run events (loop_step e s)

-- Every start of a stopped loop waits until the stop has waited for its run.
abbrev IsTimely : LoopEvent → LoopState → Type 0
IsTimely LoopEvent.start_called s = (s.stopping ≡ false) ⊎ (s.running ≡ [])
IsTimely LoopEvent.stop_called s = Unit
IsTimely (LoopEvent.timer_fired n) s = Unit
IsTimely (LoopEvent.run_ended n) s = Unit

abbrev pub IsOrderly : List LoopEvent → LoopState → Type 0
IsOrderly [] s = Unit
IsOrderly (e ∷ events) s = IsTimely e s × IsOrderly events (loop_step e s)

-- What the loop has to do next: nothing, wait for its timer, or wait for its run.
data IsSingle (s : LoopState) : Type 0 where
  idle : s.stopping ≡ true → s.timer ≡ none → s.armed ≡ [] → s.running ≡ [] → IsSingle s
  waiting :
      (n : ℕ)
      → s.stopping ≡ false
      → s.timer ≡ some n
      → s.armed ≡ n ∷ []
      → s.running ≡ []
      → IsSingle s
  busy : (n : ℕ) → s.timer ≡ none → s.armed ≡ [] → s.running ≡ n ∷ [] → IsSingle s

same_number : (n : ℕ) → (n == n) ≡ true
same_number n = ground arith

remove_single : (n : ℕ) → remove n (n ∷ []) ≡ []
remove_single n = rw (same_number n) refl

start-IsSingle :
    (s : LoopState) → IsTimely LoopEvent.start_called s → IsSingle s → IsSingle (start_loop s)
unfolding start_loop schedule
start-IsSingle s timely (idle e t a r) =
    rw e (waiting s.next_number refl refl (ap (λ l. s.next_number ∷ l) a) r)
start-IsSingle s timely (waiting n e t a r) = rw e (waiting n refl t a r)
start-IsSingle s (inl e) (busy n t a r) = rw e (busy n t a r)
start-IsSingle s (inr e) (busy n t a r) = absurd (cc)

stop-IsSingle : (s : LoopState) → IsSingle s → IsSingle (stop_loop s)
unfolding stop_loop
stop-IsSingle s (idle e t a r) = rw t (idle refl refl a r)
stop-IsSingle s (waiting n e t a r) = rw t (idle refl refl (rw a (remove_single n)) r)
stop-IsSingle s (busy n t a r) = rw t (busy n refl a r)

contains_single : (m n : ℕ) (l : List ℕ) → l ≡ n ∷ [] → contains m l ≡ true → m ≡ n
contains_single m n l e h = let h' : contains m (n ∷ []) ≡ true = rw e at h in ground arith

contains_none : (m : ℕ) (l : List ℕ) → l ≡ [] → contains m l ≡ false
contains_none m l e = rw e refl

fire-IsSingle : (m : ℕ) (s : LoopState) → IsSingle s → IsSingle (fire_timer m s)
unfolding fire_timer
fire-IsSingle m s (idle e t a r) = rw (contains_none m s.armed a) (idle e t a r)
fire-IsSingle m s (waiting n e t a r) = elim (Bool-cases (contains m s.armed)) [
  | inl there ↦
      let same = contains_single m n s.armed a there in
      rw there (
        busy s.next_number refl
          (ap (remove m) a ∙ ap (λ k. remove k (n ∷ [])) same ∙ remove_single n)
          (ap (λ l. s.next_number ∷ l) r))
  | inr gone ↦ rw gone (waiting n e t a r)
]
fire-IsSingle m s (busy n t a r) = rw (contains_none m s.armed a) (busy n t a r)

end-IsSingle : (m : ℕ) (s : LoopState) → IsSingle s → IsSingle (end_run m s)
unfolding end_run schedule reschedule
end-IsSingle m s (idle e t a r) = rw (contains_none m s.running r) (idle e t a r)
end-IsSingle m s (waiting n e t a r) = rw (contains_none m s.running r) (waiting n e t a r)
end-IsSingle m s (busy n t a r) = elim (Bool-cases (contains m s.running)) [
  | inl there ↦
      let same = contains_single m n s.running r there in
      let over = ap (remove m) r ∙ ap (λ k. remove k (n ∷ [])) same ∙ remove_single n in
      rw there (ended over (Bool-cases s.stopping))
  | inr gone ↦ rw gone (busy n t a r)
]
  where
    ended :
        remove m s.running ≡ []
        → (s.stopping ≡ true) ⊎ (s.stopping ≡ false)
        → IsSingle (
            reschedule
              (record s { active_run = clear_run m s.active_run; running = remove m s.running }))
    ended over (inl e) = rw e (idle refl t a over)
    ended over (inr e) = rw e (waiting s.next_number refl refl (ap (λ l. s.next_number ∷ l) a) over)

step-IsSingle :
    (e : LoopEvent) (s : LoopState) → IsTimely e s → IsSingle s → IsSingle (loop_step e s)
unfolding loop_step
step-IsSingle LoopEvent.start_called s timely single = start-IsSingle s timely single
step-IsSingle LoopEvent.stop_called s timely single = stop-IsSingle s single
step-IsSingle (LoopEvent.timer_fired n) s timely single = fire-IsSingle n s single
step-IsSingle (LoopEvent.run_ended n) s timely single = end-IsSingle n s single

run-IsSingle :
    (events : List LoopEvent) (s : LoopState)
    → IsOrderly events s
    → IsSingle s
    → IsSingle (loop_run events s)
unfolding loop_run
run-IsSingle [] s orderly single = single
run-IsSingle (e ∷ events) s orderly single =
    run-IsSingle events (loop_step e s) orderly.1 (step-IsSingle e s orderly.0 single)

-- Where the loop is started again only after a stop has waited for its run, a run never overlaps
-- another, and while the loop is not stopping exactly one timer or run carries it on.
pub one_run_at_a_time :
    (events : List LoopEvent)
    → IsOrderly events initial_loop
    → let s = loop_run events initial_loop in
      (length s.armed + length s.running ≤ 1)
      × (s.stopping ≡ false → length s.armed + length s.running ≡ 1)
one_run_at_a_time events orderly =
    alone (loop_run events initial_loop)
      (run-IsSingle events initial_loop orderly (idle refl refl refl refl))
  where
    alone :
        (s : LoopState)
        → IsSingle s
        → (length s.armed + length s.running ≤ 1)
          × (s.stopping ≡ false → length s.armed + length s.running ≡ 1)
    alone s (idle e t a r) = (omega (arith, ap length a, ap length r), λ f. absurd (cc))
    alone s (waiting n e t a r) =
        (omega (arith, ap length a, ap length r), λ f. omega (arith, ap length a, ap length r))
    alone s (busy n t a r) =
        (omega (arith, ap length a, ap length r), λ f. omega (arith, ap length a, ap length r))
