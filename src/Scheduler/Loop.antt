-- ===== src/Scheduler/Loop.antt =====
-- Run of internal/retry/service.go: passes of the scheduler, one after the other; and the loop of the
-- retention in internal/app/bootstrap.go.
use rc_pangjiahui.Prelude.{
  ℕ, Bool, not, ◌&&◌, ◌≡◌, refl, inl, inr, List, [], ◌∷◌, map, Bool-cases, if◌then◌else◌, subst,
  sym,
}
use rc_pangjiahui.Notification.Model.{Time, Duration}
use rc_pangjiahui.Store.Tables.{Error, ok, err, Db, Reply, Fallible-cases}
use rc_pangjiahui.Store.Schedule.{ScheduleCalls, schedule_due}
use rc_pangjiahui.Store.Invariant.{Inv}
use rc_pangjiahui.Store.Invariant.Schedule.{schedule_due-Inv}
use rc_pangjiahui.Outbox.Loop.{Ending, running, cancelled, failed}
use rc_pangjiahui.Scheduler.{Repository, schedule_once, remove_once}
use rc_pangjiahui.Scheduler.Laws.{repository, remove_once_keeps}

-- One round: whether the context is done before it, what its pass meets, whether the context is done
-- when the select after the pass decides, and whether the select takes a tick that is there as well.
pub record Round (S : Type 0) : Type 0 where
  pub repository : Repository S
  pub now : Time
  pub done_before : Bool
  pub done : Bool
  pub takes_tick : Bool

-- The ending of a loop that meets the end of its context.
abbrev pub stop : Ending → Ending
stop running = cancelled
stop ending = ending

module _ {S : Type 0} (batch_size : ℕ) where
  -- Any error of a pass ends the loop.
  unfoldable pub run : List (Round S) → S → S × Ending
  run [] s = (s, running)
  run (round ∷ rounds) s =
      let (s', result, told) = schedule_once round.repository batch_size round.now s in
      let rest = run rounds s' in
      let onwards = if round.done && not round.takes_tick then (s', cancelled) else rest in
      if round.done_before
      then (s, cancelled)
      else elim result [ err e ↦ (s', failed e) | ok r ↦ onwards ]

  pub run_cases {ℓ} :
      (P : S × Ending → Type ℓ) (round : Round S) (rounds : List (Round S)) (s : S)
      → let s' = (schedule_once round.repository batch_size round.now s).0 in
        P (s, cancelled)
        → ((e : Error) → P (s', failed e))
        → P (s', cancelled)
        → P (run rounds s')
        → P (run (round ∷ rounds) s)
  unfolding run
  run_cases P round rounds s before broken over onwards = elim (Bool-cases round.done_before) [
    | inl e ↦ rw e before
    | inr begun ↦ elim (Fallible-cases (schedule_once round.repository batch_size round.now s).1) [
      | inr (x, bad) ↦ rw (begun, bad, run) (broken x)
      | inl (r, fine) ↦ elim (Bool-cases (round.done && not round.takes_tick)) [
        | inl e ↦ rw (begun, fine, run, e) over
        | inr e ↦ rw (begun, fine, run, e) onwards
      ]
    ]
  ]

-- What a round meets: the answers of the server, the time, the context before and after, and the tick.
abbrev pub Meets : Type 0
Meets = ScheduleCalls × Reply × Time × Bool × Bool × Bool

abbrev pub round_of : Meets → Round Db
round_of (calls, call, now, before, after, takes_tick) = record {
  repository = repository calls call;
  now = now;
  done_before = before;
  done = after;
  takes_tick = takes_tick;
}

schedule_once-db :
    (calls : ScheduleCalls) (call : Reply) (limit : ℕ) (now : Time) (db : Db)
    → (schedule_once (repository calls call) limit now db).0 ≡ (schedule_due calls now limit db).0
unfolding schedule_once
schedule_once-db calls call limit now db =
    elim (Fallible-cases (schedule_due calls now limit db).1) [
      | inl (r, fine) ↦ rw (schedule_once, fine) refl
      | inr (e, bad) ↦ rw (schedule_once, bad) refl
    ]

-- However many passes the scheduler makes, whatever the server makes of their calls, the invariant of
-- the tables is kept.
pub run-Inv :
    (batch_size : ℕ) (rounds : List Meets) (db : Db)
    → Inv db
    → Inv (run batch_size (map round_of rounds) db).0
unfolding run
run-Inv batch_size [] db inv = inv
run-Inv batch_size ((calls, call, now, before, after, takes_tick) ∷ rounds) db inv =
    let db' = (schedule_once (repository calls call) batch_size now db).0 in
    let inv' : Inv db' =
      subst Inv (sym (schedule_once-db calls call batch_size now db))
        (schedule_due-Inv calls now batch_size db inv) in
    run_cases batch_size (λ t. Inv t.0) (round_of (calls, call, now, before, after, takes_tick))
      (map round_of rounds) db inv (λ e. inv') inv' (run-Inv batch_size rounds db' inv')

-- The loop of the retention: a pass at each tick, whose errors are dropped.
unfoldable pub clean : Duration → ℕ → List (ScheduleCalls × Reply × Time) → Db → Db
clean retention batch_size [] db = db
clean retention batch_size ((calls, call, now) ∷ ticks) db =
    clean retention batch_size ticks
      (remove_once (repository calls call) retention batch_size now db).0

pub clean-Inv :
    (retention : Duration) (batch_size : ℕ) (ticks : List (ScheduleCalls × Reply × Time)) (db : Db)
    → Inv db
    → Inv (clean retention batch_size ticks db)
unfolding clean
clean-Inv retention batch_size [] db inv = inv
clean-Inv retention batch_size ((calls, call, now) ∷ ticks) db inv =
    clean-Inv retention batch_size ticks
      (remove_once (repository calls call) retention batch_size now db).0
      (remove_once_keeps calls call retention batch_size now db inv).0
