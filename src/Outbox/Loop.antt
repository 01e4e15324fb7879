-- ===== src/Outbox/Loop.antt =====
-- Run of internal/outbox/service.go: passes of the publisher, one after the other.
use rc_pangjiahui.Prelude.{
  Bool, not, ◌&&◌, inl, inr, none, some, List, [], ◌∷◌, pos, leb_ℤ, map, Bool-cases, Option-cases,
  if◌then◌else◌,
}
use rc_pangjiahui.Notification.Model.{Duration}
use rc_pangjiahui.Store.Tables.{Error}
use rc_pangjiahui.Store.Invariant.{Inv}
use rc_pangjiahui.Outbox.{Repository, Config, Readings, run_once}
use rc_pangjiahui.Outbox.Postgres.{World, Calls, repository, Sent}
use rc_pangjiahui.Outbox.Laws.{run_once_sends}

-- The time between two passes.
unfoldable pub poll_interval : Duration → Duration
poll_interval interval = if leb_ℤ interval (pos 0) then pos 1_000_000_000 else interval

-- One round: what its pass meets, whether the context is done when the select after the pass decides,
-- and whether the select takes a tick that is there as well.
pub record Round (S : Type 0) : Type 0 where
  pub repository : Repository S
  pub env : Readings
  pub done : Bool
  pub takes_tick : Bool

-- How a loop stands after the rounds: it goes on, or has returned the context's error or another.
pub data Ending : Type 0 where
  running cancelled : Ending
  failed : Error → Ending

module _ {S : Type 0} (config : Config) (is_canceled : Error → Bool) where
  -- An error of a pass ends the loop, unless it is that of the context.
  unfoldable pub run : List (Round S) → S → S × Ending
  run [] s = (s, running)
  run (round ∷ rounds) s =
      let (s', pass) = run_once round.repository config round.env s in
      let rest = run rounds s' in
      let onwards = if round.done && not round.takes_tick then (s', cancelled) else rest in
      elim pass.error [
        | none ↦ onwards
        | some e ↦ if is_canceled e then onwards else (s', failed e)
      ]

  -- A round on its way: it ends the loop or the loop goes on behind it.
  pub run_cases {ℓ} :
      (P : S × Ending → Type ℓ) (round : Round S) (rounds : List (Round S)) (s : S)
      → let s' = (run_once round.repository config round.env s).0 in
        ((e : Error) → P (s', failed e))
        → P (s', cancelled)
        → P (run rounds s')
        → P (run (round ∷ rounds) s)
  unfolding run
  run_cases P round rounds s broken over onwards =
      elim (Option-cases (run_once round.repository config round.env s).1.error) [
        | inl fine ↦ elim (Bool-cases (round.done && not round.takes_tick)) [
          | inl e ↦ rw (fine, run, e) over
          | inr e ↦ rw (fine, run, e) onwards
        ]
        | inr (x, bad) ↦ elim (Bool-cases (is_canceled x)) [
          | inr real ↦ rw (bad, run, real) (broken x)
          | inl context ↦ elim (Bool-cases (round.done && not round.takes_tick)) [
            | inl e ↦ rw (bad, run, context, e) over
            | inr e ↦ rw (bad, run, context, e) onwards
          ]
        ]
      ]

-- A round over the store and the broker.
abbrev pub round_of : Calls × Readings × Bool × Bool → Round World
round_of (calls, env, done, takes_tick) = record {
  repository = repository calls;
  env = env;
  done = done;
  takes_tick = takes_tick;
}

-- However many passes the publisher makes, whatever the server and the broker make of their calls,
-- the invariant of the tables is kept, and each event that is marked as published has its message in
-- the broker.
pub run_sends :
    (config : Config) (is_canceled : Error → Bool) (rounds : List (Calls × Readings × Bool × Bool))
    (w : World)
    → Inv w.db
    → Sent w
    → Inv (run config is_canceled (map round_of rounds) w).0.db
      × Sent (run config is_canceled (map round_of rounds) w).0
unfolding run
run_sends config is_canceled [] w inv sent = (inv, sent)
run_sends config is_canceled ((calls, env, done, takes_tick) ∷ rounds) w inv sent =
    let (inv', sent') = run_once_sends calls config env w inv sent in
    run_cases config is_canceled (λ t. Inv t.0.db × Sent t.0)
      (round_of (calls, env, done, takes_tick)) (map round_of rounds) w (λ e. (inv', sent'))
      (inv', sent')
      (run_sends config is_canceled rounds (run_once (repository calls) config env w).0 inv' sent')
