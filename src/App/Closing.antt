-- ===== src/App/Closing.antt =====
-- What internal/app leaves behind: every part that was opened is closed.
use rc_pangjiahui.Prelude.{
  Bool, true, false, ◌≡◌, refl, inl, inr, ap, ◌∙◌, Option, none, some, List, [], ◌∷◌, ◌++◌, map,
  arith, Bool-cases, if◌then◌else◌,
}
use rc_pangjiahui.Store.Tables.{Error}
use rc_pangjiahui.Config.{Role, needs_destinations}
use rc_pangjiahui.App.{
  Part, pool, publisher_client, worker_client, server, Service, publisher_loop, worker_loop,
  scheduler_loop, retention_loop, Action, opened, closed, started, Frame, return, opens, publishes,
  works, schedules, Last, context_done, goroutine_ended, BootCalls, checked, open_if, start_if,
  await, start_loops, consume, serve, open_worker, open_publisher, start_services, run_configured,
}

abbrev same_part : Part → Part → Bool
same_part pool pool = true
same_part publisher_client publisher_client = true
same_part worker_client worker_client = true
same_part server server = true
same_part _ _ = false

same_part_refl : (p : Part) → same_part p p ≡ true
same_part_refl pool = refl
same_part_refl publisher_client = refl
same_part_refl worker_client = refl
same_part_refl server = refl

-- The parts that are open after the actions, the last one first, if each is closed in the reverse
-- order of the openings.
pub unwind : List Part → List Action → Option (List Part)
unwind parts [] = some parts
unwind parts (opened p ∷ actions) = unwind (p ∷ parts) actions
unwind parts (started s ∷ actions) = unwind parts actions
unwind [] (closed p ∷ actions) = none
unwind (q ∷ parts) (closed p ∷ actions) =
    let rest = unwind parts actions in if same_part p q then rest else none

unwind-append :
    (actions more : List Action) (parts parts' : List Part)
    → unwind parts actions ≡ some parts'
    → unwind parts (actions ++ more) ≡ unwind parts' more
unfolding unwind
unwind-append [] more parts parts' h =
    ap (λ x. unwind x more) (let e : parts ≡ parts' = ground (arith, h) in e)
unwind-append (opened p ∷ actions) more parts parts' h =
    unwind-append actions more (p ∷ parts) parts' h
unwind-append (started s ∷ actions) more parts parts' h = unwind-append actions more parts parts' h
unwind-append (closed p ∷ actions) more [] parts' h = absurd (ground (arith, h))
unwind-append (closed p ∷ actions) more (q ∷ parts) parts' h = elim (Bool-cases (same_part p q)) [
  | inl same ↦ rw same (unwind-append actions more parts parts' (ground (arith, h, same)))
  | inr apart ↦ absurd (ground (arith, h, apart))
]

unwind-closed : (parts : List Part) → unwind parts (map closed parts) ≡ some []
unfolding unwind
unwind-closed [] = refl
unwind-closed (p ∷ parts) = rw (same_part_refl p) (unwind-closed parts)

-- The deferred calls are those of the open parts.
abbrev IsTidy : Frame → Type 0
IsTidy frame = unwind [] frame.log ≡ some frame.deferred

abbrev pub Closes : List Action × Option Error → Type 0
Closes result = unwind [] result.0 ≡ some []

return-Closes : (error : Option Error) (frame : Frame) → IsTidy frame → Closes (return error frame)
return-Closes error frame tidy =
    unwind-append frame.log (map closed frame.deferred) [] frame.deferred tidy
    ∙ unwind-closed frame.deferred

opens-IsTidy : (part : Part) (frame : Frame) → IsTidy frame → IsTidy (opens part frame)
unfolding unwind
opens-IsTidy part frame tidy = unwind-append frame.log (opened part ∷ []) [] frame.deferred tidy

start_if-IsTidy :
    (needed : Bool) (service : Service) (frame : Frame)
    → IsTidy frame
    → IsTidy (start_if needed service frame)
unfolding unwind
start_if-IsTidy false service frame tidy = tidy
start_if-IsTidy true service frame tidy =
    unwind-append frame.log (started service ∷ []) [] frame.deferred tidy

module _ (next : Frame → List Action × Option Error)
    (well : (frame : Frame) → IsTidy frame → Closes (next frame)) where
  checked-Closes :
      (needed : Bool) (error : Option Error) (frame : Frame)
      → IsTidy frame
      → Closes (checked needed error frame next)
  checked-Closes false error frame tidy = well frame tidy
  checked-Closes true none frame tidy = well frame tidy
  checked-Closes true (some e) frame tidy = return-Closes (some e) frame tidy

  open_if-Closes :
      (needed : Bool) (error : Option Error) (part : Part) (frame : Frame)
      → IsTidy frame
      → Closes (open_if needed error part frame next)
  open_if-Closes false error part frame tidy = well frame tidy
  open_if-Closes true none part frame tidy = well (opens part frame) (opens-IsTidy part frame tidy)
  open_if-Closes true (some e) part frame tidy = return-Closes (some e) frame tidy

await-Closes : (calls : BootCalls) (frame : Frame) → IsTidy frame → Closes (await calls frame)
unfolding await
await-Closes calls frame tidy = by_last calls.last
  where
    by_last :
        (last : Last)
        → Closes (elim last [
          | context_done ↦ return none frame
          | goroutine_ended none ↦ return none frame
          | goroutine_ended (some e) ↦ return (if calls.is_canceled e then none else some e) frame
        ])
    by_last context_done = return-Closes none frame tidy
    by_last (goroutine_ended none) = return-Closes none frame tidy
    by_last (goroutine_ended (some e)) =
        return-Closes (if calls.is_canceled e then none else some e) frame tidy

module _ (calls : BootCalls) (role : Role) where
  start_loops-Closes : (frame : Frame) → IsTidy frame → Closes (start_loops calls role frame)
  unfolding start_loops
  start_loops-Closes frame tidy =
      let worker = start_if (works role) worker_loop frame in
      let scheduler = start_if (schedules role) scheduler_loop worker in
      await-Closes calls (start_if (schedules role) retention_loop scheduler) (
        start_if-IsTidy (schedules role) retention_loop scheduler (
          start_if-IsTidy (schedules role) scheduler_loop worker
            (start_if-IsTidy (works role) worker_loop frame tidy)))

  consume-Closes : (frame : Frame) → IsTidy frame → Closes (consume calls role frame)
  unfolding consume
  consume-Closes =
      checked-Closes (start_loops calls role) start_loops-Closes (works role) calls.consume_error

  start_services-Closes : (frame : Frame) → IsTidy frame → Closes (start_services calls role frame)
  unfolding start_services
  start_services-Closes frame tidy =
      checked-Closes (consume calls role) consume-Closes (works role) calls.jitter_error
        (start_if (publishes role) publisher_loop frame)
        (start_if-IsTidy (publishes role) publisher_loop frame tidy)

  serve-Closes : (frame : Frame) → IsTidy frame → Closes (serve calls role frame)
  unfolding serve
  serve-Closes frame tidy =
      start_services-Closes (opens server frame) (opens-IsTidy server frame tidy)

  open_worker-Closes : (frame : Frame) → IsTidy frame → Closes (open_worker calls role frame)
  unfolding open_worker
  open_worker-Closes =
      open_if-Closes (serve calls role) serve-Closes (works role) calls.worker_error worker_client

  open_publisher-Closes : (frame : Frame) → IsTidy frame → Closes (open_publisher calls role frame)
  unfolding open_publisher
  open_publisher-Closes =
      open_if-Closes (open_worker calls role) open_worker-Closes (publishes role)
        calls.publisher_error publisher_client

  -- Whatever fails on the way, and however the process ends, every part that it has opened is closed,
  -- in the reverse order of the openings.
  pub run_configured-Closes : unwind [] (run_configured calls role).0 ≡ some []
  unfolding run_configured unwind
  run_configured-Closes =
      let connected = opens pool (record { log = []; deferred = [] }) in
      elim (Bool-cases calls.pool_up) [
        | inr down ↦ simp down refl
        | inl up ↦ elim (Bool-cases calls.ping_up) [
          | inr down ↦ simp (up, down) refl
          | inl alive ↦
              simp (up, alive)
                (checked-Closes (open_publisher calls role) open_publisher-Closes
                  (needs_destinations role) calls.load_error connected refl)
        ]
      ]
