-- ===== src/App.antt =====
-- internal/app and cmd/notifier: which parts of the process a role opens, starts and closes, and how
-- the process ends. The parts themselves are in the other modules; here they are names.
pub mod Closing
pub mod Paths
use rc_pangjiahui.Prelude.{
  ℕ, String, Bool, true, false, not, ◌||◌, ◌&&◌, ◌≡◌, Option, none, some, is_some, List, [], ◌∷◌,
  ◌++◌, map, pos, leb_ℤ, if◌then◌else◌,
}
use rc_pangjiahui.Notification.Model.{Duration}
use rc_pangjiahui.Store.Tables.{Error, other}
use rc_pangjiahui.Config.{Role, Runtime, parse_role, load_runtime, needs_tokens, needs_destinations}
use rc_pangjiahui.Health.{Checks}

-- What the process opens, and closes by a deferred call.
pub data Part : Type 0 where
  pool publisher_client worker_client server : Part

-- The goroutines that it starts.
pub data Service : Type 0 where
  publisher_loop worker_loop scheduler_loop retention_loop : Service

pub data Action : Type 0 where
  opened : Part → Action
  closed : Part → Action
  started : Service → Action

-- What the process has done so far, and the deferred calls, the last one first.
pub record Frame : Type 0 where
  pub log : List Action
  pub deferred : List Part

-- A return, with the deferred calls.
abbrev pub return : Option Error → Frame → List Action × Option Error
return error frame = (frame.log ++ map closed frame.deferred, error)

abbrev pub opens : Part → Frame → Frame
opens part frame = record { log = frame.log ++ opened part ∷ []; deferred = part ∷ frame.deferred }

abbrev pub starts : Service → Frame → Frame
starts service frame = record frame { log = frame.log ++ started service ∷ [] }

abbrev pub publishes : Role → Bool
publishes Role.publisher = true
publishes Role.all = true
publishes _ = false

abbrev pub works : Role → Bool
works Role.worker = true
works Role.all = true
works _ = false

abbrev pub schedules : Role → Bool
schedules Role.scheduler = true
schedules Role.all = true
schedules _ = false

-- What the process meets on its way, and what the last select sees: the end of the context, or what
-- a goroutine that ends reports.
pub data Last : Type 0 where
  context_done : Last
  goroutine_ended : Option Error → Last

pub record BootCalls : Type 0 where
  pub pool_up : Bool
  pub ping_up : Bool
  pub load_error : Option Error
  pub publisher_error : Option Error
  pub worker_error : Option Error
  pub jitter_error : Option Error
  pub consume_error : Option Error
  pub last : Last
  pub is_canceled : Error → Bool

-- A step that only some roles take, and that returns its error.
abbrev pub checked :
    Bool → Option Error → Frame → (Frame → List Action × Option Error) → List Action × Option Error
checked needed error frame next =
    if not needed
    then next frame
    else elim error [ some e ↦ return (some e) frame | none ↦ next frame ]

abbrev pub open_if :
    Bool
    → Option Error
    → Part
    → Frame
    → (Frame → List Action × Option Error)
    → List Action × Option Error
open_if needed error part frame next =
    if not needed
    then next frame
    else elim error [ some e ↦ return (some e) frame | none ↦ next (opens part frame) ]

abbrev pub start_if : Bool → Service → Frame → Frame
start_if needed service frame = if needed then starts service frame else frame

-- The last select.
unfoldable pub await : BootCalls → Frame → List Action × Option Error
await calls frame = elim calls.last [
  | context_done ↦ return none frame
  | goroutine_ended none ↦ return none frame
  | goroutine_ended (some e) ↦ return (if calls.is_canceled e then none else some e) frame
]

-- The goroutines of the worker, the scheduler and the retention.
unfoldable pub start_loops : BootCalls → Role → Frame → List Action × Option Error
unfolding await
start_loops calls role frame = await calls (
    start_if (schedules role) retention_loop
      (start_if (schedules role) scheduler_loop (start_if (works role) worker_loop frame)))

unfoldable pub consume : BootCalls → Role → Frame → List Action × Option Error
unfolding start_loops
consume calls role frame = checked (works role) calls.consume_error frame (start_loops calls role)

-- What follows the server.
unfoldable pub start_services : BootCalls → Role → Frame → List Action × Option Error
unfolding consume
start_services calls role frame =
    checked (works role) calls.jitter_error (start_if (publishes role) publisher_loop frame)
      (consume calls role)

unfoldable pub serve : BootCalls → Role → Frame → List Action × Option Error
unfolding start_services
serve calls role frame = start_services calls role (opens server frame)

unfoldable pub open_worker : BootCalls → Role → Frame → List Action × Option Error
unfolding serve
open_worker calls role frame =
    open_if (works role) calls.worker_error worker_client frame (serve calls role)

unfoldable pub open_publisher : BootCalls → Role → Frame → List Action × Option Error
unfolding open_worker
open_publisher calls role frame =
    open_if (publishes role) calls.publisher_error publisher_client frame (open_worker calls role)

unfoldable pub run_configured : BootCalls → Role → List Action × Option Error
unfolding open_publisher
run_configured calls role =
    let connected = opens pool (record { log = []; deferred = [] }) in
    if not calls.pool_up
    then ([], some (other "open postgres"))
    else if not calls.ping_up
    then return (some (other "ping postgres")) connected
    else checked (needs_destinations role) calls.load_error connected (open_publisher calls role)

-- The checks that the probes are given: the broker's is set by the first client that there is.
abbrev pub checks_of : Role → Bool → Bool → Bool → Checks
checks_of role postgres_up publisher_up worker_up = record {
  postgres = some postgres_up;
  rabbitmq =
      if publishes role then some publisher_up else if works role then some worker_up else none;
  destinations = some true;
}

-- main: the exit code, for the flag, the environment and the run of the process.
unfoldable pub exit_code : String → (String → Option String) → (Runtime → Option Error) → ℕ
exit_code flag lookup run = elim (parse_role flag) [
  | none ↦ 2
  | some role ↦ elim (load_runtime role lookup) [
    | none ↦ 2
    | some runtime ↦ elim (run runtime) [ some e ↦ 1 | none ↦ 0 ]
  ]
]

-- Run of app.go, which stops the given roles: what the first select sees.
pub data First : Type 0 where
  parent_done : First
  role_ended : Option Error → First

pub data Stop (R : Type 0) : Type 0 where
  stop_claims : R → Stop R
  cancel : Stop R

abbrev pub shutdown_limit : Duration → Duration
shutdown_limit timeout = if leb_ℤ timeout (pos 0) then pos 10_000_000_000 else timeout

-- `finished` says whether the roles end within the limit.
unfoldable pub run_roles :
    {R : Type 0}
    → (Error → Bool)
    → List R
    → First
    → (Duration → Bool)
    → Duration
    → List (Stop R) × Option Error
run_roles is_canceled roles first finished timeout =
    let stopped = map stop_claims roles ++ cancel ∷ [] in
    let waited =
      if finished (shutdown_limit timeout)
      then (stopped, none)
      else (stopped, some (other "graceful shutdown exceeded")) in
    elim first [
      | parent_done ↦ waited
      | role_ended none ↦ waited
      | role_ended (some e) ↦
          if is_canceled e then waited else (stopped, some (other "role failed"))
    ]
