-- ===== src/Shutdown/Run.antt =====
-- `initiateShutdown`, `executeHook`, the cleanups of the registered resources and `GetShutdownMetrics`. The
-- hooks run in goroutines of their own, which start at the same moment, that of the context.
use Prim.Native.String.{String}
use hotel_reviews_microservi.Base.{
  ℕ, ◌+◌, min, Bool, true, Option, none, some, List, [], ◌∷◌, map, if◌then◌else◌, ltb, length,
  Duration,
}
use hotel_reviews_microservi.Shutdown.Types.{
  ShutdownConfig, Resource, http_server, database_pool, ShutdownHook, ShutdownManager,
}
use hotel_reviews_microservi.Shutdown.Sort.{sort_hooks_by_priority}

-- How a call ends: after some time with an error or nil, or never.
pub data Ending : Type 0 where
  returns : Duration → Option String → Ending
  hangs : Ending

-- How the resources behave, which are other packages': the call that closes or stops a resource, by the time
-- its context has left, and the second `pool.Close()`.
pub record Environment : Type 0 where
  pub call : Resource → Duration → Ending
  pub close_again : Ending

-- `ctx.Err()` comes back once the second `pool.Close()` has.
abbrev pub after_closing_again : Duration → Ending → Ending
after_closing_again left (returns d e) = returns (left + d) (some "context deadline exceeded")
after_closing_again left hangs = hangs

-- The `select` of the database's cleanup; where both are ready, the context is taken to win.
abbrev pub close_pool : Duration → Ending → Ending → Ending
close_pool left (returns d e) again =
    if ltb d left then returns d none else after_closing_again left again
close_pool left hangs again = after_closing_again left again

-- A hook's `Cleanup`, by the time its context has left.
unfoldable pub cleanup : Environment → ShutdownConfig → Resource → Duration → Ending
cleanup env config http_server left = env.call http_server (min left config.server_timeout)
cleanup env config database_pool left =
    close_pool left (env.call database_pool left) env.close_again
cleanup env config resource left = env.call resource left

pub data HookError : Type 0 where
  failed : Resource → String → HookError
  timed_out : Resource → Duration → HookError

-- The run of a hook, in time from the context's start.
pub record HookRun : Type 0 where
  pub ended : Duration
  pub error : Option HookError

abbrev fail_hook : Resource → Option String → Option HookError
fail_hook resource none = none
fail_hook resource (some e) = some (failed resource e)

-- The `select` of `executeHook`; where both are ready, the context is taken to win.
abbrev pub wait_for : ShutdownHook → Duration → Ending → HookRun
wait_for h left (returns d e) =
    if ltb d left
    then record { ended = d; error = fail_hook h.resource e }
    else record { ended = left; error = some (timed_out h.resource h.timeout) }
wait_for h left hangs = record { ended = left; error = some (timed_out h.resource h.timeout) }

unfoldable pub execute_hook : Environment → ShutdownConfig → ShutdownHook → HookRun
unfolding cleanup
execute_hook env config h =
    let left = min config.graceful_timeout h.timeout in
    wait_for h left (cleanup env config h.resource left)

abbrev pub errors_of : Option HookError → ℕ
errors_of none = 0
errors_of (some e) = 1

-- The errors that arrive on the channel, of which the number is reported.
unfoldable pub count_errors : List HookRun → ℕ
count_errors [] = 0
count_errors (r ∷ runs) = errors_of r.error + count_errors runs

abbrev pub max : ℕ → ℕ → ℕ
max a b = if ltb a b then b else a

-- `wg.Wait()`: the moment at which the last of the runs has ended.
unfoldable pub wait_all : List HookRun → Duration
wait_all [] = 0
wait_all (r ∷ runs) = max r.ended (wait_all runs)

-- The sleeps before the context is made.
unfoldable pub delays : ShutdownConfig → Duration
delays config =
    (if config.enable_pre_shutdown_hook then config.pre_shutdown_delay else 0)
    + (if config.disable_health_check then config.health_check_grace_period else 0)

-- The end of a shutdown, in time from its start, with the number of errors that it returns (0 for nil) and
-- the moment at which the timer kills the process.
pub record Report : Type 0 where
  pub manager : ShutdownManager
  pub finished : Duration
  pub error_count : ℕ
  pub killed : Duration

pub data ShutdownOutcome : Type 0 where
  reported : Report → ShutdownOutcome
  panicked : ShutdownOutcome

unfoldable pub shut_down : Environment → ShutdownManager → Report
unfolding delays wait_all count_errors execute_hook sort_hooks_by_priority
shut_down env sm =
    let sorted = sort_hooks_by_priority sm in
    let runs = map (execute_hook env sm.config) sorted.hooks in
    let finished = delays sm.config + wait_all runs in
    record {
      manager = record sorted { done_closed = true };
      finished = finished;
      error_count = count_errors runs;
      killed = finished + sm.config.force_kill_timeout;
    }

-- The deferred `close(sm.done)` panics if the channel is closed.
unfoldable pub initiate_shutdown : Environment → ShutdownManager → ShutdownOutcome
unfolding shut_down
initiate_shutdown env sm = if sm.done_closed then panicked else reported (shut_down env sm)

pub record ShutdownMetrics : Type 0 where
  pub registered_hooks : ℕ
  pub graceful_timeout : Duration
  pub force_kill_timeout : Duration
  pub shutdown_initiated : Bool

unfoldable pub get_shutdown_metrics : ShutdownManager → ShutdownMetrics
get_shutdown_metrics sm = record {
  registered_hooks = length sm.hooks;
  graceful_timeout = sm.config.graceful_timeout;
  force_kill_timeout = sm.config.force_kill_timeout;
  shutdown_initiated = sm.done_closed;
}
