-- ===== src/Shutdown/Types.antt =====
-- The configuration, the hooks and the state of `ShutdownManager`. A hook's priority is a Go int, which may be
-- negative; what a hook cleans up is named by a resource.
use Prim.Native.String.{String}
use hotel_reviews_microservi.Base.{
  ℕ, ◌+◌, ◌*◌, ◌≤◌, Bool, true, false, List, [], second, Duration, ltb, ◌==◌,
}

pub data ℤ : Type 0 where
  pos : ℕ → ℤ
  negsuc : ℕ → ℤ

abbrev pub pos_part : ℤ → ℕ
pos_part (pos n) = n
pos_part (negsuc n) = 0

abbrev pub neg_part : ℤ → ℕ
neg_part (pos n) = 0
neg_part (negsuc n) = n + 1

-- `a > b`.
abbrev pub above : ℤ → ℤ → Bool
above a b = ltb (pos_part b + neg_part a) (pos_part a + neg_part b)

abbrev pub same : ℤ → ℤ → Bool
same a b = pos_part a + neg_part b == pos_part b + neg_part a

infix 50 ◌≤ℤ◌
abbrev pub ◌≤ℤ◌ : ℤ → ℤ → Type 0
a ≤ℤ b = pos_part a + neg_part b ≤ pos_part b + neg_part a

pub record ShutdownConfig : Type 0 where
  pub graceful_timeout : Duration
  pub server_timeout : Duration
  pub database_timeout : Duration
  pub worker_timeout : Duration
  pub external_timeout : Duration
  pub force_kill_timeout : Duration
  pub enable_pre_shutdown_hook : Bool
  pub pre_shutdown_delay : Duration
  pub disable_health_check : Bool
  pub health_check_grace_period : Duration

abbrev pub default_shutdown_config : ShutdownConfig
default_shutdown_config = record {
  graceful_timeout = 30 * second;
  server_timeout = 10 * second;
  database_timeout = 5 * second;
  worker_timeout = 15 * second;
  external_timeout = 5 * second;
  force_kill_timeout = 45 * second;
  enable_pre_shutdown_hook = true;
  pre_shutdown_delay = 1 * second;
  disable_health_check = false;
  health_check_grace_period = 2 * second;
}

-- What a hook's cleanup closes or stops; the names are those that the resources give.
pub data Resource : Type 0 where
  http_server database_pool redis_client : Resource
  worker external_connection optimizer config_watcher custom : String → Resource

-- The name of a hook follows from its resource.
pub record ShutdownHook : Type 0 where
  pub resource : Resource
  pub priority : ℤ
  pub timeout : Duration

-- `done` is closed at the end of a shutdown.
pub record ShutdownManager : Type 0 where
  pub config : ShutdownConfig
  pub hooks : List ShutdownHook
  pub done_closed : Bool

unfoldable pub new_shutdown_manager : ShutdownConfig → ShutdownManager
new_shutdown_manager config = record { config = config; hooks = []; done_closed = false }
