-- ===== src/Shutdown/Resources.antt =====
-- `ResourceManager` and the registration of resources, which is the order in which hooks are added.
use Prim.Native.String.{String}
use hotel_reviews_microservi.Base.{
  Bool, true, false, Option, none, some, List, [], ◌∷◌, ◌++◌, if◌then◌else◌,
}
use hotel_reviews_microservi.Shutdown.Types.{
  pos, ShutdownConfig, http_server, database_pool, redis_client, worker, external_connection,
  optimizer, config_watcher, ShutdownHook, ShutdownManager,
}

-- Which of the single resources are set, and the names of the others.
pub record ResourceManager : Type 0 where
  pub has_http_server : Bool
  pub has_db_pool : Bool
  pub has_redis_client : Bool
  pub workers : List String
  pub external_conns : List String
  pub optimizers : List String
  pub watchers : List String

abbrev pub new_resource_manager : ResourceManager
new_resource_manager = record {
  has_http_server = false;
  has_db_pool = false;
  has_redis_client = false;
  workers = [];
  external_conns = [];
  optimizers = [];
  watchers = [];
}

unfoldable pub add_http_server : ResourceManager → ResourceManager
add_http_server rm = record rm { has_http_server = true }

unfoldable pub add_database : ResourceManager → ResourceManager
add_database rm = record rm { has_db_pool = true }

unfoldable pub add_redis : ResourceManager → ResourceManager
add_redis rm = record rm { has_redis_client = true }

unfoldable pub add_worker : String → ResourceManager → ResourceManager
add_worker name rm = record rm { workers = rm.workers ++ name ∷ [] }

unfoldable pub add_external_connection : String → ResourceManager → ResourceManager
add_external_connection name rm = record rm { external_conns = rm.external_conns ++ name ∷ [] }

unfoldable pub add_optimizer : String → ResourceManager → ResourceManager
add_optimizer name rm = record rm { optimizers = rm.optimizers ++ name ∷ [] }

unfoldable pub add_watcher : String → ResourceManager → ResourceManager
add_watcher name rm = record rm { watchers = rm.watchers ++ name ∷ [] }

-- The hook of each kind of resource.
unfoldable pub http_server_hook : ShutdownConfig → ShutdownHook
http_server_hook c = record { resource = http_server; priority = pos 1; timeout = c.server_timeout }

unfoldable pub database_hook : ShutdownConfig → ShutdownHook
database_hook c = record {
  resource = database_pool;
  priority = pos 3;
  timeout = c.database_timeout;
}

unfoldable pub redis_hook : ShutdownConfig → ShutdownHook
redis_hook c = record { resource = redis_client; priority = pos 3; timeout = c.external_timeout }

unfoldable pub worker_hook : ShutdownConfig → String → ShutdownHook
worker_hook c name = record { resource = worker name; priority = pos 2; timeout = c.worker_timeout }

unfoldable pub external_hook : ShutdownConfig → String → ShutdownHook
external_hook c name = record {
  resource = external_connection name;
  priority = pos 4;
  timeout = c.external_timeout;
}

unfoldable pub optimizer_hook : ShutdownConfig → String → ShutdownHook
optimizer_hook c name = record {
  resource = optimizer name;
  priority = pos 2;
  timeout = c.worker_timeout;
}

unfoldable pub watcher_hook : ShutdownConfig → String → ShutdownHook
watcher_hook c name = record {
  resource = config_watcher name;
  priority = pos 2;
  timeout = c.worker_timeout;
}

-- `sm.hooks = append(sm.hooks, hook)`.
unfoldable pub add_hook : ShutdownHook → ShutdownManager → ShutdownManager
add_hook h sm = record sm { hooks = sm.hooks ++ h ∷ [] }

unfoldable pub register_if : Bool → ShutdownHook → ShutdownManager → ShutdownManager
unfolding add_hook
register_if set h sm = if set then add_hook h sm else sm

-- A `for` over one of the lists of names.
unfoldable pub register_all :
    (String → ShutdownHook) → List String → ShutdownManager → ShutdownManager
unfolding add_hook
register_all hook [] sm = sm
register_all hook (name ∷ names) sm = register_all hook names (add_hook (hook name) sm)

unfoldable pub register_resource_manager : ResourceManager → ShutdownManager → ShutdownManager
register_resource_manager rm sm =
    let c = sm.config in
    let sm1 = register_if rm.has_http_server (http_server_hook c) sm in
    let sm2 = register_if rm.has_db_pool (database_hook c) sm1 in
    let sm3 = register_if rm.has_redis_client (redis_hook c) sm2 in
    let sm4 = register_all (worker_hook c) rm.workers sm3 in
    let sm5 = register_all (external_hook c) rm.external_conns sm4 in
    let sm6 = register_all (optimizer_hook c) rm.optimizers sm5 in
    register_all (watcher_hook c) rm.watchers sm6

-- What `RegisterResource` is called with.
pub data Registrable : Type 0 where
  manager : ResourceManager → Registrable
  server pool redis : Registrable
  a_worker a_connection an_optimizer a_watcher : String → Registrable
  unsupported : Registrable

-- `RegisterResource`, `none` for its error.
unfoldable pub register_resource : Registrable → ShutdownManager → Option ShutdownManager
unfolding register_resource_manager
register_resource (manager rm) sm = some (register_resource_manager rm sm)
register_resource server sm = some (add_hook (http_server_hook sm.config) sm)
register_resource pool sm = some (add_hook (database_hook sm.config) sm)
register_resource redis sm = some (add_hook (redis_hook sm.config) sm)
register_resource (a_worker name) sm = some (add_hook (worker_hook sm.config name) sm)
register_resource (a_connection name) sm = some (add_hook (external_hook sm.config name) sm)
register_resource (an_optimizer name) sm = some (add_hook (optimizer_hook sm.config name) sm)
register_resource (a_watcher name) sm = some (add_hook (watcher_hook sm.config name) sm)
register_resource unsupported sm = none
