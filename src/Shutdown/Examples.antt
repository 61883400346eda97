-- ===== src/Shutdown/Examples.antt =====
-- The shutdown at concrete inputs: tests, and the inputs of its theorems.
use hotel_reviews_microservi.Base.{
  ◌+◌, ◌*◌, ◌≤◌, ◌≡◌, ◌↔◌, refl, false, none, some, List, [], ◌∷◌, map, All, second,
}
use hotel_reviews_microservi.Shutdown.Types.{
  ℤ, negsuc, default_shutdown_config, Resource, http_server, database_pool, redis_client, worker,
  external_connection, optimizer, config_watcher, custom, ShutdownHook, ShutdownManager,
  new_shutdown_manager,
}
use hotel_reviews_microservi.Shutdown.Resources.{
  ResourceManager, new_resource_manager, add_http_server, add_database, add_redis, add_worker,
  add_external_connection, add_optimizer, add_watcher, add_hook, register_resource_manager,
  register_if, register_all, register_resource, unsupported, http_server_hook, database_hook,
  redis_hook, worker_hook, external_hook, optimizer_hook, watcher_hook,
}
use hotel_reviews_microservi.Shutdown.Sort.{
  of_priority, IsSorted, bubble_pass, sort_hooks_by_priority, sort_hooks_by_priority_lem,
}
use hotel_reviews_microservi.Shutdown.Order.{in_order, register_resource_manager_order}
use hotel_reviews_microservi.Shutdown.Run.{
  returns, hangs, Environment, cleanup, Report, reported, panicked, shut_down, initiate_shutdown,
  execute_hook, count_errors, wait_all, delays, get_shutdown_metrics,
}
use hotel_reviews_microservi.Shutdown.Outcome.{
  IsClean, initiate_shutdown_bounded, initiate_shutdown-IsClean, initiate_shutdown_unordered,
}

resources : ResourceManager
unfolding add_http_server add_database add_redis add_worker add_external_connection add_optimizer
    add_watcher
resources = add_watcher "config" (
    add_worker "mail" (
      add_optimizer "db" (
        add_external_connection "kafka"
          (add_redis (add_database (add_http_server (add_worker "files" new_resource_manager)))))))

-- The names in the order of the sort.
names_of : List ShutdownHook → List Resource
names_of [] = []
names_of (h ∷ hooks) = h.resource ∷ names_of hooks

abbrev flush : ShutdownHook
flush = record { resource = custom "flush"; priority = negsuc 0; timeout = 3 * second }

manager : ShutdownManager
unfolding resources register_resource_manager register_if register_all new_shutdown_manager add_hook
    http_server_hook database_hook redis_hook worker_hook external_hook optimizer_hook watcher_hook
manager =
    add_hook flush
      (register_resource_manager resources (new_shutdown_manager default_shutdown_config))

sorted_manager :
    names_of (sort_hooks_by_priority manager).hooks
    ≡ custom "flush"
      ∷ http_server
      ∷ worker "files"
      ∷ worker "mail"
      ∷ optimizer "db"
      ∷ config_watcher "config"
      ∷ database_pool
      ∷ redis_client
      ∷ external_connection "kafka"
      ∷ []
unfolding names_of manager sort_hooks_by_priority bubble_pass
sorted_manager = refl

-- The HTTP server takes its time, a worker fails, the pool does not close and the rest returns at once.
slow : Environment
slow = record {
  call = λ resource left. elim resource [
    | http_server ↦ returns (2 * second) none
    | database_pool ↦ hangs
    | worker name ↦ returns (1 * second) (some "broken")
    | _ ↦ returns 0 none
  ];
  close_again = hangs;
}

shut_down_slowly : (shut_down slow manager).finished ≡ 6 * second
unfolding slow manager bubble_pass cleanup shut_down
shut_down_slowly = refl

shut_down_with_errors : (shut_down slow manager).error_count ≡ 3
unfolding slow manager bubble_pass cleanup shut_down
shut_down_with_errors = refl

metrics_of_manager : (get_shutdown_metrics manager).registered_hooks ≡ 9
unfolding manager get_shutdown_metrics
metrics_of_manager = refl

sort_hooks_by_priority_lem_example :
    IsSorted (sort_hooks_by_priority manager).hooks
    × ((p : ℤ) → of_priority p (sort_hooks_by_priority manager).hooks ≡ of_priority p manager.hooks)
sort_hooks_by_priority_lem_example = sort_hooks_by_priority_lem manager

register_resource_manager_order_example :
    (sort_hooks_by_priority
      (register_resource_manager resources (new_shutdown_manager default_shutdown_config))).hooks
    ≡ in_order default_shutdown_config resources
register_resource_manager_order_example =
    register_resource_manager_order resources default_shutdown_config

not_done : manager.done_closed ≡ false
unfolding manager
not_done = refl

initiate_shutdown_bounded_example :
    (r : Report) × (initiate_shutdown slow manager ≡ reported r)
    × (r.finished ≤ delays manager.config + manager.config.graceful_timeout)
initiate_shutdown_bounded_example = initiate_shutdown_bounded slow manager not_done

initiate_shutdown-IsClean_example :
    (r : Report) × (initiate_shutdown slow manager ≡ reported r)
    × ((r.error_count ≡ 0) ↔ All (IsClean slow manager.config) manager.hooks)
initiate_shutdown-IsClean_example = initiate_shutdown-IsClean slow manager not_done

initiate_shutdown_unordered_example :
    (r : Report) × (initiate_shutdown slow manager ≡ reported r)
    × (r.finished
        ≡ delays manager.config + wait_all (map (execute_hook slow manager.config) manager.hooks))
    × (r.error_count ≡ count_errors (map (execute_hook slow manager.config) manager.hooks))
    × (initiate_shutdown slow r.manager ≡ panicked)
initiate_shutdown_unordered_example = initiate_shutdown_unordered slow manager not_done

unsupported_resource : register_resource unsupported manager ≡ none
unfolding register_resource
unsupported_resource = refl
