-- ===== src/Shutdown/Outcome.antt =====
-- How long a shutdown takes, which errors it reports, and what the order of the hooks has to do with it.
use hotel_reviews_microservi.Base.{
  ℕ, zero, suc, ◌+◌, ◌-◌, ◌≤◌, ◌<◌, ◌≡◌, ◌↔◌, refl, ap, ◌∙◌, min, false, Option, none, some, List,
  [], ◌∷◌, map, length, All, Duration, arith, Bool-cases, inl, inr,
}
use hotel_reviews_microservi.Shutdown.Types.{ShutdownConfig, ShutdownHook, ShutdownManager, above}
use hotel_reviews_microservi.Shutdown.Sort.{bubble_pass, bubble_sort, sort_hooks_by_priority}
use hotel_reviews_microservi.Shutdown.Run.{
  Ending, returns, hangs, Environment, cleanup, HookError, errors_of, wait_for, execute_hook,
  count_errors, wait_all, delays, Report, reported, shut_down, initiate_shutdown, panicked,
}

errors_of-zero : (o : Option HookError) (n : ℕ) → errors_of o + n ≡ 0 → o ≡ none
errors_of-zero none n h = refl
errors_of-zero (some e) n h = absurd (omega arith)

module _ (env : Environment) (config : ShutdownConfig) where
  -- The time that the context leaves to a hook.
  abbrev pub time_left : ShutdownHook → Duration
  time_left h = min config.graceful_timeout h.timeout

  -- The cleanup returns nil before its time is up.
  abbrev pub IsClean : ShutdownHook → Type 0
  IsClean h =
      (d : Duration) × (cleanup env config h.resource (time_left h) ≡ returns d none)
      × (d < time_left h)

  execute_hook_bounded : (h : ShutdownHook) → (execute_hook env config h).ended ≤ time_left h
  unfolding execute_hook
  execute_hook_bounded h = ground arith

  wait_all_bounded :
      (hooks : List ShutdownHook)
      → wait_all (map (execute_hook env config) hooks) ≤ config.graceful_timeout
  unfolding wait_all
  wait_all_bounded [] = omega arith
  wait_all_bounded (h ∷ hooks) = ground (arith, execute_hook_bounded h, wait_all_bounded hooks)

  count_errors-bubble_pass :
      (k : ℕ) (hooks : List ShutdownHook)
      → count_errors (map (execute_hook env config) (bubble_pass k hooks))
        ≡ count_errors (map (execute_hook env config) hooks)
  unfolding bubble_pass count_errors
  count_errors-bubble_pass (suc k) (x ∷ y ∷ hooks) =
      elim (Bool-cases (above x.priority y.priority)) [
        | inl swap ↦ rw swap (omega (arith, count_errors-bubble_pass k (x ∷ hooks)))
        | inr kept ↦ rw kept (omega (arith, count_errors-bubble_pass k (y ∷ hooks)))
      ]
  count_errors-bubble_pass zero hooks = refl
  count_errors-bubble_pass (suc k) [] = refl
  count_errors-bubble_pass (suc k) (x ∷ []) = refl

  wait_all-bubble_pass :
      (k : ℕ) (hooks : List ShutdownHook)
      → wait_all (map (execute_hook env config) (bubble_pass k hooks))
        ≡ wait_all (map (execute_hook env config) hooks)
  unfolding bubble_pass wait_all
  wait_all-bubble_pass (suc k) (x ∷ y ∷ hooks) = elim (Bool-cases (above x.priority y.priority)) [
    | inl swap ↦ rw swap (ground (arith, wait_all-bubble_pass k (x ∷ hooks)))
    | inr kept ↦ rw kept (ground (arith, wait_all-bubble_pass k (y ∷ hooks)))
  ]
  wait_all-bubble_pass zero hooks = refl
  wait_all-bubble_pass (suc k) [] = refl
  wait_all-bubble_pass (suc k) (x ∷ []) = refl

  count_errors-bubble_sort :
      (k : ℕ) (hooks : List ShutdownHook)
      → count_errors (map (execute_hook env config) (bubble_sort k hooks))
        ≡ count_errors (map (execute_hook env config) hooks)
  unfolding bubble_sort
  count_errors-bubble_sort zero hooks = refl
  count_errors-bubble_sort (suc k) hooks =
      count_errors-bubble_sort k (bubble_pass (suc k) hooks)
      ∙ count_errors-bubble_pass (suc k) hooks

  wait_all-bubble_sort :
      (k : ℕ) (hooks : List ShutdownHook)
      → wait_all (map (execute_hook env config) (bubble_sort k hooks))
        ≡ wait_all (map (execute_hook env config) hooks)
  unfolding bubble_sort
  wait_all-bubble_sort zero hooks = refl
  wait_all-bubble_sort (suc k) hooks =
      wait_all-bubble_sort k (bubble_pass (suc k) hooks) ∙ wait_all-bubble_pass (suc k) hooks

  IsClean-count_errors :
      (hooks : List ShutdownHook)
      → All IsClean hooks
      → count_errors (map (execute_hook env config) hooks) ≡ 0
  unfolding count_errors execute_hook
  IsClean-count_errors [] clean = refl
  IsClean-count_errors (h ∷ hooks) ((d, ends, soon), clean) =
      ground (arith, ends, soon, IsClean-count_errors hooks clean)

  IsClean_of_no_error :
      (h : ShutdownHook) (left : Duration) (e : Ending)
      → (wait_for h left e).error ≡ none
      → (d : Duration) × (e ≡ returns d none) × (d < left)
  IsClean_of_no_error h left (returns d none) none_left = (d, refl, ground arith)
  IsClean_of_no_error h left (returns d (some x)) none_left = absurd (ground arith)
  IsClean_of_no_error h left hangs none_left = cc

  count_errors-IsClean :
      (hooks : List ShutdownHook)
      → count_errors (map (execute_hook env config) hooks) ≡ 0
      → All IsClean hooks
  unfolding count_errors execute_hook
  count_errors-IsClean [] none_left = tt
  count_errors-IsClean (h ∷ hooks) none_left = (
    IsClean_of_no_error h (time_left h) (cleanup env config h.resource (time_left h)) (
        errors_of-zero (execute_hook env config h).error
          (count_errors (map (execute_hook env config) hooks)) none_left),
    count_errors-IsClean hooks (omega arith),
  )

module _ (env : Environment) (sm : ShutdownManager) (first : sm.done_closed ≡ false) where
  -- Whatever the resources do, a first shutdown ends, at most the graceful timeout after the delays before it.
  pub initiate_shutdown_bounded :
      (r : Report) × (initiate_shutdown env sm ≡ reported r)
      × (r.finished ≤ delays sm.config + sm.config.graceful_timeout)
  unfolding initiate_shutdown sort_hooks_by_priority
  initiate_shutdown_bounded = (
    shut_down env sm,
    rw first,
    omega (arith, wait_all_bounded env sm.config (sort_hooks_by_priority sm).hooks),
  )

  -- A first shutdown returns nil exactly when the cleanup of every registered hook returns nil before the time
  -- that its context leaves it is up.
  pub initiate_shutdown-IsClean :
      (r : Report) × (initiate_shutdown env sm ≡ reported r)
      × ((r.error_count ≡ 0) ↔ All (IsClean env sm.config) sm.hooks)
  unfolding initiate_shutdown sort_hooks_by_priority
  initiate_shutdown-IsClean =
      let sorting = count_errors-bubble_sort env sm.config (length sm.hooks - 1) sm.hooks in
      (
        shut_down env sm,
        rw first,
        (
          λ none_left. count_errors-IsClean env sm.config sm.hooks (omega arith),
          λ clean. omega (arith, IsClean-count_errors env sm.config sm.hooks clean),
        ),
      )

  -- The sort has no effect on a first shutdown's end: it comes as long after the delays as the longest run of the
  -- hooks takes, in whatever order they stand, and the errors are those of the hooks in the order in which they
  -- were registered. The manager is then done, and a second shutdown panics.
  pub initiate_shutdown_unordered :
      (r : Report) × (initiate_shutdown env sm ≡ reported r)
      × (r.finished ≡ delays sm.config + wait_all (map (execute_hook env sm.config) sm.hooks))
      × (r.error_count ≡ count_errors (map (execute_hook env sm.config) sm.hooks))
      × (initiate_shutdown env r.manager ≡ panicked)
  unfolding initiate_shutdown sort_hooks_by_priority
  initiate_shutdown_unordered = (
    shut_down env sm,
    rw first,
    ap (◌+◌ (delays sm.config)) (wait_all-bubble_sort env sm.config (length sm.hooks - 1) sm.hooks),
    count_errors-bubble_sort env sm.config (length sm.hooks - 1) sm.hooks,
    refl,
  )
