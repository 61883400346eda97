-- ===== src/Shutdown/Order.antt =====
-- The order in which the hooks of a `ResourceManager` stand after the sort.
use Prim.Native.String.{String}
use mathlib.Core.List.{append-nil, append_assoc}
use hotel_reviews_microservi.Base.{
  ℕ, ◌≤◌, ◌≡◌, refl, ap, sym, ◌∙◌, if◌then◌else◌, List, [], ◌∷◌, ◌++◌, map, All, arith, Bool-cases,
  inl, inr, Bool, true, false,
}
use hotel_reviews_microservi.Shutdown.Types.{
  ℤ, pos, above, same, ◌≤ℤ◌, ShutdownHook, ShutdownConfig, ShutdownManager, new_shutdown_manager,
}
use hotel_reviews_microservi.Shutdown.Resources.{
  ResourceManager, http_server_hook, database_hook, redis_hook, worker_hook, external_hook,
  optimizer_hook, watcher_hook, add_hook, register_if, register_all, register_resource_manager,
}
use hotel_reviews_microservi.Shutdown.Sort.{
  of_priority, IsBefore, IsSorted, sort_hooks_by_priority, sort_hooks_by_priority_lem,
}

same_self : (p : ℤ) → same p p ≡ true
same_self p = ground arith

-- Nothing of a lower priority stands in what a hook is before.
of_priority-none :
    (h : ShutdownHook) (p : ℤ) (hooks : List ShutdownHook)
    → above h.priority p ≡ true
    → All (IsBefore h) hooks
    → of_priority p hooks ≡ []
of_priority-none h p [] lower all = refl
of_priority-none h p (x ∷ hooks) lower all = ground (arith, of_priority-none h p hooks lower all.1)

-- The head of a sorted list is not above that of another with the same hooks of each priority.
head-not-above :
    (x y : ShutdownHook) (l r : List ShutdownHook)
    → IsSorted (x ∷ l)
    → ((p : ℤ) → of_priority p (x ∷ l) ≡ of_priority p (y ∷ r))
    → above x.priority y.priority ≡ false
head-not-above x y l r s h = elim (Bool-cases (above x.priority y.priority)) [
  | inl lower ↦
      ground (arith, h y.priority, of_priority-none x y.priority l lower s.0, same_self y.priority)
  | inr not_above ↦ not_above
]

-- A sorted list is determined by its hooks of each priority.
pub IsSorted-unique :
    (l r : List ShutdownHook)
    → IsSorted l
    → IsSorted r
    → ((p : ℤ) → of_priority p l ≡ of_priority p r)
    → l ≡ r
IsSorted-unique [] [] sl sr h = refl
IsSorted-unique [] (y ∷ r) sl sr h = ground (arith, h y.priority, same_self y.priority)
IsSorted-unique (x ∷ l) [] sl sr h = ground (arith, h x.priority, same_self x.priority)
IsSorted-unique (x ∷ l) (y ∷ r) sl sr h =
    let not_above = head-not-above x y l r sl h in
    let not_below = head-not-above y x r l sr (λ p. sym (h p)) in
    let heads : x ≡ y = ground (arith, not_above, not_below, h x.priority, same_self x.priority) in
    let tails : (p : ℤ) → of_priority p l ≡ of_priority p r =
      λ p. ground (arith, heads, h p, ap (λ (z : ShutdownHook). z.priority) heads) in
    ground (arith, heads, IsSorted-unique l r sl.1 sr.1 tails)

of_priority-append :
    (p : ℤ) (xs ys : List ShutdownHook)
    → of_priority p (xs ++ ys) ≡ of_priority p xs ++ of_priority p ys
of_priority-append p [] ys = refl
of_priority-append p (x ∷ xs) ys = ground (arith, of_priority-append p xs ys)

-- Hooks of one priority.
abbrev AreOf : ℕ → List ShutdownHook → Type 0
AreOf q = All λ h. h.priority ≡ pos q

of_priority-AreOf :
    (p : ℤ) (q : ℕ) (hooks : List ShutdownHook)
    → AreOf q hooks
    → of_priority p hooks ≡ (if same (pos q) p then hooks else [])
of_priority-AreOf p q [] all = ground arith
of_priority-AreOf p q (h ∷ hooks) all = elim (Bool-cases (same (pos q) p)) [
  | inl hit ↦ ground (arith, of_priority-AreOf p q hooks all.1)
  | inr miss ↦ ground (arith, of_priority-AreOf p q hooks all.1)
]

abbrev AtLeast : ℕ → List ShutdownHook → Type 0
AtLeast q = All λ h. pos q ≤ℤ h.priority

AtLeast-le : (q r : ℕ) (hooks : List ShutdownHook) → q ≤ r → AtLeast r hooks → AtLeast q hooks
AtLeast-le q r [] h a = tt
AtLeast-le q r (x ∷ hooks) h a = (omega (arith, a.0), AtLeast-le q r hooks h a.1)

All-append {ℓ} :
    (P : ShutdownHook → Type ℓ) (xs ys : List ShutdownHook) → All P xs → All P ys → All P (xs ++ ys)
All-append P [] ys ax ay = ay
All-append P (x ∷ xs) ys ax ay = (ax.0, All-append P xs ys ax.1 ay)

All-AreOf :
    (h : ShutdownHook) (q : ℕ) (hooks : List ShutdownHook)
    → h.priority ≡ pos q
    → AtLeast q hooks
    → All (IsBefore h) hooks
All-AreOf h q [] e a = tt
All-AreOf h q (x ∷ hooks) e a = (rw e a.0, All-AreOf h q hooks e a.1)

-- Hooks of one priority, before sorted hooks of that priority or above.
AreOf-append :
    (q : ℕ) (xs ys : List ShutdownHook)
    → AreOf q xs
    → IsSorted ys × AtLeast q ys
    → IsSorted (xs ++ ys) × AtLeast q (xs ++ ys)
AreOf-append q [] ys of_q s = s
AreOf-append q (x ∷ xs) ys of_q s =
    let rest = AreOf-append q xs ys of_q.1 s in
    ((All-AreOf x q (xs ++ ys) of_q.0 rest.1, rest.0), (ground (arith, of_q.0), rest.1))

AreOf-append_below :
    (q r : ℕ) (xs ys : List ShutdownHook)
    → q ≤ r
    → AreOf q xs
    → IsSorted ys × AtLeast r ys
    → IsSorted (xs ++ ys) × AtLeast q (xs ++ ys)
AreOf-append_below q r xs ys h of_q s = AreOf-append q xs ys of_q (s.0, AtLeast-le q r ys h s.1)

abbrev one_if : Bool → ShutdownHook → List ShutdownHook
one_if set h = if set then h ∷ [] else []

one_if-AreOf : (b : Bool) (q : ℕ) (h : ShutdownHook) → h.priority ≡ pos q → AreOf q (one_if b h)
one_if-AreOf true q h e = (e, tt)
one_if-AreOf false q h e = tt

map-AreOf :
    (hook : String → ShutdownHook) (q : ℕ) (names : List String)
    → ((name : String) → (hook name).priority ≡ pos q)
    → AreOf q (map hook names)
map-AreOf hook q [] e = tt
map-AreOf hook q (name ∷ names) e = (e name, map-AreOf hook q names e)

register_all_hooks :
    (hook : String → ShutdownHook) (names : List String) (sm : ShutdownManager)
    → (register_all hook names sm).hooks ≡ sm.hooks ++ map hook names
unfolding register_all add_hook
register_all_hooks hook [] sm = sym (append-nil sm.hooks)
register_all_hooks hook (name ∷ names) sm =
    register_all_hooks hook names (add_hook (hook name) sm)
    ∙ append_assoc sm.hooks (hook name ∷ []) (map hook names)

-- The hooks in the order of their priorities.
abbrev pub in_order : ShutdownConfig → ResourceManager → List ShutdownHook
in_order c rm =
    one_if rm.has_http_server (http_server_hook c)
    ++ (map (worker_hook c) rm.workers
        ++ (map (optimizer_hook c) rm.optimizers
            ++ (map (watcher_hook c) rm.watchers
                ++ (one_if rm.has_db_pool (database_hook c)
                    ++ (one_if rm.has_redis_client (redis_hook c)
                        ++ map (external_hook c) rm.external_conns)))))

abbrev registered : ShutdownConfig → ResourceManager → List ShutdownHook
registered c rm =
    one_if rm.has_http_server (http_server_hook c)
    ++ (one_if rm.has_db_pool (database_hook c)
        ++ (one_if rm.has_redis_client (redis_hook c)
            ++ (map (worker_hook c) rm.workers
                ++ (map (external_hook c) rm.external_conns
                    ++ (map (optimizer_hook c) rm.optimizers
                        ++ map (watcher_hook c) rm.watchers)))))

register_if_hooks :
    (set : Bool) (h : ShutdownHook) (sm : ShutdownManager)
    → (register_if set h sm).hooks ≡ sm.hooks ++ one_if set h
unfolding register_if
register_if_hooks true h sm = refl
register_if_hooks false h sm = sym (append-nil sm.hooks)

register_resource_manager_hooks :
    (rm : ResourceManager) (c : ShutdownConfig)
    → (register_resource_manager rm (new_shutdown_manager c)).hooks ≡ registered c rm
unfolding register_resource_manager new_shutdown_manager
register_resource_manager_hooks rm c = simp (register_all_hooks, register_if_hooks, append_assoc)

regroup :
    (p : ℤ) (h d r w e o v : List ShutdownHook)
    → (if same (pos 1) p then h else [])
        ++ ((if same (pos 3) p then d else [])
            ++ ((if same (pos 3) p then r else [])
                ++ ((if same (pos 2) p then w else [])
                    ++ ((if same (pos 4) p then e else [])
                        ++ ((if same (pos 2) p then o else [])
                            ++ (if same (pos 2) p then v else []))))))
      ≡ (if same (pos 1) p then h else [])
        ++ ((if same (pos 2) p then w else [])
            ++ ((if same (pos 2) p then o else [])
                ++ ((if same (pos 2) p then v else [])
                    ++ ((if same (pos 3) p then d else [])
                        ++ ((if same (pos 3) p then r else [])
                            ++ (if same (pos 4) p then e else []))))))
regroup p h d r w e o v = ground (arith, append-nil v, append-nil e)

of_priority-registered :
    (c : ShutdownConfig) (rm : ResourceManager) (p : ℤ)
    → of_priority p (registered c rm) ≡ of_priority p (in_order c rm)
unfolding http_server_hook database_hook redis_hook worker_hook external_hook optimizer_hook
    watcher_hook
of_priority-registered c rm p =
    simp
      (
        of_priority-append,
        of_priority-AreOf p 1 _ (one_if-AreOf rm.has_http_server 1 (http_server_hook c) refl),
        of_priority-AreOf p 3 _ (one_if-AreOf rm.has_db_pool 3 (database_hook c) refl),
        of_priority-AreOf p 3 _ (one_if-AreOf rm.has_redis_client 3 (redis_hook c) refl),
        of_priority-AreOf p 2 _ (map-AreOf (worker_hook c) 2 rm.workers (λ name. refl)),
        of_priority-AreOf p 2 _ (map-AreOf (optimizer_hook c) 2 rm.optimizers (λ name. refl)),
        of_priority-AreOf p 2 _ (map-AreOf (watcher_hook c) 2 rm.watchers (λ name. refl)),
        of_priority-AreOf p 4 _ (map-AreOf (external_hook c) 4 rm.external_conns (λ name. refl)),
      )
      (regroup p _ _ _ _ _ _ _)

in_order-IsSorted : (c : ShutdownConfig) (rm : ResourceManager) → IsSorted (in_order c rm)
unfolding http_server_hook database_hook redis_hook worker_hook external_hook optimizer_hook
    watcher_hook
in_order-IsSorted c rm =
    let four : IsSorted (map (external_hook c) rm.external_conns)
        × AtLeast 4 (map (external_hook c) rm.external_conns) =
      rw append-nil at (
        AreOf-append 4 (map (external_hook c) rm.external_conns) []
          (map-AreOf (external_hook c) 4 rm.external_conns (λ name. refl)) (tt, tt)) in
    let three = AreOf-append 3 _ _ (one_if-AreOf rm.has_db_pool 3 (database_hook c) refl) (
      AreOf-append_below 3 4 _ _ (omega arith)
        (one_if-AreOf rm.has_redis_client 3 (redis_hook c) refl) four) in
    let two = AreOf-append 2 _ _ (map-AreOf (worker_hook c) 2 rm.workers (λ name. refl)) (
      AreOf-append 2 _ _ (map-AreOf (optimizer_hook c) 2 rm.optimizers (λ name. refl)) (
        AreOf-append_below 2 3 _ _ (omega arith)
          (map-AreOf (watcher_hook c) 2 rm.watchers (λ name. refl)) three)) in
    (AreOf-append_below 1 2 _ _ (omega arith)
      (one_if-AreOf rm.has_http_server 1 (http_server_hook c) refl) two).0

-- A new manager on which a resource manager is registered holds after the sort the HTTP server's hook,
-- then those of the workers, the optimizers and the watchers, each group as it was added, then those of the
-- database, of Redis, and of the external connections; where a single resource is not set, its hook is missing.
pub register_resource_manager_order :
    (rm : ResourceManager) (c : ShutdownConfig)
    → (sort_hooks_by_priority (register_resource_manager rm (new_shutdown_manager c))).hooks
      ≡ in_order c rm
register_resource_manager_order rm c =
    let sm = register_resource_manager rm (new_shutdown_manager c) in
    let (sorted, stable) = sort_hooks_by_priority_lem sm in
    IsSorted-unique (sort_hooks_by_priority sm).hooks (in_order c rm) sorted
      (in_order-IsSorted c rm)
      λ p.
        stable p
        ∙ ap (of_priority p) (register_resource_manager_hooks rm c)
        ∙ of_priority-registered c rm p
