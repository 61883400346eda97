-- ===== src/Shutdown/Sort.antt =====
-- `sortHooksByPriority`: the bubble sort, and that it is a stable sort.
use hotel_reviews_microservi.Base.{
  ℕ, zero, suc, ◌-◌, ◌≤◌, ◌≡◌, refl, sym, subst, Bool, List, [], ◌∷◌, if◌then◌else◌, length, All,
  arith, Bool-cases, inl, inr,
}
use hotel_reviews_microservi.Shutdown.Types.{ℤ, above, same, ◌≤ℤ◌, ShutdownHook, ShutdownManager}

-- The inner `for`, from an index on: `k` comparisons of neighbours are left.
unfoldable pub bubble_pass : ℕ → List ShutdownHook → List ShutdownHook
bubble_pass (suc k) (x ∷ y ∷ hooks) =
    let swap = above x.priority y.priority in
    (if swap then y else x) ∷ bubble_pass k ((if swap then x else y) ∷ hooks)
bubble_pass _ hooks = hooks

-- The outer `for`: its first pass left makes `k` comparisons, and each pass one fewer.
unfoldable pub bubble_sort : ℕ → List ShutdownHook → List ShutdownHook
bubble_sort zero hooks = hooks
bubble_sort (suc k) hooks = bubble_sort k (bubble_pass (suc k) hooks)

unfoldable pub sort_hooks_by_priority : ShutdownManager → ShutdownManager
unfolding bubble_sort
sort_hooks_by_priority sm = record sm { hooks = bubble_sort (length sm.hooks - 1) sm.hooks }

-- The hooks of one priority, in their order.
abbrev pub of_priority : ℤ → List ShutdownHook → List ShutdownHook
of_priority p [] = []
of_priority p (h ∷ hooks) =
    let rest = of_priority p hooks in if same h.priority p then h ∷ rest else rest

bubble_pass-of_priority :
    (p : ℤ) (k : ℕ) (hooks : List ShutdownHook)
    → of_priority p (bubble_pass k hooks) ≡ of_priority p hooks
unfolding bubble_pass
bubble_pass-of_priority p (suc k) (x ∷ y ∷ hooks) =
    elim (Bool-cases (above x.priority y.priority)) [
      | inl swap ↦ ground (arith, bubble_pass-of_priority p k (x ∷ hooks))
      | inr kept ↦ ground (arith, bubble_pass-of_priority p k (y ∷ hooks))
    ]
bubble_pass-of_priority p zero hooks = refl
bubble_pass-of_priority p (suc k) [] = refl
bubble_pass-of_priority p (suc k) (x ∷ []) = refl

-- The sort keeps the hooks of each priority, and their order.
bubble_sort-of_priority :
    (p : ℤ) (k : ℕ) (hooks : List ShutdownHook)
    → of_priority p (bubble_sort k hooks) ≡ of_priority p hooks
unfolding bubble_sort
bubble_sort-of_priority p zero hooks = refl
bubble_sort-of_priority p (suc k) hooks = rw (
  bubble_sort-of_priority p k (bubble_pass (suc k) hooks),
  bubble_pass-of_priority p (suc k) hooks,
)

abbrev pub IsBefore : ShutdownHook → ShutdownHook → Type 0
IsBefore a b = a.priority ≤ℤ b.priority

-- Each hook's priority is at most that of every later one.
abbrev pub IsSorted : List ShutdownHook → Type 0
IsSorted [] = Unit {0}
IsSorted (h ∷ hooks) = All (IsBefore h) hooks × IsSorted hooks

abbrev drop : ℕ → List ShutdownHook → List ShutdownHook
drop zero hooks = hooks
drop (suc k) [] = []
drop (suc k) (h ∷ hooks) = drop k hooks

-- From an index on the list is sorted, and nothing before it belongs after.
abbrev IsSettled : ℕ → List ShutdownHook → Type 0
IsSettled zero hooks = IsSorted hooks
IsSettled (suc k) [] = Unit {0}
IsSettled (suc k) (h ∷ hooks) = All (IsBefore h) (drop k hooks) × IsSettled k hooks

drop-nil : (k : ℕ) (hooks : List ShutdownHook) → length hooks ≤ k → drop k hooks ≡ []
drop-nil zero [] h = refl
drop-nil zero (x ∷ hooks) h = absurd (omega arith)
drop-nil (suc k) [] h = refl
drop-nil (suc k) (x ∷ hooks) h = drop-nil k hooks (omega arith)

All-IsBefore :
    (a b : ShutdownHook) (hooks : List ShutdownHook)
    → IsBefore a b
    → All (IsBefore b) hooks
    → All (IsBefore a) hooks
All-IsBefore a b [] h all = tt
All-IsBefore a b (x ∷ hooks) h all = (omega arith, All-IsBefore a b hooks h all.1)

-- A pass carries the largest of the hooks that it compares to the place after them.
bubble_pass-carries :
    (a z : ShutdownHook) (k : ℕ) (hooks : List ShutdownHook)
    → IsBefore a z
    → All (IsBefore a) (drop k hooks)
    → All (IsBefore a) (drop k (bubble_pass k (z ∷ hooks)))
unfolding bubble_pass
bubble_pass-carries a z zero hooks h all = (h, all)
bubble_pass-carries a z (suc zero) [] h all = tt
bubble_pass-carries a z (suc (suc k)) [] h all = tt
bubble_pass-carries a z (suc k) (y ∷ hooks) h all =
    elim (Bool-cases (above z.priority y.priority)) [
      | inl swap ↦ rw swap (bubble_pass-carries a z k hooks h all)
      | inr kept ↦ rw kept (bubble_pass-carries a y k hooks (ground arith) all)
    ]

bubble_pass-IsSettled :
    (k : ℕ) (hooks : List ShutdownHook)
    → IsSettled (suc (suc k)) hooks
    → IsSettled (suc k) (bubble_pass (suc k) hooks)
unfolding bubble_pass
bubble_pass-IsSettled k [] s = tt
bubble_pass-IsSettled zero (x ∷ []) s = s
bubble_pass-IsSettled (suc k) (x ∷ []) s = (tt, tt)
bubble_pass-IsSettled zero (x ∷ y ∷ hooks) (ax, (ay, s)) =
    let Goal : Bool → Type 0 =
      λ b. IsSettled 1 ((if b then y else x) ∷ (if b then x else y) ∷ hooks) in
    elim (Bool-cases (above x.priority y.priority)) [
      | inl swap ↦ subst Goal (sym swap) ((ground arith, ay), (ax, s))
      | inr kept ↦ subst Goal (sym kept) ((ground arith, ax), (ay, s))
    ]
bubble_pass-IsSettled (suc k) (x ∷ y ∷ hooks) (ax, (ay, s)) =
    let Goal : Bool → Type 0 = λ b.
      IsSettled (suc (suc k))
        ((if b then y else x) ∷ bubble_pass (suc k) ((if b then x else y) ∷ hooks)) in
    elim (Bool-cases (above x.priority y.priority)) [
      | inl swap ↦ subst Goal (sym swap) (
        bubble_pass-carries y x (suc k) hooks (ground arith) ay,
        bubble_pass-IsSettled k (x ∷ hooks) (ax, s),
      )
      | inr kept ↦ subst Goal (sym kept) (
        bubble_pass-carries x y (suc k) hooks (ground arith) ax,
        bubble_pass-IsSettled k (y ∷ hooks) (ay, s),
      )
    ]

bubble_sort-IsSorted :
    (k : ℕ) (hooks : List ShutdownHook) → IsSettled (suc k) hooks → IsSorted (bubble_sort k hooks)
unfolding bubble_sort
bubble_sort-IsSorted zero [] s = tt
bubble_sort-IsSorted zero (h ∷ hooks) s = s
bubble_sort-IsSorted (suc k) hooks s =
    bubble_sort-IsSorted k (bubble_pass (suc k) hooks) (bubble_pass-IsSettled k hooks s)

IsSettled-of_length : (k : ℕ) (hooks : List ShutdownHook) → length hooks ≤ k → IsSettled k hooks
IsSettled-of_length zero [] h = tt
IsSettled-of_length zero (x ∷ hooks) h = absurd (omega arith)
IsSettled-of_length (suc k) [] h = tt
IsSettled-of_length (suc k) (x ∷ hooks) h = (
  subst (All (IsBefore x)) (sym (drop-nil k hooks (omega arith))) tt,
  IsSettled-of_length k hooks (omega arith),
)

-- After `sortHooksByPriority` every hook's priority is at most that of each later hook, and for each priority
-- the hooks that have it are the hooks that had it before the sort, in the same order.
pub sort_hooks_by_priority_lem :
    (sm : ShutdownManager)
    → IsSorted (sort_hooks_by_priority sm).hooks
      × ((p : ℤ) → of_priority p (sort_hooks_by_priority sm).hooks ≡ of_priority p sm.hooks)
unfolding sort_hooks_by_priority
sort_hooks_by_priority_lem sm = (
  bubble_sort-IsSorted (length sm.hooks - 1) sm.hooks
      (IsSettled-of_length (suc (length sm.hooks - 1)) sm.hooks (omega arith)),
  λ p. bubble_sort-of_priority p (length sm.hooks - 1) sm.hooks,
)
