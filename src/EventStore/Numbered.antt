-- ===== src/EventStore/Numbered.antt =====
-- The versions that the event store of internal/events/event_bus.go gives to the events of a stream.
use hotel_reviews_microservi.Base.{
  ℕ, suc, ◌+◌, ◌≡◌, ◌≢◌, refl, List, [], ◌∷◌, ◌++◌, length, All, arith, subst, subst,
}
use hotel_reviews_microservi.EventStore.{Heap, set_version, set_versions}

-- The address is not among the others.
abbrev pub IsOutside : ℕ → List ℕ → Type 0
IsOutside a = All λ b. b ≢ a

abbrev pub AllDistinct : List ℕ → Type 0
AllDistinct [] = Unit {0}
AllDistinct (a ∷ xs) = IsOutside a xs × AllDistinct xs

-- The events carry the versions `current + 1`, `current + 2` and so on.
abbrev pub Numbered : Heap → ℕ → List ℕ → Type 0
Numbered heap current [] = Unit {0}
Numbered heap current (a ∷ events) =
    ((heap a).version ≡ current + 1) × Numbered heap (suc current) events

pub set_versions-outside :
    (a : ℕ) (events : List ℕ) (current : ℕ) (heap : Heap)
    → IsOutside a events
    → set_versions current events heap a ≡ heap a
unfolding set_versions
set_versions-outside a [] current heap o = refl
set_versions-outside a (b ∷ events) current heap o =
    ground (
      arith,
      set_versions-outside a events (suc current) (set_version b (current + 1) heap) o.1,
      o.0,
    )

pub set_versions-Numbered :
    (events : List ℕ) (current : ℕ) (heap : Heap)
    → AllDistinct events
    → Numbered (set_versions current events heap) current events
unfolding set_versions
set_versions-Numbered [] current heap d = tt
set_versions-Numbered (a ∷ events) current heap (o, d) =
    let heap' = set_version a (current + 1) heap in
    (
      ground (arith, set_versions-outside a events (suc current) heap' o),
      set_versions-Numbered events (suc current) heap' d,
    )

pub set_versions-event :
    (events : List ℕ) (current : ℕ) (heap : Heap) (a : ℕ)
    → (set_versions current events heap a).event ≡ (heap a).event
unfolding set_versions
set_versions-event [] current heap a = refl
set_versions-event (b ∷ events) current heap a =
    ground (arith, set_versions-event events (suc current) (set_version b (current + 1) heap) a)

pub Numbered-append :
    (heap : Heap) (xs ys : List ℕ) (current : ℕ)
    → Numbered heap current xs
    → Numbered heap (current + length xs) ys
    → Numbered heap current (xs ++ ys)
Numbered-append heap [] ys current n m = subst (λ k. Numbered heap k ys) (omega arith) m
Numbered-append heap (a ∷ xs) ys current (e, n) m = (
  e,
  Numbered-append heap xs ys (suc current) n (subst (λ k. Numbered heap k ys) (omega arith) m),
)

pub All-append : (P : ℕ → Type 0) (xs ys : List ℕ) → All P xs → All P ys → All P (xs ++ ys)
All-append P [] ys a b = b
All-append P (x ∷ xs) ys (p, a) b = (p, All-append P xs ys a b)

pub All-split : (P : ℕ → Type 0) (xs ys : List ℕ) → All P (xs ++ ys) → All P xs × All P ys
All-split P [] ys a = (tt, a)
All-split P (x ∷ xs) ys (p, a) = let (b, c) = All-split P xs ys a in ((p, b), c)

pub AllDistinct-split :
    (xs ys : List ℕ)
    → AllDistinct (xs ++ ys)
    → AllDistinct xs × AllDistinct ys × All (λ a. IsOutside a ys) xs
AllDistinct-split [] ys d = (tt, d, tt)
AllDistinct-split (x ∷ xs) ys (o, d) =
    let (p, q, r) = AllDistinct-split xs ys d in
    let (o', o'') = All-split (λ b. b ≢ x) xs ys o in ((o', p), q, (o'', r))
