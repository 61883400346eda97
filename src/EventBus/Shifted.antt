-- ===== src/EventBus/Shifted.antt =====
-- A publication that an end of a subscription interrupts. `Publish` reads the slice of handlers under the lock and
-- ranges over it afterwards, in the array that `Unsubscribe` shifts.
use hotel_reviews_microservi.Base.{
  ℕ, zero, suc, ◌+◌, ◌≡◌, refl, ap, true, false, List, [], ◌∷◌, ◌++◌, arith, length, length-append,
  if◌then◌else◌, ◌==◌,
}
use mathlib.Core.List.{append_assoc}
use hotel_reviews_microservi.Saga.Types.{EventType}
use hotel_reviews_microservi.EventBus.Bus.{
  same_type, MemoryEventBus, remove_handler, unsubscribe_types, unsubscribe, publish,
}
use hotel_reviews_microservi.EventBus.Subscriptions.{contains}

-- `append(handlers[:i], handlers[i+1:]...)` on the array: what stands after the index moves down, and the last
-- place keeps what it had.
unfoldable pub shift_down : ℕ → List ℕ → List ℕ
shift_down i [] = []
shift_down i (x ∷ []) = x ∷ []
shift_down zero (x ∷ y ∷ array) = y ∷ shift_down zero (y ∷ array)
shift_down (suc i) (x ∷ y ∷ array) = x ∷ shift_down i (y ∷ array)

-- The array after the inner loop of `Unsubscribe`, whose slice is one shorter then.
unfoldable pub array_after : ℕ → List ℕ → List ℕ
array_after h [] = []
array_after h (x ∷ hs) = if x == h then shift_down 0 (x ∷ hs) else x ∷ array_after h hs

-- The handlers that the range of `Publish` still calls in the array, where it has called the first ones.
abbrev pub calls_from : ℕ → List ℕ → List ℕ
calls_from zero array = array
calls_from (suc j) [] = []
calls_from (suc j) (x ∷ array) = calls_from j array

-- The handler in the last place.
abbrev pub last_of : ℕ → List ℕ → ℕ
last_of x [] = x
last_of x (y ∷ array) = last_of y array

shift_down-first :
    (x : ℕ) (array : List ℕ) → shift_down 0 (x ∷ array) ≡ array ++ last_of x array ∷ []
unfolding shift_down
shift_down-first x [] = refl
shift_down-first x (y ∷ array) = ap (◌∷◌ y) (shift_down-first y array)

array_after-found :
    (h : ℕ) (before after : List ℕ)
    → contains h before ≡ false
    → array_after h (before ++ h ∷ after) ≡ before ++ (after ++ last_of h after ∷ [])
unfolding array_after
array_after-found h [] after new =
    let self : h == h ≡ true = ground arith in rw self (shift_down-first h after)
array_after-found h (x ∷ before) after new = ground (arith, array_after-found h before after)

remove_handler-found :
    (h : ℕ) (before after : List ℕ)
    → contains h before ≡ false
    → remove_handler h (before ++ h ∷ after) ≡ before ++ after
remove_handler-found h [] after new = ground arith
remove_handler-found h (x ∷ before) after new = ground (arith, remove_handler-found h before after)

calls_from-append :
    (n : ℕ) (xs ys : List ℕ) → calls_from (length xs + n) (xs ++ ys) ≡ calls_from n ys
calls_from-append n [] ys = let e : 0 + n ≡ n = omega arith in ap (λ (k : ℕ). calls_from k ys) e
calls_from-append n (x ∷ xs) ys =
    let e : suc (length xs) + n ≡ suc (length xs + n) = omega arith in
    rw e (calls_from-append n xs ys)

calls_from-past : (y : ℕ) (xs ys : List ℕ) → calls_from (suc (length xs)) (xs ++ y ∷ ys) ≡ ys
calls_from-past y [] ys = refl
calls_from-past y (x ∷ xs) ys = calls_from-past y xs ys

last_of-append : (x y : ℕ) (xs ys : List ℕ) → last_of x (xs ++ y ∷ ys) ≡ last_of y ys
last_of-append x y [] ys = refl
last_of-append x y (z ∷ xs) ys = last_of-append z y xs ys

unsubscribe-publish :
    (types : ℕ → List EventType) (h : ℕ) (t : EventType) (bus : MemoryEventBus)
    → types h ≡ t ∷ []
    → publish t (unsubscribe types h bus) ≡ remove_handler h (publish t bus)
unfolding publish unsubscribe unsubscribe_types
unsubscribe-publish types h t bus only =
    let self : same_type t t ≡ true = ground arith in simp (only, unsubscribe_types, self)

-- A publication has still to call `next`, `x` and perhaps others, when a handler that it has called, and that handles
-- this type alone, is unsubscribed. `next` stays subscribed, but the publication goes on behind it, with `x`,
-- and calls the last handler once more at the end.
pub publish-unsubscribe :
    (types : ℕ → List EventType) (h : ℕ) (t : EventType) (bus : MemoryEventBus)
    (before between : List ℕ) (next x : ℕ) (after : List ℕ)
    → types h ≡ t ∷ []
    → publish t bus ≡ before ++ h ∷ (between ++ next ∷ x ∷ after)
    → contains h before ≡ false
    → (publish t (unsubscribe types h bus) ≡ before ++ (between ++ next ∷ x ∷ after))
      × (calls_from (length (before ++ h ∷ between)) (array_after h (publish t bus))
          ≡ (x ∷ after) ++ last_of x after ∷ [])
publish-unsubscribe types h t bus before between next x after only there new = (
  rw (unsubscribe-publish types h t bus only, there) (remove_handler-found h before _ new),
  rw
      (
        there,
        array_after-found h before (between ++ next ∷ x ∷ after) new,
        length-append before (h ∷ between),
        calls_from-append (suc (length between)) before
            ((between ++ next ∷ x ∷ after) ++ last_of h (between ++ next ∷ x ∷ after) ∷ []),
        last_of-append h next between (x ∷ after),
        append_assoc between (next ∷ x ∷ after) (last_of x after ∷ []),
      )
      (calls_from-past next between (x ∷ (after ++ last_of x after ∷ []))),
)
