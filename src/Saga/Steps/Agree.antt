-- ===== src/Saga/Steps/Agree.antt =====
-- Two lists of steps that cannot be told apart on the states of a run.
use hotel_reviews_microservi.Base.{
  ℕ, zero, suc, ◌≡◌, refl, ◌⊎◌, inl, inr, none, some, List, [], ◌∷◌, get_elem?, arith,
}
use hotel_reviews_microservi.Saga.Types.{SagaStep}
use hotel_reviews_microservi.Saga.Steps.{compensate_steps, run_steps, execute_steps}

module _ {ℓ κ} {S : Type ℓ} (Holds : S → Type κ) where
  -- The steps have one name and one compensation, and on the states of the predicate they do the same,
  -- and keep the predicate.
  pub record Agrees (x y : SagaStep S) : Type (ℓ ⊔ κ) where
    pub same_id : x.step_id ≡ y.step_id
    pub same_compensate : (s : S) → x.compensate s ≡ y.compensate s
    pub same_execute : (s : S) → Holds s → x.execute s ≡ y.execute s
    pub keeps : (s : S) → Holds s → Holds (x.execute s).0

  pub data AllAgree : List (SagaStep S) → List (SagaStep S) → Type (ℓ ⊔ κ) where
    nothing : AllAgree [] []
    both :
        {x y : SagaStep S} {xs ys : List (SagaStep S)}
        → Agrees x y
        → AllAgree xs ys
        → AllAgree (x ∷ xs) (y ∷ ys)

  get_elem?-agree :
      (xs ys : List (SagaStep S)) (i : ℕ)
      → AllAgree xs ys
      → ((get_elem? xs i ≡ none) × (get_elem? ys i ≡ none))
        ⊎ ((x y : SagaStep S) × (get_elem? xs i ≡ some x) × (get_elem? ys i ≡ some y) × Agrees x y)
  get_elem?-agree [] [] i nothing = inl (refl, refl)
  get_elem?-agree [] (y ∷ ys) i a = elim a [ ]
  get_elem?-agree (x ∷ xs) [] i a = elim a [ ]
  get_elem?-agree (x ∷ xs) (y ∷ ys) zero (both a b) = inr (x, y, refl, refl, a)
  get_elem?-agree (x ∷ xs) (y ∷ ys) (suc i) (both a b) = get_elem?-agree xs ys i b

  compensate_steps-agree :
      (xs ys : List (SagaStep S)) (i : ℕ) (s : S)
      → AllAgree xs ys
      → compensate_steps xs i s ≡ compensate_steps ys i s
  unfolding compensate_steps
  compensate_steps-agree xs ys zero s a = refl
  compensate_steps-agree xs ys (suc i) s a = elim (get_elem?-agree xs ys i a) [
    | inl (p, q) ↦ ground arith
    | inr (x, y, p, q, g) ↦
        ground (arith, g.same_compensate s, compensate_steps-agree xs ys i (x.compensate s).0 a)
  ]

  run_steps-agree :
      (all_x all_y xs ys : List (SagaStep S)) (i : ℕ) (s : S)
      → AllAgree all_x all_y
      → AllAgree xs ys
      → Holds s
      → run_steps all_x xs i s ≡ run_steps all_y ys i s
  unfolding run_steps
  run_steps-agree all_x all_y [] [] i s a nothing h = refl
  run_steps-agree all_x all_y [] (y ∷ ys) i s a b h = elim b [ ]
  run_steps-agree all_x all_y (x ∷ xs) [] i s a b h = elim b [ ]
  run_steps-agree all_x all_y (x ∷ xs) (y ∷ ys) i s a (both g b) h =
      let kept = g.keeps s h in
      ground (
        arith,
        g.same_id,
        g.same_execute s h,
        run_steps-agree all_x all_y xs ys (suc i) (x.execute s).0 a b kept,
        compensate_steps-agree all_x all_y i (x.execute s).0 a,
      )

  -- Lists of steps that agree end in the same way.
  pub execute_steps-agree :
      (xs ys : List (SagaStep S)) (s : S)
      → AllAgree xs ys
      → Holds s
      → execute_steps xs s ≡ execute_steps ys s
  unfolding execute_steps
  execute_steps-agree xs ys s a h = run_steps-agree xs ys xs ys 0 s a a h
