-- ===== src/Saga/Steps/Laws.antt =====
-- What `executeSteps` and `compensateSteps` do, as an independent description, which they implement.
use mathlib.Core.List.{reverse_aux, reverse-cons, reverse_aux-eq, reverse-reverse}
use hotel_reviews_microservi.Base.{
  ℕ, suc, ◌+◌, ◌≡◌, refl, sym, ap, subst, ◌∙◌, Option-cases, inl, inr, Option, none, some, List, [],
  ◌∷◌, ◌++◌, length, get_elem?, arith, reverse,
}
use hotel_reviews_microservi.Saga.Types.{
  completed, failed, SagaError, step_failed, Action, SagaStep, Saga, Returned, returned,
}
use hotel_reviews_microservi.Saga.Steps.{compensate_steps, run_steps, execute_steps, abort}

module _ {ℓ} {S : Type ℓ} where
  -- The steps succeed one after the other, from the first state to the second.
  abbrev pub Runs : List (SagaStep S) → S → S → Type ℓ
  Runs [] s t = s ≡ t
  Runs (step ∷ steps) s t = (m : S) × (step.execute s ≡ (m, none)) × Runs steps m t

  -- The compensations of the steps, in the order of the list, as far as the first error.
  abbrev pub unwind : List (SagaStep S) → Action S
  unwind [] s = (s, none)
  unwind (step ∷ steps) s =
      let (s', err) = step.compensate s in
      elim err [ none ↦ unwind steps s' | some e ↦ (s', some e) ]

  -- How the steps of a saga can end: all succeed; or the ones before some step succeed, that step
  -- fails, and the compensations of the ones before it follow, the last one first.
  pub data Outcome (steps : List (SagaStep S)) (s : S) : Returned (Saga S) → Type ℓ where
    completes :
        (t : S)
        → Runs steps s t
        → Outcome steps s (returned (record { status = completed; state = t }) none)
    aborts :
        (before after : List (SagaStep S)) (step : SagaStep S) (m m' : S) (e : SagaError)
        → steps ≡ before ++ (step ∷ after)
        → Runs before s m
        → step.execute m ≡ (m', some e)
        → Outcome steps s (
            returned
              (record { status = failed; state = (unwind (reverse before) m').0 })
              (some (step_failed step.step_id e)))

  get_elem?-reverse_aux :
      (done steps : List (SagaStep S)) (i : ℕ)
      → get_elem? (reverse_aux done steps) (length done + i) ≡ get_elem? steps i
  get_elem?-reverse_aux [] steps i = ap (get_elem? steps) (omega arith)
  get_elem?-reverse_aux (x ∷ done) steps i =
      ap (get_elem? (reverse_aux done (x ∷ steps))) (omega arith)
      ∙ get_elem?-reverse_aux done (x ∷ steps) (suc i)

  compensate_steps-reverse_aux :
      (done steps : List (SagaStep S)) (s : S)
      → compensate_steps (reverse_aux done steps) (length done) s
        ≡ returned (unwind done s).0 (unwind done s).1
  unfolding compensate_steps
  compensate_steps-reverse_aux [] steps s = refl
  compensate_steps-reverse_aux (step ∷ done) steps s = ground (
    arith,
    get_elem?-reverse_aux done (step ∷ steps) 0,
    compensate_steps-reverse_aux done (step ∷ steps) (step.compensate s).0,
  )

  length-reverse_aux :
      (xs ys : List (SagaStep S)) → length (reverse_aux xs ys) ≡ length xs + length ys
  length-reverse_aux [] ys = omega arith
  length-reverse_aux (x ∷ xs) ys = omega (arith, length-reverse_aux xs (x ∷ ys))

  -- All the compensations, as `handleSystemError` asks for them.
  pub compensate_steps-all :
      (steps : List (SagaStep S)) (s : S)
      → compensate_steps steps (length steps) s
        ≡ returned (unwind (reverse steps) s).0 (unwind (reverse steps) s).1
  compensate_steps-all steps s =
      let e : length (reverse steps) ≡ length steps = omega (arith, length-reverse_aux steps []) in
      rw (reverse-reverse steps, e) at (compensate_steps-reverse_aux (reverse steps) [] s)

  Runs-snoc :
      (steps : List (SagaStep S)) (step : SagaStep S) (s m t : S)
      → Runs steps s m
      → step.execute m ≡ (t, none)
      → Runs (steps ++ (step ∷ [])) s t
  Runs-snoc [] step s m t r e = (t, rw r e, refl)
  Runs-snoc (x ∷ steps) step s m t (m', e', r) e = (m', e', Runs-snoc steps step m' m t r e)

  abort-Outcome :
      (done todo : List (SagaStep S)) (step : SagaStep S) (s m m' : S) (x : SagaError)
      → Runs (reverse done) s m
      → step.execute m ≡ (m', some x)
      → Outcome
          (reverse_aux done (step ∷ todo))
          s
          (abort step.step_id x (returned (unwind done m').0 (unwind done m').1))
  abort-Outcome done todo step s m m' x r e =
      subst
        (λ (l : List (SagaStep S)).
          Outcome (reverse_aux done (step ∷ todo)) s
            (abort step.step_id x (returned (unwind l m').0 (unwind l m').1)))
        (reverse-reverse done)
        (aborts (reverse done) todo step m m' x (reverse_aux-eq done (step ∷ todo)) r e)

  run_steps-Outcome :
      (done todo : List (SagaStep S)) (s m : S)
      → Runs (reverse done) s m
      → Outcome (reverse_aux done todo) s (run_steps (reverse_aux done todo) todo (length done) m)
  unfolding run_steps
  run_steps-Outcome done [] s m r = completes m r
  run_steps-Outcome done (step ∷ todo) s m r =
      let m' = (step.execute m).0 in
      elim (Option-cases (step.execute m).1) [
        | inl e ↦ rw e (
            run_steps-Outcome (step ∷ done) todo s m' (
              subst (λ l. Runs l s m') (sym (reverse-cons step done))
                (Runs-snoc (reverse done) step s m m' r
                  (ap (λ (o : Option SagaError). (m', o)) e))))
        | inr (x, e) ↦
            rw (e, compensate_steps-reverse_aux done (step ∷ todo) m')
              (abort-Outcome done todo step s m m' x r (ap (λ (o : Option SagaError). (m', o)) e))
      ]

  -- The steps of a saga end as described: either all succeed, and the saga is completed without an
  -- error; or some step fails after the ones before it have succeeded, the compensations of exactly
  -- those are run, the last one first, as far as the first error, and the saga is failed, with the
  -- error of that step. In particular no call of a step is out of range.
  pub execute_steps-Outcome :
      (steps : List (SagaStep S)) (s : S) → Outcome steps s (execute_steps steps s)
  unfolding execute_steps
  execute_steps-Outcome steps s = run_steps-Outcome [] steps s s refl

  Outcome-Runs :
      (steps : List (SagaStep S)) (s : S) (r : Returned (Saga S)) (saga : Saga S)
      → Outcome steps s r
      → r ≡ returned saga none
      → Runs steps s saga.state
  Outcome-Runs steps s r saga (completes t runs) h = subst (Runs steps s) (cc) runs
  Outcome-Runs steps s r saga (aborts before after step m m' e eq runs x) h = cc

  -- Where the steps end without an error, all of them have succeeded.
  pub execute_steps-Runs :
      (steps : List (SagaStep S)) (s : S) (saga : Saga S)
      → execute_steps steps s ≡ returned saga none
      → Runs steps s saga.state
  execute_steps-Runs steps s saga h =
      Outcome-Runs steps s (execute_steps steps s) saga (execute_steps-Outcome steps s) h
