-- ===== src/Bookings/Saga/Laws.antt =====
-- The saga of flydesk/bookings/saga.py against nested scopes.
use mathlib.Core.List.{reverse, reverse-append}
use fly_desk.Prelude.{
  ◌≡◌, refl, ap, ◌∙◌, String, Bool, true, false, Option, none, some, List, [], ◌∷◌, ◌++◌,
}
use fly_desk.Errors.{Exception, is_exception, returned, raised}
use fly_desk.Bookings.Saga.{
  Action, Ended, SagaStep, SagaResult, finished, saga_error, escaped, compensate, failed, fail,
  run_steps, run,
}

module _ {S : Type 0} where
  -- One compensation.
  pub undo : SagaStep S → S → Ended × S
  undo step s = elim step.compensation [
    | none ↦ (returned tt, s)
    | some compensation ↦
        let (r, s') = compensation s in
        elim r [
          | returned _ ↦ (returned tt, s')
          | raised e ↦ elim (is_exception e) [ true ↦ (returned tt, s') | false ↦ (raised e, s') ]
        ]
  ]

  -- What the end of a scope does when the inner part ends so.
  abbrev leave_failed : String → Exception → Ended × S → SagaResult × S
  leave_failed name exc (r, s) = (failed name exc r, s)

  abbrev leave : SagaStep S → SagaResult × S → SagaResult × S
  leave step (finished, s) = (finished, s)
  leave step (saga_error name exc, s) = leave_failed name exc (undo step s)
  leave step (escaped e, s) = (escaped e, s)

  abbrev begin_failed : String → Exception → Bool → S → SagaResult × S
  begin_failed name exc true s = (saga_error name exc, s)
  begin_failed name exc false s = (escaped exc, s)

  -- Each step as a scope round the later ones: when they fail, its compensation runs, then the
  -- failure goes on outward.
  pub nested : List (SagaStep S) → S → SagaResult × S
  nested [] s = (finished, s)
  nested (step ∷ rest) s =
      let (r, s') = step.action s in
      elim r [
        | returned _ ↦ leave step (nested rest s')
        | raised exc ↦ begin_failed step.name exc (is_exception exc) s'
      ]

  -- The compensations `l` that are still to run, after an inner part that ends so.
  abbrev outward : List (SagaStep S) → SagaResult × S → SagaResult × S
  outward l (finished, s) = (finished, s)
  outward l (saga_error name exc, s) = leave_failed name exc (compensate l s)
  outward l (escaped e, s) = (escaped e, s)

  outward-ended :
      (l : List (SagaStep S)) (name : String) (exc : Exception) (r : Ended) (s : S)
      → leave_failed name exc (elim r [
        | returned _ ↦ compensate l s
        | raised e ↦ elim (is_exception e) [ true ↦ compensate l s | false ↦ (raised e, s) ]
      ])
        ≡ outward l (
            leave_failed name exc (elim r [
              | returned _ ↦ (returned tt, s)
              | raised e ↦ elim (is_exception e) [ true ↦ (returned tt, s) | false ↦ (raised e, s) ]
            ]))
  outward-ended l name exc (returned _) s = refl
  outward-ended l name exc (raised e) s = go (is_exception e)
    where
      go :
          (b : Bool)
          → leave_failed name exc (elim b [ true ↦ compensate l s | false ↦ (raised e, s) ])
            ≡ outward l
                (leave_failed name exc (elim b [ true ↦ (returned tt, s) | false ↦ (raised e, s) ]))
      go true = refl
      go false = refl

  outward-leave :
      (l : List (SagaStep S)) (step : SagaStep S) (x : SagaResult × S)
      → outward (step ∷ l) x ≡ outward l (leave step x)
  unfolding compensate undo
  outward-leave l step (finished, s) = refl
  outward-leave l step (escaped e, s) = refl
  outward-leave l step (saga_error name exc, s) = go step.compensation
    where
      go :
          (o : Option (Action S))
          → let step' : SagaStep S = record step { compensation = o } in
            outward (step' ∷ l) (saga_error name exc, s)
            ≡ outward l (leave step' (saga_error name exc, s))
      go none = refl
      go (some c) = outward-ended l name exc (c s).0 (c s).1

  run_steps-nested :
      (steps completed : List (SagaStep S)) (s : S)
      → run_steps steps completed s ≡ outward (reverse completed) (nested steps s)
  unfolding run_steps nested fail
  run_steps-nested [] completed s = refl
  run_steps-nested (step ∷ rest) completed s =
      go (step.action s).0 (step.action s).1 (run_steps-nested rest (completed ++ step ∷ []))
    where
      begun :
          (exc : Exception) (s' : S) (b : Bool)
          → (elim b [
            | true ↦ leave_failed step.name exc (compensate (reverse completed) s')
            | false ↦ (escaped exc, s')
          ])
            ≡ outward (reverse completed) (begin_failed step.name exc b s')
      begun exc s' true = refl
      begun exc s' false = refl

      go :
          (r : Ended) (s' : S)
          → ((v : S)
              → run_steps rest (completed ++ step ∷ []) v
                ≡ outward (reverse (completed ++ step ∷ [])) (nested rest v))
          → (elim r [
            | returned _ ↦ run_steps rest (completed ++ step ∷ []) s'
            | raised exc ↦ fail step completed exc s'
          ])
            ≡ outward (reverse completed) (elim r [
              | returned _ ↦ leave step (nested rest s')
              | raised exc ↦ begin_failed step.name exc (is_exception exc) s'
            ])
      go (returned _) s' ih =
          ih s'
          ∙ ap (λ l. outward l (nested rest s')) (reverse-append completed (step ∷ []))
          ∙ outward-leave (reverse completed) step (nested rest s')
      go (raised exc) s' ih = begun exc s' (is_exception exc)

  outward-none : (x : SagaResult × S) → outward [] x ≡ x
  unfolding compensate
  outward-none (finished, s) = refl
  outward-none (saga_error name exc, s) = refl
  outward-none (escaped e, s) = refl

  -- Whatever the steps and their compensations do, a saga behaves as if each step were a scope round
  -- all later ones: a failure undoes exactly the completed steps, the last one first.
  pub run-nested : (steps : List (SagaStep S)) (s : S) → run steps s ≡ nested steps s
  unfolding run
  run-nested steps s = run_steps-nested steps [] s ∙ outward-none (nested steps s)
