-- ===== src/Bookings/Saga/Steps.antt =====
-- One round of each loop of flydesk/bookings/saga.py.
use mathlib.Core.List.{reverse}
use fly_desk.Prelude.{◌≡◌, ap, true, some, List, [], ◌∷◌, ◌++◌}
use fly_desk.Errors.{Exception, is_exception, returned, raised}
use fly_desk.Bookings.Saga.{Ended, Action, SagaStep, compensate, failed, fail, run_steps}

-- A call that succeeds, or fails with what `except Exception` catches.
abbrev pub IsCaught : Ended → Type 0
IsCaught (returned _) = Unit
IsCaught (raised e) = is_exception e ≡ true

module _ {S : Type 0} where
  pub round_done :
      (step : SagaStep S) (rest completed : List (SagaStep S)) (s s' : S)
      → step.action s ≡ (returned tt, s')
      → run_steps (step ∷ rest) completed s ≡ run_steps rest (completed ++ step ∷ []) s'
  unfolding run_steps
  round_done step rest completed s s' e =
      rw (e, run_steps) (ap (λ (x : Ended × S). run_steps rest (completed ++ step ∷ []) x.1) e)

  pub round_failed :
      (step : SagaStep S) (rest completed : List (SagaStep S)) (s s' : S) (exc : Exception)
      → step.action s ≡ (raised exc, s')
      → is_exception exc ≡ true
      → run_steps (step ∷ rest) completed s
        ≡ (let (r, u) = compensate (reverse completed) s' in (failed step.name exc r, u))
  unfolding run_steps fail
  round_failed step rest completed s s' exc e caught =
      rw (e, run_steps, fail, caught)
        (ap
          (λ (x : Ended × S).
            let (r, u) = compensate (reverse completed) x.1 in (failed step.name exc r, u))
          e)

  pub compensated :
      (step : SagaStep S) (rest : List (SagaStep S)) (c : Action S) (s s' : S) (r : Ended)
      → step.compensation ≡ some c
      → c s ≡ (r, s')
      → IsCaught r
      → compensate (step ∷ rest) s ≡ compensate rest s'
  unfolding compensate
  compensated step rest c s s' (returned _) has e fine =
      rw (has, e, compensate) (ap (λ (x : Ended × S). compensate rest x.1) e)
  compensated step rest c s s' (raised exc) has e fine =
      rw (has, e, compensate, fine) (ap (λ (x : Ended × S). compensate rest x.1) e)
