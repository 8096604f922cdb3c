-- ===== src/Bookings/Saga.antt =====
-- flydesk/bookings/saga.py: a saga runs its steps forward and compensates the completed ones in
-- reverse when one fails. An action changes the state `S`, the context and the world behind it.
pub mod Laws
pub mod Steps
pub mod Booking
use mathlib.Core.List.{reverse}
use fly_desk.Prelude.{String, Bool, true, false, Option, none, some, List, [], ◌∷◌, ◌++◌}
use fly_desk.Errors.{Exception, is_exception, Outcome, returned, raised}

-- An action returns nothing.
abbrev pub Ended : Type 0
Ended = Outcome (Unit {0})

abbrev pub Action : Type 0 → Type 0
Action S = S → Ended × S

pub record SagaStep (S : Type 0) : Type 0 where
  pub name : String
  pub action : Action S
  pub compensation : Option (Action S)

-- How a run ends: with its context, with `SagaError(step, original)`, or with an exception that
-- `except Exception` lets through.
pub data SagaResult : Type 0 where
  finished : SagaResult
  saga_error : String → Exception → SagaResult
  escaped : Exception → SagaResult

-- `raise SagaError`, once the compensation has ended.
abbrev pub failed : String → Exception → Ended → SagaResult
failed name exc (returned _) = saga_error name exc
failed name exc (raised e) = escaped e

module _ {S : Type 0} where
  -- The loop of `Saga._compensate`, over the reversed list. A failing compensation is logged only.
  unfoldable pub compensate : List (SagaStep S) → S → Ended × S
  compensate [] s = (returned tt, s)
  compensate (step ∷ rest) s = elim step.compensation [
    | none ↦ compensate rest s
    | some compensation ↦
        let (r, s') = compensation s in
        elim r [
          | returned _ ↦ compensate rest s'
          | raised e ↦ elim (is_exception e) [ true ↦ compensate rest s' | false ↦ (raised e, s') ]
        ]
  ]

  -- What `except Exception` does to the exception of a step.
  unfoldable pub fail : SagaStep S → List (SagaStep S) → Exception → S → SagaResult × S
  unfolding compensate
  fail step completed exc s = elim (is_exception exc) [
    | true ↦ let (r, s') = compensate (reverse completed) s in (failed step.name exc r, s')
    | false ↦ (escaped exc, s)
  ]

  -- The loop of `Saga.run`.
  unfoldable pub run_steps : List (SagaStep S) → List (SagaStep S) → S → SagaResult × S
  unfolding fail
  run_steps [] completed s = (finished, s)
  run_steps (step ∷ rest) completed s =
      let (r, s') = step.action s in
      elim r [
        | returned _ ↦ run_steps rest (completed ++ step ∷ []) s'
        | raised exc ↦ fail step completed exc s'
      ]

  -- `Saga.run`
  unfoldable pub run : List (SagaStep S) → S → SagaResult × S
  unfolding run_steps
  run steps s = run_steps steps [] s
