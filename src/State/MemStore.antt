-- ===== src/State/MemStore.antt =====
-- internal/orchestrator/state/mem_store.go. Each operation holds the lock throughout, so it is one
-- step on the three maps. A deep copy of a value without pointers is the value itself.
pub mod Laws
use ktsu.Prelude.{
  String, Bool, true, false, Option, none, some, List, [], ◌∷◌, str_eq, if◌then◌else◌,
}
use Prim.Native.String.{◌++◌}
use ktsu.Prelude.Map.{Map, lookup, insert}
use ktsu.State.Records.{Run, Step, Approval}
use ktsu.State.Status
use ktsu.State.Json.{copy_payload}

pub record MemStore (R : Type 0) : Type 0 where
  pub runs : Map Run
  pub steps : Map (Map Step)
  pub approvals : Map (Approval R)

pub data StoreError : Type 0 where
  run_not_found run_already_exists step_not_found : StoreError
  step_already_exists approval_not_found approval_already_exists : StoreError

-- The two results of a Go function (T, error).
pub data Result {ℓ} (A : Type ℓ) : Type ℓ where
  ok : A → Result A
  err : StoreError → Result A

unfoldable pub copy_run : Run → Run
copy_run r = record r { payload = copy_payload r.payload }

abbrev pub or_empty {ℓ} : {V : Type ℓ} → Option (Map V) → Map V
or_empty none = []
or_empty (some m) = m

abbrev pub values_of {ℓ} : {V : Type ℓ} → Map V → List V
values_of [] = []
values_of ((k, v) ∷ m) = v ∷ values_of m

-- How `for _, v := range m` visits the values of a map. Go leaves the order open and takes a new one for
-- each loop, so it is a parameter of each operation with such a loop.
abbrev pub Range {ℓ} : Type ℓ → Type ℓ
Range V = Map V → List V

-- approval.RunID + "/" + approval.StepID
unfoldable pub approval_key : String → String → String
approval_key run_id step_id = run_id ++ ("/" ++ step_id)

module _ {R : Type 0} where
  abbrev pub new_mem_store : MemStore R
  new_mem_store = record { runs = []; steps = []; approvals = [] }

  -- CreateRun(run)
  unfoldable pub create_run : Run → MemStore R → Result (Unit {0}) × MemStore R
  create_run run m = elim (lookup run.id m.runs) [
    | some _ ↦ (err run_already_exists, m)
    | none ↦ (ok tt, record m { runs = insert run.id (copy_run run) m.runs })
  ]

  -- UpdateRun(run)
  unfoldable pub update_run : Run → MemStore R → Result (Unit {0}) × MemStore R
  update_run run m = elim (lookup run.id m.runs) [
    | none ↦ (err run_not_found, m)
    | some _ ↦ (ok tt, record m { runs = insert run.id (copy_run run) m.runs })
  ]

  -- GetRun(runID)
  unfoldable pub get_run : String → MemStore R → Result Run
  get_run run_id m = elim (lookup run_id m.runs) [
    | none ↦ err run_not_found
    | some r ↦ ok (copy_run r)
  ]

  -- steps[runID], a nil map where the run has none.
  abbrev pub steps_of : String → MemStore R → Map Step
  steps_of run_id m = or_empty (lookup run_id m.steps)

  -- CreateStep(step): the inner map is made before the test, also where the test then fails.
  unfoldable pub create_step : Step → MemStore R → Result (Unit {0}) × MemStore R
  create_step step m = elim (lookup step.id (steps_of step.run_id m)) [
    | some _ ↦ (
      err step_already_exists,
      record m { steps = insert step.run_id (steps_of step.run_id m) m.steps },
    )
    | none ↦ (
      ok tt,
      record m {
        steps = insert step.run_id (insert step.id step (steps_of step.run_id m)) m.steps;
      },
    )
  ]

  -- UpdateStep(step): the two tests give the same error.
  unfoldable pub update_step : Step → MemStore R → Result (Unit {0}) × MemStore R
  update_step step m = elim (lookup step.id (steps_of step.run_id m)) [
    | none ↦ (err step_not_found, m)
    | some _ ↦ (
      ok tt,
      record m {
        steps = insert step.run_id (insert step.id step (steps_of step.run_id m)) m.steps;
      },
    )
  ]

  -- GetStep(runID, stepID)
  unfoldable pub get_step : String → String → MemStore R → Result Step
  get_step run_id step_id m = elim (lookup step_id (steps_of run_id m)) [
    | none ↦ err step_not_found
    | some s ↦ ok s
  ]

  -- ListSteps(runID)
  unfoldable pub list_steps : Range Step → String → MemStore R → List Step
  list_steps range run_id m = range (steps_of run_id m)

  -- CreateApproval(approval)
  unfoldable pub create_approval : Approval R → MemStore R → Result (Unit {0}) × MemStore R
  create_approval a m = elim (lookup (approval_key a.run_id a.step_id) m.approvals) [
    | some _ ↦ (err approval_already_exists, m)
    | none ↦
        (ok tt, record m { approvals = insert (approval_key a.run_id a.step_id) a m.approvals })
  ]

  -- GetApproval(runID, stepID)
  unfoldable pub get_approval : String → String → MemStore R → Result (Approval R)
  get_approval run_id step_id m = elim (lookup (approval_key run_id step_id) m.approvals) [
    | none ↦ err approval_not_found
    | some a ↦ ok a
  ]

  abbrev pub pending_among : List (Approval R) → List (Approval R)
  pending_among [] = []
  pending_among (a ∷ rest) =
      let others = pending_among rest in
      if str_eq a.status Status.pending then a ∷ others else others

  -- ListPendingApprovals()
  unfoldable pub list_pending_approvals : Range (Approval R) → MemStore R → List (Approval R)
  list_pending_approvals range m = pending_among (range m.approvals)

  -- UpdateApproval(approval)
  unfoldable pub update_approval : Approval R → MemStore R → Result (Unit {0}) × MemStore R
  update_approval a m = elim (lookup (approval_key a.run_id a.step_id) m.approvals) [
    | none ↦ (err approval_not_found, m)
    | some _ ↦
        (ok tt, record m { approvals = insert (approval_key a.run_id a.step_id) a m.approvals })
  ]
