-- ===== src/State/Examples.antt =====
-- A store with one run and two steps, and what is read from it.
use mathlib.Core.List.{Perm}
use mathlib.Core.List.Perm
use ktsu.Prelude.{
  List, ◌++◌, ◌≤◌, length, ◌⊎◌, ℕ, String, ◌≡◌, refl, false, not, ◌&&◌, none, [], ◌∷◌, str_eq,
  if◌then◌else◌,
}
use ktsu.Prelude.Map.{lookup, insert}
use ktsu.Value.Float.{zero_float, float_add}
use ktsu.State.Records.{absent, Run, Step, StepMetrics, Approval}
use ktsu.State.Status
use ktsu.State.Json.{copy_payload}
use ktsu.State.MemStore.{
  MemStore, ok, err, run_not_found, run_already_exists, step_not_found, step_already_exists,
  approval_not_found, approval_already_exists, copy_run, new_mem_store, create_run, update_run,
  get_run, create_step, update_step, get_step, list_steps, approval_key, create_approval,
  get_approval, update_approval, values_of,
}
use ktsu.State.MemStore.Laws.{is_ok, run_writes, step_writes, approval_writes, approvals_collide}
use ktsu.State.Listing.{
  ListRunsFilter, matching, insert_run, sort_runs, list_runs, IsDescending, AreChosen,
  list_runs_lem,
}
use ktsu.State.Envelope.{
  Envelope, is_unfinished, entry_of, add_totals, add_step, add_steps, no_totals, get_envelope,
}

abbrev spent : ℕ → ℕ → StepMetrics
spent tokens calls = record {
  duration_ms = 0;
  tokens_in = tokens;
  tokens_out = 0;
  cost_usd = zero_float;
  llm_calls = calls;
  tool_calls = 0;
  reflected = false;
  reflect_calls = 0;
}

abbrev the_run : Run
the_run = record {
  id = "r1";
  workflow_name = "triage";
  status = Status.running;
  created_at = 1;
  updated_at = 1;
  completed_at = none;
  error = "";
  metadata = none;
  payload = none;
}

abbrev the_step : String → String → ℕ → Step
the_step id status tokens = record {
  id = id;
  run_id = "r1";
  name = id;
  kind = "agent";
  status = status;
  started_at = none;
  ended_at = none;
  error = "";
  output = none;
  metrics = spent tokens 1;
  reflected = none;
  messages = absent;
}

abbrev the_approval : String → String → Approval ℕ
the_approval run_id step_id = record {
  run_id = run_id;
  step_id = step_id;
  tool_name = "delete";
  tool_use_id = "t1";
  arguments = none;
  on_reject = "fail";
  timeout_ms = 0;
  timeout_behavior = "";
  status = Status.pending;
  created_at = 1;
  decided_at = none;
  original_request = absent;
  partial_metrics = spent 0 0;
}

abbrev the_store : MemStore ℕ
the_store = record {
  runs = ("r1", the_run) ∷ [];
  steps =
      (
        "r1",
        ("parse", the_step "parse" Status.complete 5)
            ∷ ("wait", the_step "wait" Status.pending_approval 7)
            ∷ ("late", the_step "late" Status.running 9)
            ∷ [],
      )
      ∷ [];
  approvals = [];
}

program : Unit {0}
unfolding matching insert_run sort_runs list_runs copy_run create_run update_run get_run create_step
    update_step get_step list_steps approval_key create_approval get_approval update_approval lookup
    insert is_unfinished entry_of add_totals add_step add_steps get_envelope copy_payload float_add
program = tt

built :
    (create_step
      (the_step "late" Status.running 9)
      (create_step
        (the_step "wait" Status.pending_approval 7)
        (create_step
          (the_step "parse" Status.complete 5)
          (create_run the_run new_mem_store).1).1).1).1
    ≡ the_store
unfolding program
built = refl

abbrev known : Envelope
known = record {
  run_id = "r1";
  workflow = "triage";
  status = Status.running;
  error = "";
  payload = none;
  steps =
      entry_of (the_step "parse" Status.complete 5)
      ∷ entry_of (the_step "wait" Status.pending_approval 7)
      ∷ [];
  totals = record (add_totals no_totals (spent 12 2)) { cost_usd = zero_float };
}

found : get_envelope values_of "r1" the_store ≡ ok known
unfolding program
found = refl

run_writes_example :
    ((create_run the_run the_store).0
      ≡ (if is_ok (get_run "r1" the_store) then err run_already_exists else ok tt))
    × (get_run "r1" (create_run the_run the_store).1 ≡ (
        if str_eq "r1" "r1" && not (is_ok (get_run "r1" the_store))
        then ok (copy_run (copy_run the_run))
        else get_run "r1" the_store))
    × ((update_run the_run the_store).0
        ≡ (if is_ok (get_run "r1" the_store) then ok tt else err run_not_found))
    × (get_run "r1" (update_run the_run the_store).1 ≡ (
        if str_eq "r1" "r1" && is_ok (get_run "r1" the_store)
        then ok (copy_run (copy_run the_run))
        else get_run "r1" the_store))
run_writes_example = run_writes the_run the_store "r1"

step_writes_example :
    ((create_step (the_step "parse" Status.failed 6) the_store).0
      ≡ (if is_ok (get_step "r1" "parse" the_store) then err step_already_exists else ok tt))
    × (get_step "r1" "parse" (create_step (the_step "parse" Status.failed 6) the_store).1 ≡ (
        if str_eq "r1" "r1"
          && str_eq "parse" "parse"
          && not (is_ok (get_step "r1" "parse" the_store))
        then ok (the_step "parse" Status.failed 6)
        else get_step "r1" "parse" the_store))
    × ((update_step (the_step "parse" Status.failed 6) the_store).0
        ≡ (if is_ok (get_step "r1" "parse" the_store) then ok tt else err step_not_found))
    × (get_step "r1" "parse" (update_step (the_step "parse" Status.failed 6) the_store).1 ≡ (
        if str_eq "r1" "r1" && str_eq "parse" "parse" && is_ok (get_step "r1" "parse" the_store)
        then ok (the_step "parse" Status.failed 6)
        else get_step "r1" "parse" the_store))
step_writes_example = step_writes (the_step "parse" Status.failed 6) the_store "r1" "parse"

approval_writes_example :
    ((create_approval (the_approval "r1" "parse") the_store).0 ≡ (
      if is_ok (get_approval "r1" "parse" the_store) then err approval_already_exists else ok tt))
    × (get_approval "r1" "parse" (create_approval (the_approval "r1" "parse") the_store).1 ≡ (
        if str_eq (approval_key "r1" "parse") (approval_key "r1" "parse")
          && not (is_ok (get_approval "r1" "parse" the_store))
        then ok (the_approval "r1" "parse")
        else get_approval "r1" "parse" the_store))
    × ((update_approval (the_approval "r1" "parse") the_store).0
        ≡ (if is_ok (get_approval "r1" "parse" the_store) then ok tt else err approval_not_found))
    × (get_approval "r1" "parse" (update_approval (the_approval "r1" "parse") the_store).1 ≡ (
        if str_eq (approval_key "r1" "parse") (approval_key "r1" "parse")
          && is_ok (get_approval "r1" "parse" the_store)
        then ok (the_approval "r1" "parse")
        else get_approval "r1" "parse" the_store))
approval_writes_example = approval_writes (the_approval "r1" "parse") the_store "r1" "parse"

approvals_collide_example :
    (create_approval
      (the_approval "r1" "sub/ask")
      (create_approval (the_approval "r1/sub" "ask") the_store).1).0
    ≡ err approval_already_exists
approvals_collide_example =
    approvals_collide (the_approval "r1/sub" "ask") (the_approval "r1" "sub/ask") the_store "r1"
      "sub" "ask" refl refl refl refl

abbrev a_run : String → String → ℕ → Run
a_run id workflow at = record the_run { id = id; workflow_name = workflow; created_at = at }

abbrev busy : MemStore ℕ
busy = record the_store {
  runs =
      ("r1", a_run "r1" "triage" 1)
      ∷ ("r2", a_run "r2" "triage" 5)
      ∷ ("r3", a_run "r3" "digest" 3)
      ∷ ("r4", a_run "r4" "triage" 4)
      ∷ [];
}

abbrev two_triages : ListRunsFilter
two_triages = record { workflow_name = "triage"; status = Status.running; limit = 2 }

lists : list_runs values_of two_triages busy ≡ a_run "r2" "triage" 5 ∷ a_run "r4" "triage" 4 ∷ []
unfolding program
lists = refl

list_runs_lem_example :
    let out : List Run = list_runs values_of two_triages busy in
    (visited : List Run) × (chosen : List Run) × (left_out : List Run) × Perm visited
      (values_of busy.runs)
    × AreChosen two_triages chosen visited
    × Perm (out ++ left_out) chosen
    × IsDescending (out ++ left_out)
    × (length out ≤ 2)
    × ((left_out ≡ []) ⊎ (length out ≡ 2))
list_runs_lem_example = list_runs_lem values_of two_triages busy (λ rs. Perm.refl (values_of rs))
