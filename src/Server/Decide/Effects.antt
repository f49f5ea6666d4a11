-- ===== src/Server/Decide/Effects.antt =====
-- What the handlers of internal/orchestrator/server.go do to the approvals of the store.
use ktsu.Prelude.{
  ℕ, String, ◌≡◌, refl, sym, subst, ◌∙◌, true, false, not, ◌&&◌, Option, none, some, arith, str_eq,
  eq_iff, if◌then◌else◌, Bool-cases, inl, inr,
}
use Prim.Native.String.{◌++◌ as append}
use ktsu.State.Records.{Step, Approval, StepMetrics}
use ktsu.State.Status
use ktsu.State.MemStore.{
  MemStore, Result, ok, err, get_step, update_step, approval_key, get_approval, create_approval,
  update_approval,
}
use ktsu.State.MemStore.Laws.{is_ok, approval_writes}
use ktsu.Agent.Records.{InvokeRequest, PendingApproval, CallbackPayload}
use ktsu.Server.World.{World, Runtime, signal}
use ktsu.Server.Redispatch.{
  post_to_runtime, redispatch_approved, redispatch_recover, redispatch_rejected, signal_step_failed,
}
use ktsu.Server.Complete.{
  suspended, suspend_step, after_create, file_approval, handle_pending_approval,
  handle_step_complete, new_approval,
}
use ktsu.Server.Decide.{
  undecided, read_result, decide_read, decided, write_status, decide_write, timeout_write,
}

abbrev pub Store : Type 0
Store = MemStore InvokeRequest

-- Every approval stands under the text of its own run and step.
pub record IsKeyed (m : Store) : Type 0 where
  pub keyed :
      (run_id step_id : String) (a : Approval InvokeRequest)
      → get_approval run_id step_id m ≡ ok a
      → approval_key a.run_id a.step_id ≡ approval_key run_id step_id

-- What the callbacks to the runtime and to the dispatchers leave of the store.
store-post :
    (rt : Runtime) (a : Approval InvokeRequest) (w : World)
    → (redispatch_approved rt a w).1.store ≡ w.store
unfolding redispatch_approved post_to_runtime
store-post rt a w = ground arith

store-recover :
    (rt : Runtime) (a : Approval InvokeRequest) (w : World)
    → (redispatch_recover rt a w).1.store ≡ w.store
unfolding redispatch_recover post_to_runtime
store-recover rt a w = ground arith

store-signal_failed :
    (run_id step_id message : String) (m : StepMetrics) (w : World)
    → (signal_step_failed run_id step_id message m w).1.store ≡ w.store
unfolding signal_step_failed signal
store-signal_failed run_id step_id message m w = refl

store-rejected :
    (rt : Runtime) (a : Approval InvokeRequest) (w : World)
    → (redispatch_rejected rt a w).1.store ≡ w.store
unfolding redispatch_rejected signal_step_failed signal
store-rejected rt a w = ground (arith, store-recover rt a w)

abbrev pub decided_status : String → String
decided_status decision = if str_eq decision "approved" then Status.approved else Status.rejected

-- A redispatch of a decision leaves the store as it finds it.
pub store-decide_write :
    (rt : Runtime) (decision : String) (a : Approval InvokeRequest) (w : World)
    → (decide_write rt decision a w).1.store
      ≡ (update_approval (decided (decided_status decision) w.now a) w.store).1
unfolding decide_write
store-decide_write rt decision a w =
    let yes_ = decided Status.approved w.now a in
    let no_ = decided Status.rejected w.now a in
    let v = (write_status Status.approved a w).1 in
    let u = (write_status Status.rejected a w).1 in
    ground (arith, store-post rt yes_ v, store-rejected rt no_ u)

pub store-timeout_write :
    (rt : Runtime) (run_id step_id behavior : String) (a : Approval InvokeRequest) (w : World)
    → (timeout_write rt run_id step_id behavior a w).store
      ≡ (update_approval (decided Status.timeout w.now a) w.store).1
unfolding timeout_write
store-timeout_write rt run_id step_id behavior a w =
    let v = (write_status Status.timeout a w).1 in
    ground (
      arith,
      store-rejected rt (decided Status.timeout w.now a) v,
      store-signal_failed run_id step_id (append "approval timed out: " a.tool_name)
          a.partial_metrics v,
    )

pub get_approval-key :
    (r s run_id step_id : String) (m : Store)
    → approval_key r s ≡ approval_key run_id step_id
    → get_approval r s m ≡ get_approval run_id step_id m
unfolding get_approval
get_approval-key r s run_id step_id m same = rw (get_approval, same) refl

abbrev pub IsSettled : String → String → Approval InvokeRequest → Store → Type 0
IsSettled run_id step_id a m =
    (get_approval run_id step_id m ≡ ok a) × (str_eq a.status Status.pending ≡ false)

-- What a handler finds to decide is pending and stands under the ids of the request.
pub read_result-undecided :
    (x : Result (Approval InvokeRequest)) (a : Approval InvokeRequest)
    → read_result x ≡ undecided a
    → (x ≡ ok a) × (str_eq a.status Status.pending ≡ true)
read_result-undecided (err e) a read = cc
read_result-undecided (ok b) a read = ground (arith, read)

-- Neither a new approval nor the decision of a pending one touches a settled one.
pub IsSettled-create :
    (b : Approval InvokeRequest) (m : Store) (r s : String) (a : Approval InvokeRequest)
    → IsSettled r s a m
    → IsSettled r s a (create_approval b m).1
IsSettled-create b m r s a (there, done) =
    let (_, read, _, _) = approval_writes b m r s in
    let same = get_approval-key b.run_id b.step_id r s m in
    (
      ground
          (arith, read, there, same, eq_iff (approval_key b.run_id b.step_id) (approval_key r s)),
      done,
    )

pub IsSettled-update :
    (b : Approval InvokeRequest) (m : Store) (r s status : String) (now : ℕ)
    (a : Approval InvokeRequest)
    → get_approval b.run_id b.step_id m ≡ ok b
    → str_eq b.status Status.pending ≡ true
    → IsSettled r s a m
    → IsSettled r s a (update_approval (decided status now b) m).1
IsSettled-update b m r s status now a found open_ (there, done) =
    let (_, _, _, read) = approval_writes (decided status now b) m r s in
    let same = get_approval-key b.run_id b.step_id r s m in
    (
      ground (
        arith,
        found,
        open_,
        there,
        done,
        read,
        same,
        eq_iff (approval_key b.run_id b.step_id) (approval_key r s),
      ),
      done,
    )

-- A write keeps every approval under the text of its own ids.
pub IsKeyed-create :
    (b : Approval InvokeRequest) (m : Store) → IsKeyed m → IsKeyed (create_approval b m).1
IsKeyed-create b m k = record {
  keyed = λ r s a there.
      let (_, read, _, _) = approval_writes b m r s in
      let old = k.keyed r s a in
      elim (Bool-cases (
        str_eq (approval_key b.run_id b.step_id) (approval_key r s)
        && not (is_ok (get_approval b.run_id b.step_id m)))) [
          | inl new ↦
              ground (
                arith,
                there,
                read,
                new,
                eq_iff (approval_key b.run_id b.step_id) (approval_key r s),
              )
          | inr same ↦ old (sym (read ∙ rw same refl) ∙ there)
        ];
}

pub IsKeyed-update :
    (b : Approval InvokeRequest) (m : Store) → IsKeyed m → IsKeyed (update_approval b m).1
IsKeyed-update b m k = record {
  keyed = λ r s a there.
      let (_, _, _, read) = approval_writes b m r s in
      let old = k.keyed r s a in
      elim (Bool-cases (
        str_eq (approval_key b.run_id b.step_id) (approval_key r s)
        && is_ok (get_approval b.run_id b.step_id m))) [
          | inl new ↦
              ground (
                arith,
                there,
                read,
                new,
                eq_iff (approval_key b.run_id b.step_id) (approval_key r s),
              )
          | inr same ↦ old (sym (read ∙ rw same refl) ∙ there)
        ];
}

after_create-store :
    (x : Result (Unit {0}) × Store) (a : Approval InvokeRequest) (w : World)
    → (after_create x a w).store ≡ x.1
after_create-store (err e, m) a w = refl
after_create-store (ok u, m) a w = refl

-- A callback changes the store by a step's update and a new approval at most.
module _ (P : Store → Type 0) (stepped : (s : Step) (m : Store) → P m → P (update_step s m).1)
    (created : (b : Approval InvokeRequest) (m : Store) → P m → P (create_approval b m).1) where
  suspend_step-keeps :
      (found : Result Step) (p : CallbackPayload) (m : Store) → P m → P (suspend_step found p m)
  suspend_step-keeps (ok s) p m h = stepped (suspended p s) m h
  suspend_step-keeps (err e) p m h = h

  file_approval-keeps :
      (pa : Option PendingApproval) (run_id step_id : String) (p : CallbackPayload) (w : World)
      → P w.store
      → P (file_approval pa run_id step_id p w).store
  file_approval-keeps none run_id step_id p w h = h
  file_approval-keeps (some pa) run_id step_id p w h =
      let b = new_approval run_id step_id w.now p pa in
      subst P (sym (after_create-store (create_approval b w.store) b w)) (created b w.store h)

  pub handle_step_complete-keeps :
      (run_id step_id : String) (p : CallbackPayload) (w : World)
      → P w.store
      → P (handle_step_complete run_id step_id p w).1.store
  unfolding handle_step_complete handle_pending_approval signal
  handle_step_complete-keeps run_id step_id p w h =
      elim (Bool-cases (str_eq p.status "pending_approval")) [
        | inl pending ↦ rw pending (
            file_approval-keeps p.pending_approval run_id step_id p
              (record w { store = suspend_step (get_step run_id step_id w.store) p w.store })
              (suspend_step-keeps (get_step run_id step_id w.store) p w.store h))
        | inr other ↦ rw other h
      ]

pub decide_read-undecided :
    (d run_id step_id : String) (w : World) (b : Approval InvokeRequest)
    → decide_read d run_id step_id w ≡ undecided b
    → (get_approval run_id step_id w.store ≡ ok b) × (str_eq b.status Status.pending ≡ true)
unfolding decide_read
decide_read-undecided d run_id step_id w b read =
    read_result-undecided (get_approval run_id step_id w.store) b (ground (arith, read))

-- The approval under the ids of a request is stored under its own ids too.
pub found_own :
    (m : Store) (r s : String) (b : Approval InvokeRequest)
    → IsKeyed m
    → get_approval r s m ≡ ok b
    → get_approval b.run_id b.step_id m ≡ ok b
found_own m r s b k found = get_approval-key b.run_id b.step_id r s m (k.keyed r s b found) ∙ found
