-- ===== src/Server/Complete/Suspend.antt =====
-- What handlePendingApproval of internal/orchestrator/server.go files.
use ktsu.Prelude.{
  String, ◌≡◌, refl, ap, ◌∙◌, Bool, true, false, not, ◌&&◌, some, [], ◌∷◌, arith, eq_iff, ltb,
  if◌then◌else◌,
}
use mathlib.Core.List.{◌++◌}
use ktsu.State.Records.{Step, Approval}
use ktsu.State.MemStore.{
  MemStore, approval_key, Result, ok, err, get_step, update_step, get_approval, create_approval,
}
use ktsu.State.MemStore.Laws.{is_ok, approval_writes}
use ktsu.Agent.Records.{InvokeRequest, CallbackPayload, PendingApproval}
use ktsu.Server.World.{World, Timer}
use ktsu.Server.Complete.{
  suspend_step, new_approval, after_create, file_approval, handle_pending_approval,
}

abbrev pub timer_of : Approval InvokeRequest → Timer
timer_of a = record {
  run_id = a.run_id;
  step_id = a.step_id;
  timeout_ms = a.timeout_ms;
  behavior = a.timeout_behavior;
}

get_approval-suspend :
    (found : Result Step) (p : CallbackPayload) (m : MemStore InvokeRequest) (r s : String)
    → get_approval r s (suspend_step found p m) ≡ get_approval r s m
unfolding get_approval update_step
get_approval-suspend (ok step) p m r s = ground arith
get_approval-suspend (err e) p m r s = refl

after_create_lem :
    (known : Bool) (x : Result (Unit {0}) × MemStore InvokeRequest) (a : Approval InvokeRequest)
    (w : World)
    → is_ok x.0 ≡ not known
    → let v = after_create x a w in
      (v.store ≡ x.1)
      × (v.notified ≡ (if known then w.notified else w.notified ++ (a.run_id, a.step_id) ∷ []))
      × (v.timers
          ≡ (if not known && ltb 0 a.timeout_ms then w.timers ++ timer_of a ∷ [] else w.timers))
      × (v.waiters ≡ w.waiters)
      × (v.posts ≡ w.posts)
after_create_lem true (err e, m) a w h = (refl, refl, refl, refl, refl)
after_create_lem false (err e, m) a w h = cc
after_create_lem true (ok u, m) a w h = cc
after_create_lem false (ok u, m) a w h = (refl, refl, refl, refl, refl)

-- A suspended step is always answered 200. The first approval of a step is stored, its webhooks are called, and a
-- timer starts if it has a timeout. While the step has an approval, decided or not, a further one is dropped without webhooks and without a timer. No channel and no request changes.
pub handle_pending_approval_lem :
    (r s : String) (p : CallbackPayload) (pa : PendingApproval) (w : World)
    → p.pending_approval ≡ some pa
    → let (reply, v) = handle_pending_approval r s p w in
      let a = new_approval r s w.now p pa in
      let known = is_ok (get_approval r s w.store) in
      (reply ≡ some 200)
      × (get_approval r s v.store ≡ (if known then get_approval r s w.store else ok a))
      × (v.notified ≡ (if known then w.notified else w.notified ++ (r, s) ∷ []))
      × (v.timers
          ≡ (if not known && ltb 0 pa.timeout_ms then w.timers ++ timer_of a ∷ [] else w.timers))
      × (v.waiters ≡ w.waiters)
      × (v.posts ≡ w.posts)
unfolding handle_pending_approval
handle_pending_approval_lem r s p pa w asked =
    let m = suspend_step (get_step r s w.store) p w.store in
    let a = new_approval r s w.now p pa in
    let known = is_ok (get_approval r s w.store) in
    let kept : get_approval r s m ≡ get_approval r s w.store =
      get_approval-suspend (get_step r s w.store) p w.store r s in
    let (created, read, _, _) = approval_writes a m r s in
    let first : is_ok (create_approval a m).0 ≡ not known = rw (created, kept) (ground arith) in
    let (stored, notified, timers, waiters, posts) =
      after_create_lem known (create_approval a m) a (record w { store = m }) first in
    let found : get_approval r s (create_approval a m).1
        ≡ (if known then get_approval r s w.store else ok a) =
      ground (arith, read, kept, eq_iff (approval_key r s) (approval_key r s)) in
    let filed : file_approval p.pending_approval r s p (record w { store = m })
        ≡ after_create (create_approval a m) a (record w { store = m }) =
      ap (λ x. file_approval x r s p (record w { store = m })) asked in
    (
      refl,
      ap (λ (v : World). get_approval r s v.store) filed ∙ (ap (get_approval r s) stored ∙ found),
      ap (λ (v : World). v.notified) filed ∙ notified,
      ap (λ (v : World). v.timers) filed ∙ timers,
      ap (λ (v : World). v.waiters) filed ∙ waiters,
      ap (λ (v : World). v.posts) filed ∙ posts,
    )
