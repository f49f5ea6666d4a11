-- ===== src/Server/Decide/Race.antt =====
-- What two handlers of internal/orchestrator/server.go do with one approval that both have read
-- before either writes: nothing holds the approval between the read and the write.
use ktsu.Prelude.{
  ℕ, String, ◌≡◌, refl, ◌∙◌, false, Option, none, some, List, [], ◌∷◌, arith, str_eq, eq_iff,
}
use mathlib.Core.List.{◌++◌}
use ktsu.State.Records.{Raw, encodes, Approval, Message}
use ktsu.State.Status
use ktsu.Prelude.Map.{lookup-insert}
use ktsu.State.MemStore.Laws.{approval_writes}
use ktsu.State.MemStore.{approval_key, ok, get_step, update_approval}
use ktsu.Agent.Records.{InvokeRequest}
use ktsu.Server.World.{Failure, World, Runtime}
use ktsu.Server.Redispatch.{
  with_request, redispatch_approved, post_to_runtime, resume_approved, checkpoint,
}
use ktsu.Server.Decide.{undecided, decide_read, decided, decide_write}
use ktsu.Server.Decide.Effects.{Store, IsKeyed, decide_read-undecided, found_own}

-- An update of an approval keeps the steps, so the checkpoint too.
checkpoint-update :
    (a b : Approval InvokeRequest) (w : World)
    → checkpoint a (record w { store = (update_approval b w.store).1 }) ≡ checkpoint a w
unfolding checkpoint update_approval get_step
checkpoint-update a b w = ground arith

checkpoint-decided :
    (a : Approval InvokeRequest) (status : String) (now : ℕ) (w : World)
    → checkpoint (decided status now a) w ≡ checkpoint a w
unfolding checkpoint
checkpoint-decided a status now w = refl

with_request-encodes :
    (raw : Raw InvokeRequest) (req : InvokeRequest)
    (k : InvokeRequest → World → Option Failure × World) (w : World)
    → raw ≡ encodes req
    → with_request raw k w ≡ k req w
with_request-encodes raw req k w e = rw e refl

-- The request that an approval sends, once the runtime takes it.
redispatch_posts :
    (rt : Runtime) (b : Approval InvokeRequest) (req : InvokeRequest) (saved : Raw (List Message))
    (w : World)
    → str_eq rt.url "" ≡ false
    → b.original_request ≡ encodes req
    → checkpoint b w ≡ saved
    → rt.answer (resume_approved b saved req) ≡ some 202
    → redispatch_approved rt b w
      ≡ (none, record w { posts = w.posts ++ resume_approved b saved req ∷ [] })
unfolding redispatch_approved post_to_runtime
redispatch_posts rt b req saved w url original kept answered =
    let send = λ (q : InvokeRequest). post_to_runtime rt (resume_approved b (checkpoint b w) q) in
    let sent = with_request-encodes b.original_request req send w original in
    rw (url, sent, kept, answered) refl

-- The write half of an approval that is still there, with the runtime accepting the request.
approve_write :
    (rt : Runtime) (a : Approval InvokeRequest) (req : InvokeRequest) (saved : Raw (List Message))
    (w : World)
    → (update_approval (decided Status.approved w.now a) w.store).0 ≡ ok tt
    → str_eq rt.url "" ≡ false
    → a.original_request ≡ encodes req
    → checkpoint a w ≡ saved
    → rt.answer (resume_approved a saved req) ≡ some 202
    → decide_write rt "approved" a w ≡ (
      some 200,
      record w {
        store = (update_approval (decided Status.approved w.now a) w.store).1;
        posts = w.posts ++ resume_approved a saved req ∷ [];
      },
    )
unfolding decide_write
approve_write rt a req saved w written url original kept answered =
    let b = decided Status.approved w.now a in
    let v = record w { store = (update_approval b w.store).1 } in
    let sent : redispatch_approved rt b v
        ≡ (none, record v { posts = v.posts ++ resume_approved a saved req ∷ [] }) =
      redispatch_posts rt b req saved v url original
        (checkpoint-update b b w ∙ (checkpoint-decided a Status.approved w.now w ∙ kept))
        answered in
    rw (written, sent) refl

checkpoint-posted :
    (a : Approval InvokeRequest) (m : Store) (reqs : List InvokeRequest) (w : World)
    → checkpoint a (record w { store = m; posts = reqs }) ≡ checkpoint a (record w { store = m })
unfolding checkpoint
checkpoint-posted a m reqs w = refl

updated_again :
    (b : Approval InvokeRequest) (m : Store)
    → (update_approval b m).0 ≡ ok tt
    → (update_approval b (update_approval b m).1).0 ≡ ok tt
unfolding update_approval
updated_again b m written = ground (
  arith,
  written,
  lookup-insert (approval_key b.run_id b.step_id) (approval_key b.run_id b.step_id) b m.approvals,
  eq_iff (approval_key b.run_id b.step_id) (approval_key b.run_id b.step_id),
)

-- Where a runtime is configured, takes the request and the original request decodes, two handlers that both read the pending approval `a` before either writes it both
-- answer 200 to their caller and both send the approved request to the runtime.
pub both_approved :
    (rt : Runtime) (a : Approval InvokeRequest) (req : InvokeRequest) (r s : String) (w : World)
    → IsKeyed w.store
    → decide_read "approved" r s w ≡ undecided a
    → str_eq rt.url "" ≡ false
    → a.original_request ≡ encodes req
    → rt.answer (resume_approved a (checkpoint a w) req) ≡ some 202
    → let (first, v) = decide_write rt "approved" a w in
      let (second, u) = decide_write rt "approved" a v in
      (first ≡ some 200)
      × (second ≡ some 200)
      × (u.posts
          ≡ (w.posts ++ resume_approved a (checkpoint a w) req ∷ [])
            ++ resume_approved a (checkpoint a w) req ∷ [])
both_approved rt a req r s w k read url original answered =
    let saved = checkpoint a w in
    let b = decided Status.approved w.now a in
    let m = (update_approval b w.store).1 in
    let reqs = w.posts ++ resume_approved a saved req ∷ [] in
    let v = record w { store = m; posts = reqs } in
    let (_, _, reply, _) = approval_writes b w.store r s in
    let there = found_own w.store r s a k (decide_read-undecided "approved" r s w a read).0 in
    let written : (update_approval b w.store).0 ≡ ok tt = reply ∙ rw there refl in
    let first : decide_write rt "approved" a w ≡ (some 200, v) =
      approve_write rt a req saved w written url original refl answered in
    let again : checkpoint a v ≡ saved = checkpoint-posted a m reqs w ∙ checkpoint-update a b w in
    let second =
      approve_write rt a req saved v (updated_again b w.store written) url original again
        answered in
    rw (first, second) (refl, refl, refl)
