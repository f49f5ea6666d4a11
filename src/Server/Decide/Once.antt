-- ===== src/Server/Decide/Once.antt =====
-- An approval is decided once, while no handler runs between the read and the write of another.
use ktsu.Prelude.{
  ℕ, String, ◌≡◌, refl, sym, subst, ◌∙◌, true, false, some, List, [], ◌∷◌, arith, str_eq, eq_iff,
  Bool-cases, inl, inr,
}
use ktsu.State.Records.{Step, Approval}
use ktsu.State.Status
use ktsu.State.MemStore.{
  ok, approval_key, get_approval, create_approval, update_approval, update_step,
}
use ktsu.State.MemStore.Laws.{approval_writes}
use ktsu.Agent.Records.{InvokeRequest, CallbackPayload}
use ktsu.Server.World.{World, Runtime}
use ktsu.Server.Complete.{handle_step_complete}
use ktsu.Server.Decide.{
  Read, answer, undecided, decide_read, is_decision, decided, handle_decide_approval, decide_rest,
  timeout_rest, timeout_read, run_approval_timeout,
}
use ktsu.Server.Decide.Effects.{
  Store, IsKeyed, IsSettled, decided_status, store-decide_write, store-timeout_write,
  read_result-undecided, IsSettled-create, IsSettled-update, decide_read-undecided, found_own,
  IsKeyed-create, IsKeyed-update, handle_step_complete-keeps, get_approval-key,
}

-- What reaches the orchestrator while a run goes on.
pub data Event : Type 0 where
  completed : String → String → CallbackPayload → Event
  decision : String → String → String → Event
  timed_out : String → String → String → Event
  elapsed : ℕ → Event

abbrev pub on_event : Runtime → Event → World → World
on_event rt (completed run_id step_id p) w = (handle_step_complete run_id step_id p w).1
on_event rt (decision d run_id step_id) w = (handle_decide_approval rt d run_id step_id w).1
on_event rt (timed_out run_id step_id behavior) w =
    run_approval_timeout rt run_id step_id behavior w
on_event rt (elapsed t) w = record w { now = t }

abbrev pub on_events : Runtime → List Event → World → World
on_events rt [] w = w
on_events rt (e ∷ es) w = on_events rt es (on_event rt e w)

-- A predicate on stores that new approvals, step updates and decisions of pending approvals keep.
module _ (P : Store → Type 0) (stepped : (s : Step) (m : Store) → P m → P (update_step s m).1)
    (created : (b : Approval InvokeRequest) (m : Store) → P m → P (create_approval b m).1)
    (settled : (b : Approval InvokeRequest) (run_id step_id status : String) (now : ℕ) (m : Store)
      → get_approval run_id step_id m ≡ ok b
      → str_eq b.status Status.pending ≡ true
      → P m
      → P (update_approval (decided status now b) m).1) where
  decide_rest-keeps :
      (x : Read) (rt : Runtime) (d run_id step_id : String) (w : World)
      → ((b : Approval InvokeRequest)
          → x ≡ undecided b
          → (get_approval run_id step_id w.store ≡ ok b) × (str_eq b.status Status.pending ≡ true))
      → P w.store
      → P (decide_rest x rt d w).1.store
  decide_rest-keeps (answer code) rt d run_id step_id w read h = h
  decide_rest-keeps (undecided b) rt d run_id step_id w read h =
      let (found, open_) = read b refl in
      subst P (sym (store-decide_write rt d b w))
        (settled b run_id step_id (decided_status d) w.now w.store found open_ h)

  timeout_rest-keeps :
      (x : Read) (rt : Runtime) (run_id step_id behavior : String) (w : World)
      → ((b : Approval InvokeRequest)
          → x ≡ undecided b
          → (get_approval run_id step_id w.store ≡ ok b) × (str_eq b.status Status.pending ≡ true))
      → P w.store
      → P (timeout_rest x rt run_id step_id behavior w).store
  timeout_rest-keeps (answer code) rt run_id step_id behavior w read h = h
  timeout_rest-keeps (undecided b) rt run_id step_id behavior w read h =
      let (found, open_) = read b refl in
      subst P (sym (store-timeout_write rt run_id step_id behavior b w))
        (settled b run_id step_id Status.timeout w.now w.store found open_ h)

  on_event-keeps : (rt : Runtime) (e : Event) (w : World) → P w.store → P (on_event rt e w).store
  unfolding handle_decide_approval run_approval_timeout timeout_read
  on_event-keeps rt (completed run_id step_id p) w h =
      handle_step_complete-keeps P stepped created run_id step_id p w h
  on_event-keeps rt (decision d run_id step_id) w h =
      decide_rest-keeps (decide_read d run_id step_id w) rt d run_id step_id w
        (λ b read. decide_read-undecided d run_id step_id w b read) h
  on_event-keeps rt (timed_out run_id step_id behavior) w h =
      timeout_rest-keeps (timeout_read run_id step_id w) rt run_id step_id behavior w
        (λ b read. read_result-undecided (get_approval run_id step_id w.store) b read) h
  on_event-keeps rt (elapsed t) w h = h

  on_events-keeps :
      (rt : Runtime) (es : List Event) (w : World) → P w.store → P (on_events rt es w).store
  on_events-keeps rt [] w h = h
  on_events-keeps rt (e ∷ es) w h =
      on_events-keeps rt es (on_event rt e w) (on_event-keeps rt e w h)

get_approval-update_step :
    (r s : String) (step : Step) (m : Store)
    → get_approval r s (update_step step m).1 ≡ get_approval r s m
unfolding get_approval update_step
get_approval-update_step r s step m = ground arith

IsKeyed-update_step : (step : Step) (m : Store) → IsKeyed m → IsKeyed (update_step step m).1
IsKeyed-update_step step m k = record {
  keyed = λ r s a there. k.keyed r s a (sym (get_approval-update_step r s step m) ∙ there);
}

-- Whatever the callbacks, decisions and timers do, if every approval stands under the text of its own run and
-- step, every approval stays under the text of its own run and step.
pub on_events-IsKeyed :
    (rt : Runtime) (es : List Event) (w : World)
    → IsKeyed w.store
    → IsKeyed (on_events rt es w).store
on_events-IsKeyed rt es w k =
    on_events-keeps IsKeyed IsKeyed-update_step IsKeyed-create
      (λ b r s status now m found open_ h. IsKeyed-update (decided status now b) m h) rt es w k

IsSettled-on_events :
    (rt : Runtime) (es : List Event) (w : World) (r s : String) (a : Approval InvokeRequest)
    → IsKeyed w.store
    → IsSettled r s a w.store
    → IsSettled r s a (on_events rt es w).store
IsSettled-on_events rt es w r s a k h =
    (on_events-keeps (λ m. IsKeyed m × IsSettled r s a m)
      (λ step m p.
        (IsKeyed-update_step step m p.0, (get_approval-update_step r s step m ∙ p.1.0, p.1.1)))
      (λ b m p. (IsKeyed-create b m p.0, IsSettled-create b m r s a p.1))
      (λ b x y status now m found open_ p. (
        IsKeyed-update (decided status now b) m p.0,
        IsSettled-update b m r s status now a (found_own m x y b p.0 found) open_ p.1,
      ))
      rt es w (k, h)).1

-- What the handlers answer about a settled approval.
settled_answers :
    (rt : Runtime) (v : World) (r s : String) (a : Approval InvokeRequest)
    → IsSettled r s a v.store
    → ((d : String) → is_decision d ≡ true → handle_decide_approval rt d r s v ≡ (some 409, v))
      × ((behavior : String) → run_approval_timeout rt r s behavior v ≡ v)
unfolding handle_decide_approval decide_read run_approval_timeout timeout_read
settled_answers rt v r s a (there, done) =
    (λ d named. rw (named, there, done) refl, λ behavior. rw (there, done) refl)

decided_status-settled : (d : String) → str_eq (decided_status d) Status.pending ≡ false
decided_status-settled d = elim (Bool-cases (str_eq d "approved")) [
  | inl e ↦ rw e refl
  | inr e ↦ rw e refl
]

IsSettled-decided :
    (rt : Runtime) (d r s : String) (a : Approval InvokeRequest) (w : World)
    → IsKeyed w.store
    → get_approval r s w.store ≡ ok a
    → str_eq a.status Status.pending ≡ true
    → is_decision d ≡ true
    → IsSettled r s (decided (decided_status d) w.now a) (handle_decide_approval rt d r s w).1.store
unfolding handle_decide_approval decide_read
IsSettled-decided rt d r s a w k found open_ named =
    let b = decided (decided_status d) w.now a in
    let (_, _, _, read) = approval_writes b w.store r s in
    let same = get_approval-key a.run_id a.step_id r s w.store in
    let stored : get_approval r s (update_approval b w.store).1 ≡ ok b = ground (
      arith,
      read,
      same,
      found,
      k.keyed r s a found,
      eq_iff (approval_key a.run_id a.step_id) (approval_key r s),
    ) in
    (rw (named, found, open_, store-decide_write rt d a w) stored, decided_status-settled d)

-- Where every approval stands under the text of its own run and step: a decision, "approved" or "rejected",
-- of a pending approval is stored with its time, and is the last one. Whatever the
-- callbacks, decisions and timers do then, one after the other, the approval stays as it is, a further decision is answered 409 and
-- changes nothing, and the timer that fires for it changes nothing.
pub decided_once :
    (rt : Runtime) (d r s : String) (a : Approval InvokeRequest) (w : World) (es : List Event)
    → IsKeyed w.store
    → get_approval r s w.store ≡ ok a
    → str_eq a.status Status.pending ≡ true
    → is_decision d ≡ true
    → let v = on_events rt es (handle_decide_approval rt d r s w).1 in
      (get_approval r s v.store ≡ ok (decided (decided_status d) w.now a))
      × ((e : String) → is_decision e ≡ true → handle_decide_approval rt e r s v ≡ (some 409, v))
      × ((behavior : String) → run_approval_timeout rt r s behavior v ≡ v)
decided_once rt d r s a w es k found open_ named =
    let b = decided (decided_status d) w.now a in
    let v = (handle_decide_approval rt d r s w).1 in
    let done : IsSettled r s b v.store = IsSettled-decided rt d r s a w k found open_ named in
    let after =
      IsSettled-on_events rt es v r s b (on_events-IsKeyed rt (decision d r s ∷ []) w k) done in
    let (late, fired) = settled_answers rt (on_events rt es v) r s b after in (after.0, late, fired)
