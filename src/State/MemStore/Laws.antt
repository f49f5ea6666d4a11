-- ===== src/State/MemStore/Laws.antt =====
-- The store as a table: what is read after a write, in every case.
use ktsu.Prelude.{
  String, ◌≡◌, sym, ap, ◌∙◌, Bool, true, false, not, ◌&&◌, arith, str_eq, eq_iff, if◌then◌else◌,
}
use Prim.Native.String.{◌++◌}
use text.Mathlib.TextLemmas.{append_assoc}
use ktsu.Prelude.Map.{Map, lookup, insert, lookup-insert}
use ktsu.State.Records.{Run, Step, Approval}
use ktsu.State.MemStore.{
  MemStore, Result, ok, err, run_not_found, run_already_exists, step_not_found, step_already_exists,
  approval_not_found, approval_already_exists, copy_run, or_empty, steps_of, create_run, update_run,
  get_run, create_step, update_step, get_step, approval_key, create_approval, get_approval,
  update_approval,
}

abbrev pub is_ok {ℓ} : {A : Type ℓ} → Result A → Bool
is_ok (ok a) = true
is_ok (err e) = false

module _ {R : Type 0} where
  -- CreateRun writes exactly if GetRun finds nothing under the id, UpdateRun exactly if it finds a
  -- run, and each gives its error otherwise. Behind a write GetRun returns the run with its payload
  -- copied for each of the two calls, and every other id reads as before.
  pub run_writes :
      (r : Run) (m : MemStore R) (id : String)
      → ((create_run r m).0 ≡ (if is_ok (get_run r.id m) then err run_already_exists else ok tt))
        × (get_run id (create_run r m).1 ≡ (
            if str_eq r.id id && not (is_ok (get_run r.id m))
            then ok (copy_run (copy_run r))
            else get_run id m))
        × ((update_run r m).0 ≡ (if is_ok (get_run r.id m) then ok tt else err run_not_found))
        × (get_run id (update_run r m).1 ≡ (
            if str_eq r.id id && is_ok (get_run r.id m)
            then ok (copy_run (copy_run r))
            else get_run id m))
  unfolding create_run update_run get_run
  run_writes r m id =
      let there = lookup-insert r.id id (copy_run r) m.runs in
      (ground arith, ground (arith, there), ground arith, ground (arith, there))

  steps_of-insert :
      (run_id j : String) (inner : Map Step) (m : MemStore R)
      → or_empty (lookup j (insert run_id inner m.steps))
        ≡ (if str_eq run_id j then inner else steps_of j m)
  steps_of-insert run_id j inner m = rw lookup-insert (ground arith)

  -- The same for steps, under the ids of the run and of the step.
  pub step_writes :
      (s : Step) (m : MemStore R) (run_id id : String)
      → ((create_step s m).0
          ≡ (if is_ok (get_step s.run_id s.id m) then err step_already_exists else ok tt))
        × (get_step run_id id (create_step s m).1 ≡ (
            if str_eq s.run_id run_id && str_eq s.id id && not (is_ok (get_step s.run_id s.id m))
            then ok s
            else get_step run_id id m))
        × ((update_step s m).0
            ≡ (if is_ok (get_step s.run_id s.id m) then ok tt else err step_not_found))
        × (get_step run_id id (update_step s m).1 ≡ (
            if str_eq s.run_id run_id && str_eq s.id id && is_ok (get_step s.run_id s.id m)
            then ok s
            else get_step run_id id m))
  unfolding create_step update_step get_step
  step_writes s m run_id id =
      let inner = insert s.id s (steps_of s.run_id m) in
      let grown = steps_of-insert s.run_id run_id inner m in
      let kept = steps_of-insert s.run_id run_id (steps_of s.run_id m) m in
      let there = lookup-insert s.id id s (steps_of s.run_id m) in
      (
        ground arith,
        ground (arith, grown, kept, there, eq_iff s.run_id run_id),
        ground arith,
        ground (arith, grown, there, eq_iff s.run_id run_id),
      )

  -- The same for approvals, under the text run/step.
  pub approval_writes :
      (a : Approval R) (m : MemStore R) (run_id id : String)
      → ((create_approval a m).0 ≡ (
          if is_ok (get_approval a.run_id a.step_id m) then err approval_already_exists else ok tt))
        × (get_approval run_id id (create_approval a m).1 ≡ (
            if str_eq (approval_key a.run_id a.step_id) (approval_key run_id id)
              && not (is_ok (get_approval a.run_id a.step_id m))
            then ok a
            else get_approval run_id id m))
        × ((update_approval a m).0
            ≡ (if is_ok (get_approval a.run_id a.step_id m) then ok tt else err approval_not_found))
        × (get_approval run_id id (update_approval a m).1 ≡ (
            if str_eq (approval_key a.run_id a.step_id) (approval_key run_id id)
              && is_ok (get_approval a.run_id a.step_id m)
            then ok a
            else get_approval run_id id m))
  unfolding create_approval update_approval get_approval
  approval_writes a m run_id id =
      let there =
        lookup-insert (approval_key a.run_id a.step_id) (approval_key run_id id) a m.approvals in
      (ground arith, ground (arith, there), ground arith, ground (arith, there))

approval_key_collides :
    (a b c : String) → approval_key (a ++ ("/" ++ b)) c ≡ approval_key a (b ++ ("/" ++ c))
unfolding approval_key
approval_key_collides a b c =
    append_assoc a ("/" ++ b) ("/" ++ c)
    ∙ ap (λ (s : String). a ++ s) (append_assoc "/" b ("/" ++ c))

-- The run `a/b` with the step `c` and the run `a` with the step `b/c` share one place: while one has an
-- approval, the other gets none.
pub approvals_collide :
    {R : Type 0} (x y : Approval R) (m : MemStore R) (a b c : String)
    → x.run_id ≡ a ++ ("/" ++ b)
    → x.step_id ≡ c
    → y.run_id ≡ a
    → y.step_id ≡ b ++ ("/" ++ c)
    → (create_approval y (create_approval x m).1).0 ≡ err approval_already_exists
unfolding create_approval
approvals_collide x y m a b c xr xs yr ys =
    let same : approval_key y.run_id y.step_id ≡ approval_key x.run_id x.step_id =
      rw (xr, xs, yr, ys) (sym (approval_key_collides a b c)) in
    ground (
      arith,
      same,
      lookup-insert (approval_key x.run_id x.step_id) (approval_key x.run_id x.step_id) x
          m.approvals,
      eq_iff (approval_key x.run_id x.step_id) (approval_key x.run_id x.step_id),
    )
