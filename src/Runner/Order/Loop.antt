-- ===== src/Runner/Order/Loop.antt =====
-- The outputs behind a loop over steps (internal/orchestrator/runner/runner.go).
use ktsu.Runner.Order.Done.{Puts}
use Prim.Native.String.{String}
use ktsu.Prelude.{
  ◌≡◌, ◌⊎◌, refl, sym, ap, subst, ◌∙◌, true, false, Option, none, some, List, [], ◌∷◌, ◌++◌, arith,
  str_eq, eq_iff, Bool-cases, inl, inr, contains,
}
use ktsu.Prelude.Map.{Map, lookup, insert, lookup-insert, is_some}
use ktsu.Value.{Value}
use ktsu.Dag.Graph.{ids}
use ktsu.Runner.Steps.{PipelineStep}
use ktsu.Runner.Execute.{step_by_id, nodes_of, Progress, at_step, and_step, run_ids}

-- The step of an id, where there is one.
pub step_by_id_absent :
    (steps : List PipelineStep) (id : String)
    → contains (ids (nodes_of steps)) id ≡ false
    → step_by_id steps id ≡ none
unfolding ids contains
step_by_id_absent [] id h = refl
step_by_id_absent (s ∷ steps) id h =
    let rest = step_by_id_absent steps id (ground arith) in rw rest (ground arith)

pub step_by_id_known :
    (steps : List PipelineStep) (id : String)
    → contains (ids (nodes_of steps)) id ≡ true
    → (s : PipelineStep) × (step_by_id steps id ≡ some s) × (s.id ≡ id)
unfolding ids contains
step_by_id_known [] id h = absurd cc
step_by_id_known (s ∷ steps) id h = elim (Bool-cases (contains (ids (nodes_of steps)) id)) [
  | inl deeper ↦ let (found, e, same) = step_by_id_known steps id deeper in (found, rw e refl, same)
  | inr fresh ↦
      let here_ : str_eq s.id id ≡ true = ground arith in
      (s, rw (step_by_id_absent steps id fresh, here_) refl, (eq_iff s.id id).0 here_)
]

-- A loop over ids that ends without an error has an output for each of them.
module _ (run : PipelineStep → Progress → Option String × Progress)
    (puts : (step : PipelineStep) (p : Progress) → Puts step.id p.outputs (run step p))
    (steps : List PipelineStep) (d : String) where
  abbrev pub HasOutput : Progress → Type 0
  HasOutput p = is_some (lookup d p.outputs) ≡ true

  put-HasOutput :
      (id : String) (out : Map Value) (p q : Progress)
      → q.outputs ≡ insert id out p.outputs
      → (id ≡ d) ⊎ HasOutput p
      → HasOutput q
  put-HasOutput id out p q e (inl same) =
      rw (e, same, lookup-insert d d out p.outputs) (ground (arith, eq_iff d d))
  put-HasOutput id out p q e (inr old) = rw (e, lookup-insert id d out p.outputs) (ground arith)

  run-HasOutput :
      (step : PipelineStep) (p : Progress)
      → (run step p).0 ≡ none
      → (step.id ≡ d) ⊎ HasOutput p
      → HasOutput (run step p).1
  run-HasOutput step p e h =
      let (out, grown) = (puts step p).output_of e in
      put-HasOutput step.id out p (run step p).1 grown h

  at_step-HasOutput :
      (o : Option PipelineStep) (p : Progress)
      → (at_step run o p).0 ≡ none
      → ((s : PipelineStep) × (o ≡ some s) × (s.id ≡ d)) ⊎ HasOutput p
      → HasOutput (at_step run o p).1
  at_step-HasOutput none p e (inl (s, absent, same)) = absurd cc
  at_step-HasOutput none p e (inr old) = old
  at_step-HasOutput (some s) p e (inl (t, found, same)) =
      let found_ : s ≡ t = cc in
      run-HasOutput s p e (inl (ap (λ (x : PipelineStep). x.id) found_ ∙ same))
  at_step-HasOutput (some s) p e (inr old) = run-HasOutput s p e (inr old)

  and_step-none :
      (x : Option String × Progress) (k : Progress → Option String × Progress)
      → (and_step x k).0 ≡ none
      → (x.0 ≡ none) × (and_step x k ≡ k x.1)
  and_step-none (some m, p) k e = absurd cc
  and_step-none (none, p) k e = (refl, refl)

  next_output :
      (id : String) (rest : List String) (p : Progress)
      → contains (ids (nodes_of steps)) d ≡ true
      → (at_step run (step_by_id steps id) p).0 ≡ none
      → (contains (id ∷ rest) d ≡ true) ⊎ HasOutput p
      → (contains rest d ≡ true) ⊎ HasOutput (at_step run (step_by_id steps id) p).1
  unfolding contains
  next_output id rest p known e (inr old) =
      inr (at_step-HasOutput (step_by_id steps id) p e (inr old))
  next_output id rest p known e (inl h) = elim (Bool-cases (str_eq id d)) [
    | inl same ↦
        let is_d : d ≡ id = sym ((eq_iff id d).0 same) in
        let (s, found, named) = step_by_id_known steps d known in
        inr (
          at_step-HasOutput (step_by_id steps id) p e
            (inl (s, sym (ap (step_by_id steps) is_d) ∙ found, named)))
    | inr other ↦ inl (ground arith)
  ]

  pub run_ids-HasOutput :
      (before : List String) (p : Progress)
      → contains (ids (nodes_of steps)) d ≡ true
      → (run_ids run steps before p).0 ≡ none
      → (contains before d ≡ true) ⊎ HasOutput p
      → HasOutput (run_ids run steps before p).1
  unfolding run_ids contains
  run_ids-HasOutput [] p known e (inl h) = absurd cc
  run_ids-HasOutput [] p known e (inr old) = old
  run_ids-HasOutput (id ∷ rest) p known e h =
      let x = at_step run (step_by_id steps id) p in
      let (head, whole) = and_step-none x (λ q. run_ids run steps rest q) e in
      subst (λ (y : Option String × Progress). HasOutput y.1) (sym whole)
        (run_ids-HasOutput rest x.1 known
          (sym (ap (λ (y : Option String × Progress). y.0) whole) ∙ e)
          (next_output id rest p known head h))

  and_step-then :
      (x : Option String × Progress) (first both next : Progress → Option String × Progress)
      → ((q : Progress) → (first q).0 ≡ none → both q ≡ next (first q).1)
      → (and_step x first).0 ≡ none
      → and_step x both ≡ next (and_step x first).1
  and_step-then (some m, p) first both next h e = absurd cc
  and_step-then (none, p) first both next h e = h p e

  pub run_ids-append :
      (before more : List String) (p : Progress)
      → (run_ids run steps before p).0 ≡ none
      → run_ids run steps (before ++ more) p ≡ run_ids run steps more (run_ids run steps before p).1
  unfolding run_ids
  run_ids-append [] more p e = refl
  run_ids-append (id ∷ rest) more p e =
      and_step-then (at_step run (step_by_id steps id) p) (λ q. run_ids run steps rest q)
        (λ q. run_ids run steps (rest ++ more) q) (λ q. run_ids run steps more q)
        (λ q g. run_ids-append rest more q g) e
