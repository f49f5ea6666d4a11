-- ===== src/State/Envelope/Totals.antt =====
-- What an envelope holds: one entry for each finished step, and the sums over the entries.
use ktsu.Prelude.{ℕ, ◌+◌, ◌≡◌, none, some, ◌⊎◌, ◌≢◌, ◌-◌, ◌/◌, List, [], ◌∷◌, ◌++◌, if◌then◌else◌}
use ktsu.State.Status
use ktsu.Prelude.Map.{Map}
use ktsu.Value.Float.{Float64, float_add}
use ktsu.State.Records.{StepMetrics, RunTotals, Step}
use ktsu.State.MemStore.{MemStore, or_empty}
use ktsu.State.Envelope.{StepEntry, Envelope, is_unfinished, entry_of, add_totals}

-- An entry shows a step: its fields, its metrics, and the milliseconds between its two times if it has both.
pub record Shows (e : StepEntry) (s : Step) : Type 0 where
  pub id : e.id ≡ s.id
  pub output : e.output ≡ or_empty s.output
  pub timestamp : e.timestamp ≡ s.ended_at
  pub status : e.status ≡ s.status
  pub error : e.error ≡ s.error
  pub metrics : record e.metrics { duration_ms = 0 } ≡ record s.metrics { duration_ms = 0 }
  pub lasted :
      (a b : ℕ)
      → s.started_at ≡ some a
      → s.ended_at ≡ some b
      → e.metrics.duration_ms ≡ (b - a) / 1000000
  pub untimed :
      (s.started_at ≡ none) ⊎ (s.ended_at ≡ none) → e.metrics.duration_ms ≡ s.metrics.duration_ms

-- One entry for each step that is neither running nor pending, in the order of the steps.
abbrev pub AreShown : List StepEntry → List Step → Type 0
AreShown es [] = es ≡ []
AreShown es (s ∷ ss) =
    (((s.status ≡ Status.running) ⊎ (s.status ≡ Status.pending)) × AreShown es ss)
    ⊎ ((s.status ≢ Status.running)
        × (s.status ≢ Status.pending)
        × ((e : StepEntry) × (rest : List StepEntry) × (es ≡ e ∷ rest)
            × Shows e s
            × AreShown rest ss))

-- The steps behind the test.
abbrev finished : List Step → List Step
finished [] = []
finished (s ∷ steps) = let rest = finished steps in if is_unfinished s then rest else s ∷ rest

abbrev pub sum_of : (StepMetrics → ℕ) → List StepEntry → ℕ
sum_of f [] = 0
sum_of f (e ∷ es) = f e.metrics + sum_of f es

-- The costs are added in the order of the entries, from 0: float64 addition is not associative.
abbrev pub cost_of : Float64 → List StepEntry → Float64
cost_of total [] = total
cost_of total (e ∷ es) = cost_of (float_add total e.metrics.cost_usd) es

-- The totals of a list of entries.
pub record AreTotals (start : RunTotals) (entries : List StepEntry) (t : RunTotals) : Type 0 where
  pub duration : t.duration_ms ≡ start.duration_ms + sum_of (λ m. m.duration_ms) entries
  pub tokens_in : t.tokens_in ≡ start.tokens_in + sum_of (λ m. m.tokens_in) entries
  pub tokens_out : t.tokens_out ≡ start.tokens_out + sum_of (λ m. m.tokens_out) entries
  pub cost : t.cost_usd ≡ cost_of start.cost_usd entries
  pub llm_calls : t.llm_calls ≡ start.llm_calls + sum_of (λ m. m.llm_calls) entries
  pub tool_calls : t.tool_calls ≡ start.tool_calls + sum_of (λ m. m.tool_calls) entries

abbrev extended : Step → Envelope → Envelope
extended s env = record env {
  steps = env.steps ++ entry_of s ∷ [];
  totals = add_totals env.totals (entry_of s).metrics;
}
