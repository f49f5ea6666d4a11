-- ===== src/State/Listing.antt =====
-- ListRuns of internal/orchestrator/state/mem_store.go.
use mathlib.Core.List.{Perm}
use mathlib.Core.List.Perm
use ktsu.Prelude.{
  true, sym, ap, eq_iff, ◌++◌, ◌↔◌, ℕ, zero, suc, ◌≤◌, ◌==◌, String, ◌≡◌, refl, subst, Bool, ◌&&◌,
  ◌||◌, List, [], ◌∷◌, arith, str_eq, ltb, length, take, All, if◌then◌else◌, Bool-cases, inl, inr,
  ◌⊎◌,
}
use ktsu.Prelude.Map.{Map}
use ktsu.State.Records.{Run}
use ktsu.State.MemStore.{MemStore, Range, copy_run, values_of}

-- A text that is "" filters nothing; `limit` is 0 where the field is 0 or negative.
pub record ListRunsFilter : Type 0 where
  pub workflow_name : String
  pub status : String
  pub limit : ℕ

abbrev limit_of : ListRunsFilter → ℕ
limit_of f = if f.limit == 0 then 50 else f.limit

abbrev passes : String → String → Bool
passes wanted field = str_eq wanted "" || str_eq field wanted

-- The loop over the runs.
unfoldable pub matching : ListRunsFilter → List Run → List Run
matching f [] = []
matching f (r ∷ rs) =
    let rest = matching f rs in
    if passes f.workflow_name r.workflow_name && passes f.status r.status
    then copy_run r ∷ rest
    else rest

unfoldable pub insert_run : Run → List Run → List Run
insert_run r [] = r ∷ []
insert_run r (x ∷ xs) =
    let rest = insert_run r xs in if ltb r.created_at x.created_at then x ∷ rest else r ∷ x ∷ xs

-- sort.Slice by CreatedAt, newest first: the order of equal times is the sort's own.
unfoldable pub sort_runs : List Run → List Run
sort_runs [] = []
sort_runs (r ∷ rs) = insert_run r (sort_runs rs)

-- ListRuns(filter), with the order in which its loop visits the runs.
unfoldable pub list_runs : {R : Type 0} → Range Run → ListRunsFilter → MemStore R → List Run
list_runs range f m = take (limit_of f) (sort_runs (matching f (range m.runs)))

-- Each run is no older than those behind it.
abbrev pub IsDescending : List Run → Type 0
IsDescending [] = Unit
IsDescending (r ∷ rs) = All (λ x. x.created_at ≤ r.created_at) rs × IsDescending rs

module _ {κ} (P : Run → Type κ) where
  All-insert_run : (r : Run) (xs : List Run) → P r → All P xs → All P (insert_run r xs)
  unfolding insert_run
  All-insert_run r [] h all = (h, tt)
  All-insert_run r (x ∷ xs) h all = elim (Bool-cases (ltb r.created_at x.created_at)) [
    | inl e ↦ rw e (all.0, All-insert_run r xs h all.1)
    | inr e ↦ rw e (h, (all.0, all.1))
  ]

All-weaken :
    (r x : Run) (xs : List Run)
    → x.created_at ≤ r.created_at
    → All (λ y. y.created_at ≤ x.created_at) xs
    → All (λ y. y.created_at ≤ r.created_at) xs
All-weaken r x [] le all = tt
All-weaken r x (y ∷ ys) le all = (omega (arith, le, all.0), All-weaken r x ys le all.1)

insert_run-IsDescending :
    (r : Run) (xs : List Run) → IsDescending xs → IsDescending (insert_run r xs)
unfolding insert_run
insert_run-IsDescending r [] d = (tt, tt)
insert_run-IsDescending r (x ∷ xs) d = elim (Bool-cases (ltb r.created_at x.created_at)) [
  | inl e ↦ rw e (
    All-insert_run (λ y. y.created_at ≤ x.created_at) r xs (ground (arith, e)) d.0,
    insert_run-IsDescending r xs d.1,
  )
  | inr e ↦
      let le : x.created_at ≤ r.created_at = ground (arith, e) in
      rw e ((le, All-weaken r x xs le d.0), d)
]

sort_runs-IsDescending : (rs : List Run) → IsDescending (sort_runs rs)
unfolding sort_runs
sort_runs-IsDescending [] = tt
sort_runs-IsDescending (r ∷ rs) =
    insert_run-IsDescending r (sort_runs rs) (sort_runs-IsDescending rs)

-- A run fits a filter whose two texts are empty or its own.
pub record Fits (f : ListRunsFilter) (r : Run) : Type 0 where
  pub workflow_name : (f.workflow_name ≡ "") ⊎ (r.workflow_name ≡ f.workflow_name)
  pub status : (f.status ≡ "") ⊎ (r.status ≡ f.status)

-- The copies of the runs that fit, in their order.
abbrev pub AreChosen : ListRunsFilter → List Run → List Run → Type 0
AreChosen f chosen [] = chosen ≡ []
AreChosen f chosen (r ∷ rs) =
    (Fits f r × ((rest : List Run) × (chosen ≡ copy_run r ∷ rest) × AreChosen f rest rs))
    ⊎ (¬ Fits f r × AreChosen f chosen rs)

passes_iff :
    (wanted field : String) → (passes wanted field ≡ true) ↔ ((wanted ≡ "") ⊎ (field ≡ wanted))
passes_iff wanted field = (
  λ h. elim (Bool-cases (str_eq wanted "")) [
    | inl e ↦ inl ((eq_iff wanted "").0 e)
    | inr e ↦ inr ((eq_iff field wanted).0 (ground (arith, h, e)))
  ],
  λ h. elim h [
    | inl e ↦ ground (arith, (eq_iff wanted "").1 e)
    | inr e ↦ ground (arith, (eq_iff field wanted).1 e)
  ],
)

matching-AreChosen : (f : ListRunsFilter) (rs : List Run) → AreChosen f (matching f rs) rs
unfolding matching
matching-AreChosen f [] = refl
matching-AreChosen f (r ∷ rs) =
    let (named, name_back) = passes_iff f.workflow_name r.workflow_name in
    let (stated, state_back) = passes_iff f.status r.status in
    elim (Bool-cases (passes f.workflow_name r.workflow_name && passes f.status r.status)) [
      | inl e ↦ rw e (
          inl (
            record {
              workflow_name = named (ground (arith, e));
              status = stated (ground (arith, e));
            },
            (matching f rs, refl, matching-AreChosen f rs),
          ))
      | inr e ↦ rw e (
          inr (
            λ h. ground (arith, e, name_back h.workflow_name, state_back h.status),
            matching-AreChosen f rs,
          ))
    ]

insert_run-Perm : (r : Run) (xs : List Run) → Perm (insert_run r xs) (r ∷ xs)
unfolding insert_run
insert_run-Perm r [] = Perm.refl (r ∷ [])
insert_run-Perm r (x ∷ xs) = elim (Bool-cases (ltb r.created_at x.created_at)) [
  | inl e ↦ rw e (Perm.trans (Perm.cons x (insert_run-Perm r xs)) (Perm.swap r x xs))
  | inr e ↦ rw e (Perm.refl (r ∷ x ∷ xs))
]

sort_runs-Perm : (rs : List Run) → Perm (sort_runs rs) rs
unfolding sort_runs
sort_runs-Perm [] = Perm.refl []
sort_runs-Perm (r ∷ rs) =
    Perm.trans (insert_run-Perm r (sort_runs rs)) (Perm.cons r (sort_runs-Perm rs))

-- What `take` leaves, which is nothing unless it takes its full number.
take_rest :
    (n : ℕ) (xs : List Run)
    → (rest : List Run) × (take n xs ++ rest ≡ xs)
      × (length (take n xs) ≤ n)
      × ((rest ≡ []) ⊎ (length (take n xs) ≡ n))
take_rest zero xs = (xs, refl, omega arith, inr refl)
take_rest (suc n) [] = ([], refl, omega arith, inl refl)
take_rest (suc n) (x ∷ xs) =
    let (rest, whole, short, full) = take_rest n xs in
    (
      rest,
      ap (λ l. x ∷ l) whole,
      omega (arith, short),
      elim full [ inl e ↦ inl e | inr e ↦ inr (omega (arith, e)) ],
    )

-- Whatever the order of a loop over a Go map: ListRuns gives copies of the stored runs that fit the filter, each as often as it is stored, newest first, and no
-- more of them than the limit, 50 where the filter has none. It leaves out others that fit only if it gives
-- as many as the limit, and these are no newer than any that it gives.
pub list_runs_lem :
    {R : Type 0} (range : Range Run) (f : ListRunsFilter) (m : MemStore R)
    → ((rs : Map Run) → Perm (range rs) (values_of rs))
    → let limit : ℕ = if f.limit == 0 then 50 else f.limit in
      let out : List Run = list_runs range f m in
      (visited : List Run) × (chosen : List Run) × (left_out : List Run) × Perm visited
        (values_of m.runs)
      × AreChosen f chosen visited
      × Perm (out ++ left_out) chosen
      × IsDescending (out ++ left_out)
      × (length out ≤ limit)
      × ((left_out ≡ []) ⊎ (length out ≡ limit))
unfolding list_runs
list_runs_lem range f m visits =
    let visited = range m.runs in
    let chosen = matching f visited in
    let (rest, whole, short, full) = take_rest (limit_of f) (sort_runs chosen) in
    (
      visited,
      chosen,
      rest,
      visits m.runs,
      matching-AreChosen f visited,
      subst (λ l. Perm l chosen) (sym whole) (sort_runs-Perm chosen),
      subst IsDescending (sym whole) (sort_runs-IsDescending chosen),
      short,
      full,
    )
