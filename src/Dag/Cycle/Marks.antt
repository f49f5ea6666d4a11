-- ===== src/Dag/Cycle/Marks.antt =====
-- What a search leaves of the colours: nothing turns white again, and nothing new stays gray.
use ktsu.Prelude.{
  ℕ, zero, suc, String, ◌≡◌, refl, subst, ◌⊎◌, inl, inr, List, [], ◌∷◌, arith, eq_iff,
}
use ktsu.Dag.Graph.{Node, adj}
use ktsu.Dag.Cycle.{
  white, gray, black, Color, Colors, paint, Outcome, passed, cyclic, exhausted, and_then,
  visit_each, blacken, visit,
}

pub and_then-passed :
    (o : Outcome) (k : Colors → Outcome) {c : Colors}
    → and_then o k ≡ passed c
    → (b : Colors) × (o ≡ passed b) × (k b ≡ passed c)
and_then-passed (passed b) k h = (b, refl, h)
and_then-passed (cyclic id) k h = cc
and_then-passed exhausted k h = cc

pub passed-injective : {a b : Colors} → passed a ≡ passed b → a ≡ b
passed-injective h = cc

pub and_then-cyclic :
    (o : Outcome) (k : Colors → Outcome) {x : String}
    → and_then o k ≡ cyclic x
    → (o ≡ cyclic x) ⊎ ((b : Colors) × (o ≡ passed b) × (k b ≡ cyclic x))
and_then-cyclic (passed b) k h = inr (b, refl, h)
and_then-cyclic (cyclic id) k h = inl h
and_then-cyclic exhausted k h = cc

pub and_then-exhausted :
    (o : Outcome) (k : Colors → Outcome)
    → and_then o k ≡ exhausted
    → (o ≡ exhausted) ⊎ ((b : Colors) × (o ≡ passed b) × (k b ≡ exhausted))
and_then-exhausted (passed b) k h = inr (b, refl, h)
and_then-exhausted (cyclic id) k h = cc
and_then-exhausted exhausted k h = inl refl

pub blacken-cyclic :
    (id : String) (o : Outcome) {x : String} → blacken id o ≡ cyclic x → o ≡ cyclic x
blacken-cyclic id (passed b) h = cc
blacken-cyclic id (cyclic y) h = h
blacken-cyclic id exhausted h = cc

pub blacken-exhausted : (id : String) (o : Outcome) → blacken id o ≡ exhausted → o ≡ exhausted
blacken-exhausted id (passed b) h = cc
blacken-exhausted id (cyclic y) h = cc
blacken-exhausted id exhausted h = h

pub blacken-passed :
    (id : String) (o : Outcome) {c : Colors}
    → blacken id o ≡ passed c
    → (b : Colors) × (o ≡ passed b) × (paint id black b ≡ c)
blacken-passed id o h =
    let (b, first, last) = and_then-passed o (λ color. passed (paint id black color)) h in
    (b, first, passed-injective last)

pub record Later (c c' : Colors) : Type 0 where
  pub white_before : (j : String) → c' j ≡ white → c j ≡ white
  pub gray_before : (j : String) → c' j ≡ gray → c j ≡ gray

pub Later-refl : (c : Colors) → Later c c
Later-refl c = record { white_before = λ j h. h; gray_before = λ j h. h }

pub Later-passed : {c c' : Colors} → passed c ≡ passed c' → Later c c'
Later-passed {c} h = subst (Later c) (passed-injective h) (Later-refl c)

pub Later-trans : {a b c : Colors} → Later a b → Later b c → Later a c
Later-trans p q = record {
  white_before = λ j h. p.white_before j (q.white_before j h);
  gray_before = λ j h. p.gray_before j (q.gray_before j h);
}

Later-blacken :
    (id : String) (c b : Colors)
    → c id ≡ white
    → Later (paint id gray c) b
    → Later c (paint id black b)
unfolding paint
Later-blacken id c b h l = record {
  white_before = λ j e. ground (arith, eq_iff id j, l.white_before j);
  gray_before = λ j e. ground (arith, eq_iff id j, l.gray_before j);
}

-- The three branches of `visit`.
pub data Visited (nodes : List Node) (fuel : ℕ) (id : String) (c : Colors) : Outcome → Type 0 where
  was_black : c id ≡ black → Visited nodes fuel id c (passed c)
  was_gray : c id ≡ gray → Visited nodes fuel id c (cyclic id)
  was_white :
      c id ≡ white
      → Visited nodes fuel id c
          (blacken id (visit_each (visit nodes fuel) (adj nodes id) (paint id gray c)))

pub visit-Visited :
    (nodes : List Node) (fuel : ℕ) (id : String) (c : Colors)
    → Visited nodes fuel id c (visit nodes (suc fuel) id c)
unfolding visit
visit-Visited nodes fuel id c = go (c id) refl
  where
    go :
        (k : Color)
        → c id ≡ k
        → Visited nodes fuel id c (elim k [
          | black ↦ passed c
          | gray ↦ cyclic id
          | white ↦ blacken id (visit_each (visit nodes fuel) (adj nodes id) (paint id gray c))
        ])
    go white e = was_white e
    go gray e = was_gray e
    go black e = was_black e

pub visit_each-Later :
    (v : String → Colors → Outcome)
    → ((id : String) (c c' : Colors) → v id c ≡ passed c' → Later c c')
    → (ds : List String) (c c' : Colors) → visit_each v ds c ≡ passed c'
    → Later c c'
unfolding visit_each
visit_each-Later v step [] c c' h = Later-passed h
visit_each-Later v step (d ∷ ds) c c' h =
    let (b, first, rest) = and_then-passed (v d c) (visit_each v ds) h in
    Later-trans (step d c b first) (visit_each-Later v step ds b c' rest)

Visited-Later :
    (nodes : List Node) (fuel : ℕ) (id : String) (c : Colors) {o : Outcome}
    → ((d : String) (a b : Colors) → visit nodes fuel d a ≡ passed b → Later a b)
    → Visited nodes fuel id c o
    → (c' : Colors) → o ≡ passed c'
    → Later c c'
Visited-Later nodes fuel id c ih (was_black e) c' h = Later-passed h
Visited-Later nodes fuel id c ih (was_gray e) c' h = cc
Visited-Later nodes fuel id c ih (was_white e) c' h =
    let (b, each, last) = blacken-passed id _ h in
    subst (Later c) last
      (Later-blacken id c b e (visit_each-Later (visit nodes fuel) ih (adj nodes id) _ b each))

pub visit-Later :
    (nodes : List Node) (fuel : ℕ) (id : String) (c c' : Colors)
    → visit nodes fuel id c ≡ passed c'
    → Later c c'
visit-Later nodes zero id c c' h = unfold visit in cc
visit-Later nodes (suc fuel) id c c' h =
    Visited-Later nodes fuel id c (visit-Later nodes fuel) (visit-Visited nodes fuel id c) c' h
