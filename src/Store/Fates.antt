-- ===== src/Store/Fates.antt =====
-- The outcomes of a statement, by the fate that meets it.
use slay_push.Base.{refl, inr, inl, String, ◌⊎◌, ◌≡◌, ℕ}
use slay_push.Errors.{other, err, Result}
use slay_push.Store.Monad.{meet, advance, M, query}
use slay_push.Store.{QueryFate, World}

-- A statement that only reads returns its answer or an error, and counts one contact either way.
pub read_cases :
    {A : Type 0} (f : World → Result A) (w : World)
    → (query (λ u. (f u, u)) w ≡ (f (advance w), advance w))
      ⊎ ((s : String) × (query (λ u. (f u, u)) w ≡ (err (other s), advance w)))
unfolding query
read_cases {A} f w = go (w.env.query_fate w.tick)
  where
    go :
        (x : QueryFate)
        → (meet x (λ u. (f u, u)) (advance w) ≡ (f (advance w), advance w))
          ⊎ ((s : String) × (meet x (λ u. (f u, u)) (advance w) ≡ (err (other s), advance w)))
    go QueryFate.runs = inl refl
    go (QueryFate.refused s) = inr (s, refl)
    go (QueryFate.lost s) = inr (s, refl)

-- Every statement runs: the database is up, and no reply is lost.
abbrev pub AllRun : World → Type 0
AllRun w = (n : ℕ) → w.env.query_fate n ≡ QueryFate.runs

pub query_runs :
    {A : Type 0} (q : M A) (w : World)
    → w.env.query_fate w.tick ≡ QueryFate.runs
    → query q w ≡ q (advance w)
unfolding query
query_runs q w h = rw (h, query)

-- To split on a fate and keep the equation.
pub fate-cases :
    (f : QueryFate)
    → (f ≡ QueryFate.runs)
      ⊎ ((s : String) × (f ≡ QueryFate.refused s))
      ⊎ ((s : String) × (f ≡ QueryFate.lost s))
fate-cases QueryFate.runs = inl refl
fate-cases (QueryFate.refused s) = inr (inl (s, refl))
fate-cases (QueryFate.lost s) = inr (inr (s, refl))
