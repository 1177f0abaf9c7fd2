-- ===== src/Store/Success.antt =====
-- What a call that returned no error has gone through.
use slay_push.Store.{QueryFate, World}
use slay_push.Store.Monad.{meet, advance, wrap_result, bind_result, M, query}
use slay_push.Base.{refl, ◌≡◌, String}
use slay_push.Errors.{err, ok, Result}

module _ {A B : Type 0} where
  pub bind_ok :
      (x : Result A × World) (f : A → M B) (b : B) (v : World)
      → ◌≡◌ {A = Result B × World} (bind_result x f) (ok b, v)
      → (a : A) × (u : World) × (x ≡ (ok a, u)) × (f a u ≡ (ok b, v))
  bind_ok (ok a, u) f b v h = (a, u, refl, h)
  bind_ok (err e, u) f b v h = cc

module _ {A : Type 0} where
  pub wrapping_ok :
      (s : String) (x : Result A × World) (a : A) (v : World)
      → ◌≡◌ {A = Result A × World} (wrap_result s x.0, x.1) (ok a, v)
      → x ≡ (ok a, v)
  wrapping_ok s (ok b, u) a v h = h
  wrapping_ok s (err e, u) a v h = cc

  pub query_ok :
      (q : M A) (w : World) (a : A) (v : World) → query q w ≡ (ok a, v) → q (advance w) ≡ (ok a, v)
  unfolding query
  query_ok q w a v h = go (w.env.query_fate w.tick) h
    where
      go : (x : QueryFate) → meet x q (advance w) ≡ (ok a, v) → q (advance w) ≡ (ok a, v)
      go QueryFate.runs k = k
      go (QueryFate.refused s) k = cc
      go (QueryFate.lost s) k = cc

  pub ok_eq : (a b : A) (u v : World) → ◌≡◌ {A = Result A × World} (ok a, u) (ok b, v) → a ≡ b
  ok_eq a b u v h = cc
