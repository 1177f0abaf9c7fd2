-- ===== src/Store/Keeps.antt =====
-- What a chain of calls keeps, whatever becomes of its statements: a rule for each way to build one.
use slay_push.Store.Monad.{
  meet, bind_result, wrapping, of_result, fail, attempt, advance, ◌>>=◌, query, pure, asks, M,
}
use slay_push.Errors.{err, ok, Result, Err}
use slay_push.Base.{false, true, if◌then◌else◌, String, Bool}
use slay_push.Store.{QueryFate, World}

-- `P` holds after the call if it held before, whether or not the call returned an error.
pub record Keeps {A : Type 0} (P : World → Type 0) (m : M A) : Type 0 where
  pub keep : (w : World) → P w → P (m w).1

module _ {P : World → Type 0} where
  pub Keeps-bind :
      {A B : Type 0} {m : M A} {f : A → M B}
      → Keeps P m
      → ((a : A) → Keeps P (f a))
      → Keeps P (m >>= f)
  Keeps-bind {A} {m = m} {f = f} hm hf = record { keep = λ w h. go (m w) (hm.keep w h) }
    where
      go : (x : Result A × World) → P x.1 → P (bind_result x f).1
      go (ok a, w') h' = (hf a).keep w' h'
      go (err e, w') h' = h'

  pub Keeps-if :
      {A : Type 0} (b : Bool) {m n : M A} → Keeps P m → Keeps P n → Keeps P (if b then m else n)
  Keeps-if true hm hn = hm
  Keeps-if false hm hn = hn

  pub Keeps-wrapping : {A : Type 0} (s : String) {m : M A} → Keeps P m → Keeps P (wrapping s m)
  Keeps-wrapping s h = record { keep = λ w k. h.keep w k }

  pub Keeps-attempt : {A : Type 0} {m : M A} → Keeps P m → Keeps P (attempt m)
  Keeps-attempt h = record { keep = λ w k. h.keep w k }

  pub Keeps-pure : {A : Type 0} {a : A} → Keeps P (pure a)
  Keeps-pure = record { keep = λ w k. k }

  pub Keeps-fail : {A : Type 0} {e : Err} → Keeps P (fail {A = A} e)
  Keeps-fail = record { keep = λ w k. k }

  pub Keeps-asks : {A : Type 0} {f : World → A} → Keeps P (asks f)
  Keeps-asks = record { keep = λ w k. k }

  pub Keeps-of_result : {A : Type 0} {r : Result A} → Keeps P (of_result r)
  Keeps-of_result = record { keep = λ w k. k }

  -- A statement keeps what its effect keeps.
  pub Keeps-query :
      {A : Type 0} (q : M A)
      → ((w : World) → P w → P (q w).1)
      → ((w : World) → P w → P (advance w))
      → Keeps P (query q)
  unfolding query
  Keeps-query q hq ha = record { keep = λ w h. go w h (w.env.query_fate w.tick) }
    where
      go : (w : World) → P w → (f : QueryFate) → P (meet f q (advance w)).1
      go w h QueryFate.runs = hq (advance w) (ha w h)
      go w h (QueryFate.refused s) = ha w h
      go w h (QueryFate.lost s) = hq (advance w) (ha w h)

pub ruleset keeping = (
  Keeps-bind, Keeps-if, Keeps-wrapping, Keeps-attempt, Keeps-pure, Keeps-fail, Keeps-asks,
  Keeps-of_result,
)
