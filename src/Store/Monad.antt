-- ===== src/Store/Monad.antt =====
-- Calls that read and change the world and may return an error. What a failed call has done stays
-- done: there is no transaction around a handler.
use slay_push.Base.{String, suc}
use slay_push.Errors.{Err, other, wrapped, Result, ok, err}
use slay_push.Store.{World, QueryFate}

abbrev pub M : Type 0 → Type 0
M A = World → Result A × World

abbrev pub pure : {A : Type 0} → A → M A
pure a w = (ok a, w)

abbrev pub fail : {A : Type 0} → Err → M A
fail e w = (err e, w)

abbrev pub bind_result : {A B : Type 0} → Result A × World → (A → M B) → Result B × World
bind_result (ok a, w) f = f a w
bind_result (err e, w) f = (err e, w)

infixl 5 ◌>>=◌ ◌>>◌
abbrev pub ◌>>=◌ : {A B : Type 0} → M A → (A → M B) → M B
◌>>=◌ m f w = bind_result (m w) f

abbrev pub ◌>>◌ : {A B : Type 0} → M A → M B → M B
m >> k = m >>= λ _. k

abbrev pub wrap_result : {A : Type 0} → String → Result A → Result A
wrap_result text (ok a) = ok a
wrap_result text (err e) = err (wrapped text e)

-- `if err != nil { return fmt.Errorf("text: %w", err) }`
abbrev pub wrapping : {A : Type 0} → String → M A → M A
wrapping text m w = let (r, w') = m w in (wrap_result text r, w')

-- The result of a call, for the code to test.
abbrev pub attempt : {A : Type 0} → M A → M (Result A)
attempt m w = let (r, w') = m w in (ok r, w')

abbrev pub of_result : {A : Type 0} → Result A → M A
of_result r w = (r, w)

abbrev pub asks : {A : Type 0} → (World → A) → M A
asks f w = (ok (f w), w)

-- One more contact with the outside.
abbrev pub advance : World → World
advance w = record w { tick = suc w.tick }

abbrev pub meet : {A : Type 0} → QueryFate → (World → Result A × World) → M A
meet QueryFate.runs q w = q w
meet (QueryFate.refused s) q w = (err (other s), w)
meet (QueryFate.lost s) q w = (err (other s), (q w).1)

-- A statement, with whatever becomes of it.
unfoldable pub query : {A : Type 0} → (World → Result A × World) → M A
query q w = meet (w.env.query_fate w.tick) q (advance w)
