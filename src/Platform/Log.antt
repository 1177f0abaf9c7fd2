-- ===== src/Platform/Log.antt =====
-- The log that the writer of internal/platform/seq_writer.go stands for: lines that wait, and batches
-- that have been taken off.
use slay_push.Platform.{tick, to_clef, line, Event, SeqCodec}
use slay_push.Errors.{err, Err, ok, Result}
use slay_push.Crypto.{Bytes}
use slay_push.Base.{length, ap, ◌∙◌, sym, refl, ◌∷◌, ◌≡◌, [], List, ◌++◌, ◌≤◌, ◌<◌}
use mathlib.Core.List.{append-nil, append_assoc}

pub record Log : Type 0 where
  pub taken : List (List Bytes)
  pub pending : List Bytes

abbrev pub empty_log : Log
empty_log = record { taken = []; pending = [] }

abbrev pub accept_line : Bytes → Log → Log
accept_line l a = record a { pending = a.pending ++ l ∷ [] }

-- Lines as bytes, each with its newline.
unfoldable pub flatten : List Bytes → Bytes
flatten [] = []
flatten (l ∷ ls) = (l ++ 10 ∷ []) ++ flatten ls

-- All that waits is taken off as one batch, or nothing waits.
pub data Takes : Log → Log → Type 0 where
  idle :
      {taken : List (List Bytes)}
      → Takes (record { taken = taken; pending = [] }) (record { taken = taken; pending = [] })
  takes :
      {taken : List (List Bytes)} {l : Bytes} {ls : List Bytes}
      → Takes
          (record { taken = taken; pending = l ∷ ls })
          (record { taken = taken ++ (l ∷ ls) ∷ []; pending = [] })

-- What the log does at an event: a malformed line is dropped; any other waits, and where the lines
-- that wait come to 200 bytes they are taken off; a tick takes them off.
pub data LogStep (c : SeqCodec) : Event → Log → Log → Type 0 where
  drops : {p : Bytes} {a : Log} {e : Err} → to_clef c p ≡ err e → LogStep c (line p) a a
  accepts :
      {p l : Bytes} {a : Log}
      → to_clef c p ≡ ok l
      → length (flatten (accept_line l a).pending) < 200
      → LogStep c (line p) a (accept_line l a)
  accepts_and_takes :
      {p l : Bytes} {a b : Log}
      → to_clef c p ≡ ok l
      → 200 ≤ length (flatten (accept_line l a).pending)
      → Takes (accept_line l a) b
      → LogStep c (line p) a b
  ticks : {a b : Log} → Takes a b → LogStep c tick a b

pub data LogTrace (c : SeqCodec) : List Event → Log → Log → Type 0 where
  done : {a : Log} → LogTrace c [] a a
  then_step :
      {e : Event} {es : List Event} {a b d : Log}
      → LogStep c e a b
      → LogTrace c es b d
      → LogTrace c (e ∷ es) a d

-- The well-formed lines, as CLEF, in the order in which they were written.
accepted_line : Result Bytes → List Bytes → List Bytes
accepted_line (ok l) ls = l ∷ ls
accepted_line (err e) ls = ls

unfoldable pub accepted : SeqCodec → List Event → List Bytes
unfolding accepted_line
accepted c [] = []
accepted c (line p ∷ es) = accepted_line (to_clef c p) (accepted c es)
accepted c (tick ∷ es) = accepted c es

abbrev pub join : List (List Bytes) → List Bytes
join [] = []
join (b ∷ bs) = b ++ join bs

-- The lines that were taken off, then those that wait.
abbrev pub lines_of : Log → List Bytes
lines_of a = join a.taken ++ a.pending

join-snoc : (bs : List (List Bytes)) (b : List Bytes) → join (bs ++ b ∷ []) ≡ join bs ++ b
join-snoc [] b = append-nil b
join-snoc (x ∷ bs) b = ap (λ z. x ++ z) (join-snoc bs b) ∙ sym (append_assoc x (join bs) b)

pub flatten-append : (xs ys : List Bytes) → flatten (xs ++ ys) ≡ flatten xs ++ flatten ys
unfolding flatten
flatten-append [] ys = refl
flatten-append (x ∷ xs) ys =
    rw (flatten-append xs ys, append_assoc (x ++ 10 ∷ []) (flatten xs) (flatten ys)) refl

shift :
    (xs ys : List Bytes) (l : Bytes) (zs : List Bytes)
    → (xs ++ (ys ++ l ∷ [])) ++ zs ≡ (xs ++ ys) ++ l ∷ zs
shift xs ys l zs =
    ap (λ z. z ++ zs) (sym (append_assoc xs ys (l ∷ []))) ∙ append_assoc (xs ++ ys) (l ∷ []) zs

pub some_bytes : (l : Bytes) (ls : List Bytes) → [] ≡ flatten (l ∷ ls) → ⊥
unfolding flatten
some_bytes [] ls h = cc
some_bytes (x ∷ l) ls h = cc

Takes-lines_of : {a b : Log} → Takes a b → lines_of b ≡ lines_of a
Takes-lines_of idle = refl
Takes-lines_of (takes {taken = taken} {l = l} {ls = ls}) =
    append-nil (join (taken ++ (l ∷ ls) ∷ [])) ∙ join-snoc taken (l ∷ ls)

module _ (c : SeqCodec) where
  step-accepted :
      {e : Event} {a b : Log} (es : List Event)
      → LogStep c e a b
      → lines_of b ++ accepted c es ≡ lines_of a ++ accepted c (e ∷ es)
  unfolding accepted accepted_line
  step-accepted es (drops h) = rw h refl
  step-accepted {a = a} es (accepts {l = l} h few) =
      rw h (shift (join a.taken) a.pending l (accepted c es))
  step-accepted {a = a} es (accepts_and_takes {l = l} h many t) = rw h (
      ap (λ z. z ++ accepted c es) (Takes-lines_of t)
      ∙ shift (join a.taken) a.pending l (accepted c es))
  step-accepted es (ticks t) = ap (λ z. z ++ accepted c es) (Takes-lines_of t)

  pub trace-accepted :
      {es : List Event} {a b : Log} → LogTrace c es a b → lines_of b ≡ lines_of a ++ accepted c es
  unfolding accepted
  trace-accepted {a = a} done = sym (append-nil (lines_of a))
  trace-accepted (then_step {es = es} s t) = trace-accepted t ∙ step-accepted es s
