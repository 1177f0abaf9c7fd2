-- ===== src/Platform/Refines.antt =====
-- The writer makes the steps of the log.
use slay_push.Platform.Log.{
  Log, empty_log, accept_line, flatten, Takes, idle, takes, LogStep, drops, accepts,
  accepts_and_takes, ticks, LogTrace, done, then_step, accepted, lines_of, flatten-append,
  some_bytes, trace-accepted,
}
use slay_push.Platform.{
  write, new_seq_writer, run_writer, handle, flush_batch, add_line, add_clef, tick, to_clef, line,
  flush, Post, Event, SeqWriter, SeqCodec,
}
use slay_push.Errors.{err, ok, Result}
use slay_push.Crypto.{Bytes}
use slay_push.Base.{
  length, inr, inl, leb, ap, ◌∙◌, Bool-cases, sym, refl, ◌∷◌, ◌≡◌, [], List, ◌++◌, ◌≤◌, ◌<◌, ℕ,
  arith, true, false, suc, ◌+◌,
}
use mathlib.Core.List.{append-nil}
use mathlib.Core.Path.{subst}

-- One request for each batch, in order, with the batch's lines as its body; the n-th has got an
-- answer where the network gave the n-th one.
abbrev pub Requests : SeqCodec → ℕ → List Post → List (List Bytes) → Type 0
Requests c n [] [] = Unit
Requests c n (p ∷ ps) (b ∷ bs) =
    (p.payload ≡ flatten b) × (p.delivered ≡ c.delivers n) × Requests c (suc n) ps bs
Requests c n [] (b ∷ bs) = ⊥
Requests c n (p ∷ ps) [] = ⊥

-- The batch is the lines that wait. Where the URL parses, the requests are those of the batches
-- taken off; where it does not, none is made.
pub record Represents (c : SeqCodec) (w : SeqWriter) (a : Log) : Type 0 where
  pub waiting : w.batch ≡ flatten a.pending
  pub requested : c.url_parses ≡ true → Requests c 0 w.posts a.taken
  pub unmade : c.url_parses ≡ false → w.posts ≡ []

module _ (c : SeqCodec) where
  Requests-snoc :
      (m n : ℕ) (ps : List Post) (bs : List (List Bytes)) (p : Post) (b : List Bytes)
      → Requests c m ps bs
      → n ≡ length ps + m
      → p.payload ≡ flatten b
      → p.delivered ≡ c.delivers n
      → Requests c m (ps ++ p ∷ []) (bs ++ b ∷ [])
  Requests-snoc m n [] [] p b r e body answer =
      let same : n ≡ m = omega (arith, e) in (body, answer ∙ ap c.delivers same, tt)
  Requests-snoc m n [] (x ∷ bs) p b r e body answer = absurd r
  Requests-snoc m n (q ∷ ps) [] p b r e body answer = absurd r
  Requests-snoc m n (q ∷ ps) (x ∷ bs) p b r e body answer =
      (r.0, r.1, Requests-snoc (suc m) n ps bs p b r.2 (omega (arith, e)) body answer)

  take-Represents :
      (b : Bytes) (ps : List Post) (taken : List (List Bytes)) (pending : List Bytes)
      → Represents c
          (record { batch = b; posts = ps })
          (record { taken = taken; pending = pending })
      → (a : Log) × Takes (record { taken = taken; pending = pending }) a
        × Represents c (flush_batch c b ps) a
  unfolding flush_batch flatten
  take-Represents [] ps taken [] r = (record { taken = taken; pending = [] }, idle, r)
  take-Represents [] ps taken (l ∷ ls) r = absurd (some_bytes l ls r.waiting)
  take-Represents (b ∷ bs) ps taken [] r = let h = r.waiting in cc
  take-Represents (b ∷ bs) ps taken (l ∷ ls) r =
      let after : Log = record { taken = taken ++ (l ∷ ls) ∷ []; pending = [] } in
      elim (Bool-cases c.url_parses) [
        | inl parses ↦ (
          after,
          takes,
          record {
            waiting = refl;
            requested = λ _. rw parses (
                Requests-snoc 0 (length ps) ps taken _ (l ∷ ls) (r.requested parses) (omega arith)
                  r.waiting refl);
            unmade = λ broken. cc;
          },
        )
        | inr broken ↦ (
          after,
          takes,
          record {
            waiting = refl;
            requested = λ parses. cc;
            unmade = λ _. rw broken (r.unmade broken);
          },
        )
      ]

  flush-Represents :
      (w : SeqWriter) (a : Log)
      → Represents c w a
      → (b : Log) × Takes a b × Represents c (flush c w) b
  unfolding flush
  flush-Represents w a r = take-Represents w.batch w.posts a.taken a.pending r

  add-Represents :
      (w : SeqWriter) (a : Log) (l : Bytes)
      → Represents c w a
      → Represents c (add_line l w) (accept_line l a)
  unfolding flatten
  add-Represents w a l r = record {
    waiting = rw (r.waiting) (
        sym (
          flatten-append a.pending (l ∷ [])
          ∙ ap (λ z. flatten a.pending ++ z) (append-nil (l ++ 10 ∷ []))));
    requested = r.requested;
    unmade = r.unmade;
  }

  line-Represents :
      (w : SeqWriter) (a : Log) (p : Bytes) (x : Result Bytes)
      → to_clef c p ≡ x
      → Represents c w a
      → (b : Log) × LogStep c (line p) a b × Represents c (add_clef c x w) b
  unfolding add_clef
  line-Represents w a p (err e) h r = (a, drops h, r)
  line-Represents w a p (ok l) h r =
      let added = add-Represents w a l r in
      let size : length (add_line l w).batch ≡ length (flatten (accept_line l a).pending) =
        ap length added.waiting in
      elim (Bool-cases (leb 200 (length (add_line l w).batch))) [
        | inl full ↦
            let many : 200 ≤ length (add_line l w).batch = ground arith in
            let (b, t, r') = flush-Represents (add_line l w) (accept_line l a) added in
            (b, accepts_and_takes h (subst (λ n. 200 ≤ n) size many) t, rw (add_clef, full) r')
        | inr room ↦
            let few : length (add_line l w).batch < 200 = ground arith in
            (accept_line l a, accepts h (subst (λ n. n < 200) size few), rw (add_clef, room) added)
      ]

  step-Represents :
      (e : Event) (w : SeqWriter) (a : Log)
      → Represents c w a
      → (b : Log) × LogStep c e a b × Represents c (handle c e w) b
  unfolding handle write
  step-Represents (line p) w a r = line-Represents w a p (to_clef c p) refl r
  step-Represents tick w a r = let (b, t, r') = flush-Represents w a r in (b, ticks t, r')

  run-Represents :
      (es : List Event) (w : SeqWriter) (a : Log)
      → Represents c w a
      → (b : Log) × LogTrace c es a b × Represents c (run_writer c es w) b
  unfolding run_writer
  run-Represents [] w a r = (a, done, r)
  run-Represents (e ∷ es) w a r =
      let (b, s, r') = step-Represents e w a r in
      let (d, t, r'') = run-Represents es (handle c e w) b r' in (d, then_step s t, r'')

  -- The writer implements the log: after any sequence of writes and ticks, its batch is the lines
  -- that wait in a log that made the same steps. Where the URL parses, it has made one request for
  -- each batch that the log took off, in order, with that batch's lines, and the n-th has an answer
  -- where the network gave the n-th one; where the URL does not parse it has made none. The batches
  -- and the lines that wait are together each well-formed line once, in the order of the writes.
  pub run_writer-Represents :
      (es : List Event)
      → (b : Log) × LogTrace c es empty_log b
        × Represents c (run_writer c es new_seq_writer) b
        × (lines_of b ≡ accepted c es)
  unfolding flatten
  run_writer-Represents es =
      let start : Represents c new_seq_writer empty_log = record {
        waiting = refl;
        requested = λ _. tt;
        unmade = λ _. refl;
      } in
      let (b, t, r) = run-Represents es new_seq_writer empty_log start in
      (b, t, r, trace-accepted c t)
