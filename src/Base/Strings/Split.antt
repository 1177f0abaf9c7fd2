-- ===== src/Base/Strings/Split.antt =====
-- The pieces that strings.Split makes of texts that were joined.
use slay_push.Base.Text.{◌<>◌}
use slay_push.Base.Strings.{split_into, split_pieces, split, contains_char, char_eq}
use slay_push.Base.{
  refl, inr, inl, ◌∷◌, sym, [], Bool-cases, ==_refl, ◌∙◌, ◌||◌, true, false, ap, ◌≡◌, String,
}
use Prim.Native.Char.{Char, code}
use Prim.Native.String.append
use mathlib.Core.Bool.{or_assoc}

abbrev pub one : Char → String
one c = String.◌∷◌ c String.[]

pub append_assoc : (s t u : String) → (s <> t) <> u ≡ s <> (t <> u)
append_assoc String.[] t u = ap (λ x. x <> u) (append.nil t) ∙ sym (append.nil (t <> u))
append_assoc (String.◌∷◌ c s) t u =
    ap (λ x. x <> u) (append.cons c s t)
    ∙ append.cons c (s <> t) u
    ∙ ap (String.◌∷◌ c) (append_assoc s t u)
    ∙ sym (append.cons c s (t <> u))

-- Texts joined from the right.
pub join5 :
    (a b c d e x : String) → (a <> (b <> (c <> (d <> e)))) <> x ≡ a <> (b <> (c <> (d <> (e <> x))))
join5 a b c d e x = simp append_assoc

pub one-append : (c : Char) (t : String) → one c <> t ≡ String.◌∷◌ c t
one-append c t = append.cons c String.[] t ∙ ap (String.◌∷◌ c) (append.nil t)

pub contains-append :
    (c : Char) (s t : String) → contains_char c (s <> t) ≡ (contains_char c s || contains_char c t)
unfolding contains_char
contains-append c String.[] t = ap (contains_char c) (append.nil t)
contains-append c (String.◌∷◌ d s) t =
    ap (contains_char c) (append.cons d s t)
    ∙ rw (contains-append c s t)
        (sym (or_assoc (char_eq d c) (contains_char c s) (contains_char c t)))

same_char : (c : Char) → char_eq c c ≡ true
unfolding char_eq
same_char c = ==_refl (code c)

pieces-prefix :
    (sep : Char) (s t : String)
    → contains_char sep s ≡ false
    → split_pieces sep (s <> String.◌∷◌ sep t) ≡ (s, split sep t)
unfolding split_pieces split contains_char split_into
pieces-prefix sep String.[] t h =
    ap (split_pieces sep) (append.nil (String.◌∷◌ sep t)) ∙ rw (same_char sep) refl
pieces-prefix sep (String.◌∷◌ c s) t h = elim (Bool-cases (char_eq c sep)) [
  | inl hit ↦ let k = rw hit at h in cc
  | inr miss ↦
      ap (split_pieces sep) (append.cons c s (String.◌∷◌ sep t))
      ∙ rw (pieces-prefix sep s t (rw miss at h), miss) refl
]

-- Up to a separator, a text without it is the first piece.
pub split-prefix :
    (sep : Char) (s t : String)
    → contains_char sep s ≡ false
    → split sep (s <> one sep <> t) ≡ s ∷ split sep t
unfolding split
split-prefix sep s t h =
    ap (λ x. split sep (s <> x)) (one-append sep t) ∙ ap (λ x. x.0 ∷ x.1) (pieces-prefix sep s t h)

pieces-whole :
    (sep : Char) (s : String) → contains_char sep s ≡ false → split_pieces sep s ≡ (s, [])
unfolding split_pieces contains_char split_into
pieces-whole sep String.[] h = refl
pieces-whole sep (String.◌∷◌ c s) h = elim (Bool-cases (char_eq c sep)) [
  | inl hit ↦ let k = rw hit at h in cc
  | inr miss ↦ rw (pieces-whole sep s (rw miss at h), miss) refl
]

-- A text without the separator is one piece.
pub split-whole : (sep : Char) (s : String) → contains_char sep s ≡ false → split sep s ≡ s ∷ []
unfolding split
split-whole sep s h = ap (λ x. x.0 ∷ x.1) (pieces-whole sep s h)
