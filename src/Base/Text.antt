-- ===== src/Base/Text.antt =====
-- Texts that the program only compares and joins.
use Prim.Native.String.{String, ◌++◌ as str_append}
use text.Mathlib.Text.{◌==◌ as string_eq}
use text.Mathlib.TextEquality.{eq_iff}
use mathlib.Core.Path.{◌≡◌, refl}
use mathlib.Core.Logic.{◌≢◌, ◌↔◌, inl, inr}
use mathlib.Core.Bool.{Bool, true, false}
use slay_push.Base.Tests.{Bool-cases}

abbrev pub str_eq : String → String → Bool
str_eq = string_eq

infixr 64 ◌<>◌
abbrev pub ◌<>◌ : String → String → String
◌<>◌ = str_append

pub str_eq_iff : (s t : String) → (str_eq s t ≡ true) ↔ (s ≡ t)
str_eq_iff = eq_iff

pub str_eq_refl : (s : String) → str_eq s s ≡ true
str_eq_refl s = (eq_iff s s).1 refl

pub str_eq-false : (s t : String) → s ≢ t → str_eq s t ≡ false
str_eq-false s t ne = elim (Bool-cases (str_eq s t)) [
  | inl hit ↦ absurd (ne ((str_eq_iff s t).0 hit))
  | inr miss ↦ miss
]
