-- ===== src/Provider/Registry.antt =====
-- The self-registering factories and their lazily built instances (Register, Get, Known).
use slay_push.Base.{
  ℕ, suc, String, Bool, true, false, ◌≡◌, refl, sym, ◌∙◌, Option, none, some, List, [], ◌∷◌, arith,
  if◌then◌else◌, Option-cases, inl, inr, ◌↔◌,
}
use mathlib.Core.Bool.{false≢true}
use slay_push.Base.Text.{str_eq, str_eq_refl, str_eq_iff}

-- A Go map, by its entries.
pub record Entry (A : Type 0) : Type 0 where
  pub name : String
  pub value : A

unfoldable pub at_name : {A : Type 0} → String → List (Entry A) → Option A
at_name n [] = none
at_name n (e ∷ m) = if str_eq e.name n then some e.value else at_name n m

-- A factory builds another object at each call: they are told apart by their numbers.
abbrev pub Factory : Type 0 → Type 0
Factory A = ℕ → A

pub record Registry (A : Type 0) : Type 0 where
  pub factories : List (Entry (Factory A))
  pub instances : List (Entry A)
  pub built : ℕ

unfoldable pub empty : {A : Type 0} → Registry A
empty = record { factories = []; instances = []; built = 0 }

module _ {A : Type 0} where
  -- `none` is the panic on a name that is registered already.
  unfoldable pub register : String → Factory A → Registry A → Option (Registry A)
  register n f r = elim (at_name n r.factories) [
    | some _ ↦ none
    | none ↦ some (record r { factories = record { name = n; value = f } ∷ r.factories })
  ]

  build : String → Factory A → Registry A → Registry A × Option A
  build n f r =
      let a = f r.built in
      (
        record r { instances = record { name = n; value = a } ∷ r.instances; built = suc r.built },
        some a,
      )

  -- `Get`: the registry after the call, and the adapter if there is one.
  unfoldable pub get : String → Registry A → Registry A × Option A
  unfolding build
  get n r = elim (at_name n r.instances) [
    | some a ↦ (r, some a)
    | none ↦ elim (at_name n r.factories) [ none ↦ (r, none) | some f ↦ build n f r ]
  ]

  unfoldable pub known : String → Registry A → Bool
  known n r = elim (at_name n r.factories) [ none ↦ false | some _ ↦ true ]

  -- What a process does with the registry, in the order in which the mutex lets the calls through.
  pub data Reach : Registry A → Type 0 where
    start : {r : Registry A} → r ≡ empty → Reach r
    registered :
        {r s : Registry A} (n : String) (f : Factory A)
        → Reach r
        → register n f r ≡ some s
        → Reach s
    fetched : {r s : Registry A} (n : String) → Reach r → s ≡ (get n r).0 → Reach s

  -- Only registered names have instances.
  abbrev pub IsBacked : Registry A → Type 0
  IsBacked r = (n : String) → at_name n r.factories ≡ none → at_name n r.instances ≡ none

  register-IsBacked :
      (n : String) (f : Factory A) (r s : Registry A)
      → IsBacked r
      → register n f r ≡ some s
      → IsBacked s
  unfolding register at_name
  register-IsBacked n f r s b h m e = ground (arith, b m)

  get-IsBacked : (n : String) (r : Registry A) → IsBacked r → IsBacked (get n r).0
  unfolding get at_name
  get-IsBacked n r b m e = ground (arith, b m, str_eq_iff n m)

  Reach-IsBacked : {r : Registry A} → Reach r → IsBacked r
  unfolding at_name empty
  Reach-IsBacked (start e) n h = ground arith
  Reach-IsBacked (registered {r} {s} m f t e) n h =
      register-IsBacked m f r s (Reach-IsBacked t) e n h
  Reach-IsBacked (fetched {r} n t e) m h = ground (arith, get-IsBacked n r (Reach-IsBacked t) m)

  known-get : (n : String) (r : Registry A) → known n r ≡ true → (a : A) × ((get n r).1 ≡ some a)
  unfolding known get
  known-get n r h = elim (Option-cases (at_name n r.instances)) [
    | inr (a, e) ↦ (a, rw (e, get) refl)
    | inl e ↦ elim (Option-cases (at_name n r.factories)) [
      | inl missing ↦ absurd (false≢true (sym (rw (missing, known)) ∙ h))
      | inr (f, found) ↦ (f r.built, rw (e, found, get) refl)
    ]
  ]

  get-known :
      (n : String) (r : Registry A) (a : A) → IsBacked r → (get n r).1 ≡ some a → known n r ≡ true
  unfolding known get
  get-known n r a b h = ground (arith, b n)

  -- In every registry that a process can reach, Get finds an adapter for exactly the names that
  -- Known reports.
  pub get-known_iff :
      (r : Registry A) (n : String)
      → Reach r
      → (known n r ≡ true) ↔ ((a : A) × ((get n r).1 ≡ some a))
  get-known_iff r n t = (known-get n r, λ p. get-known n r p.0 (Reach-IsBacked t) p.1)

  -- A second Get of the same name returns the adapter that the first one built, builds none and
  -- changes nothing, whatever the factory would build next.
  pub get-get : (r : Registry A) (n : String) → (get n (get n r).0 ≡ get n r)
  unfolding get at_name
  get-get r n = ground (arith, str_eq_refl n)
