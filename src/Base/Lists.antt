-- ===== src/Base/Lists.antt =====
-- Lists searched and updated by Boolean tests, as the program's tables and maps are.
use Prim.Native.Nat.{ℕ, suc, ◌≤◌}
use mathlib.Core.Path.{subst, sym, ◌≡◌, refl}
use mathlib.Core.Logic.{inl, inr}
use mathlib.Core.Bool.{Bool, true, false, ◌||◌}
use mathlib.Core.Option.{Option, none, some}
use mathlib.Core.Option
use mathlib.Core.List.{List, [], ◌∷◌, Memᴰ}
use native.Mathlib.Omega.{arith}
use slay_push.Base.Tests.{if◌then◌else◌, Bool-cases}

module _ {ℓ} {A : Type ℓ} where
  abbrev pub length : List A → ℕ
  length [] = 0
  length (x ∷ xs) = suc (length xs)

  -- The first row that a `where` clause admits.
  unfoldable pub find_where : (A → Bool) → List A → Option A
  find_where p [] = none
  find_where p (x ∷ xs) = if p x then some x else find_where p xs

  unfoldable pub any_where : (A → Bool) → List A → Bool
  any_where p [] = false
  any_where p (x ∷ xs) = p x || any_where p xs

  -- Every row that a `where` clause admits, in order.
  unfoldable pub select_where : (A → Bool) → List A → List A
  select_where p [] = []
  select_where p (x ∷ xs) = let rest = select_where p xs in if p x then x ∷ rest else rest

  -- `update … set … where …`.
  unfoldable pub update_where : (A → Bool) → (A → A) → List A → List A
  update_where p f [] = []
  update_where p f (x ∷ xs) = (if p x then f x else x) ∷ update_where p f xs

  abbrev pub All {κ} : (A → Type κ) → List A → Type κ
  All P [] = Unit
  All P (x ∷ xs) = P x × All P xs

  -- No two rows clash: a unique index.
  abbrev pub Distinct : (A → A → Bool) → List A → Type 0
  Distinct clash [] = Unit {0}
  Distinct clash (x ∷ xs) = (any_where (clash x) xs ≡ false) × Distinct clash xs

  pub find_where_sound :
      (p : A → Bool) (xs : List A) (a : A) → find_where p xs ≡ some a → p a ≡ true
  unfolding find_where
  find_where_sound p [] a h = ground arith
  find_where_sound p (x ∷ xs) a h = ground (arith, find_where_sound p xs a)

  pub All-find {κ} :
      (P : A → Type κ) (p : A → Bool) (xs : List A) (a : A)
      → find_where p xs ≡ some a
      → All P xs
      → P a
  unfolding find_where
  All-find P p [] a h all = cc
  All-find P p (x ∷ xs) a h all = elim (Bool-cases (p x)) [
    | inl hit ↦ let found = rw (find_where, hit) at h in let same : x ≡ a = cc in subst P same all.0
    | inr miss ↦ All-find P p xs a (rw (find_where, miss) at h) all.1
  ]

  pub any_where-none :
      (p : A → Bool) (xs : List A) (a : A) → any_where p xs ≡ false → Memᴰ a xs → p a ≡ false
  unfolding any_where
  any_where-none p [] a h is_in = elim is_in [ ]
  any_where-none p (x ∷ xs) a h (Memᴰ.head e) = subst (λ z. p z ≡ false) (sym e) (ground arith)
  any_where-none p (x ∷ xs) a h (Memᴰ.tail more) = any_where-none p xs a (ground arith) more

  -- A row that an update does not hit is there after it.
  pub mem-update_where :
      (p : A → Bool) (f : A → A) (xs : List A) (a : A)
      → p a ≡ false
      → Memᴰ a xs
      → Memᴰ a (update_where p f xs)
  unfolding update_where
  mem-update_where p f [] a h is_in = elim is_in [ ]
  mem-update_where p f (x ∷ xs) a h (Memᴰ.head e) =
      let missed = subst (λ z. p z ≡ false) e h in Memᴰ.head (rw missed e)
  mem-update_where p f (x ∷ xs) a h (Memᴰ.tail more) = Memᴰ.tail (mem-update_where p f xs a h more)

  pub find_where-any :
      (p : A → Bool) (xs : List A) → find_where p xs ≡ none → any_where p xs ≡ false
  unfolding find_where any_where
  find_where-any p [] h = refl
  find_where-any p (x ∷ xs) h = ground (arith, find_where-any p xs)

  pub find_where-absent :
      (p : A → Bool) (xs : List A) → any_where p xs ≡ false → find_where p xs ≡ none
  unfolding find_where any_where
  find_where-absent p [] h = refl
  find_where-absent p (x ∷ xs) h = ground (arith, find_where-absent p xs)

  pub any_where-find :
      (p : A → Bool) (xs : List A) → any_where p xs ≡ true → (a : A) × (find_where p xs ≡ some a)
  unfolding find_where any_where
  any_where-find p [] h = ground arith
  any_where-find p (x ∷ xs) h = elim (Bool-cases (p x)) [
    | inl hit ↦ (x, rw hit)
    | inr miss ↦ let ih = any_where-find p xs (rw miss at h) in (ih.0, rw miss ih.1)
  ]

  pub find_where-any_other :
      (p q : A → Bool) (xs : List A) (a : A)
      → find_where p xs ≡ some a
      → q a ≡ true
      → any_where q xs ≡ true
  unfolding find_where any_where
  find_where-any_other p q [] a h k = cc
  find_where-any_other p q (x ∷ xs) a h k = elim (Bool-cases (p x)) [
    | inl hit ↦ let found = rw (find_where, hit) at h in let same : x ≡ a = cc in rw (same, k) refl
    | inr miss ↦ elim (Bool-cases (q x)) [
      | inl there ↦ rw there refl
      | inr other ↦ rw other (find_where-any_other p q xs a (rw (find_where, miss) at h) k)
    ]
  ]

  -- An update that keeps what a search tests changes the row found, if it is one of those updated.
  pub find_where-update :
      (p q : A → Bool) (f : A → A) (xs : List A)
      → ((a : A) → p (f a) ≡ p a)
      → find_where p (update_where q f xs)
        ≡ Option.map (λ a. if q a then f a else a) (find_where p xs)
  unfolding find_where update_where
  find_where-update p q f [] h = refl
  find_where-update p q f (x ∷ xs) h = ground (arith, h x, find_where-update p q f xs h)

  -- Where every row that is hit then meets the test, and no other row does, the first that meets it
  -- after the update is the first that is hit.
  pub find_where-replaced :
      (p q : A → Bool) (f : A → A) (xs : List A)
      → ((a : A) → q a ≡ true → p (f a) ≡ true)
      → ((a : A) → q a ≡ false → p a ≡ false)
      → find_where p (update_where q f xs) ≡ Option.map f (find_where q xs)
  unfolding find_where update_where
  find_where-replaced p q f [] hit miss = refl
  find_where-replaced p q f (x ∷ xs) hit miss = elim (Bool-cases (q x)) [
    | inl h ↦ rw (h, hit x h) refl
    | inr h ↦ rw (h, miss x h) (find_where-replaced p q f xs hit miss)
  ]

  pub any_where-update :
      (p q : A → Bool) (f : A → A) (xs : List A)
      → ((a : A) → p (f a) ≡ p a)
      → any_where p (update_where q f xs) ≡ any_where p xs
  unfolding any_where update_where
  any_where-update p q f [] h = refl
  any_where-update p q f (x ∷ xs) h = ground (arith, h x, any_where-update p q f xs h)

  pub any_where-congr :
      (p q : A → Bool) (xs : List A) → ((a : A) → p a ≡ q a) → any_where p xs ≡ any_where q xs
  unfolding any_where
  any_where-congr p q [] h = refl
  any_where-congr p q (x ∷ xs) h = ground (arith, h x, any_where-congr p q xs h)

  -- An update of columns outside a unique index keeps the index.
  pub Distinct-update :
      (clash : A → A → Bool) (q : A → Bool) (f : A → A) (xs : List A)
      → ((a b : A) → clash (f a) b ≡ clash a b)
      → ((a b : A) → clash a (f b) ≡ clash a b)
      → Distinct clash xs
      → Distinct clash (update_where q f xs)
  unfolding update_where
  Distinct-update clash q f [] hl hr d = tt
  Distinct-update clash q f (x ∷ xs) hl hr d = (
    elim (Bool-cases (q x)) [
      | inl hit ↦
          rw
            (
              hit,
              any_where-update (clash (f x)) q f xs (hr (f x)),
              any_where-congr (clash (f x)) (clash x) xs (hl x),
            )
            d.0
      | inr miss ↦ rw (miss, any_where-update (clash x) q f xs (hr x)) d.0
    ],
    Distinct-update clash q f xs hl hr d.1,
  )

  pub length-select : (p : A → Bool) (xs : List A) → length (select_where p xs) ≤ length xs
  unfolding select_where
  length-select p [] = omega arith
  length-select p (x ∷ xs) = ground (arith, length-select p xs)

  pub All-select : (p : A → Bool) (xs : List A) → All (λ a. p a ≡ true) (select_where p xs)
  unfolding select_where
  All-select p [] = tt
  All-select p (x ∷ xs) = ground (arith, All-select p xs)
