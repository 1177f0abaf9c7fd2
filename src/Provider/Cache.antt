-- ===== src/Provider/Cache.antt =====
-- The maps that the adapters keep under the sha256 of a credential.
use slay_push.Base.{
  ◌∙◌, sym, inr, false, refl, inl, ◌&&◌, if◌then◌else◌, arith, Bool-cases, ==_refl, ◌==◌, ◌∷◌, ◌≢◌,
  ◌∷◌, true, some, none, [], Option, ◌≡◌, List, Bool,
}
use slay_push.Crypto.{Bytes}

unfoldable pub same_bytes : Bytes → Bytes → Bool
same_bytes [] [] = true
same_bytes (a ∷ xs) (b ∷ ys) = a == b && same_bytes xs ys
same_bytes _ _ = false

pub same_bytes→≡ : (a b : Bytes) → same_bytes a b ≡ true → a ≡ b
unfolding same_bytes
same_bytes→≡ [] [] h = refl
same_bytes→≡ [] (b ∷ ys) h = cc
same_bytes→≡ (a ∷ xs) [] h = cc
same_bytes→≡ (a ∷ xs) (b ∷ ys) h =
    let e : a ≡ b = ground arith in
    let es : xs ≡ ys = same_bytes→≡ xs ys (ground arith) in rw (e, es) refl

pub same_bytes_refl : (a : Bytes) → same_bytes a a ≡ true
unfolding same_bytes
same_bytes_refl [] = refl
same_bytes_refl (a ∷ xs) = rw (==_refl a, same_bytes_refl xs) refl

pub record Entry (V : Type 0) : Type 0 where
  pub key : Bytes
  pub value : V

module _ {V : Type 0} where
  unfoldable pub value_at : Bytes → List (Entry V) → Option V
  value_at k [] = none
  value_at k (e ∷ m) = if same_bytes e.key k then some e.value else value_at k m

  -- `delete(m, k)`
  unfoldable pub remove_at : Bytes → List (Entry V) → List (Entry V)
  remove_at k [] = []
  remove_at k (e ∷ m) = let rest = remove_at k m in if same_bytes e.key k then rest else e ∷ rest

  -- `m[k] = v`
  unfoldable pub put_at : Bytes → V → List (Entry V) → List (Entry V)
  put_at k v m = record { key = k; value = v } ∷ remove_at k m

  pub value_at-remove : (k : Bytes) (m : List (Entry V)) → value_at k (remove_at k m) ≡ none
  unfolding value_at remove_at
  value_at-remove k [] = refl
  value_at-remove k (e ∷ m) = elim (Bool-cases (same_bytes e.key k)) [
    | inl hit ↦ rw hit (value_at-remove k m)
    | inr miss ↦ rw (miss, miss) (value_at-remove k m)
  ]

  pub value_at-remove_other :
      (k j : Bytes) (m : List (Entry V)) → k ≢ j → value_at j (remove_at k m) ≡ value_at j m
  unfolding value_at remove_at
  value_at-remove_other k j [] ne = refl
  value_at-remove_other k j (e ∷ m) ne = elim (Bool-cases (same_bytes e.key k)) [
    | inl hit ↦ elim (Bool-cases (same_bytes e.key j)) [
      | inl both ↦ absurd (ne (sym (same_bytes→≡ e.key k hit) ∙ same_bytes→≡ e.key j both))
      | inr other ↦ rw (hit, other) (value_at-remove_other k j m ne)
    ]
    | inr miss ↦ elim (Bool-cases (same_bytes e.key j)) [
      | inl found ↦ rw (miss, found) refl
      | inr other ↦ rw (miss, other) (value_at-remove_other k j m ne)
    ]
  ]

  pub value_at-put : (k : Bytes) (v : V) (m : List (Entry V)) → value_at k (put_at k v m) ≡ some v
  unfolding value_at put_at
  value_at-put k v m = rw (same_bytes_refl k) refl

  pub value_at-put_other :
      (k j : Bytes) (v : V) (m : List (Entry V)) → k ≢ j → value_at j (put_at k v m) ≡ value_at j m
  unfolding value_at put_at
  value_at-put_other k j v m ne = elim (Bool-cases (same_bytes k j)) [
    | inl same ↦ absurd (ne (same_bytes→≡ k j same))
    | inr differ ↦ rw differ (value_at-remove_other k j m ne)
  ]
