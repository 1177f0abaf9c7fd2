-- ===== src/Crypto/RoundTrip.antt =====
-- What Open gives back of what Seal made.
use slay_push.Base.{◌+◌, ℕ, ◌≡◌, ◌++◌, length, arith, none, ltb, Option-cases, inl, inr, false}
use slay_push.Base.Take.{length-append, take-append, drop-append}
use slay_push.Errors.{ok, Result-cases}
use slay_push.Crypto.{
  key_size, MasterKey, open_envelope, seal_envelope, Bytes, Aead, Random, seal_with, open_with,
}

-- Documented behaviour: io.ReadFull fills the buffer or fails.
abbrev pub FillsBuffers : Random → Type 0
FillsBuffers random = (n k : ℕ) (b : Bytes) → random n k ≡ ok b → length b ≡ k

-- Documented behaviour of cipher.AEAD: Open undoes Seal under the same key and nonce.
abbrev pub OpensSealed : Aead → Type 0
OpensSealed a = (k n p : Bytes) → a.open_ct k n (a.seal k n p) ≡ ok p

module _ (a : Aead) (random : Random) (fills : FillsBuffers random) (opens : OpensSealed a) where
  not-shorter : (xs ys : Bytes) (n : ℕ) → length xs ≡ n → ltb (length (xs ++ ys)) n ≡ false
  not-shorter xs ys n h = ground (arith, length-append xs ys)

  open_with_prefixed :
      (key nonce plaintext : Bytes)
      → a.new_cipher key ≡ none
      → length nonce ≡ a.nonce_size
      → open_with a key (nonce ++ a.seal key nonce plaintext) ≡ ok plaintext
  unfolding open_with
  open_with_prefixed key nonce plaintext c l =
      rw
        (
          c,
          open_with,
          not-shorter nonce (a.seal key nonce plaintext) a.nonce_size l,
          take-append a.nonce_size nonce (a.seal key nonce plaintext) l,
          drop-append a.nonce_size nonce (a.seal key nonce plaintext) l,
        )
        (opens key nonce plaintext)

  open_with-seal_with :
      (n : ℕ) (key plaintext sealed : Bytes)
      → seal_with a random n key plaintext ≡ ok sealed
      → open_with a key sealed ≡ ok plaintext
  unfolding seal_with
  open_with-seal_with n key plaintext sealed h = elim (Option-cases (a.new_cipher key)) [
    | inr (e, c) ↦ cc (c, h)
    | inl c ↦ elim (Result-cases (random n a.nonce_size)) [
      | inl (e, r) ↦ cc (c, r, h)
      | inr (nonce, r) ↦
          let shape : sealed ≡ nonce ++ a.seal key nonce plaintext = cc (c, r, h) in
          rw shape (open_with_prefixed key nonce plaintext c (fills n a.nonce_size nonce r))
    ]
  ]

  -- Whatever Seal returns without an error, under a random source that fills its buffers and an AEAD
  -- whose Open undoes its Seal, Open with the same master key gives back the plaintext.
  pub open-seal :
      (mk : MasterKey) (n : ℕ) (plaintext wrapped_dek ciphertext : Bytes)
      → seal_envelope a mk random n plaintext ≡ ok (wrapped_dek, ciphertext)
      → open_envelope a mk wrapped_dek ciphertext ≡ ok plaintext
  unfolding seal_envelope open_envelope
  open-seal mk n plaintext wrapped_dek ciphertext h = elim (Result-cases (random n key_size)) [
    | inl (e, r) ↦ cc (r, h)
    | inr (dek, r) ↦ elim (Result-cases (seal_with a random (n + 1) dek plaintext)) [
      | inl (e, s) ↦ cc (r, s, h)
      | inr (ct, s) ↦ elim (Result-cases (seal_with a random (n + 2) mk.key dek)) [
        | inl (e, t) ↦ cc (r, s, t, h)
        | inr (w, t) ↦ ground (
          arith,
          open_with-seal_with (n + 2) mk.key dek w t,
          open_with-seal_with (n + 1) dek plaintext ct s,
        )
      ]
    ]
  ]
