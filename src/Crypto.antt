-- ===== src/Crypto.antt =====
-- internal/crypto/crypto.go: envelope encryption. AES and GCM (crypto/aes, crypto/cipher), the
-- random source (crypto/rand) and base64 are parameters.
pub mod RoundTrip
use slay_push.Base.{
  ℕ, ◌+◌, Option, none, some, List, ◌++◌, length, if◌then◌else◌, ltb, ◌==◌, String,
}
use slay_push.Base.Text.{◌<>◌, str_eq}
use slay_push.Base.Take.{take, drop}
use slay_push.Errors.{Err, other, wrapped, Result, ok, err}

abbrev pub Bytes : Type 0
Bytes = List ℕ

-- The AEAD that `aes.NewCipher` and `cipher.NewGCM` give for a key, or the text of their error.
pub record Aead : Type 0 where
  pub nonce_size : ℕ
  -- key, nonce, plaintext
  pub seal : Bytes → Bytes → Bytes → Bytes
  -- key, nonce, ciphertext: the plaintext, or the text of an authentication error
  pub open_ct : Bytes → Bytes → Bytes → Result Bytes
  pub new_cipher : Bytes → Option String

-- `io.ReadFull(rand.Reader, buf)`: the n-th read of so many bytes.
abbrev pub Random : Type 0
Random = ℕ → ℕ → Result Bytes

abbrev pub key_size : ℕ
key_size = 32

pub record MasterKey : Type 0 where
  pub key : Bytes

-- `decode` is base64.StdEncoding.DecodeString, `itoa` fmt's %d.
unfoldable pub load_master_key : (String → Result Bytes) → (ℕ → String) → String → Result MasterKey
load_master_key decode itoa base64_key =
    if str_eq base64_key ""
    then err (other "APP_MASTER_KEY is not set")
    else elim (decode base64_key) [
      | err e ↦ err (wrapped "APP_MASTER_KEY is not valid base64" e)
      | ok raw ↦
          if length raw == key_size
          then ok (record { key = raw })
          else err (other ("APP_MASTER_KEY must decode to 32 bytes, got " <> itoa (length raw)))
    ]

module _ (a : Aead) where
  -- `seal`, with the n-th read of the random source for its nonce.
  unfoldable pub seal_with : Random → ℕ → Bytes → Bytes → Result Bytes
  seal_with random n key plaintext = elim (a.new_cipher key) [
    | some e ↦ err (other e)
    | none ↦ elim (random n a.nonce_size) [
      | err e ↦ err e
      | ok nonce ↦ ok (nonce ++ a.seal key nonce plaintext)
    ]
  ]

  unfoldable pub open_with : Bytes → Bytes → Result Bytes
  open_with key ct = elim (a.new_cipher key) [
    | some e ↦ err (other e)
    | none ↦
        if ltb (length ct) a.nonce_size
        then err (other "ciphertext too short")
        else a.open_ct key (take a.nonce_size ct) (drop a.nonce_size ct)
  ]

  -- Three reads: the DEK, and a nonce for each of the two seals.
  unfoldable pub seal_envelope : MasterKey → Random → ℕ → Bytes → Result (Bytes × Bytes)
  seal_envelope mk random n plaintext = elim (random n key_size) [
    | err e ↦ err e
    | ok dek ↦ elim (seal_with random (n + 1) dek plaintext) [
      | err e ↦ err e
      | ok ciphertext ↦ elim (seal_with random (n + 2) mk.key dek) [
        | err e ↦ err e
        | ok wrapped_dek ↦ ok (wrapped_dek, ciphertext)
      ]
    ]
  ]

  unfoldable pub open_envelope : MasterKey → Bytes → Bytes → Result Bytes
  open_envelope mk wrapped_dek ciphertext = elim (open_with mk.key wrapped_dek) [
    | err e ↦ err (wrapped "unwrap dek" e)
    | ok dek ↦ elim (open_with dek ciphertext) [
      | err e ↦ err (wrapped "decrypt credential" e)
      | ok plaintext ↦ ok plaintext
    ]
  ]
