-- ===== src/Auth.antt =====
-- internal/auth: session tokens (session.go) and passwords (password.go). The random source, base64,
-- sha256, argon2 and fmt's scanning are parameters.
pub mod RoundTrip
use slay_push.Provider.Cache.{same_bytes}
use slay_push.Base.Strings.{split}
use slay_push.Errors.{other, wrapped, ok, err, Result}
use slay_push.Base.Text.{str_eq, ◌<>◌}
use slay_push.Base.{[], ◌%◌, length, if◌then◌else◌, ◌∷◌, Bool, List, ℕ, String}
use slay_push.Apikey.{hex, KeyCodec}
use slay_push.Crypto.{Bytes}
use Prim.Native.String.{char_at}

-- In microseconds, the unit of a timestamptz.
abbrev pub session_ttl : ℕ
session_ttl = 604800000000

-- `GenerateSessionToken`
unfoldable pub generate_session_token : KeyCodec → Result String
generate_session_token c = elim (c.random 32) [
  | err e ↦ err (wrapped "generate session token" e)
  | ok b ↦ ok ("sd_" <> c.encode_raw_url b)
]

-- `HashSessionToken`
unfoldable pub hash_session_token : KeyCodec → String → String
hash_session_token c raw = hex (c.sum256 raw)

pub record Argon2Params : Type 0 where
  pub memory : ℕ
  pub iterations : ℕ
  pub threads : ℕ

pub record PasswordCodec : Type 0 where
  pub random : ℕ → Result Bytes
  -- argon2.IDKey, of the password, the salt, the parameters and a length; argon2.Version.
  pub id_key : String → Bytes → Argon2Params → ℕ → Bytes
  pub version : ℕ
  -- base64.RawStdEncoding.
  pub encode : Bytes → String
  pub decode : String → Result Bytes
  pub itoa : ℕ → String
  -- fmt.Sscanf by `v=%d`, and by `m=%d,t=%d,p=%d`.
  pub scan_version : String → Result ℕ
  pub scan_params : String → Result Argon2Params

abbrev pub argon2_params : Argon2Params
argon2_params = record { memory = 65536; iterations = 1; threads = 4 }

unfoldable pub encoded_password : PasswordCodec → Bytes → Bytes → String
encoded_password c salt hash =
    "$argon2id$v="
    <> c.itoa c.version
    <> "$m="
    <> c.itoa 65536
    <> ",t="
    <> c.itoa 1
    <> ",p="
    <> c.itoa 4
    <> "$"
    <> c.encode salt
    <> "$"
    <> c.encode hash

-- `HashPassword`
unfoldable pub hash_password : PasswordCodec → String → Result String
unfolding encoded_password
hash_password c plain = elim (c.random 16) [
  | err e ↦ err (wrapped "generate salt" e)
  | ok salt ↦ ok (encoded_password c salt (c.id_key plain salt argon2_params 32))
]

abbrev and_then : {A B : Type 0} → String → Result A → (A → Result B) → Result B
and_then text (err e) f = err (wrapped text e)
and_then text (ok a) f = f a

check_digest : PasswordCodec → String → String → String → String → String → Result Bool
check_digest c plain version params salt hash =
    and_then "verify password: parse version" (c.scan_version version) λ v.
      and_then "verify password: parse params" (c.scan_params params) λ p.
        and_then "verify password: decode salt" (c.decode salt) λ s.
          and_then "verify password: decode hash" (c.decode hash)
            λ want. ok (same_bytes (c.id_key plain s p (length want % 4294967296)) want)

verify_parts : PasswordCodec → String → List String → Result Bool
unfolding check_digest
verify_parts c plain (head ∷ name ∷ version ∷ params ∷ salt ∷ hash ∷ []) =
    if str_eq name "argon2id"
    then check_digest c plain version params salt hash
    else err (other "verify password: unrecognized hash format")
verify_parts c plain _ = err (other "verify password: unrecognized hash format")

-- `VerifyPassword`
unfoldable pub verify_password : PasswordCodec → String → String → Result Bool
unfolding verify_parts
verify_password c encoded plain = verify_parts c plain (split (char_at "$" 0) encoded)
