-- ===== src/Apikey.antt =====
-- internal/apikey: scopes, keys and their hashes (apikey.go), and the inbound limits (ratelimit.go).
-- crypto/rand, crypto/sha256 and base64 are parameters.
pub mod Limiter
use slay_push.Base.Text.{str_eq, ◌<>◌}
use slay_push.Errors.{ok, wrapped, err, Result}
use slay_push.Crypto.{Bytes}
use slay_push.Base.{
  none, some, [], ◌%◌, zero, if◌then◌else◌, false, ◌/◌, ◌∷◌, true, suc, Option, ℕ, String, Bool,
}
use Prim.Native.String.{char_at}
use Prim.Native.Char.{Char}

pub data Scope : Type 0 where
  read send : Scope

-- `Scope(s)` is the text of a scope.
abbrev pub scope_text : Scope → String
scope_text read = "read"
scope_text send = "send"

unfoldable pub parse_scope : String → Option Scope
parse_scope s = if str_eq s "read" then some read else if str_eq s "send" then some send else none

unfoldable pub satisfies : Scope → Scope → Bool
satisfies send required = true
satisfies read read = true
satisfies read send = false

pub record RawKey : Type 0 where
  pub raw : String
  pub prefix : String

-- crypto/rand, base64.RawURLEncoding and crypto/sha256.
pub record KeyCodec : Type 0 where
  pub random : ℕ → Result Bytes
  pub encode_raw_url : Bytes → String
  pub sum256 : String → Bytes

take_chars : ℕ → String → String
take_chars zero s = String.[]
take_chars (suc n) String.[] = String.[]
take_chars (suc n) (String.◌∷◌ c s) = String.◌∷◌ c (take_chars n s)

abbrev live_prefix : String
live_prefix = "sp_live_"

-- `len(livePrefix) + 6`
abbrev display_prefix_len : ℕ
display_prefix_len = 14

keyed : KeyCodec → Bytes → RawKey
unfolding take_chars
keyed c b =
    let raw = live_prefix <> c.encode_raw_url b in
    record { raw = raw; prefix = take_chars display_prefix_len raw }

unfoldable pub generate : KeyCodec → Result RawKey
unfolding keyed
generate c = elim (c.random 32) [
  | err e ↦ err (wrapped "generate api key" e)
  | ok b ↦ ok (keyed c b)
]

hex_digit : ℕ → Char
hex_digit n = char_at "0123456789abcdef" n

-- hex.EncodeToString.
unfoldable pub hex : Bytes → String
unfolding hex_digit
hex [] = String.[]
hex (b ∷ bs) = String.◌∷◌ (hex_digit (b / 16)) (String.◌∷◌ (hex_digit (b % 16)) (hex bs))

unfoldable pub hash : KeyCodec → String → String
hash c raw = hex (c.sum256 raw)
