-- ===== src/Auth/RoundTrip.antt =====
-- What VerifyPassword makes of what HashPassword made.
use slay_push.Base.Strings.Split.{
  append_assoc, split-whole, join5, split-prefix, one, contains-append,
}
use slay_push.Provider.Cache.{same_bytes}
use slay_push.Errors.{Result-cases, ok}
use slay_push.Crypto.{Bytes}
use slay_push.Base.Strings.{split, contains_char}
use slay_push.Base.Text.{◌<>◌}
use slay_push.Base.{◌∙◌, sym, ap, inr, refl, inl, [], ◌∷◌, false, ◌≡◌, ℕ, String}
use slay_push.Auth.{
  argon2_params, Argon2Params, verify_parts, length, verify_password, hash_password,
  encoded_password, check_digest, PasswordCodec,
}
use Prim.Native.Char.{Char}
use Prim.Native.String.{char_at}

abbrev dollar : Char
dollar = char_at "$" 0

abbrev NoDollar : String → Type 0
NoDollar s = contains_char dollar s ≡ false

-- Documented behaviour: fmt prints a number in digits and scans back what it printed; base64 has no
-- dollar sign in its alphabet and decodes what it encoded; argon2.IDKey gives as many bytes as it is
-- asked for.
pub record IsFaithful (c : PasswordCodec) : Type 0 where
  pub digits : (n : ℕ) → NoDollar (c.itoa n)
  pub scans_version : c.scan_version ("v=" <> c.itoa c.version) ≡ ok c.version
  pub scans_params :
      c.scan_params ("m=" <> c.itoa 65536 <> ",t=" <> c.itoa 1 <> ",p=" <> c.itoa 4)
      ≡ ok argon2_params
  pub alphabet : (b : Bytes) → NoDollar (c.encode b)
  pub decodes : (b : Bytes) → c.decode (c.encode b) ≡ ok b
  pub key_length :
      (s : String) (b : Bytes) (p : Argon2Params) (n : ℕ) → length (c.id_key s b p n) ≡ n

module _ (c : PasswordCodec) (f : IsFaithful c) where
  abbrev version_text : String
  version_text = "v=" <> c.itoa c.version

  abbrev params_text : String
  params_text = "m=" <> c.itoa 65536 <> ",t=" <> c.itoa 1 <> ",p=" <> c.itoa 4

  abbrev salt_and_hash : Bytes → Bytes → String
  salt_and_hash salt hash = c.encode salt <> one dollar <> c.encode hash

  -- What stands between two dollar signs.
  params_joined :
      (x : String)
      → "m=" <> c.itoa 65536 <> ",t=" <> c.itoa 1 <> ",p=" <> c.itoa 4 <> x ≡ params_text <> x
  params_joined x =
      ap (λ y. "m=" <> y) (sym (join5 (c.itoa 65536) ",t=" (c.itoa 1) ",p=" (c.itoa 4) x))
      ∙ sym (append_assoc "m=" (c.itoa 65536 <> ",t=" <> c.itoa 1 <> ",p=" <> c.itoa 4) x)

  version_joined :
      (x : String)
      → "v=" <> c.itoa c.version <> "$m=" <> x ≡ version_text <> one dollar <> "m=" <> x
  version_joined x =
      sym (append_assoc "v=" (c.itoa c.version) ("$m=" <> x))
      ∙ ap (λ y. version_text <> y) (append_assoc (one dollar) "m=" x)

  shape :
      (salt hash : Bytes)
      → encoded_password c salt hash
        ≡ ""
          <> one dollar
          <> "argon2id"
          <> one dollar
          <> version_text
          <> one dollar
          <> params_text
          <> one dollar
          <> salt_and_hash salt hash
  unfolding encoded_password
  shape salt hash =
      let rest =
        c.itoa 65536
        <> ",t="
        <> c.itoa 1
        <> ",p="
        <> c.itoa 4
        <> one dollar
        <> salt_and_hash salt hash in
      join5 "" (one dollar) "argon2id" (one dollar) "v=" (c.itoa c.version <> "$m=" <> rest)
      ∙ ap (λ y. "" <> one dollar <> "argon2id" <> one dollar <> y)
          (version_joined rest
            ∙ ap (λ y. version_text <> one dollar <> y)
                (params_joined (one dollar <> salt_and_hash salt hash)))

  version-plain : NoDollar version_text
  unfolding contains_char
  version-plain = rw (contains-append dollar "v=" (c.itoa c.version), f.digits c.version) refl

  params-plain : NoDollar params_text
  unfolding contains_char
  params-plain =
      rw
        (
          contains-append dollar "m=" (c.itoa 65536 <> ",t=" <> c.itoa 1 <> ",p=" <> c.itoa 4),
          contains-append dollar (c.itoa 65536) (",t=" <> c.itoa 1 <> ",p=" <> c.itoa 4),
          contains-append dollar ",t=" (c.itoa 1 <> ",p=" <> c.itoa 4),
          contains-append dollar (c.itoa 1) (",p=" <> c.itoa 4),
          contains-append dollar ",p=" (c.itoa 4),
          f.digits 65536,
          f.digits 1,
          f.digits 4,
        )
        refl

  -- The encoded password, by its pieces.
  pieces :
      (salt hash : Bytes)
      → split dollar (encoded_password c salt hash)
        ≡ "" ∷ "argon2id" ∷ version_text ∷ params_text ∷ c.encode salt ∷ c.encode hash ∷ []
  unfolding contains_char
  pieces salt hash =
      rw
        (
          shape salt hash,
          split-prefix dollar "" _ refl,
          split-prefix dollar "argon2id" _ refl,
          split-prefix dollar version_text _ version-plain,
          split-prefix dollar params_text _ params-plain,
          split-prefix dollar (c.encode salt) _ (f.alphabet salt),
          split-whole dollar (c.encode hash) (f.alphabet hash),
        )
        refl

  digest_checked :
      (guess : String) (salt hash : Bytes)
      → length hash ≡ 32
      → check_digest c guess version_text params_text (c.encode salt) (c.encode hash)
        ≡ ok (same_bytes (c.id_key guess salt argon2_params 32) hash)
  unfolding check_digest
  digest_checked guess salt hash l =
      rw (f.scans_version, f.scans_params, f.decodes salt, f.decodes hash, l) refl

  -- A password that was hashed is verified by exactly the guesses that have its argon2id digest under
  -- the salt that was drawn.
  pub verify-hash :
      (plain guess encoded : String)
      → hash_password c plain ≡ ok encoded
      → (salt : Bytes) × (c.random 16 ≡ ok salt)
        × (verify_password c encoded guess
            ≡ ok (
                same_bytes
                  (c.id_key guess salt argon2_params 32)
                  (c.id_key plain salt argon2_params 32)))
  unfolding hash_password verify_password verify_parts
  verify-hash plain guess encoded h = elim (Result-cases (c.random 16)) [
    | inl (e, r) ↦ let k = rw (hash_password, r) at h in cc
    | inr (salt, r) ↦
        let hash = c.id_key plain salt argon2_params 32 in
        let k = rw (hash_password, r) at h in
        let shape : encoded ≡ encoded_password c salt hash = cc in
        (
          salt,
          r,
          rw (shape, pieces salt hash)
              (digest_checked guess salt hash (f.key_length plain salt argon2_params 32)),
        )
  ]
