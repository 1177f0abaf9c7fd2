-- ===== src/Examples/Passwords.antt =====
-- A password codec that meets what the theorems ask of fmt, base64 and argon2, and the theorems on
-- passwords at work.
use slay_push.Server.Commands.SignIns.{reset_password-Admits, Admits}
use slay_push.Dashboard.{rendered, answer, Answer, AuthCodec}
use slay_push.Provider.Cache.{same_bytes}
use Prim.Native.Char.{code}
use Prim.Native.String.{char_at}
use slay_push.Store.Monad.{pure, M, query}
use slay_push.Store.Users.{update_user_password}
use slay_push.Server.Commands.Bootstraps.{bootstrap-IsFirst, IsFirst}
use slay_push.Examples.Parts.{zero_random_fills, zeros}
use slay_push.Errors.{ok}
use slay_push.Examples.{fresh_world}
use slay_push.Auth.RoundTrip.{verify-hash, IsFaithful}
use slay_push.Base.Strings.{byte_len, trim_line_end, contains_char}
use slay_push.Store.{World, User}
use slay_push.Base.{
  arith, any_where, false, select_where, ◌==◌, zero, refl, ◌⊎◌, ◌∙◌, suc, if◌then◌else◌, ap, ◌∷◌,
  ◌≡◌, none, length, [], ℕ, String,
}
use slay_push.Auth.{
  generate_session_token, encoded_password, argon2_params, verify_password, hash_password,
  PasswordCodec,
}
use slay_push.Server.Commands.{
  set_password, connect, new_password, run_reset_password, run_bootstrap, Cli,
}
use slay_push.Crypto.{Bytes}

-- A number as so many i's and a z.
tally : ℕ → String → String
tally zero s = String.◌∷◌ (char_at "z" 0) s
tally (suc n) s = String.◌∷◌ (char_at "i" 0) (tally n s)

pub tallies : Bytes → String
tallies [] = String.[]
tallies (b ∷ bs) = tally b (tallies bs)

bump : Bytes → Bytes
bump [] = []
bump (b ∷ bs) = suc b ∷ bs

pub read_tallies : String → Bytes
read_tallies String.[] = []
read_tallies (String.◌∷◌ c s) =
    let rest = read_tallies s in if code c == 122 then 0 ∷ rest else bump rest

read-tally : (n : ℕ) (s : String) → read_tallies (tally n s) ≡ n ∷ read_tallies s
unfolding read_tallies tally bump
read-tally zero s = refl
read-tally (suc n) s = ap bump (read-tally n s)

read-tallies : (b : Bytes) → read_tallies (tallies b) ≡ b
unfolding tallies read_tallies
read-tallies [] = refl
read-tallies (b ∷ bs) = read-tally b (tallies bs) ∙ ap (λ r. b ∷ r) (read-tallies bs)

tally-plain :
    (n : ℕ) (s : String)
    → contains_char (char_at "$" 0) s ≡ false
    → contains_char (char_at "$" 0) (tally n s) ≡ false
unfolding tally contains_char
tally-plain zero s h = h
tally-plain (suc n) s h = tally-plain n s h

tallies-plain : (b : Bytes) → contains_char (char_at "$" 0) (tallies b) ≡ false
unfolding tallies contains_char
tallies-plain [] = refl
tallies-plain (b ∷ bs) = tally-plain b (tallies bs) (tallies-plain bs)

length-zeros : (n : ℕ) → length (zeros n) ≡ n
length-zeros n = zero_random_fills 0 n (zeros n) refl

-- Every password has the same digest.
abbrev pub passwords : PasswordCodec
passwords = record {
  random = λ n. ok (zeros n);
  id_key = λ plain salt p n. zeros n;
  version = 19;
  encode = tallies;
  decode = λ s. ok (read_tallies s);
  itoa = λ n. "7";
  scan_version = λ s. ok 19;
  scan_params = λ s. ok argon2_params;
}

faithful : IsFaithful passwords
unfolding contains_char
faithful = record {
  digits = λ n. refl;
  scans_version = refl;
  scans_params = refl;
  alphabet = tallies-plain;
  decodes = λ b. ap ok (read-tallies b);
  key_length = λ s b p n. length-zeros n;
}

verify-hash_example :
    (salt : Bytes) × (passwords.random 16 ≡ ok salt)
    × (verify_password passwords (encoded_password passwords (zeros 16) (zeros 32)) "guess"
        ≡ ok (
            same_bytes
              (passwords.id_key "guess" salt argon2_params 32)
              (passwords.id_key "secret12" salt argon2_params 32)))
unfolding hash_password
verify-hash_example =
    verify-hash passwords faithful "secret12" "guess"
      (encoded_password passwords (zeros 16) (zeros 32)) refl

abbrev ann : User
ann = record { id = 8; email = "ann@shop"; password_hash = ""; role = "admin"; created_at = 0 }

abbrev staffed : World
staffed = record fresh_world { users = ann ∷ [] }

abbrev cli : Cli
cli = record { unreachable = none; decode = λ s. ok []; itoa = λ n. "7"; master_key = "" }

abbrev codecs : AuthCodec
codecs = record {
  tokens = record { random = λ n. ok []; encode_raw_url = λ b. "k"; sum256 = λ s. [] };
  passwords = passwords;
}

abbrev whoami : ℕ → M Answer
whoami user_id = pure (answer (rendered "Home" ""))

reset_password-Admits_example :
    Admits cli codecs faithful "ann@shop" "secret12\n" "sd_k" whoami
      (run_reset_password cli passwords "ann@shop" (ok "secret12\n") staffed).1
unfolding run_reset_password trim_line_end new_password byte_len hash_password connect set_password
    update_user_password query select_where generate_session_token any_where
reset_password-Admits_example =
    reset_password-Admits cli codecs faithful "ann@shop" "secret12\n" "sd_k" staffed
      (run_reset_password cli passwords "ann@shop" (ok "secret12\n") staffed).1 whoami refl
      (λ n. refl) refl (refl, refl) (omega arith)

bootstrap-IsFirst_example :
    ((run_bootstrap cli passwords "ann@shop" "secret12" fresh_world).1.users ≡ fresh_world.users)
    ⊎ IsFirst passwords "ann@shop" "secret12" fresh_world
        (run_bootstrap cli passwords "ann@shop" "secret12" fresh_world).1
bootstrap-IsFirst_example =
    bootstrap-IsFirst cli passwords faithful "ann@shop" "secret12" fresh_world
