-- ===== src/Server/Start/Sound.antt =====
-- What a process that has started stands on.
use slay_push.Config.{validate}
use slay_push.Base.Text.{str_eq}
use slay_push.Config.Consistent.{validate-IsConsistent, IsConsistent}
use slay_push.Store.Monad.{wrap_result}
use slay_push.Config.{Printers, load, Config, Variables}
use slay_push.Platform.Health.{new_postgres_pool}
use slay_push.Crypto.{MasterKey, Bytes, load_master_key}
use slay_push.Base.{
  ◌∙◌, [], ap, ◌∷◌, ◌⊎◌, List, ==_iff, ◌==◌, sym, inl, inr, Bool-cases, refl, length, Option-cases,
  none, ℕ, ◌≡◌, Option, String,
}
use slay_push.Errors.{Result-cases, err, ok, Err, Result}
use slay_push.Server.Start.{
  parse_opt, connect_asynq, connect_redis, command_of, start_worker, connect_postgres, start_serve,
  runs, master_key, Command, exits, main, Action, Clients, ◌>>=◌,
}

-- A consistent configuration, which is the environment's, a master key of 32 bytes that it holds, and
-- a database that has answered its ping.
pub record IsSound {P O R K C : Type 0} (o : Clients P O R K C) (e : Variables) (cfg : Config)
    (key : MasterKey) : Type 0 where
  pub pool : P
  pub of_environment : cfg ≡ load e
  pub consistent : IsConsistent cfg
  pub held : o.decode cfg.master_key ≡ ok key.key
  pub sized : length key.key ≡ 32
  pub opened : o.open_pool cfg.database_url ≡ ok pool
  pub answered : o.ping pool ≡ none

ok_path : {A : Type 0} {a b : A} → ◌≡◌ {A = Result A} (ok a) (ok b) → a ≡ b
ok_path e = cc

step_ok :
    {A B : Type 0} (x : Result A) (f : A → Result B) (b : B)
    → x >>= f ≡ ok b
    → (a : A) × (x ≡ ok a) × (f a ≡ ok b)
unfolding ◌>>=◌
step_ok (ok a) f b h = (a, refl, h)
step_ok (err e) f b h = cc

wrap_ok : {A : Type 0} (text : String) (x : Result A) (a : A) → wrap_result text x ≡ ok a → x ≡ ok a
wrap_ok text (ok b) a h = h
wrap_ok text (err e) a h = cc

loaded :
    (decode : String → Result Bytes) (itoa : ℕ → String) (s : String) (key : MasterKey)
    → load_master_key decode itoa s ≡ ok key
    → (decode s ≡ ok key.key) × (length key.key ≡ 32)
unfolding load_master_key
loaded decode itoa s key h = elim (Bool-cases (str_eq s "")) [
  | inl empty ↦ let k = rw (load_master_key, empty) at h in cc
  | inr given ↦ elim (Result-cases (decode s)) [
    | inl (e, bad) ↦ let k = rw (load_master_key, given, bad) at h in cc
    | inr (raw, good) ↦ elim (Bool-cases (length raw == 32)) [
      | inr short ↦ let k = rw (load_master_key, given, good, short) at h in cc
      | inl sized ↦
          let k = rw (load_master_key, given, good, sized) at h in
          let same : raw ≡ key.key = ap (λ m. m.key) (ok_path k) in
          rw (sym same) (good, (==_iff (length raw) 32).0 sized)
    ]
  ]
]

pool_opened :
    {P : Type 0} (x : Result P) (ping : P → Option Err) (pool : P)
    → new_postgres_pool x ping ≡ ok pool
    → (x ≡ ok pool) × (ping pool ≡ none)
unfolding new_postgres_pool
pool_opened (err e) ping pool h = cc
pool_opened (ok q) ping pool h = elim (Option-cases (ping q)) [
  | inr (e, down) ↦ let k = rw (new_postgres_pool, down) at h in cc
  | inl answers ↦
      let k = rw (new_postgres_pool, answers) at h in
      let same : q ≡ pool = ok_path k in rw (sym same) (refl, answers)
]

config_or : Config → Action → Config
config_or d (exits n) = d
config_or d (runs c cfg rest) = cfg

-- `main` runs a command under the environment's configuration, once Validate has accepted it.
runs_valid :
    (p : Printers) (e : Variables) (args rest : List String) (c : Command) (cfg : Config)
    → main p e args ≡ runs c cfg rest
    → (cfg ≡ load e) × (validate p cfg ≡ none)
unfolding main config_or
runs_valid p e [] rest c cfg h = cc
runs_valid p e (name ∷ args) rest c cfg h = elim (Option-cases (validate p (load e))) [
  | inr (text, bad) ↦ let k = rw (main, bad) at h in cc
  | inl valid ↦ elim (Option-cases (command_of name)) [
    | inl unknown ↦ let k = rw (main, valid, unknown) at h in cc
    | inr (d, known) ↦
        let k = rw (main, valid, known) at h in
        let same : load e ≡ cfg = ap (config_or cfg) k in (sym same, rw (sym same) valid)
  ]
]

module _ {P O R K C : Type 0} (o : Clients P O R K C) (p : Printers) (e : Variables)
    (args : List String) where
  opened-IsSound :
      (c : Command) (cfg : Config) (rest : List String) (key : MasterKey) (pool : P)
      → main p e args ≡ runs c cfg rest
      → master_key o cfg ≡ ok key
      → connect_postgres o cfg ≡ ok pool
      → IsSound o e cfg key
  unfolding master_key connect_postgres
  opened-IsSound c cfg rest key pool ran keyed connected =
      let (same, valid) = runs_valid p e args rest c cfg ran in
      let (held, sized) =
        loaded o.decode o.itoa cfg.master_key key (wrap_ok "load master key" _ key keyed) in
      let (opened, answered) =
        pool_opened (o.open_pool cfg.database_url) o.ping pool
          (wrap_ok "connect postgres" _ pool connected) in
      record {
        pool = pool;
        of_environment = same;
        consistent = (validate-IsConsistent p cfg).0 valid;
        held = held;
        sized = sized;
        opened = opened;
        answered = answered;
      }

  -- A process of main that serves or works has a consistent configuration, which is the
  -- environment's, holds the master key of 32 bytes that it gives, and has a database that has
  -- answered its ping.
  pub start-IsSound :
      (c : Command) (cfg : Config) (rest : List String) (key : MasterKey)
      → main p e args ≡ runs c cfg rest
      → (start_serve o cfg ≡ ok key) ⊎ (start_worker o cfg ≡ ok key)
      → IsSound o e cfg key
  unfolding start_serve start_worker
  start-IsSound c cfg rest key ran (inl served) =
      let (k, keyed, after_key) = step_ok (master_key o cfg) _ key served in
      let (pool, connected, after_pool) = step_ok (connect_postgres o cfg) _ key after_key in
      let (r, redis, after_redis) = step_ok (connect_redis o cfg) _ key after_pool in
      let (q, queue, last) = step_ok (connect_asynq o cfg) _ key after_redis in
      opened-IsSound c cfg rest key pool ran (keyed ∙ last) connected
  start-IsSound c cfg rest key ran (inr worked) =
      let (k, keyed, after_key) = step_ok (master_key o cfg) _ key worked in
      let (pool, connected, after_pool) = step_ok (connect_postgres o cfg) _ key after_key in
      let (q, queue, after_queue) = step_ok (connect_asynq o cfg) _ key after_pool in
      let (r, redis, after_redis) = step_ok (connect_redis o cfg) _ key after_queue in
      let (opt, parsed, last) = step_ok (parse_opt o cfg) _ key after_redis in
      opened-IsSound c cfg rest key pool ran (keyed ∙ last) connected
