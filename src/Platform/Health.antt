-- ===== src/Platform/Health.antt =====
-- internal/platform/health.go and db.go, over the outcomes of the pings; and the probe of
-- cmd/server/main.go on the health page.
use slay_push.Errors.{ok, err, Err, Result}
use slay_push.Base.{true, false, none, some, if◌then◌else◌, Bool, String, ℕ, Option}

pub record HealthReply : Type 0 where
  pub http_status : ℕ
  pub status : String
  pub database : String
  pub redis : String

-- The text of a ping's error, where it has one.
abbrev ping_text : Option String → String
ping_text none = "ok"
ping_text (some e) = e

abbrev pub degraded : Option String → Option String → Bool
degraded none none = false
degraded none (some e) = true
degraded (some e) _ = true

-- `HealthHandler`, of the errors of the two pings.
unfoldable pub health_handler : Option String → Option String → HealthReply
health_handler db rdb = record {
  http_status = if degraded db rdb then 503 else 200;
  status = if degraded db rdb then "degraded" else "ok";
  database = ping_text db;
  redis = ping_text rdb;
}

-- `NewPostgresPool`, of pgxpool.New and the pool's ping: a pool that does not answer is closed.
unfoldable pub new_postgres_pool : {P : Type 0} → Result P → (P → Option Err) → Result P
new_postgres_pool (err e) ping = err e
new_postgres_pool (ok pool) ping = elim (ping pool) [ none ↦ ok pool | some e ↦ err e ]

-- `NewRedisClient`, of redis.ParseURL and redis.NewClient.
unfoldable pub new_redis_client : {O R : Type 0} → (String → Result O) → (O → R) → String → Result R
new_redis_client parse_url client redis_url = elim (parse_url redis_url) [
  | err e ↦ err e
  | ok opts ↦ ok (client opts)
]
