-- ===== src/Server/Wiring.antt =====
-- Every task that a stored device can get has a worker.
use slay_push.Platform.Health.{degraded, health_handler}
use slay_push.Store.Upserts.Registered.{upsert_device-provider}
use slay_push.Base.Text.{str_eq_iff, str_eq}
use slay_push.Errors.{Result, ok}
use slay_push.Store.{Device, World}
use slay_push.Base.{
  none, false, ◌↔◌, Option, sym, refl, inr, inl, arith, Bool-cases, ◌⊎◌, ◌<◌, true, some, ◌≡◌, ℕ,
  String,
}
use slay_push.Store.Devices.{mem_text}
use slay_push.Queue.{FanoutPayload, SendPayload, send_type_for, Task, send_task, fanout_task}
use slay_push.Store.Upserts.{upsert_device, UpsertDeviceParams}
use slay_push.Server.{
  exit_code, run_healthcheck_probe, send_handler, fanout_handler, worker_handlers, worker_queues,
  supported_providers, entries, entry_at, Handler,
}

-- The worker consumes the task's queue, with some priority, and has a handler for its type.
abbrev pub IsConsumed {ℓ} : {P : Type ℓ} → Handler → Task P → Type 0
IsConsumed h t =
    ((priority : ℕ) × (entry_at t.queue worker_queues ≡ some priority) × (0 < priority))
    × (entry_at t.task_type worker_handlers ≡ some h)

one_of :
    (s : String)
    → mem_text s supported_providers ≡ true
    → (s ≡ "expo") ⊎ (s ≡ "fcm") ⊎ (s ≡ "apns") ⊎ (s ≡ "hms")
unfolding mem_text
one_of s h = elim (Bool-cases (str_eq "expo" s)) [
  | inl e ↦ inl (sym ((str_eq_iff "expo" s).0 e))
  | inr a ↦ elim (Bool-cases (str_eq "fcm" s)) [
    | inl e ↦ inr (inl (sym ((str_eq_iff "fcm" s).0 e)))
    | inr b ↦ elim (Bool-cases (str_eq "apns" s)) [
      | inl e ↦ inr (inr (inl (sym ((str_eq_iff "apns" s).0 e))))
      | inr c ↦ elim (Bool-cases (str_eq "hms" s)) [
        | inl e ↦ inr (inr (inr (sym ((str_eq_iff "hms" s).0 e))))
        | inr d ↦ let k = rw (a, b, c, d) at h in cc
      ]
    ]
  ]
]

fanout-IsConsumed : (p : FanoutPayload) → IsConsumed fanout_handler (fanout_task p)
unfolding fanout_task entry_at worker_queues worker_handlers
fanout-IsConsumed p = ((5, refl, omega arith), refl)

supported-IsConsumed :
    (p : SendPayload)
    → mem_text p.provider_type supported_providers ≡ true
    → IsConsumed send_handler (send_task p)
unfolding send_task send_type_for entry_at entries worker_queues worker_handlers
supported-IsConsumed p h = elim (one_of p.provider_type h) [
  | inl e ↦ ((10, rw e refl, omega arith), rw e refl)
  | inr (inl e) ↦ ((10, rw e refl, omega arith), rw e refl)
  | inr (inr (inl e)) ↦ ((10, rw e refl, omega arith), rw e refl)
  | inr (inr (inr e)) ↦ ((10, rw e refl, omega arith), rw e refl)
]

-- Every fanout task, and every send task for a device that UpsertDevice returned, goes to a queue that
-- the worker consumes and has a type whose handler is its own.
pub upsert_device-IsConsumed :
    (params : UpsertDeviceParams) (w v : World) (d : Device) (p : SendPayload) (q : FanoutPayload)
    → upsert_device params w ≡ (ok d, v)
    → p.provider_type ≡ d.provider_type
    → IsConsumed send_handler (send_task p) × IsConsumed fanout_handler (fanout_task q)
upsert_device-IsConsumed params w v d p q h e =
    let (same, fits) = upsert_device-provider params w v d h in
    let kind : mem_text params.provider_type supported_providers ≡ true = ground arith in
    (supported-IsConsumed p (rw (e, same) kind), fanout-IsConsumed q)

-- The container's health check, which takes the health page for the probe's GET, succeeds exactly
-- where both pings do.
probe-health :
    (port : Result String) (db rdb : Option String)
    → (run_healthcheck_probe port (λ url. ok (health_handler db rdb).http_status) ≡ 0)
      ↔ (degraded db rdb ≡ false)
unfolding run_healthcheck_probe exit_code health_handler
probe-health port none none = (λ h. refl, λ h. refl)
probe-health port none (some e) = (λ h. absurd (ground arith), λ h. cc)
probe-health port (some e) rdb = (λ h. absurd (ground arith), λ h. cc)
