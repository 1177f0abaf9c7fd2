-- ===== src/Targeting.antt =====
-- internal/targeting/targeting.go: from a target_spec to device ids.
use slay_push.Store.Devices.{get_devices_by_ids, get_active_devices_by_subscriber_external_ids}
use slay_push.Errors.{no_targets}
use slay_push.Store.Monad.{pure, ◌>>=◌, fail, M}
use slay_push.Store.{Spec, Device}
use slay_push.Base.{[], not, false, ◌∷◌, if◌then◌else◌, true, map, Bool, ℕ, List}

is_nil {ℓ} : {A : Type ℓ} → List A → Bool
is_nil [] = true
is_nil (x ∷ xs) = false

-- UUIDsFrom and UUIDTo (pg.go) only change the type of an id.
abbrev pub device_ids_of : List Device → List ℕ
device_ids_of = map λ d. d.id

unfoldable pub resolve_explicit : ℕ → Spec → M (List ℕ)
unfolding is_nil
resolve_explicit project_id spec =
    if is_nil spec.device_ids
    then fail no_targets
    else do devices ← get_devices_by_ids project_id spec.device_ids; pure (device_ids_of devices)

unfoldable pub resolve_group : ℕ → Spec → M (List ℕ)
unfolding is_nil
resolve_group project_id spec = if is_nil spec.external_user_ids then fail no_targets else do
  devices ← get_active_devices_by_subscriber_external_ids project_id spec.external_user_ids
  pure (device_ids_of devices)

-- `Registry.Resolve`.
unfoldable pub resolve : ℕ → Spec → M (List ℕ)
unfolding is_nil resolve_explicit resolve_group
resolve project_id spec =
    if not (is_nil spec.device_ids)
    then resolve_explicit project_id spec
    else if not (is_nil spec.external_user_ids)
    then resolve_group project_id spec
    else fail no_targets
