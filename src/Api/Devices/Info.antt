-- ===== src/Api/Devices/Info.antt =====
-- internal/transport/http/devices.go: what a request says of its device.
use slay_push.Base.Strings.{byte_len}
use slay_push.Base.Json.{str, map_of, field, number, end}
use slay_push.Base.Text.{str_eq, ◌<>◌}
use slay_push.Base.Int.{neg_part, pos_part, ℤ}
use slay_push.Base.{zero, none, some, ltb, if◌then◌else◌, ◌+◌, ◌*◌, suc, Option, Bool, ℕ, String}
use slay_push.Api.{Fields, Server, Float64}

pub record Coords : Type 0 where
  pub lat : Float64
  pub lon : Float64

pub record DeviceInfo : Type 0 where
  pub brand : String
  pub os_version : String
  pub device_uuid : String
  pub language : String
  pub coords : Option Coords

pow2 : ℕ → ℕ
pow2 zero = 1
pow2 (suc k) = 2 * pow2 k

abbrev magnitude : ℤ → ℕ
magnitude z = pos_part z + neg_part z

-- `x < -n || x > n`, for a whole number n.
unfoldable pub outside : ℕ → Float64 → Bool
unfolding pow2
outside n x = ltb (n * pow2 x.scale) (magnitude x.numerator)

out_of_range : Server → String → String → Float64 → String
out_of_range srv name range x =
    "device.coords." <> name <> " must be between " <> range <> ", got " <> srv.float_text x

validate_coords : Server → Option Coords → Option String
unfolding out_of_range
validate_coords srv none = none
validate_coords srv (some c) =
    if outside 90 c.lat
    then some (out_of_range srv "lat" "-90 and 90" c.lat)
    else if outside 180 c.lon
    then some (out_of_range srv "lon" "-180 and 180" c.lon)
    else none

too_long : Server → String → ℕ → String
too_long srv name max = "device." <> name <> " must be at most " <> srv.itoa max <> " characters"

-- `validate`: the error's text.
unfoldable pub validate : Server → Option DeviceInfo → Option String
unfolding validate_coords too_long
validate srv none = none
validate srv (some d) =
    if ltb 128 (byte_len d.brand)
    then some (too_long srv "brand" 128)
    else if ltb 128 (byte_len d.os_version)
    then some (too_long srv "os_version" 128)
    else if ltb 128 (byte_len d.device_uuid)
    then some (too_long srv "device_uuid" 128)
    else if ltb 35 (byte_len d.language)
    then some (too_long srv "language" 35)
    else validate_coords srv d.coords

set_text : String → String → Fields → Fields
set_text key text m = if str_eq text "" then m else field key (str text) m

set_coords : Server → Option Coords → Fields → Fields
set_coords srv none m = m
set_coords srv (some c) m =
    let lat = number (srv.float_json c.lat) in
    let lon = number (srv.float_json c.lon) in
    field "coords" (map_of (field "lat" lat (field "lon" lon end))) m

set_info : Server → Option DeviceInfo → Fields
unfolding set_text set_coords
set_info srv none = end
set_info srv (some d) = set_coords srv d.coords (
    set_text "language" d.language (
      set_text "device_uuid" d.device_uuid
        (set_text "os_version" d.os_version (set_text "brand" d.brand end))))

-- The keys are set once each; a map has no order.
unfoldable pub build_device_metadata : Server → Option DeviceInfo → String → Fields
unfolding set_info
build_device_metadata srv info ip = set_text "last_seen_ip" ip (set_info srv info)
