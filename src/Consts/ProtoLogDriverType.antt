-- ===== src/Consts/ProtoLogDriverType.antt =====
-- The types of a log driver on the wire (internal/proto/conmon.capnp.go).
use conmon_rs.Base.{ℕ, zero, suc, ◌<◌, ◌==◌, ◌≡◌, refl, String, str_eq, if◌then◌else◌, arith}

abbrev pub container_runtime_interface : ℕ
container_runtime_interface = 0

abbrev pub json : ℕ
json = 1

-- `String`: the name of a value, empty for a number that is none.
unfoldable pub to_string : ℕ → String
to_string c =
    if c == container_runtime_interface
    then "containerRuntimeInterface"
    else if c == json
    then "json"
    else ""

-- `FromString`: the value with a name, or zero.
unfoldable pub from_string : String → ℕ
from_string c =
    if str_eq c "containerRuntimeInterface"
    then container_runtime_interface
    else if str_eq c "json"
    then json
    else 0

pub from_string-to_string : (c : ℕ) → c < 2 → from_string (to_string c) ≡ c
unfolding from_string to_string
from_string-to_string zero h = refl
from_string-to_string (suc zero) h = refl
from_string-to_string (suc (suc c)) h = absurd (omega arith)
