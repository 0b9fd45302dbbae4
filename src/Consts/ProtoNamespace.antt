-- ===== src/Consts/ProtoNamespace.antt =====
-- The namespaces on the wire (internal/proto/conmon.capnp.go).
use conmon_rs.Base.{ℕ, zero, suc, ◌<◌, ◌==◌, ◌≡◌, refl, String, str_eq, if◌then◌else◌, arith}

abbrev pub ipc : ℕ
ipc = 0

abbrev pub net : ℕ
net = 1

abbrev pub pid : ℕ
pid = 2

abbrev pub user : ℕ
user = 3

abbrev pub uts : ℕ
uts = 4

-- `String`: the name of a value, empty for a number that is none.
unfoldable pub to_string : ℕ → String
to_string c =
    if c == ipc
    then "ipc"
    else if c == net
    then "net"
    else if c == pid
    then "pid"
    else if c == user
    then "user"
    else if c == uts
    then "uts"
    else ""

-- `FromString`: the value with a name, or zero.
unfoldable pub from_string : String → ℕ
from_string c =
    if str_eq c "ipc"
    then ipc
    else if str_eq c "net"
    then net
    else if str_eq c "pid"
    then pid
    else if str_eq c "user"
    then user
    else if str_eq c "uts"
    then uts
    else 0

pub from_string-to_string : (c : ℕ) → c < 5 → from_string (to_string c) ≡ c
unfolding from_string to_string
from_string-to_string zero h = refl
from_string-to_string (suc zero) h = refl
from_string-to_string (suc (suc zero)) h = refl
from_string-to_string (suc (suc (suc zero))) h = refl
from_string-to_string (suc (suc (suc (suc zero)))) h = refl
from_string-to_string (suc (suc (suc (suc (suc c))))) h = absurd (omega arith)
