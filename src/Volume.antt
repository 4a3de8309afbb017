-- ===== src/Volume.antt =====
-- `parseVolumeID` (internal/driver/controller.go). A volume ID is "namespace/pvc-name".
pub mod Split
use etcd_snapshot_driver.Common.{
  ℕ, zero, suc, ◌+◌, Str, lit, length, get_elem?, take, drop, is_empty, Bool, ◌||◌, Option, none,
  some, List, [], ◌∷◌, ◌++◌, ◌==◌, if◌then◌else◌, Error, errorf, Result, ok, err,
}

-- `volumeID[i] == '/'`
abbrev pub is_slash : Option ℕ → Bool
is_slash none = Bool.false
is_slash (some c) = c == b'/'

-- `for i = n - 1; i >= 0; i--`: the highest index below `n` that holds a slash; `none` is `i < 0`.
unfoldable pub last_slash : Str → ℕ → Option ℕ
last_slash s zero = none
last_slash s (suc i) =
    let rest = last_slash s i in if is_slash (get_elem? s i) then some i else rest

-- What follows the loop.
unfoldable pub split_volume_id : Str → Option ℕ → Result (Str × Str)
split_volume_id id none = ok (lit "default", id)
split_volume_id id (some i) =
    let namespace = take i id in
    let pvc_name = drop (i + 1) id in
    if is_empty namespace || is_empty pvc_name
    then err (errorf (lit "invalid volume ID format: " ++ id))
    else ok (namespace, pvc_name)

unfoldable pub parse_volume_id : Str → Result (Str × Str)
unfolding last_slash split_volume_id
parse_volume_id id =
    if length id == 0
    then err (errorf (lit "empty volume ID"))
    else split_volume_id id (last_slash id (length id))
