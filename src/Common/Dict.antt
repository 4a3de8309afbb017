-- ===== src/Common/Dict.antt =====
-- A Go `map[string]string` as an association list.
use mathlib.Core.Path.{◌≡◌, refl}
use mathlib.Core.Option.{Option, none, some}
use mathlib.Core.List.{List, [], ◌∷◌}
use native.Mathlib.Omega.{arith}
use etcd_snapshot_driver.Common.Tests.{if◌then◌else◌}
use etcd_snapshot_driver.Common.Bytes.{Str, str_eq, str_eq_iff}

abbrev pub Dict : Type 0
Dict = List (Str × Str)

-- `v, ok := m[k]`
unfoldable pub lookup : Str → Dict → Option Str
lookup k [] = none
lookup k ((j, v) ∷ m) = if str_eq j k then some v else lookup k m

-- `m[k]`, with the zero value where the key is missing
abbrev pub get : Str → Dict → Str
get k m = elim (lookup k m) [ none ↦ [] | some v ↦ v ]

-- `m[k] = v`
unfoldable pub insert : Str → Str → Dict → Dict
insert k v [] = (k, v) ∷ []
insert k v ((j, w) ∷ m) = if str_eq j k then (k, v) ∷ m else (j, w) ∷ insert k v m

-- `delete(m, k)`. Every entry of the key goes; a Go map has at most one.
unfoldable pub erase : Str → Dict → Dict
erase k [] = []
erase k ((j, w) ∷ m) = let rest = erase k m in if str_eq j k then rest else (j, w) ∷ rest

pub lookup-insert :
    (k j : Str) (v : Str) (m : Dict)
    → lookup j (insert k v m) ≡ (if str_eq k j then some v else lookup j m)
unfolding lookup insert
lookup-insert k j v [] = refl
lookup-insert k j v ((i, w) ∷ m) =
    ground (arith, str_eq_iff k j, str_eq_iff i k, str_eq_iff i j, lookup-insert k j v m)

pub lookup-erase :
    (k j : Str) (m : Dict) → lookup j (erase k m) ≡ (if str_eq k j then none else lookup j m)
unfolding lookup erase
lookup-erase k j [] = ground arith
lookup-erase k j ((i, w) ∷ m) =
    ground (arith, str_eq_iff k j, str_eq_iff i k, str_eq_iff i j, lookup-erase k j m)
