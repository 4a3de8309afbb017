-- ===== src/Tests/Naming.antt =====
-- Examples for the identifiers, and for names that are too long.
use etcd_snapshot_driver.Common.{◌<◌, length, some, arith, Str, lit, true, [], ◌∷◌, ◌≡◌, refl}
use etcd_snapshot_driver.Common.Dict.{Dict, lookup}
use etcd_snapshot_driver.Fake.{other_error, has_long, Answers, world}
use etcd_snapshot_driver.Codec.{codecs}
use etcd_snapshot_driver.Controller.Types.{CreateRequest, stamped}
use etcd_snapshot_driver.Controller.Types.{unix}
use etcd_snapshot_driver.Controller.Types.Unique.{stamped-injective}
use etcd_snapshot_driver.Controller.Create.{create_volume_group_snapshot}
use etcd_snapshot_driver.Controller.Create.LongName.{LimitsLabels, long_name_fails}
use etcd_snapshot_driver.Controller.Create.Succeeds.{Answered}
use etcd_snapshot_driver.Tests.World.{volume_id, good, no_maps, config}

stamped-injective_example :
    (lit "backup" ≡ lit "backup") × (unix 1700000000000000001 ≡ unix 1700000000000000002)
unfolding stamped
stamped-injective_example =
    stamped-injective (lit "backup") (lit "backup") 1700000000000000001 1700000000000000002 refl

-- A server that refuses long labels.
abbrev strict : Answers
strict = record good { limits_labels = true }

long_found :
    (labels : Dict) (key text : Str)
    → lookup key labels ≡ some text
    → 63 < length text
    → has_long labels ≡ true
unfolding lookup has_long
long_found [] key text h long = cc
long_found ((j, v) ∷ labels) key text h long = ground (arith, long_found labels key text)

limits_labels : LimitsLabels (world strict)
limits_labels = record {
  refused = λ ns j s key {text} present long.
      let found = long_found j.meta.labels key text present long in
      (other_error, ground arith, refl);
}

-- A name such as the CSI snapshotter makes.
abbrev snapshotter_request : CreateRequest
snapshotter_request = record {
  name = lit "groupsnapshot-123e4567-e89b-12d3-a456-426614174000";
  source_volume_ids = volume_id ∷ [];
}

long_name_fails_example :
    ¬ Answered
      (create_volume_group_snapshot (world strict) config codecs snapshotter_request no_maps)
unfolding lit
long_name_fails_example =
    long_name_fails (world strict) limits_labels (λ s. omega arith) config codecs
      snapshotter_request no_maps (omega arith)
