-- ===== src/Tests/Storage.antt =====
-- Examples for the metadata.
use etcd_snapshot_driver.Common.{lit, str_eq, ok, ◌≡◌, refl}
use etcd_snapshot_driver.Fake.{world, laws}
use etcd_snapshot_driver.Codec.{codecs, group_codec-IsFaithful}
use etcd_snapshot_driver.Snapshot.Manager.{group_kind, store, retrieve}
use etcd_snapshot_driver.Snapshot.Table.RoundTrip.{retrieve-store}
use etcd_snapshot_driver.Tests.World.{good, some_maps, group, stored}

retrieve-store_example :
    (retrieve (world good) (lit "kube-system") codecs.group group_kind (lit "g-1") stored).0
    ≡ ok group
unfolding store group_kind str_eq lit
retrieve-store_example =
    retrieve-store (world good) (laws good) (lit "kube-system") codecs.group group_kind
      group_codec-IsFaithful (lit "g-1") group some_maps refl refl
