-- ===== src/Server/Identity.antt =====
-- The identity service (internal/driver/identity.go), the capabilities of the group controller
-- (internal/driver/groupcontroller.go) and the version (internal/config/version.go,
-- cmd/etcd-snapshot-driver/version.go).
use etcd_snapshot_driver.Common.{Str, lit, Bool, true, List, [], ◌∷◌, ◌++◌}

abbrev pub driver_name : Str
driver_name = lit "etcd-snapshot-driver"

abbrev pub version : Str
version = lit "dev"

abbrev pub build_time : Str
build_time = lit "unknown"

abbrev pub git_commit : Str
git_commit = lit "unknown"

pub record PluginInfo : Type 0 where
  pub name : Str
  pub vendor_version : Str

-- csi.PluginCapability_Service_Type and csi.GroupControllerServiceCapability_RPC_Type, as far as the
-- driver names them
pub data PluginCapability : Type 0 where
  controller_service : PluginCapability

pub data GroupControllerCapability : Type 0 where
  create_delete_get_volume_group_snapshot : GroupControllerCapability

abbrev pub get_plugin_info : PluginInfo
get_plugin_info = record { name = driver_name; vendor_version = version }

abbrev pub get_plugin_capabilities : List PluginCapability
get_plugin_capabilities = controller_service ∷ []

-- `Probe`: the field `Ready` of the answer.
abbrev pub probe_ready : Bool
probe_ready = true

abbrev pub group_controller_get_capabilities : List GroupControllerCapability
group_controller_get_capabilities = create_delete_get_volume_group_snapshot ∷ []

-- What the command `version` prints.
abbrev pub version_text : Str
version_text =
    lit "etcd-snapshot-driver version "
    ++ (version
        ++ (lit " (built " ++ (build_time ++ (lit ", commit " ++ (git_commit ++ lit ")\n")))))
