-- ===== src/Kube.antt =====
-- The objects of the Kubernetes API that the driver reads and builds, with the fields that it uses.
-- `Q` is the type of resource quantities, which k8s.io/apimachinery defines.
use etcd_snapshot_driver.Common.{Str, Bool, Option, List, ℤ}
use etcd_snapshot_driver.Common.Dict.{Dict}

pub record Meta : Type 0 where
  pub name : Str
  pub namespace : Str
  pub labels : Dict
  pub resource_version : Str  -- empty until the server has stored the object

pub record Pvc (Q : Type 0) : Type 0 where
  pub meta : Meta
  pub phase : Str
  pub access_modes : List Str
  pub storage_request : Option Q
  pub storage_class_name : Option Str

pub record Pod : Type 0 where
  pub name : Str
  pub containers : List Str

pub record ConfigMap : Type 0 where
  pub meta : Meta
  pub entries : Option Dict  -- the field Data; `none` is the nil map

pub record KeyToPath : Type 0 where
  pub key : Str
  pub path : Str

pub data VolumeSource : Type 0 where
  persistent_volume_claim : Str → Bool → VolumeSource
  empty_dir : VolumeSource
  secret : Str → List KeyToPath → VolumeSource

pub record Volume : Type 0 where
  pub name : Str
  pub source : VolumeSource

pub record VolumeMount : Type 0 where
  pub name : Str
  pub mount_path : Str
  pub read_only : Bool

pub record Resources (Q : Type 0) : Type 0 where
  pub memory : Q
  pub cpu : Q

pub record Container (Q : Type 0) : Type 0 where
  pub name : Str
  pub image : Str
  pub command : List Str
  pub volume_mounts : List VolumeMount
  pub allow_privilege_escalation : Bool
  pub dropped_capabilities : List Str
  pub read_only_root_filesystem : Bool
  pub requests : Resources Q
  pub limits : Resources Q

pub record PodSpec (Q : Type 0) : Type 0 where
  pub service_account_name : Str
  pub restart_policy : Str
  pub run_as_non_root : Bool
  pub run_as_user : ℤ
  pub fs_group : ℤ
  pub seccomp_profile : Str
  pub containers : List (Container Q)
  pub volumes : List Volume

-- The three counters of a job's status.
pub record Counts : Type 0 where
  pub active : ℤ
  pub succeeded : ℤ
  pub failed : ℤ

pub record Job (Q : Type 0) : Type 0 where
  pub meta : Meta
  pub ttl_seconds_after_finished : ℤ
  pub backoff_limit : ℤ
  pub active_deadline_seconds : ℤ
  pub template_labels : Dict
  pub template : PodSpec Q
  pub counts : Counts

-- A member of an etcd cluster, as the etcd client lists it.
pub record Member : Type 0 where
  pub id : Str
  pub is_learner : Bool
  pub client_urls : List Str

pub record MemberList : Type 0 where
  pub header_member_id : Str
  pub members : List Member
