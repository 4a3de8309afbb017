-- ===== src/Env.antt =====
-- What the driver calls and does not implement: the clients of the Kubernetes API and of etcd, the
-- clock and the tickers, package json, and the TLS files. All take and return the state of the
-- world, so answers may change from call to call.
pub mod Frame
use etcd_snapshot_driver.Common.{ℕ, Str, Option, List, ℤ, Reply, Act, CtxErr}
use etcd_snapshot_driver.Common.Dict.{Dict}
use etcd_snapshot_driver.Kube.{Pvc, Pod, ConfigMap, Job, MemberList}

pub record Env : Type 1 where
  pub State : Type 0
  -- resource.ParseQuantity and labels.SelectorFromSet(…).String()
  pub Quantity : Type 0
  pub parse_quantity : Str → Reply Quantity
  pub selector : Dict → Str
  -- time.Now(), in nanoseconds since 1970
  pub now : State → ℕ × State
  -- What a loop over a ticker and a context meets: the number of ticks that the `select` takes
  -- before it takes `ctx.Done()`, and then `ctx.Err()`. The argument is the context's timeout, in
  -- nanoseconds.
  pub ticks : ℤ → State → (ℕ × CtxErr) × State
  -- CoreV1() and BatchV1(): the first argument is the namespace
  pub get_pvc : Str → Str → State → Reply (Pvc Quantity) × State
  pub create_pvc : Str → Pvc Quantity → State → Reply (Pvc Quantity) × State
  pub list_pods : Str → Str → State → Reply (List Pod) × State
  pub pod_logs : Str → Str → State → Reply Str × State
  pub get_config_map : Str → Str → State → Reply ConfigMap × State
  pub create_config_map : Str → ConfigMap → State → Reply ConfigMap × State
  pub update_config_map : Str → ConfigMap → State → Reply ConfigMap × State
  pub create_job : Str → Job Quantity → State → Reply (Job Quantity) × State
  pub get_job : Str → Str → State → Reply (Job Quantity) × State
  -- clientv3: `none` stands for the nil client that a failed `New` returns
  pub Client : Type 0
  pub TlsConfig : Type 0
  pub new_client : List Str → Option TlsConfig → State → Reply Client × State
  pub member_list : Client → State → Reply MemberList × State
  pub get_key : Client → Str → State → Reply Unit × State
  pub close_client : Option Client → Act State Unit
