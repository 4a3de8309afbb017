-- ===== src/Util.antt =====
-- The error types of internal/util/errors.go. No other package uses them.
use etcd_snapshot_driver.Common.{Str, lit, ◌++◌}

pub data UtilError : Type 0 where
  snapshot_not_found_error : Str → UtilError
  etcd_discovery_error : Str → UtilError
  job_execution_error : Str → Str → UtilError

-- `Error()`
unfoldable pub util_error_text : UtilError → Str
util_error_text (snapshot_not_found_error snapshot_id) = lit "snapshot not found: " ++ snapshot_id
util_error_text (etcd_discovery_error reason) = lit "etcd discovery failed: " ++ reason
util_error_text (job_execution_error job_name reason) =
    lit "job execution failed: " ++ (job_name ++ (lit " (" ++ (reason ++ lit ")")))
