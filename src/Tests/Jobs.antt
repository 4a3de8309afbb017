-- ===== src/Tests/Jobs.antt =====
-- Examples for volume IDs, job templates, and the waits for a job.
use etcd_snapshot_driver.Common.{
  ℕ, suc, ◌<◌, ◌≤◌, Str, lit, true, none, [], ◌∷◌, pos, deadline_exceeded, ok, ◌≡◌, ◌↔◌, refl,
}
use etcd_snapshot_driver.Kube.{Job}
use etcd_snapshot_driver.Fake.{world, with_counts}
use etcd_snapshot_driver.Volume.{parse_volume_id}
use etcd_snapshot_driver.Volume.Split.{Names, parse_volume_id_iff}
use etcd_snapshot_driver.Job.Config.{JobConfig}
use etcd_snapshot_driver.Job.Template.{generate_snapshot_save_job, generate_snapshot_delete_job}
use etcd_snapshot_driver.Job.Template.WellFormed.{is_mountable, generated-mountable}
use etcd_snapshot_driver.Job.Executor.{poll_job}
use etcd_snapshot_driver.Job.Executor.Polling.{
  after, answer, ShowsSuccess, ShowsNothing, poll_job-success_iff, ShowsEnd, poll_job_looks,
}
use etcd_snapshot_driver.Job.Monitor.{JobStatus, job_status, poll_job_status}
use etcd_snapshot_driver.Job.Monitor.Answering.{AnswersFirst, poll_job_status_iff}
use etcd_snapshot_driver.Tests.World.{volume_id, done, good, no_maps, job_of}

parse_volume_id_iff_example :
    (parse_volume_id volume_id ≡ ok (lit "prod", lit "data-etcd-0"))
    ↔ Names volume_id (lit "prod") (lit "data-etcd-0")
parse_volume_id_iff_example = parse_volume_id_iff volume_id (lit "prod") (lit "data-etcd-0")

abbrev job_config : JobConfig
job_config = record {
  snapshot_id = lit "backup-1700000000-1700000000";
  namespace = lit "prod";
  etcd_endpoints = lit "https://etcd-0" ∷ [];
  snapshot_pvc_name = lit "etcd-snapshots";
  snapshot_pvc_namespace = lit "prod";
  timeout = pos 300;
  backoff_limit = pos 3;
  active_deadline_seconds = pos 600;
  operation = lit "save";
  tls_enabled = true;
  tls_secret_name = lit "etcd-tls";
  client_cert_path = [];
  client_key_path = [];
  ca_path = [];
  etcd_image = [];
  busybox_image = [];
}

abbrev pub save_job : Job Str
save_job = job_of (generate_snapshot_save_job (world good) job_config)

abbrev delete_job : Job Str
delete_job = job_of (generate_snapshot_delete_job (world good) job_config)

generated-mountable_example :
    (is_mountable save_job.template ≡ true) × (is_mountable delete_job.template ≡ true)
unfolding generate_snapshot_save_job generate_snapshot_delete_job lit
generated-mountable_example = generated-mountable (world good) job_config job_config refl refl

poll_job-success_iff_example :
    ((poll_job (world good) save_job deadline_exceeded 3 no_maps).0.1 ≡ none) ↔ (
      (k : ℕ) × (k < 3)
      × ShowsSuccess (world good) save_job (answer (world good) save_job k no_maps)
      × ((i : ℕ)
          → i < k
          → ShowsNothing (world good) save_job (answer (world good) save_job i no_maps)))
poll_job-success_iff_example =
    poll_job-success_iff (world good) save_job deadline_exceeded 3 no_maps

abbrev shown : JobStatus
shown = job_status (with_counts (lit "prod") (lit "j") done)

poll_job_status_iff_example :
    ((poll_job_status (world good) (lit "prod") (lit "j") deadline_exceeded (pos 5) 3 no_maps).0
      ≡ ok shown)
    ↔ AnswersFirst (world good) (lit "prod") (lit "j") deadline_exceeded 3 no_maps shown
poll_job_status_iff_example =
    poll_job_status_iff (world good) (lit "prod") (lit "j") deadline_exceeded (pos 5) 3 no_maps
      shown refl

poll_job_looks_example :
    (k : ℕ) × (k ≤ 3)
    × ((poll_job (world good) save_job deadline_exceeded 3 no_maps).1
        ≡ after (world good) save_job k no_maps)
    × ((i : ℕ)
        → suc i < k
        → ShowsNothing (world good) save_job (answer (world good) save_job i no_maps))
    × (k < 3
        → (m : ℕ) × (k ≡ suc m)
          × ShowsEnd (world good) save_job (answer (world good) save_job m no_maps))
poll_job_looks_example = poll_job_looks (world good) save_job deadline_exceeded 3 no_maps
