-- ===== src/Tests/Command.antt =====
-- Examples for the command.
use etcd_snapshot_driver.Common.{
  is_value, Str, lit, Bool, true, false, none, List, [], Reply, value, failure, ◌∷◌, ◌≡◌, ◌↔◌, refl,
}
use etcd_snapshot_driver.Host.{Host, Invocation, root_invoked}
use etcd_snapshot_driver.Command.Flags.{Flag, flags}
use etcd_snapshot_driver.Command.Run.Outcome.{CanPrepare}
use etcd_snapshot_driver.Command.Settings.{load_options}
use etcd_snapshot_driver.Fake.{other_error}
use etcd_snapshot_driver.Command.Logging.Given.{FlagLaws}
use etcd_snapshot_driver.Command.Root.Unread.{main_unread}
use etcd_snapshot_driver.Command.Root.{exit_status, invoke, main}
use etcd_snapshot_driver.Command.Root.Ending.{
  built, CanEnd, parsed, invoke-ready_iff, main-exit_iff,
}
use etcd_snapshot_driver.Tests.Server.{host}

main-exit_iff_example : ((main host []).0 ≡ exit_status 0) ↔ (
    (v : List Flag × Bool) × (i : Invocation) × ((host.bind_flags flags []).0 ≡ value v)
    × ((parsed host []).0 ≡ value i)
    × CanEnd host v (parsed host []).1 i)
main-exit_iff_example = main-exit_iff host []

abbrev root : Invocation
root = root_invoked (lit ".etcd-snapshot-driver.yaml")

invoke-ready_iff_example : ((invoke host (flags, false) root []).0.1.ready ≡ true) ↔ (
    (cfg_file : Str) × (root ≡ root_invoked cfg_file)
    × (is_value (built host (flags, false) []).0 ≡ true)
    × CanPrepare host
        (load_options host cfg_file (flags, false) (built host (flags, false) []).1).1)
invoke-ready_iff_example = invoke-ready_iff host (flags, false) [] root

same_flags :
    (fs : List Flag) (v : List Flag × Bool)
    → ◌≡◌ {A = Reply (List Flag × Bool)} (value (fs, false)) (value v)
    → (fs, false) ≡ v
same_flags fs v e = cc

-- A host that makes no logger, and on which reading the configuration file leaves a trace.
abbrev silent : Host
silent = record host {
  build_logger = λ c s. (failure other_error, lit "asked" ∷ s);
  read_in_config = λ v s. ((value tt, v), lit "read" ∷ s);
}

-- Nothing is given on the command line.
flag_laws : FlagLaws silent
flag_laws = record {
  given = λ s n. none;
  bound = λ fs s t {v} {name} {d} made default. rw (← same_flags fs v made, default) refl;
}

main_unread_example : main silent [] ≡ (exit_status 1, lit "asked" ∷ [])
main_unread_example = main_unread silent flag_laws [] refl refl (λ e. cc) refl
