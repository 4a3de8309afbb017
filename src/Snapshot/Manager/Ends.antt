-- ===== src/Snapshot/Manager/Ends.antt =====
-- Storing, reading and removing an entry return: they do not panic, whatever the API answers.
use etcd_snapshot_driver.Common.{Str, false, is_panic, Act, ◌≡◌, arith}
use etcd_snapshot_driver.Env.{Env}
use etcd_snapshot_driver.Snapshot.{Codec}
use etcd_snapshot_driver.Snapshot.Manager.{Kind, store_entry, store, retrieve, delete_entry}

-- A call that does not panic.
abbrev pub NoPanic : {S A : Type 0} → Act S A → Type 0
NoPanic m = (s : _) → is_panic (m s).0 ≡ false

pub retrieve_ends :
    (E : Env) (ns : Str) {A : Type 0} (c : Codec A) (kind : Kind) (key : Str)
    → NoPanic (retrieve E ns c kind key)
unfolding retrieve
retrieve_ends E ns c kind key s = ground arith

pub delete_entry_ends :
    (E : Env) (ns : Str) (kind : Kind) (key : Str) → NoPanic (delete_entry E ns kind key)
unfolding delete_entry
delete_entry_ends E ns kind key s = ground arith

pub store_ends :
    (E : Env) (ns : Str) {A : Type 0} (c : Codec A) (kind : Kind) (key : Str) (a : A)
    → NoPanic (store E ns c kind key a)
unfolding store store_entry
store_ends E ns c kind key a s = ground arith
