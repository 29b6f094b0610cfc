-- ===== src/Deploy/Backup/Kept.antt =====
-- Predicates on a session that the retention rules keep: those that each script, each count and the
-- three statements on the executions keep.
use rustify.Prelude.{ℕ, Bool, true, false, Option, none, some, List, [], ◌∷◌, Str}
use rustify.Db.Backups.{S3Storage, S3Credentials}
use rustify.Db.Backups.Executions.{Executions, mark_local_deleted, mark_s3_deleted, prune_orphans}
use rustify.Deploy.Host.{World, Session, lift, query, exec, counted}
use rustify.Deploy.Host.Keeps.{bind_keeps, query_keeps, lift_keeps}
use rustify.Deploy.Backup.{Tables, Resolved, exec_checked, exec_ignore}
use rustify.Deploy.Backup.Retention.{
  write, files_of, mark, rm_local, rm_objects, rm_with, retain_local, retain_s3, retain_saved,
  remove_some, remove_from_s3, apply_retention,
}
use rustify.Deploy.Backup.Upload.{upload_inner, upload_with, upload_to_s3}

module _ (W : World) (P : Session Tables → Type 0) (conn : Str)
    (counts : (u : Session Tables) → P u → P (counted u))
    (execs : (script : Str) (u : Session Tables) → P u → P (exec W conn script u).1) where
  pub ignore_keeps : (script : Str) (u : Session Tables) → P u → P (exec_ignore W conn script u)
  unfolding exec_ignore
  ignore_keeps script u h = execs script u h

  pub checked_keeps : (script : Str) (u : Session Tables) → P u → P (exec_checked W conn script u).1
  unfolding exec_checked
  checked_keeps script u h = execs script u h

  rm_local_keeps :
      (files : List (ℕ × Str)) (u : Session Tables) → P u → P (rm_local W conn files u).1
  unfolding rm_local
  rm_local_keeps [] u h = h
  rm_local_keeps ((id, filename) ∷ files) u h = rm_local_keeps files _ (ignore_keeps _ u h)

  rm_objects_keeps :
      (container dest : Str) (files : List (ℕ × Str)) (u : Session Tables)
      → P u
      → P (rm_objects W conn container dest files u).1
  unfolding rm_objects
  rm_objects_keeps container dest [] u h = h
  rm_objects_keeps container dest ((id, filename) ∷ files) u h =
      rm_objects_keeps container dest files _ (ignore_keeps _ u h)

  files_of_keeps : (ids : List ℕ) (u : Session Tables) → P u → P (files_of W ids u).1
  files_of_keeps [] u h = unfold lift in h
  files_of_keeps (i ∷ ids) u h = unfold query in counts u h

module _ (W : World) (P : Session Tables → Type 0) (r : Resolved)
    (counts : (u : Session Tables) → P u → P (counted u))
    (execs : (script : Str) (u : Session Tables) → P u → P (exec W r.conn script u).1) where
  rm_with_keeps :
      (s3 : S3Storage) (creds : S3Credentials) (files : List (ℕ × Str)) (u : Session Tables)
      → P u
      → P (rm_with W r s3 creds files u).1
  unfolding rm_with
  rm_with_keeps s3 creds files u h = ignore_keeps W P r.conn counts execs _ _ (
      bind_keeps P _ _ _
        (checked_keeps W P r.conn counts execs _ _ (ignore_keeps W P r.conn counts execs _ u h))
        (λ _ v k.
          bind_keeps P _ _ v (checked_keeps W P r.conn counts execs _ v k)
            (λ _ w k. rm_objects_keeps W P r.conn counts execs _ _ files w k)))

module _ (W : World) (decrypt : Str → Option Str) (P : Session Tables → Type 0) (r : Resolved)
    (counts : (u : Session Tables) → P u → P (counted u))
    (execs : (script : Str) (u : Session Tables) → P u → P (exec W r.conn script u).1) where
  upload_with_keeps :
      (uuid location : Str) (s3 : S3Storage) (creds : S3Credentials) (u : Session Tables)
      → P u
      → P (upload_with W decrypt r uuid location s3 creds u).1
  unfolding upload_with upload_inner
  upload_with_keeps uuid location s3 creds u h = ignore_keeps W P r.conn counts execs _ _ (
      bind_keeps P _ _ _
        (checked_keeps W P r.conn counts execs _ _ (ignore_keeps W P r.conn counts execs _ u h))
        (λ _ v k.
          bind_keeps P _ _ v (checked_keeps W P r.conn counts execs _ v k)
            (λ _ w k. checked_keeps W P r.conn counts execs _ w k)))

  pub upload_to_s3_keeps :
      (uuid location : Str) (u : Session Tables)
      → P u
      → P (upload_to_s3 W decrypt r uuid location u).1
  unfolding upload_to_s3
  upload_to_s3_keeps uuid location u h = lift_keeps P _ _ u h λ s3_id _.
      query_keeps P W _ _ u (counts u h) (
        lift_keeps P _ _ _ (counts u h) λ s3 _. query_keeps P W _ _ _ (counts _ (counts u h)) (
          lift_keeps P _ _ _ (counts _ (counts u h))
            λ creds _. upload_with_keeps uuid location s3 creds _ (counts _ (counts u h))))

  remove_some_keeps :
      (s3_id : ℕ) (files : List (ℕ × Str)) (u : Session Tables)
      → P u
      → P (remove_some W decrypt r s3_id files u).1
  unfolding remove_from_s3
  remove_some_keeps s3_id [] u h = unfold lift in h
  remove_some_keeps s3_id (f ∷ files) u h = query_keeps P W _ _ u (counts u h) (
      lift_keeps P _ _ _ (counts u h) λ s3 _. query_keeps P W _ _ _ (counts _ (counts u h)) (
        lift_keeps P _ _ _ (counts _ (counts u h)) λ creds _.
          rm_with_keeps W P r counts execs s3 creds (f ∷ files) _ (counts _ (counts u h))))

  module _
      (local : (ids : List ℕ) (u : Session Tables) → P u → P (write W (mark_local_deleted ids) u).1)
      (s3 : (ids : List ℕ) (u : Session Tables) → P u → P (write W (mark_s3_deleted ids) u).1)
      (prune : (u : Session Tables) → P u → P (write W (prune_orphans r.backup.id) u).1) where
    mark_keeps :
        (flag : List ℕ → Executions → Executions)
        → ((ids : List ℕ) (u : Session Tables) → P u → P (write W (flag ids) u).1)
        → (ids : List ℕ) (u : Session Tables) → P u
        → P (mark W flag ids u).1
    mark_keeps flag step [] u h = unfold lift in h
    mark_keeps flag step (i ∷ ids) u h = step (i ∷ ids) u h

    retain_local_keeps : (u : Session Tables) → P u → P (retain_local W r u).1
    unfolding retain_local
    retain_local_keeps u h = query_keeps P W _ _ u (counts u h) (
        lift_keeps P _ _ _ (counts u h) λ ids _.
          bind_keeps P _ _ _ (files_of_keeps W P r.conn counts execs ids _ (counts u h))
            λ files v k.
              bind_keeps P _ _ v (rm_local_keeps W P r.conn counts execs files v k)
                λ _ w k. mark_keeps mark_local_deleted local ids w k)

    retain_saved_keeps :
        (save_s3 : Bool) (storage : Option ℕ) (u : Session Tables)
        → P u
        → P (retain_saved W decrypt r save_s3 storage u).1
    unfolding retain_s3
    retain_saved_keeps true (some s3_id) u h = query_keeps P W _ _ u (counts u h) (
        lift_keeps P _ _ _ (counts u h) λ ids _.
          bind_keeps P _ _ _ (files_of_keeps W P r.conn counts execs ids _ (counts u h))
            λ files v k.
              bind_keeps P _ _ v (remove_some_keeps s3_id files v k)
                λ _ w k. mark_keeps mark_s3_deleted s3 ids w k)
    retain_saved_keeps true none u h = unfold lift in h
    retain_saved_keeps false storage u h = unfold lift in h

    pub apply_retention_keeps : (u : Session Tables) → P u → P (apply_retention W decrypt r u).1
    unfolding apply_retention
    apply_retention_keeps u h = bind_keeps P _ _ u (retain_local_keeps u h) λ _ v k.
        bind_keeps P _ _ v (retain_saved_keeps r.backup.save_s3 r.backup.s3_storage_id v k)
          λ _ w k. prune w k
