-- ===== src/Metadata/Commit.antt =====
-- metadata.go: the record is committed on a ref of the driver, and put on the remote's record. git is a
-- parameter: it runs one command and answers what it printed, or none where it failed.
use git_csi_driver.Prelude.{
  Bool, true, false, not, ◌||◌, Option, none, some, List, [], if◌then◌else◌, ℤ,
}
use git_csi_driver.Store.{trim_line}
use git_csi_driver.Prelude.Text.{Bytes, same, is_empty}
use git_csi_driver.Metadata.{FileInfo, walk_tree_metadata}
use git_csi_driver.Metadata.Line.{metadata_content}

-- The plumbing commands of the record, each with what it takes from the ones before.
pub data Plumbing : Type 0 where
  hash_object : (content : Bytes) → Plumbing
  update_index : (blob : Bytes) → Plumbing
  write_tree : Plumbing
  rev_parse_tree : (commit : Bytes) → Plumbing
  commit_tree : (parent tree : Bytes) → Plumbing
  update_ref : (commit : Bytes) → Plumbing

pub record MetadataGit (R : Type 0) : Type 0 where
  pub run_plumbing : Plumbing → R → R × Bytes × Bool
  -- What the file of the ref of the volume, or of the remote's, holds, and the commits of the two refs.
  pub standing : R → Option Bytes
  pub local_commit : R → Bytes
  pub remote_commit : R → Bytes
  pub is_ancestor : R → Bytes → Bytes → Bool

module _ {R : Type 0} (git : MetadataGit R) where
  -- The repository, and whether a step failed.
  pub record GitSteps : Type 0 where
    pub work : R
    pub failed : Bool

  -- A step runs where none before it failed, and answers its line.
  unfoldable pub run : Plumbing → GitSteps → GitSteps × Bytes
  run args s =
      if s.failed
      then (s, [])
      else let (r, output, is_ok) = git.run_plumbing args s.work in
        (record { work = r; failed = not is_ok }, output)

  -- `update-ref` on what `commit-tree` printed, behind the tree of the steps so far.
  unfoldable pub commit_on : Bytes → GitSteps × Bytes → R × Bool
  unfolding run
  commit_on parent (steps, tree) =
      let (committed, commit) = run (commit_tree parent (trim_line tree)) steps in
      let (moved, nothing) = run (update_ref (trim_line commit)) committed in
      (moved.work, not moved.failed)

  -- `written` is whether the file of the record was.
  unfoldable pub commit_metadata : Bool → Bytes → R → R × Bool
  unfolding commit_on
  commit_metadata written content r =
      if not written
      then (r, false)
      else let (hashed, blob) = run (hash_object content) (record { work = r; failed = false }) in
        let (indexed, nothing) = run (update_index (trim_line blob)) hashed in
        let treed = run write_tree indexed in commit_on (git.local_commit treed.0.work) treed

  -- `walked` is none where the walk of the tree failed.
  unfoldable pub record_metadata : ℤ → ℤ → Option (List (Bytes × FileInfo)) → Bool → R → R × Bool
  unfolding commit_metadata
  record_metadata uid gid none written r = (r, false)
  record_metadata uid gid (some walked) written r =
      let content = metadata_content (walk_tree_metadata uid gid walked) in
      let stands : Bool = elim (git.standing r) [ none ↦ false | some held ↦ same held content ] in
      if stands then (r, true) else commit_metadata written content r

  unfoldable pub reparent_metadata : R → R × Bool
  unfolding commit_on
  reparent_metadata r =
      let remote = git.remote_commit r in
      let local = git.local_commit r in
      if is_empty remote || is_empty local || git.is_ancestor r remote local
      then (r, true)
      else commit_on remote (run (rev_parse_tree local) (record { work = r; failed = false }))
