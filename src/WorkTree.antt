-- ===== src/WorkTree.antt =====
-- worktree.go, and the git of push.go, diverged.go, reconcile.go and stage.go: what the driver runs on a work
-- tree. `Interface` fills the operations that `Push` and `Node.Work` stand on, `Rebase` has what a rebase aside
-- promises.
--
-- `WorkRun` is git itself, on the state `R` of the work tree, the scratch tree beside it, the shared repository
-- and the remote: a question answers git's standard output where git works, a command the next state and
-- whether it worked. The mutex of the tree and the locks of the repository are left out.
pub mod Rebase
pub mod Interface
use git_csi_driver.Prelude.{
  ℕ, zero, ◌+◌, ◌-◌, ◌*◌, Bool, true, false, not, Option, none, some, List, [], ◌∷◌, ◌++◌,
  if◌then◌else◌, is_some, length, pos, negsuc,
}
use git_csi_driver.Prelude.Text.{Bytes, codes, is_empty, cut_prefix, split}
use git_csi_driver.Prelude.Number.{atoi}
use git_csi_driver.Commit.{split_zero}
use git_csi_driver.Push.{Sent, sent, unsent}
use git_csi_driver.Store.{trim_line, said_lines}

pub data Question : Type 0 where
  rev_parse : Bytes → Question
  symbolic_head : Question
  changed_names : Bytes → Bytes → Question
  commit_times : Bytes → Question
  diverged_key : Question
  is_ancestor : Bytes → Bytes → Question
  -- The file of the alternates, and the file of the URL in a directory.
  alternates_file : Question
  url_file : Bytes → Question

pub data Command : Type 0 where
  make_directory init_tree write_alternates : Command
  follow_ref : Bytes → Command
  reset_hard : Bytes → Command
  add_scratch remove_scratch_tree remove_scratch_files prune_trees : Command
  rebase_scratch : List Bytes → Bytes → Command
  abort_rebase : Command
  read_tree : Bytes → Bytes → Command
  update_ref : Bytes → Bytes → Command
  set_diverged : Bytes → Command
  unset_diverged : Command
  fetch_ref : Bytes → Command
  fetch_record : Bytes → Bytes → Command
  delete_remote : Bytes → Bytes → Command

pub record WorkRun (R : Type 0) : Type 0 where
  pub ask : Question → R → Option Bytes
  -- `rev-parse HEAD` in the scratch tree.
  pub scratch_head : R → Option Bytes
  pub run : Command → R → R × Bool
  -- Whether the files of the credential were written.
  pub uses_credential : R → Bool
  -- The push of the specs to the URL.
  pub push : Bytes → List Bytes → R → R × Sent
  -- `replayMetadataFor` of the paths, and `replayMetadata`.
  pub replay_paths : List Bytes → R → R
  pub replay_all : R → R

abbrev pub pushed_ref : Bytes
pushed_ref = codes "refs/git-csi/pushed"

abbrev pub metadata_ref : Bytes
metadata_ref = codes "refs/git-csi/metadata"

abbrev pub remote_metadata_ref : Bytes
remote_metadata_ref = codes "refs/git-csi/metadata.remote"

abbrev pub head_ref : Bytes
head_ref = codes "HEAD"

module _ {R : Type 0} (git : WorkRun R) where
  unfoldable pub head : R → Option Bytes
  head r = elim (git.ask (rev_parse head_ref) r) [ none ↦ none | some line ↦ some (trim_line line) ]

  -- `refCommit`
  unfoldable pub ref_commit : Bytes → R → Bytes
  ref_commit ref r = elim (git.ask (rev_parse ref) r) [ none ↦ [] | some line ↦ trim_line line ]

  -- `strings.TrimPrefix`
  abbrev trim_prefix : Bytes → Bytes → Bytes
  trim_prefix text prefix = elim (cut_prefix prefix text) [ none ↦ text | some rest ↦ rest ]

  abbrev said : Option Bytes → Bytes
  said none = []
  said (some output) = output

  -- `followedRef`
  unfoldable pub followed_branch : R → Bytes
  followed_branch r = trim_prefix (trim_line (said (git.ask symbolic_head r))) (codes "refs/heads/")

  -- `alternate`, where `parent` is `filepath.Dir`.
  unfoldable pub alternate : (Bytes → Bytes) → R → Bytes
  alternate parent r = elim (git.ask alternates_file r) [
    | none ↦ []
    | some line ↦ parent (trim_line line)
  ]

  unfoldable pub origin_url : (Bytes → Bytes) → R → Bytes
  unfolding alternate
  origin_url parent r = elim (git.ask (url_file (alternate parent r)) r) [
    | none ↦ []
    | some line ↦ trim_line line
  ]

  unfoldable pub changed_paths : Bytes → Bytes → R → List Bytes
  unfolding split_zero
  changed_paths old new r = split_zero (said (git.ask (changed_names old new) r))

  -- `commitTime`: the time of the first line, in seconds since 1970, and zero for one that is no number.
  abbrev commit_time : Bytes → ℕ
  commit_time line = elim (atoi line) [
    | none ↦ 0
    | some (pos seconds) ↦ 1000000000 * (62135596800 + seconds)
    | some (negsuc n) ↦ 1000000000 * (62135596799 - n)
  ]

  -- `unpushed`. The lines of git's log are its words.
  unfoldable pub unpushed : Bytes → R → Option (ℕ × ℕ)
  unfolding said_lines split
  unpushed ref r = elim (git.ask (commit_times ref) r) [
    | none ↦ none
    | some output ↦ elim (said_lines (split b'\n' output)) [
      | [] ↦ some (0, 0)
      | line ∷ lines ↦ some (length (line ∷ lines), commit_time line)
    ]
  ]

  -- `divergedBranch`
  unfoldable pub diverged_branch : R → Bytes
  diverged_branch r = elim (git.ask diverged_key r) [ none ↦ [] | some line ↦ trim_line line ]

  unfoldable pub ancestor : Bytes → Bytes → R → Bool
  ancestor first second r = is_some (git.ask (is_ancestor first second) r)

  -- A command after the one before it worked.
  abbrev pub and_run : R × Bool → Command → R × Bool
  and_run (r, true) command = git.run command r
  and_run (r, false) command = (r, false)

  -- `create`
  unfoldable pub create : Bytes → Bytes → R → R × Bool
  create ref commit r =
      let made = and_run (and_run (git.run make_directory r) init_tree) write_alternates in
      and_run (and_run made (follow_ref ref)) (reset_hard commit)

  -- `removeScratch`: nothing it runs has to work.
  unfoldable pub remove_scratch : R → R
  remove_scratch r =
      (git.run prune_trees (git.run remove_scratch_files (git.run remove_scratch_tree r).0).0).0

  unfoldable pub scratch : R → R × Bool
  unfolding remove_scratch
  scratch r = git.run add_scratch (remove_scratch r)

  -- `take`
  unfoldable pub take : Bytes → Bytes → R → R × Bool
  unfolding followed_branch
  take old new r =
      let (read, worked) = git.run (read_tree old new) r in
      if worked
      then git.run (update_ref (codes "refs/heads/" ++ followed_branch read) new) read
      else (read, false)

  -- `replay`: the commit the rebase landed on, empty where git cannot read it, or none where it failed.
  unfoldable pub replay : List Bytes → Bytes → R → R × Option Bytes
  replay author upstream r =
      let (rebased, worked) = git.run (rebase_scratch author upstream) r in
      if worked
      then (rebased, some (trim_line (said (git.scratch_head rebased))))
      else ((git.run abort_rebase rebased).0, none)

  abbrev pub taken : Bytes → Bytes → R × Bool → R × Bool
  taken old new (r, false) = (r, false)
  taken old new (r, true) = (git.replay_paths (changed_paths old new r) r, true)

  -- What follows the rebase in the scratch tree.
  abbrev pub take_rebased : Bytes → R × Option Bytes → R × Bool
  take_rebased old (r, none) = (remove_scratch r, false)
  take_rebased old (r, some rebased) = taken old rebased (take old rebased (remove_scratch r))

  unfoldable pub rebase_aside : List Bytes → Bytes → R → R × Bool
  unfolding scratch take replay changed_paths ref_commit
  rebase_aside author upstream r =
      let (made, worked) = scratch r in
      if worked
      then take_rebased (ref_commit head_ref r) (replay author upstream made)
      else (made, false)

  -- The specs of `pushTo`: the record of the metadata goes along where there is one.
  unfoldable pub push_specs : Bytes → Bytes → R → List Bytes
  unfolding ref_commit
  push_specs ref remote r =
      (codes "refs/heads/" ++ (ref ++ (codes ":refs/heads/" ++ remote)))
      ∷ (if is_empty (ref_commit metadata_ref r)
          then []
          else (metadata_ref ++ (codes ":" ++ metadata_ref)) ∷ [])

  -- `sendTo`
  unfoldable pub send_to : Bytes → Bytes → Bytes → R → R × Sent
  unfolding push_specs
  send_to url ref remote r =
      if git.uses_credential r
      then git.push url (push_specs ref remote r) r
      else (r, unsent [] (codes "the credential was not written"))

  -- `deleteSide`
  unfoldable pub delete_side : Bytes → Bytes → R → R
  delete_side url branch r =
      if git.uses_credential r then (git.run (delete_remote url branch) r).0 else r

  -- `fetchUpstream`, where `resolve` is that of the shared repository.
  unfoldable pub fetch_upstream : Bytes → Bytes → (R → Option Bytes) → R → R × Option Bytes
  fetch_upstream url ref resolve r =
      if not (git.uses_credential r)
      then (r, none)
      else let (fetched, worked) = git.run (fetch_ref ref) r in
        if not worked
        then (fetched, none)
        else let recorded = (git.run (fetch_record url remote_metadata_ref) fetched).0 in
          (recorded, resolve recorded)
