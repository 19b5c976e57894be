-- ===== src/WorkTree/Rebase.antt =====
-- reconcile.go and worktree.go: what a rebase in the scratch tree does to the HEAD and the files of the work tree.
use git_csi_driver.Prelude.{◌≡◌, ◌⊎◌, Bool, true, false, Option, some, List, ◌++◌}
use git_csi_driver.Prelude.Text.{Bytes, codes}
use git_csi_driver.WorkTree.{
  rev_parse, Command, follow_ref, reset_hard, read_tree, update_ref, WorkRun, head_ref, pushed_ref,
  ref_commit, followed_branch,
}

-- The commands that may move the HEAD of the work tree.
abbrev pub may_move : Command → Bool
may_move (follow_ref ref) = true
may_move (reset_hard commit) = true
may_move (update_ref ref commit) = true
may_move other = false

-- What git does to HEAD.
pub record IsLawful {R : Type 0} (git : WorkRun R) : Type 0 where
  pub keeps :
      (command : Command) (r : R)
      → may_move command ≡ false
      → git.ask (rev_parse head_ref) (git.run command r).0 ≡ git.ask (rev_parse head_ref) r
  -- The mark of the push is no branch.
  pub marks :
      (commit : Bytes) (r : R)
      → git.ask (rev_parse head_ref) (git.run (update_ref pushed_ref commit) r).0
        ≡ git.ask (rev_parse head_ref) r
  -- The branch that HEAD follows.
  pub moves :
      (commit : Bytes) (r : R)
      → (git.run (update_ref (codes "refs/heads/" ++ followed_branch git r) commit) r).1 ≡ true
      → ref_commit git head_ref
          (git.run (update_ref (codes "refs/heads/" ++ followed_branch git r) commit) r).0
        ≡ commit
  pub stays :
      (commit : Bytes) (r : R)
      → (git.run (update_ref (codes "refs/heads/" ++ followed_branch git r) commit) r).1 ≡ false
      → git.ask
          (rev_parse head_ref)
          (git.run (update_ref (codes "refs/heads/" ++ followed_branch git r) commit) r).0
        ≡ git.ask (rev_parse head_ref) r
  pub resets :
      (commit : Bytes) (r : R)
      → (git.run (reset_hard commit) r).1 ≡ true
      → ref_commit git head_ref (git.run (reset_hard commit) r).0 ≡ commit
  pub replays :
      (paths : List Bytes) (r : R)
      → git.ask (rev_parse head_ref) (git.replay_paths paths r) ≡ git.ask (rev_parse head_ref) r
  pub replays_all :
      (r : R) → git.ask (rev_parse head_ref) (git.replay_all r) ≡ git.ask (rev_parse head_ref) r

-- The commands that may write the index and the files of the work tree.
abbrev pub may_write : Command → Bool
may_write (reset_hard commit) = true
may_write (read_tree old new) = true
may_write other = false

-- What git does to the index and the files. `files_of` is the commit that they were last brought to: a `read-tree`
-- that refuses writes nothing, and the replay of the metadata sets modes and owners only.
pub record IsWriting {R : Type 0} (git : WorkRun R) (files_of : R → Bytes) : Type 0 where
  pub leaves :
      (command : Command) (r : R)
      → may_write command ≡ false
      → files_of (git.run command r).0 ≡ files_of r
  pub reads :
      (old new : Bytes) (r : R)
      → (git.run (read_tree old new) r).1 ≡ true
      → files_of (git.run (read_tree old new) r).0 ≡ new
  pub refuses :
      (old new : Bytes) (r : R)
      → (git.run (read_tree old new) r).1 ≡ false
      → files_of (git.run (read_tree old new) r).0 ≡ files_of r
  pub restores : (paths : List Bytes) (r : R) → files_of (git.replay_paths paths r) ≡ files_of r

module _ {R : Type 0} (git : WorkRun R) (lawful : IsLawful git) (files_of : R → Bytes)
    (writing : IsWriting git files_of) where
  abbrev at_head : R → Option Bytes
  at_head r = git.ask (rev_parse head_ref) r

  abbrev HasHead : R → R → Type 0
  HasHead r r' = at_head r' ≡ at_head r

  abbrev HasFiles : R → R → Type 0
  HasFiles r r' = files_of r' ≡ files_of r

  -- It failed and HEAD is at the commit that it was at, while the files are as they were or already at the new commit;
  -- or it worked, and HEAD and the files are at the new one.
  abbrev pub IsTaken : Bytes → R → R × Bool → Type 0
  IsTaken new r m =
      ((m.1 ≡ false)
        × (ref_commit git head_ref m.0 ≡ ref_commit git head_ref r)
        × ((files_of m.0 ≡ files_of r) ⊎ (files_of m.0 ≡ new)))
      ⊎ ((m.1 ≡ true) × (ref_commit git head_ref m.0 ≡ new) × (files_of m.0 ≡ new))

  -- The rebase in the scratch tree failed or landed on a commit, and the tree took it or not.
  abbrev pub IsRebased : R → R × Option Bytes → R × Bool → Type 0
  IsRebased r replayed m =
      ((m.1 ≡ false)
        × (ref_commit git head_ref m.0 ≡ ref_commit git head_ref r)
        × (files_of m.0 ≡ files_of r))
      ⊎ ((rebased : Bytes) × (replayed.1 ≡ some rebased) × IsTaken rebased r m)
