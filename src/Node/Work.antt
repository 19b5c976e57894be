-- ===== src/Node/Work.antt =====
-- stage.go: the stage of a writeable volume, which fetches its ref into the shared repository and brings the
-- work tree to it. `Reported` has what a stage that works reports.
--
-- git, the shared repository, the work tree and the remote are the record `WorkGit`, over the operations of
-- `Push.Git` on the same state. An error has its code.
pub mod Reported
use git_csi_driver.Prelude.{
  ℕ, Bool, true, false, not, ◌&&◌, ◌||◌, Option, none, some, [], if◌then◌else◌, Code, Error, Result,
  err, ok, internal, unavailable,
}
use git_csi_driver.Prelude.Text.{Bytes, codes, same, is_empty}
use git_csi_driver.Volume.{Volume, report_commit, report_ref_deleted, answer_demands_before}
use git_csi_driver.Push.{Git, Held, contains}
use git_csi_driver.Push.Reconcile.{reconcile}
use git_csi_driver.Node.Stage.{failed}

pub record WorkGit (R : Type 0) : Type 0 where
  pub git : Git R
  pub repository_exists : R → Bool
  pub create_repository : R → R × Bool
  -- Whether the files of the credential were written.
  pub uses_credential : R → Bool
  -- The fetch of a ref or a branch into the shared repository, and git's error.
  pub fetch : Bytes → R → R × Option Bytes
  pub resolve : Bytes → R → Option Bytes
  -- `staging.work`
  pub work_exists : R → Bool
  pub work_create : Bytes → Bytes → R → R × Bool
  pub fetch_metadata : R → R × Bool
  pub replay_metadata : R → R

abbrev pub missing_ref : Bytes
missing_ref = codes "couldn't find remote ref"

module _ {R : Type 0} (work : WorkGit R) where
  abbrev git : Git R
  git = work.git

  abbrev pub Staging : Type 0
  Staging = Held R × Result (Unit {0})

  abbrev pub fail : Code → Held R → Staging
  fail code h = (h, err (failed code))

  -- `if err != nil { return status.Error(codes.Internal, …) }`
  abbrev pub or_fail : R × Bool → Volume → (Held R → Staging) → Staging
  or_fail (r, worked) v next =
      let h : Held R = record { volume = v; repository = r } in
      if worked then next h else fail internal h

  unfoldable pub fetch_side : R → R × Bytes
  fetch_side r =
      if not (work.work_exists r) || is_empty (git.diverged_branch r)
      then (r, [])
      else let (fetched, error) = work.fetch (git.diverged_branch r) r in
        elim error [ none ↦ (fetched, git.diverged_branch r) | some reason ↦ (fetched, []) ]

  unfoldable pub ref_deleted : Held R → Staging
  ref_deleted h = elim (git.head h.repository) [
    | none ↦ fail internal h
    | some head ↦ (record h { volume = report_ref_deleted head h.volume }, ok tt)
  ]

  -- `restore`: a failure is no failure of the stage.
  unfoldable pub restore : R → R
  restore r =
      if not (work.uses_credential r)
      then r
      else let (fetched, worked) = work.fetch_metadata r in
        if worked then work.replay_metadata fetched else fetched

  -- The first stage on this node: the end of it, the mark of the tree that was made, and its start.
  abbrev pub report_made : Bytes → Held R → Staging
  report_made commit h =
      (record { volume = report_commit commit h.volume; repository = restore h.repository }, ok tt)

  abbrev pub mark_made : Bytes → Held R → Staging
  mark_made commit h = or_fail (git.mark_pushed commit h.repository) h.volume (report_made commit)

  unfoldable pub make_tree : Bytes → Held R → Staging
  unfolding restore
  make_tree commit h =
      or_fail (work.work_create h.volume.attributes.ref commit h.repository) h.volume
        (mark_made commit)

  -- A work tree of a driver that made no commits carries no mark.
  abbrev pub mark_unmarked : Bytes → R → R × Bool
  mark_unmarked head r =
      if is_empty (git.pushed_commit r) then git.mark_pushed head r else (r, true)

  -- What follows the reconcile.
  unfoldable pub report_moved : Bytes → Held R × Bool → Staging
  report_moved head (h, false) = fail internal h
  report_moved head (h, true) =
      let moved = git.head_commit h.repository in
      (if same moved head then h else record h { volume = report_commit moved h.volume }, ok tt)

  abbrev pub reconcile_marked : Bytes → Bytes → Bytes → Held R → Staging
  reconcile_marked head commit side h =
      report_moved head
        (reconcile git head commit side (record h { volume = report_commit head h.volume }))

  unfoldable pub keep_tree : Bytes → Bytes → Held R → Staging
  unfolding report_moved
  keep_tree commit side h = elim (git.head h.repository) [
    | none ↦ fail internal h
    | some head ↦
        or_fail (mark_unmarked head h.repository) h.volume (reconcile_marked head commit side)
  ]

  -- A fetch that worked, at `start`. `note` is `noteAbandoned`.
  unfoldable pub bring_tree : ℕ → (Volume → Volume) → Bytes → Held R → Staging
  unfolding make_tree keep_tree
  bring_tree start note side h =
      let v = answer_demands_before start h.volume in
      elim (work.resolve v.attributes.ref h.repository) [
        | none ↦ fail internal (record h { volume = v })
        | some commit ↦
            let noted : Held R = record h { volume = note v } in
            if work.work_exists h.repository
            then keep_tree commit side noted
            else make_tree commit noted
      ]

  -- What follows the two fetches.
  unfoldable pub after_fetch : ℕ → (Volume → Volume) → Bytes → Option Bytes → Held R → Staging
  unfolding bring_tree ref_deleted
  after_fetch start note side none h = bring_tree start note side h
  after_fetch start note side (some error) h =
      if work.work_exists h.repository && contains missing_ref error
      then ref_deleted h
      else fail unavailable h

  unfoldable pub fetch_tree : ℕ → (Volume → Volume) → Held R → Staging
  unfolding after_fetch fetch_side
  fetch_tree start note h =
      if not (work.uses_credential h.repository)
      then fail internal h
      else let (fetched, error) = work.fetch h.volume.attributes.ref h.repository in
        let (r, side) = fetch_side fetched in
        after_fetch start note side error (record h { repository = r })

  unfoldable pub stage_tree : ℕ → (Volume → Volume) → Held R → Staging
  unfolding fetch_tree
  stage_tree start note h =
      if work.repository_exists h.repository
      then fetch_tree start note h
      else or_fail (work.create_repository h.repository) h.volume (fetch_tree start note)
