-- ===== src/WorkTree/Interface.antt =====
-- worktree.go, push.go, diverged.go and stage.go: the operations of a work tree as what `Push` and `Node.Work`
-- stand on, for one volume.
use git_csi_driver.Prelude.{
  ℕ, ◌≡◌, refl, Bool, true, false, not, Option, some, List, arith, if◌then◌else◌, ok,
}
use git_csi_driver.Prelude.Text.{Bytes}
use git_csi_driver.Volume.{Volume, Change, author_env}
use git_csi_driver.Push.{Git, Held}
use git_csi_driver.Node.Work.{WorkGit, stage_tree}
use git_csi_driver.Node.Work.Reported.{IsGit, stage_tree-IsReported}
use git_csi_driver.WorkTree.{
  rev_parse, reset_hard, update_ref, set_diverged, unset_diverged, fetch_record, WorkRun, head_ref,
  pushed_ref, metadata_ref, head, ref_commit, ancestor, unpushed, diverged_branch, and_run, create,
  rebase_aside, send_to, delete_side, fetch_upstream,
}
use git_csi_driver.WorkTree.Rebase.{IsLawful}

-- The shared repository, the status of the tree and the record's new parent.
pub record Surroundings (R : Type 0) : Type 0 where
  pub repository_exists : R → Bool
  pub create_repository : R → R × Bool
  pub fetch : Bytes → R → R × Option Bytes
  pub resolve : Bytes → R → Option Bytes
  pub work_exists : R → Bool
  pub pending : R → List Change
  pub reparent_metadata : R → R × Bool

module _ {R : Type 0} (run : WorkRun R) (around : Surroundings R) (v : Volume) where
  -- `restore` of stage.go.
  unfoldable restore_all : R → R
  restore_all r =
      if not (run.uses_credential r)
      then r
      else let (fetched, worked) = run.run (fetch_record v.attributes.url metadata_ref) r in
        if worked then run.replay_all fetched else fetched

  unfoldable pub git_of : Git R
  unfolding head ref_commit ancestor unpushed diverged_branch send_to fetch_upstream rebase_aside
      delete_side restore_all
  git_of = record {
    head = head run;
    head_commit = ref_commit run head_ref;
    pushed_commit = ref_commit run pushed_ref;
    ancestor = λ r first second. ancestor run first second r;
    unpushed = unpushed run v.attributes.ref;
    pending = around.pending;
    diverged_branch = diverged_branch run;
    push_to = λ branch r. send_to run v.attributes.url v.attributes.ref branch r;
    fetch_upstream =
        fetch_upstream run v.attributes.url v.attributes.ref (around.resolve v.attributes.ref);
    rebase_aside = λ upstream r. rebase_aside run (author_env v) upstream r;
    reparent_metadata = around.reparent_metadata;
    mark_pushed = λ commit r. run.run (update_ref pushed_ref commit) r;
    mark_diverged = λ branch r. (run.run (set_diverged branch) r).0;
    clear_diverged = λ r. run.run unset_diverged r;
    delete_branch = λ branch r. delete_side run v.attributes.url branch r;
    reset = λ commit r. run.run (reset_hard commit) r;
    restore = restore_all;
  }

  unfoldable pub work_of : WorkGit R
  unfolding git_of create
  work_of = record {
    git = git_of;
    repository_exists = around.repository_exists;
    create_repository = around.create_repository;
    uses_credential = run.uses_credential;
    fetch = around.fetch;
    resolve = around.resolve;
    work_exists = around.work_exists;
    work_create = λ ref commit r. create run ref commit r;
    fetch_metadata = λ r. run.run (fetch_record v.attributes.url metadata_ref) r;
    replay_metadata = run.replay_all;
  }

  head-ref_commit :
      (r : R) (commit : Bytes) → head run r ≡ some commit → ref_commit run head_ref r ≡ commit
  unfolding head ref_commit
  head-ref_commit r commit e = ground arith

  module _ (lawful : IsLawful run) where
    alike-ref_commit :
        (r r' : R)
        → run.ask (rev_parse head_ref) r' ≡ run.ask (rev_parse head_ref) r
        → ref_commit run head_ref r' ≡ ref_commit run head_ref r
    unfolding ref_commit
    alike-ref_commit r r' e = rw (ref_commit, e) refl

    and_run-reset :
        (m : R × Bool) (commit : Bytes)
        → (and_run run m (reset_hard commit)).1 ≡ true
        → ref_commit run head_ref (and_run run m (reset_hard commit)).0 ≡ commit
    and_run-reset (r, true) commit worked = lawful.resets commit r worked
    and_run-reset (r, false) commit worked = cc worked

    create-ref_commit :
        (ref commit : Bytes) (r : R)
        → (create run ref commit r).1 ≡ true
        → ref_commit run head_ref (create run ref commit r).0 ≡ commit
    unfolding create
    create-ref_commit ref commit r worked = and_run-reset _ commit worked

    -- The commands of the work tree are a git as the stage of a writeable volume takes one.
    pub work_of-IsGit : IsGit work_of
    unfolding work_of
    work_of-IsGit = record {
      head_of = head-ref_commit;
      made_at = create-ref_commit;
      marked_at = λ commit r. alike-ref_commit r _ (lawful.marks commit r);
      fetched_at = λ r.
          alike-ref_commit r _ (lawful.keeps (fetch_record v.attributes.url metadata_ref) r refl);
      replayed_at = λ r. alike-ref_commit r _ (lawful.replays_all r);
    }

    -- Where git moves the HEAD of a tree as `IsLawful` says, the stage of a writeable volume, run on the commands of its
    -- work tree, reports, if it works, the commit that `rev-parse HEAD` answers in that tree.
    pub stage_tree-ref_commit :
        (start : ℕ) (note : Volume → Volume) (h : Held R)
        → (stage_tree work_of start note h).1 ≡ ok tt
        → let staged = (stage_tree work_of start note h).0 in
          staged.volume.commit ≡ ref_commit run head_ref staged.repository
    unfolding work_of
    stage_tree-ref_commit start note h worked =
        stage_tree-IsReported work_of work_of-IsGit start note h worked
