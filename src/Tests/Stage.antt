-- ===== src/Tests/Stage.antt =====
-- The placement of a tree and the stage of a writeable volume at concrete inputs.
use git_csi_driver.Prelude.{◌≡◌, refl, true, false, Option, none, some, [], ◌∷◌, pos, Result, ok}
use git_csi_driver.Prelude.Text.{Bytes, codes, same}
use git_csi_driver.Policy.{default_policy}
use git_csi_driver.Push.{Git, Held, sent, push_now, push_if_due, push}
use git_csi_driver.Store.{Directory, place, git_reason, fetch_arguments}
use git_csi_driver.Store.Placed.{IsPlaced, place-IsPlaced}
use git_csi_driver.Store.Tree.{
  Tree, file, link, dir, Entries, nil, entry, find, works, fails, replace_tree, tree_size,
}
use git_csi_driver.Store.Tree.Replaced.{content}
use git_csi_driver.Store.Tree.Steady.{tree_at, Follows, replace_tree-Follows}
use git_csi_driver.Store.Tree.Total.{replace_tree_lem}
use git_csi_driver.Node.{multi_node_reader_only}
use git_csi_driver.Node.Publish.{Host}
use git_csi_driver.Node.Staged.{StagedState}
use git_csi_driver.Node.Work.{WorkGit, missing_ref, stage_tree}
use git_csi_driver.Node.Work.Reported.{IsGit, stage_tree-push_now}
use git_csi_driver.Node.Arrive.{StageCall, node_stage}
use git_csi_driver.Node.Arrive.Again.{node_stage_again}
use git_csi_driver.Tests.Node.{a_repository}
use git_csi_driver.Tests.Data.{a_volume}

-- A checkout, and what stands where it arrives: a file became a directory and a directory stays.
abbrev a_fresh : Entries
a_fresh =
    entry (codes "a") (dir 1 (entry (codes "x") (file (codes "new")) nil))
      (entry (codes "b") (dir 2 (entry (codes "y") (file (codes "y")) nil)) nil)

abbrev a_published : Entries
a_published =
    entry (codes "a")
      (dir 7 (entry (codes "x") (file (codes "old")) (entry (codes "z") (link (codes "x")) nil)))
      (entry (codes "b") (file (codes "was a file")) (entry (codes "c") (file []) nil))

size_test : tree_size a_published ≡ 13
unfolding tree_size
size_test = refl

replace_tree_test :
    (replace_tree a_fresh a_published []).published
    ≡ entry
        (codes "a")
        (dir 7 (entry (codes "x") (file (codes "new")) nil))
        (entry (codes "b") (dir 2 (entry (codes "y") (file (codes "y")) nil)) nil)
unfolding replace_tree same
replace_tree_test = refl

replace_tree_lem_example :
    let r = replace_tree a_fresh a_published [] in
    (r.is_ok ≡ true) × (content r.published ≡ content a_fresh)
unfolding find same
replace_tree_lem_example =
    replace_tree_lem a_fresh a_published (refl, (refl, tt, tt), (refl, (refl, tt, tt), tt))

-- The second read fails, and the first directory keeps its inode.
replace_tree-Follows_example :
    (v : Tree) × (tree_at
        (codes "a" ∷ [])
        (dir 5 (replace_tree a_fresh a_published (works ∷ fails none ∷ [])).published)
      ≡ some v)
    × Follows
        (dir 1 (entry (codes "x") (file (codes "new")) nil))
        (dir 7 (entry (codes "x") (file (codes "old")) (entry (codes "z") (link (codes "x")) nil)))
        v
unfolding find same tree_at
replace_tree-Follows_example =
    replace_tree-Follows (codes "a" ∷ []) a_fresh a_published (works ∷ fails none ∷ []) 4 5 _ _
      (refl, (refl, tt, tt), (refl, (refl, tt, tt), tt)) refl refl refl

abbrev a_directory : Directory
a_directory = record { tree = some (9, a_published); placed = some (codes "old\n") }

place-IsPlaced_example :
    IsPlaced
      (codes "abc")
      a_fresh
      a_directory
      (place (λ c. some (3, a_fresh)) (codes "abc") a_directory [])
unfolding find same git_csi_driver.Prelude.Text.trim_right
place-IsPlaced_example =
    place-IsPlaced (λ c. some (3, a_fresh)) (codes "abc") 3 a_fresh a_directory [] refl
      (refl, (refl, tt, tt), (refl, (refl, tt, tt), tt)) refl

git_reason_test :
    (git_reason (codes "fatal: no\n\n hint \n") (codes "exit 1") ≡ codes "fatal: no hint")
    × (git_reason (codes "\n") (codes "exit 1") ≡ codes "exit 1")
unfolding git_reason git_csi_driver.Prelude.Text.trim
git_reason_test = (refl, refl)

fetch_arguments_test :
    fetch_arguments (codes "/r") (codes "main") (pos 1)
    ≡ codes "fetch"
      ∷ codes "--quiet"
      ∷ codes "--no-tags"
      ∷ codes "--depth=1"
      ∷ codes "/r"
      ∷ codes "+main:refs/git-csi/main"
      ∷ []
unfolding fetch_arguments git_csi_driver.Prelude.Number.print_uint
fetch_arguments_test = refl

-- A git whose state is the HEAD of the work tree, and whose remote has no ref.
abbrev a_head_git : Git Bytes
a_head_git = record {
  head = λ r. some r;
  head_commit = λ r. r;
  pushed_commit = λ r. r;
  ancestor = λ r a b. false;
  unpushed = λ r. none;
  pending = λ r. [];
  diverged_branch = λ r. [];
  push_to = λ b r. (b, sent);
  fetch_upstream = λ r. (r, none);
  rebase_aside = λ c r. (c, true);
  reparent_metadata = λ r. (r, true);
  mark_pushed = λ c r. (r, true);
  mark_diverged = λ b r. r;
  clear_diverged = λ r. (r, true);
  delete_branch = λ b r. r;
  reset = λ c r. (c, true);
  restore = λ r. r;
}

abbrev a_work : Option Bytes → WorkGit Bytes
a_work error = record {
  git = a_head_git;
  repository_exists = λ r. true;
  create_repository = λ r. (r, true);
  uses_credential = λ r. true;
  fetch = λ b r. (r, error);
  resolve = λ b r. some (codes "n");
  work_exists = λ r. true;
  work_create = λ b c r. (c, true);
  fetch_metadata = λ r. (r, true);
  replay_metadata = λ r. r;
}

a_work-IsGit : IsGit (a_work none)
a_work-IsGit = record {
  head_of = λ r commit e. cc e;
  made_at = λ b commit r e. refl;
  marked_at = λ commit r. refl;
  fetched_at = λ r. refl;
  replayed_at = λ r. refl;
}

abbrev a_held : Held Bytes
a_held = record { volume = a_volume; repository = codes "o" }

stage_tree-push_now_example :
    let staged = (stage_tree (a_work (some missing_ref)) 5 (λ v. v) a_held).0 in
    (push_now a_head_git 9 staged ≡ staged)
    × ((push_if_due a_head_git (some default_policy) 9 (pos 7) staged).repository
        ≡ staged.repository)
    × ((push a_head_git 9 staged).repository ≡ staged.repository)
unfolding stage_tree git_csi_driver.Push.contains git_csi_driver.Prelude.Text.has_prefix
stage_tree-push_now_example =
    stage_tree-push_now (a_work (some missing_ref)) 5 9 (λ v. v) (some default_policy) (pos 7)
      a_held missing_ref refl refl refl

abbrev a_head_host : Host Bytes
a_head_host = record {
  make_dir = λ p h. (h, true);
  remove_all = λ p h. (h, true);
  bind_mount = λ s t h. (h, true);
  remount_read_only = λ t h. (h, true);
  unmount = λ t h. (h, true);
  repository_at = λ u h. a_repository;
  placed = λ t c h. h;
  write_record = λ i h. h;
  forget_record = λ i h. h;
}

abbrev a_stage_call : StageCall
a_stage_call = record {
  id = codes "v";
  staging = codes "/s";
  mode = multi_node_reader_only;
  context = (codes "url", codes "/r") ∷ [];
  secrets = [];
}

abbrev an_empty_node : StagedState Bytes
an_empty_node = record {
  staged = [];
  published = [];
  followed = [];
  watched = [];
  armed = [];
  host = codes "o";
}

abbrev a_stage : StageCall → StagedState Bytes → StagedState Bytes × Result (Unit {0})
a_stage = node_stage a_head_host (a_work none) (λ s. none) (λ v. v) (λ v. v) (λ i. i) true 5 9

node_stage_again_example :
    a_stage a_stage_call (a_stage a_stage_call an_empty_node).0
    ≡ ((a_stage a_stage_call an_empty_node).0, ok tt)
unfolding node_stage
node_stage_again_example =
    node_stage_again a_head_host (a_work none) (λ s. none) (λ v. v) (λ v. v) (λ i. i) true 5 9 5 9
      a_stage_call an_empty_node refl
