-- ===== src/Tests/Work.antt =====
-- The git of a work tree, the files of a credential, the metrics and the command line at concrete inputs.
use git_csi_driver.Prelude.{
  ◌⊎◌, ℕ, suc, ◌≡◌, refl, inl, inr, Bool, true, false, not, ◌||◌, Option, none, some, List, [], ◌∷◌,
  ◌++◌, arith, ◌==◌, if◌then◌else◌, Bool-cases, pos, ◌>>=◌, ◌>>◌, guard,
}
use git_csi_driver.Prelude.Text.{Bytes, codes, same, same_iff, trim_right}
use git_csi_driver.Prelude.Dict.{Dict, lookup}
use git_csi_driver.Volume.{Volume, Credentials}
use git_csi_driver.Volume.Credential.Files.{Files, use_credentials}
use git_csi_driver.Volume.Credential.Files.Secret.{
  IsDisk, use_credentials-Leaves, use_credentials_alike,
}
use git_csi_driver.Push.{Held, sent}
use git_csi_driver.Node.Work.{stage_tree}
use git_csi_driver.Follow.{Store, unfetched, tick}
use git_csi_driver.Follow.Pass.{passed, tick_lem}
use git_csi_driver.WorkTree.{
  Question, rev_parse, Command, make_directory, init_tree, write_alternates, follow_ref, reset_hard,
  add_scratch, remove_scratch_tree, remove_scratch_files, prune_trees, rebase_scratch, abort_rebase,
  read_tree, update_ref, set_diverged, unset_diverged, fetch_ref, fetch_record, delete_remote,
  WorkRun, head_ref, pushed_ref, ref_commit, followed_branch, rebase_aside,
}
use git_csi_driver.WorkTree.Rebase.{may_move, IsLawful}
use git_csi_driver.WorkTree.Interface.{Surroundings, work_of, stage_tree-ref_commit}
use git_csi_driver.Metrics.{Metrics, push_failed, forget}
use git_csi_driver.Metrics.Forgotten.{push_failures, failed, forget-read_each}
use git_csi_driver.Plugin.{refuses, parse, exit_code}
use git_csi_driver.Metadata.Replay.{FileCall, change_mode, replay_metadata_for}
use git_csi_driver.Tests.Data.{a_volume}

-- A disk is the list of the names of its files.
abbrev is_on : Bytes → List Bytes → Bool
is_on path [] = false
is_on path (one ∷ more) = same one path || is_on path more

abbrev without_path : Bytes → List Bytes → List Bytes
without_path path [] = []
without_path path (one ∷ more) =
    let rest = without_path path more in if same one path then rest else one ∷ rest

abbrev a_disk : Files (List Bytes)
a_disk = record {
  join = λ dir name. dir ++ name;
  write = λ path mode content f. (path ∷ f, true);
  remove = without_path;
}

is_on_removed :
    (path : Bytes) (f : List Bytes) (other : Bytes)
    → is_on other (without_path path f) ≡ (if same path other then false else is_on other f)
is_on_removed path [] other = ground arith
is_on_removed path (one ∷ f) other =
    ground (
      arith,
      same_iff one path,
      same_iff path other,
      same_iff one other,
      is_on_removed path f other,
    )

-- A disk that is full when the helper is written, and keeps a part of it.
abbrev is_full : Bytes → Bool
is_full path = same path (codes "/credential-helper")

abbrev a_full_disk : Files (List Bytes)
a_full_disk = record a_disk { write = λ path mode content f. (path ∷ f, not (is_full path)) }

a_full_disk-IsDisk : IsDisk a_full_disk is_on is_full
a_full_disk-IsDisk = record {
  written = λ path mode content f e. ground (arith, same_iff path path);
  unwritten = λ path mode content f e. ground (arith, e);
  untouched = λ path mode content f other e. ground (arith, e);
  removed = λ path f e. ground (arith, is_on_removed path f path, same_iff path path);
  kept = λ path f other e. ground (arith, e, is_on_removed path f other);
}

abbrev a_secret : Bytes → Credentials
a_secret token = record {
  private_key = codes "k";
  known_hosts = [];
  token = token;
  username = codes "git";
}

use_credentials-Leaves_example :
    (is_on (codes "/credential-helper") [] ≡ true) ⊎ (is_full (codes "/credential-helper") ≡ true)
unfolding use_credentials same
use_credentials-Leaves_example =
    use_credentials-Leaves a_full_disk is_on is_full a_full_disk-IsDisk (codes "/")
      (some (a_secret (codes "t"))) [] (codes "/credential-helper") refl

abbrev told : Bytes → List Bytes
told token = elim (use_credentials a_disk (codes "/") (some (a_secret token)) []).1 [
  | none ↦ []
  | some (env, paths) ↦ env
]

abbrev left : Bytes → List Bytes
left token = elim (use_credentials a_disk (codes "/") (some (a_secret token)) []).1 [
  | none ↦ []
  | some (env, paths) ↦ paths
]

use_credentials_alike_example : told (codes "t") ≡ told (codes "another")
unfolding use_credentials
use_credentials_alike_example =
    use_credentials_alike a_disk (codes "/") (a_secret (codes "t")) (a_secret (codes "another")) []
      [] (told (codes "t")) (told (codes "another")) (left (codes "t")) (left (codes "another"))
      refl refl refl refl refl

abbrev a_pass : Store → Store
a_pass store =
    (tick (λ a. unfetched (codes "no")) 9 store
      (record {
        volumes = (codes "v", 3) ∷ (codes "w", 4) ∷ [];
        wanted = [];
        last_pull = 0;
        backoff = 0;
        demanded = false;
        arrived = false;
      })).store

tick_lem_example : a_pass (λ a. a_volume) 3 ≡ passed (λ a. unfetched (codes "no")) 9 3 a_volume
tick_lem_example =
    tick_lem (λ a. unfetched (codes "no")) 9 (λ a. a_volume)
      (record {
        volumes = (codes "v", 3) ∷ (codes "w", 4) ∷ [];
        wanted = [];
        last_pull = 0;
        backoff = 0;
        demanded = false;
        arrived = false;
      })
      3 (refl, (refl, tt))

-- A git whose state is the HEAD of the tree and that of the scratch tree, and whose rebase lands on upstream.
abbrev Heads : Type 0
Heads = Bytes × Bytes

abbrev answer : Question → Heads → Option Bytes
answer (rev_parse ref) r = if same ref head_ref then some r.0 else none
answer other r = none

abbrev is_mark : Bytes → Bool
is_mark ref = same ref pushed_ref

abbrev do_command : Command → Heads → Heads × Bool
do_command (reset_hard commit) r =
    if same (trim_right (λ c. c == b'\n' || c == b'\r') commit) commit
    then ((commit, r.1), true)
    else (r, false)
do_command (rebase_scratch author upstream) r = ((r.0, upstream), true)
do_command (update_ref ref commit) r =
    if is_mark ref
    then (r, true)
    else if same (trim_right (λ c. c == b'\n' || c == b'\r') commit) commit
    then ((commit, r.1), true)
    else (r, false)
do_command other r = (r, true)

abbrev a_run : WorkRun Heads
a_run = record {
  ask = answer;
  scratch_head = λ r. some r.1;
  run = do_command;
  uses_credential = λ r. true;
  push = λ url specs r. (r, sent);
  replay_paths = λ paths r. r;
  replay_all = λ r. r;
}

a_run_keeps :
    (command : Command) (r : Heads)
    → may_move command ≡ false
    → answer (rev_parse head_ref) (do_command command r).0 ≡ answer (rev_parse head_ref) r
a_run_keeps make_directory r e = refl
a_run_keeps init_tree r e = refl
a_run_keeps write_alternates r e = refl
a_run_keeps (follow_ref ref) r e = cc
a_run_keeps (reset_hard commit) r e = cc
a_run_keeps add_scratch r e = refl
a_run_keeps remove_scratch_tree r e = refl
a_run_keeps remove_scratch_files r e = refl
a_run_keeps prune_trees r e = refl
a_run_keeps (rebase_scratch author upstream) r e = refl
a_run_keeps abort_rebase r e = refl
a_run_keeps (read_tree old new) r e = refl
a_run_keeps (update_ref ref commit) r e = cc
a_run_keeps (set_diverged branch) r e = refl
a_run_keeps unset_diverged r e = refl
a_run_keeps (fetch_ref ref) r e = refl
a_run_keeps (fetch_record url ref) r e = refl
a_run_keeps (delete_remote url branch) r e = refl

abbrev a_branch : Bytes
a_branch = codes "refs/heads/"

a_run_moves :
    (commit : Bytes) (r : Heads)
    → (do_command (update_ref a_branch commit) r).1 ≡ true
    → ref_commit a_run head_ref (do_command (update_ref a_branch commit) r).0 ≡ commit
unfolding ref_commit same
a_run_moves commit r worked =
    elim (Bool-cases (same (trim_right (λ c. c == b'\n' || c == b'\r') commit) commit)) [
      | inl trimmed ↦ rw trimmed ((same_iff _ commit).0 trimmed)
      | inr other ↦ absurd (ground (arith, worked, other))
    ]

a_run_stays :
    (commit : Bytes) (r : Heads)
    → (do_command (update_ref a_branch commit) r).1 ≡ false
    → answer (rev_parse head_ref) (do_command (update_ref a_branch commit) r).0
      ≡ answer (rev_parse head_ref) r
unfolding same
a_run_stays commit r failing =
    elim (Bool-cases (same (trim_right (λ c. c == b'\n' || c == b'\r') commit) commit)) [
      | inl trimmed ↦ absurd (ground (arith, failing, trimmed))
      | inr other ↦ rw other refl
    ]

a_run_resets :
    (commit : Bytes) (r : Heads)
    → (do_command (reset_hard commit) r).1 ≡ true
    → ref_commit a_run head_ref (do_command (reset_hard commit) r).0 ≡ commit
unfolding ref_commit same
a_run_resets commit r worked =
    elim (Bool-cases (same (trim_right (λ c. c == b'\n' || c == b'\r') commit) commit)) [
      | inl trimmed ↦ rw trimmed ((same_iff _ commit).0 trimmed)
      | inr other ↦ absurd (ground (arith, worked, other))
    ]

a_run-IsLawful : IsLawful a_run
unfolding followed_branch same
a_run-IsLawful = record {
  keeps = a_run_keeps;
  marks = λ commit r. refl;
  moves = a_run_moves;
  stays = a_run_stays;
  resets = a_run_resets;
  replays = λ paths r. refl;
  replays_all = λ r. refl;
}

-- The same git on a tree with files.
abbrev brought : Command → Bytes → Bytes
brought (reset_hard commit) files = commit
brought (read_tree old new) files = new
brought other files = files

abbrev WithFiles : Type 0
WithFiles = Heads × Bytes

abbrev a_full_run : WorkRun WithFiles
a_full_run = record {
  ask = λ q r. answer q r.0;
  scratch_head = λ r. some r.0.1;
  run =
      λ command r. (((do_command command r.0).0, brought command r.1), (do_command command r.0).1);
  uses_credential = λ r. true;
  push = λ url specs r. (r, sent);
  replay_paths = λ paths r. r;
  replay_all = λ r. r;
}

abbrev an_old_tree : WithFiles
an_old_tree = ((codes "old", []), codes "old")

rebase_aside_test : (rebase_aside a_run [] (codes "new") (codes "old", [])).0.0 ≡ codes "new"
unfolding rebase_aside same trim_right followed_branch
rebase_aside_test = refl

abbrev surroundings : Surroundings Heads
surroundings = record {
  repository_exists = λ r. true;
  create_repository = λ r. (r, true);
  fetch = λ b r. (r, none);
  resolve = λ b r. some (codes "new");
  work_exists = λ r. false;
  pending = λ r. [];
  reparent_metadata = λ r. (r, true);
}

abbrev a_held : Held Heads
a_held = record { volume = a_volume; repository = (codes "old", []) }

stage_tree-ref_commit_example :
    let staged = (stage_tree (work_of a_run surroundings a_volume) 5 (λ v. v) a_held).0 in
    staged.volume.commit ≡ ref_commit a_run head_ref staged.repository
unfolding stage_tree work_of same trim_right
stage_tree-ref_commit_example =
    stage_tree-ref_commit a_run surroundings a_volume a_run-IsLawful 5 (λ v. v) a_held refl

abbrev no_metrics : Metrics
no_metrics = record {
  armed = λ n k. none;
  pending = λ n k. none;
  unpushed = λ n k. none;
  last_push = λ n k. none;
  push_failures = λ n k. none;
  skipped = λ n k. none;
  diverged = λ n k. none;
  abnormal = λ n k. none;
  demanded_pulls = λ n k. none;
}

abbrev a_claimed : Volume
a_claimed = record a_volume { claim = record { namespace = codes "ns"; name = codes "c" } }

forget-read_each_example :
    (forget a_claimed (push_failed a_claimed no_metrics)).push_failures (codes "ns") (codes "c")
    ≡ none
unfolding same
forget-read_each_example =
    forget-read_each push_failures a_claimed (failed 1 a_claimed ∷ []) (codes "ns") (codes "c")
      no_metrics ((refl, refl, refl), tt)

-- A flag package that knows one flag.
abbrev one_flag : Dict Bytes → List Bytes → Option (Dict Bytes)
one_flag flags [] = some flags
one_flag flags (value ∷ args) = some ((codes "node-id", value) ∷ flags)

parse_test :
    (parse one_flag (λ s. some (pos 1)) (codes "node" ∷ []) ≡ refuses)
    × (exit_code (parse one_flag (λ s. some (pos 1)) (codes "node" ∷ codes "n" ∷ [])) true true ≡ 0)
    × (parse one_flag (λ s. none) [] ≡ refuses)
unfolding parse exit_code same git_csi_driver.Prelude.Dict.value_of
parse_test = (refl, refl, refl)

-- A file system on which every call works.
abbrev always : FileCall → ℕ → ℕ × Bool
always call n = (suc n, true)

abbrev some_records : Bytes
some_records = codes "0755 0 0 a\n0755 0 0 ../b\n"

replay_metadata_for_test :
    (replay_metadata_for always false (codes "a" ∷ []) (some some_records) 0).0
    ≡ (1, change_mode (codes "a") 493 ∷ [])
unfolding replay_metadata_for git_csi_driver.Metadata.Paths.records_under
    git_csi_driver.Metadata.Line.parse_metadata_content git_csi_driver.Prelude.Text.split
    git_csi_driver.Prelude.Text.cut_byte git_csi_driver.Prelude.Number.parse_uint
    git_csi_driver.Prelude.Number.atoi git_csi_driver.Prelude.Text.trim_suffix
    git_csi_driver.Prelude.Text.has_prefix same git_csi_driver.Prelude.Text.has_suffix
replay_metadata_for_test = refl
