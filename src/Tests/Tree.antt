-- ===== src/Tests/Tree.antt =====
-- The class, the commits and the watch of a work tree at concrete inputs.
use git_csi_driver.Prelude.{
  ℕ, ◌≡◌, refl, ◌↔◌, true, Option, none, some, List, [], ◌∷◌, ◌++◌, arith, is_some, ℤ, pos, Error,
}
use git_csi_driver.Prelude.Text.{Bytes, codes, same}
use git_csi_driver.Cluster.{ClaimReference, driver_name}
use git_csi_driver.Policy.{Policy, default_policy, parse_policy}
use git_csi_driver.Volume.{Volume, Change}
use git_csi_driver.Arming.{Claim, Class, Told, armed, read}
use git_csi_driver.Arming.Armed.{GivesRules, read_iff}
use git_csi_driver.Commit.{TreeGit, changes, stage_changes}
use git_csi_driver.Commit.Report.{Entry}
use git_csi_driver.Commit.Stage.{stage_changes_lem}
use git_csi_driver.Watch.{Watcher, watch, nudge}
use git_csi_driver.Watch.Rested.{begins, goes_on, writes, IsWatched, IsPrompt, Run-IsWatched}
use git_csi_driver.Watch.Events.{events}
use git_csi_driver.Watch.Events.Laws.{KernelEvent, write_events, events-write_events}
use git_csi_driver.Tests.Data.{a_volume}

abbrev a_claim : Claim
a_claim = record { name = codes "site"; current = none; asked = some (codes "fast") }

abbrev a_reference : ClaimReference
a_reference = record { namespace = codes "team"; name = codes "site" }

abbrev a_class : Bytes → Option Class
a_class name = some (record { driver = driver_name; parameters = [] })

abbrev no_class : Bytes → Option Class
no_class name = none

abbrev a_parse : Bytes → Option ℤ
a_parse text = some (pos 60000000000)

abbrev a_message : Bytes → Error → Bytes
a_message name refused = name

abbrev was_armed : Volume × Told
was_armed = armed 9 a_reference (codes "fast") (some default_policy) [] a_volume

read_iff_example :
    ((was_armed.0.rules ≡ some default_policy)
      ↔ GivesRules a_parse a_parse a_message a_class (codes "fast") default_policy)
    × (was_armed.0.armed ≡ is_some was_armed.0.rules)
    × (was_armed.0.class ≡ codes "fast")
    × (was_armed.0.claim ≡ a_reference)
unfolding read same parse_policy
read_iff_example =
    read_iff a_parse a_parse a_message a_class 9 a_reference a_claim a_volume was_armed.0
      was_armed.1 default_policy refl refl

abbrev an_entry : Entry
an_entry = record { index = b'R'; tree = b' '; first = b'a'; rest = []; before = codes "b" }

abbrev four : Bytes → Option ℤ
four path = some (pos 4)

-- A git whose state is what the index holds.
abbrev pub an_index : TreeGit (List Bytes)
an_index = record {
  excluded = λ r. none;
  write_exclude = λ c r. (r, true);
  status = λ r. some [];
  sizes = λ r p. none;
  add = λ b r. (r ++ b, true);
  staged_report = λ r. some (codes "a" ++ 0 ∷ []);
  commit_paths = λ a p r. (r, true);
  record_metadata = λ r. r;
}

abbrev two_changes : List Change
two_changes =
    record { path = codes "a"; size = pos 1 } ∷ record { path = codes "b"; size = pos 9 } ∷ []

abbrev small_files : Policy
small_files = record default_policy { max_file_size = pos 5 }

stage_changes_lem_example :
    ((stage_changes an_index two_changes small_files []).0 ≡ codes "a" ∷ [])
    × ((stage_changes an_index two_changes small_files []).2
        ≡ record { path = codes "b"; size = pos 9 } ∷ [])
unfolding stage_changes git_csi_driver.Prelude.Text.split git_csi_driver.Commit.too_large
stage_changes_lem_example =
    stage_changes_lem an_index (λ r. r) (λ b r h. refl) two_changes small_files [] (codes "a" ∷ [])
      refl

abbrev a_watch : Watcher
a_watch = watch 0 (pos 30) (some default_policy)

Run-IsWatched_example :
    IsWatched default_policy (nudge 7 a_watch) × IsPrompt default_policy 0 0 (nudge 7 a_watch)
unfolding nudge watch
Run-IsWatched_example =
    Run-IsWatched 0 7 (pos 30) (some default_policy) (nudge 7 a_watch) default_policy
      (goes_on begins (omega arith) (writes a_watch)) refl

abbrev a_creation : KernelEvent
a_creation = record { descriptor = 1; mask = 1073742080; cookie = 0; name = codes "d"; padding = 3 }

abbrev watched_directory : ℕ → Bytes
watched_directory descriptor = codes "/t"

events-write_events_example :
    events watched_directory (write_events (a_creation ∷ [])) ≡ some (codes "/t/d" ∷ [])
events-write_events_example =
    events-write_events watched_directory (a_creation ∷ [])
      ((omega arith, omega arith, omega arith, (λ e. cc e, tt)), tt)
