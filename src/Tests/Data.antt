-- ===== src/Tests/Data.antt =====
-- The input of the tests: a volume, a loop and a git that accepts every push.
use git_csi_driver.Prelude.{true, false, none, some, List, [], ◌∷◌, pos}
use git_csi_driver.Prelude.Text.{Bytes, codes}
use git_csi_driver.Attributes.{Attributes, default_attributes, no_pod, pull_every}
use git_csi_driver.Cluster.{AccessMode, PersistentVolume, ClaimReference, driver_name}
use git_csi_driver.Volume.{Volume, read_only_claim}
use git_csi_driver.Follow.{Follower}
use git_csi_driver.Follow.Loop.{Loop}
use git_csi_driver.Push.{Git, sent}

abbrev pub url : Bytes
url = codes "https://h/a"

abbrev pub attributes_of_url : Attributes
attributes_of_url = record {
  url = url;
  ref = codes "main";
  pull = pull_every (pos 60);
  depth = pos 0;
  offline = git_csi_driver.Attributes.offline_refuse;
  ephemeral = false;
  pod = no_pod;
  webhook_secret = [];
}

abbrev pub no_claim : ClaimReference
no_claim = record { namespace = []; name = [] }

abbrev pub a_volume : Volume
a_volume = record {
  id = codes "v";
  attributes = attributes_of_url;
  credentials = none;
  kind = read_only_claim;
  commit = codes "c";
  trouble = [];
  pod = no_pod;
  targets = [];
  pending = [];
  claim = no_claim;
  class = [];
  armed = false;
  rules = none;
  invalid = [];
  last_demand = 0;
  last_pull = 0;
  answered = 0;
  taken = 0;
  skipped = [];
  unpushed = 0;
  oldest = 0;
  last_push = 0;
  diverged = [];
  ref_deleted = false;
  abandoned = [];
  abnormal = false;
  credential_lost = false;
  no_publish_secret = false;
}

abbrev pub a_follower : Follower
a_follower = record {
  volumes = (codes "v", 0) ∷ [];
  wanted = [];
  last_pull = 0;
  backoff = 0;
  demanded = false;
  arrived = false;
}

abbrev pub a_loop : Loop
a_loop = record {
  store = λ a. a_volume;
  follower = a_follower;
  pull_timer = none;
  delay_timer = none;
  retry_timer = none;
  waiting = false;
}

-- A claim's volume that a team's webhook names.
abbrev pub team_volume : PersistentVolume
team_volume = record {
  name = codes "pv";
  source = some (record {
    driver = driver_name;
    volume_handle = codes "v";
    attributes = (codes "url", url) ∷ (codes "webhookSecret", codes "hook") ∷ [];
  });
  claim_ref = some (record { namespace = codes "team"; name = codes "site" });
  access_modes = AccessMode.read_only_many ∷ [];
  annotations = [];
  is_bound = true;
}

-- The pushes so far, the last one first, as the state of a git that takes every push to a side branch
-- or to the ref.
abbrev pub a_git : Git (List Bytes)
a_git = record {
  head = λ r. some (codes "h");
  head_commit = λ r. codes "h";
  pushed_commit = λ r. codes "p";
  ancestor = λ r a b. false;
  unpushed = λ r. some (1, 5);
  pending = λ r. [];
  diverged_branch = λ r. [];
  push_to = λ b r. (b ∷ r, sent);
  fetch_upstream = λ r. (r, none);
  rebase_aside = λ c r. (r, false);
  reparent_metadata = λ r. (r, true);
  mark_pushed = λ c r. (r, true);
  mark_diverged = λ b r. r;
  clear_diverged = λ r. (r, true);
  delete_branch = λ b r. r;
  reset = λ c r. ([], true);
  restore = λ r. r;
}
