-- ===== src/Records/Resume.antt =====
-- records.go: the volumes of a driver that starts again. The list of the directories with their records
-- stands for the store, `mounted` for the table of the kernel. A loop that starts is a `Call`.
pub mod Laws
use git_csi_driver.Prelude.{
  ℕ, Bool, true, false, not, ◌&&◌, Option, none, some, List, [], ◌∷◌, if◌then◌else◌, ℤ, err, ok,
}
use git_csi_driver.Prelude.Text.{Bytes, codes}
use git_csi_driver.Prelude.Dict.{Dict, insert}
use git_csi_driver.Attributes.{Attributes, PodReference, no_pod, follows, parse_volume_context}
use git_csi_driver.Cluster.{ClaimReference}
use git_csi_driver.Volume.{
  Volume, VolumeKind, inline_volume, read_only_claim, writeable_volume, bind, set_claim,
  take_health, answer_demands_before, is_writeable,
}
use git_csi_driver.Volume.Credential.{lose_credential}
use git_csi_driver.Records.{Record, StoredVolume, kind, target_paths}

pub data Call : Type 0 where
  follow pull arm watch : (id : Bytes) → Call

-- What a start changes: the volumes by their id, those that are staged, the loops it starts, the last one
-- first, the directories it removes and the records it writes again.
pub record Node : Type 0 where
  pub volumes : Dict StoredVolume
  pub staged : Dict StoredVolume
  pub calls : List Call
  pub dropped : List Bytes
  pub recorded : List Bytes

-- `&volume{…}`
abbrev pub fresh_volume : Bytes → Attributes → VolumeKind → Bytes → Volume
fresh_volume id attributes kind commit = record {
  id = id;
  attributes = attributes;
  credentials = none;
  kind = kind;
  commit = commit;
  trouble = [];
  pod = attributes.pod;
  targets = [];
  pending = [];
  claim = record { namespace = []; name = [] };
  class = [];
  armed = false;
  rules = none;
  invalid = [];
  last_demand = 0;
  last_pull = 0;
  answered = 0;
  taken = 0;
  skipped = [];
  unpushed = 0;
  oldest = 0;
  last_push = 0;
  diverged = [];
  ref_deleted = false;
  abandoned = [];
  abnormal = false;
  credential_lost = false;
  no_publish_secret = false;
}

unfoldable pub mounted_targets : (Bytes → Bool) → List Bytes → List Bytes
mounted_targets mounted [] = []
mounted_targets mounted (target ∷ targets) =
    let rest = mounted_targets mounted targets in if mounted target then target ∷ rest else rest

unfoldable pub bind_each : List Bytes → Volume → Volume
bind_each [] v = v
bind_each (target ∷ targets) v = bind_each targets (bind target no_pod v)

-- `findClaim`, with what the API server answers.
unfoldable pub find_claim : Option ClaimReference → Volume → Volume
find_claim none v = v
find_claim (some claim) v = set_claim claim v

abbrev pub lost : Bool → Volume → Volume
lost true v = lose_credential v
lost false v = v

-- The volume is bound where it is mounted, if it can have many targets.
unfoldable pub bound : VolumeKind → Option ClaimReference → List Bytes → Volume → Volume
unfolding find_claim bind_each
bound read_only_claim claim targets v = find_claim claim (bind_each targets v)
bound inline_volume claim targets v = v
bound writeable_volume claim targets v = v

-- `mounted` tells the mount points, `claim_of` asks the API server for the claim of a volume,
-- `placed_commit` reads the commit beside a tree and `work_head` the head of a work tree.
module _ (parse_duration : Bytes → Option ℤ) (mounted : Bytes → Bool)
    (claim_of : Bytes → Option ClaimReference) (placed_commit : Bytes → Bytes)
    (work_head : Bytes → Option Bytes) (now : ℕ) where
  -- The volume that a record describes, before the loops start.
  unfoldable pub resumed_volume : Record → Attributes → Bytes → List Bytes → Volume
  unfolding bound take_health kind
  resumed_volume held parsed directory targets =
      let v =
        lost held.credentials
          (fresh_volume held.volume_id parsed (kind held) (placed_commit directory)) in
      let healthy = (take_health now (bound (kind held) (claim_of held.volume_id) targets v)).0 in
      answer_demands_before now healthy

  abbrev resume_pull : StoredVolume → Bool → List Call → List Call
  resume_pull s waits calls =
      if not waits && follows s.volume.attributes.pull.mode then pull s.volume.id ∷ calls else calls

  -- The volume in the sets of the node, and the loops it had.
  unfoldable pub start : VolumeKind → Bool → StoredVolume → Node → Node
  start read_only_claim waits s n = record n {
    volumes = insert s.volume.id s n.volumes;
    staged = insert s.volume.id s n.staged;
    calls = resume_pull s waits (follow s.volume.id ∷ n.calls);
    recorded = s.volume.id ∷ n.recorded;
  }
  start inline_volume waits s n = record n {
    volumes = insert s.volume.id s n.volumes;
    calls = resume_pull s waits (follow s.volume.id ∷ n.calls);
  }
  start writeable_volume waits s n =
      let commit : Bytes = elim (work_head s.volume.id) [ none ↦ s.volume.commit | some c ↦ c ] in
      let at_head = record s { volume = record s.volume { commit = commit } } in
      record n {
        volumes = insert s.volume.id at_head n.volumes;
        staged = insert s.volume.id at_head n.staged;
        calls = watch s.volume.id ∷ arm s.volume.id ∷ n.calls;
      }

  unfoldable pub resume_one : Record → Bytes → List Bytes → Node → Node
  unfolding start resumed_volume
  resume_one held directory targets n = elim (parse_volume_context parse_duration held.attributes) [
    | err refused ↦ n
    | ok parsed ↦
        start (kind held) held.credentials
          (record {
            volume = resumed_volume held parsed directory targets;
            context = held.attributes;
            target = held.target;
            staging = held.staging;
          })
          n
  ]

  -- A read-only volume whose mounts are gone is removed, a writeable one keeps its tree.
  unfoldable pub drop : Record → Bytes → Node → Node
  drop held directory n =
      if is_writeable (kind held) then n else record n { dropped = directory ∷ n.dropped }

  unfoldable pub resume_entry : Record → Bytes → List Bytes → Node → Node
  unfolding resume_one drop
  resume_entry held directory [] n = drop held directory n
  resume_entry held directory (target ∷ targets) n = resume_one held directory (target ∷ targets) n

  -- A directory without a record that can be read is left alone.
  unfoldable pub resume : List (Bytes × Option Record) → Node → Node
  unfolding resume_entry mounted_targets target_paths
  resume [] n = n
  resume ((directory, none) ∷ entries) n = resume entries n
  resume ((directory, some held) ∷ entries) n =
      resume entries (resume_entry held directory (mounted_targets mounted (target_paths held)) n)
