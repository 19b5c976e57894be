-- ===== src/Node/Arrive.antt =====
-- stage.go and readonly.go: `NodeStageVolume`, which reads what a call asks for and stages it. `find_claim` is
-- `findClaim` with the API server, `note` is `noteAbandoned`; the demand that waits for the volume is that of
-- `Follow.Watch`, and the Events of a refusal are left out.
pub mod Again
use git_csi_driver.Prelude.{
  ℕ, Bool, true, false, not, Option, none, some, [], ◌∷◌, if◌then◌else◌, ℤ, Result, err, ok, ◌>>=◌,
  ◌>>◌, guard, internal, failed_precondition,
}
use git_csi_driver.Prelude.Text.{Bytes, codes, same, is_empty, contains_byte}
use git_csi_driver.Prelude.Dict.{Dict, lookup, insert}
use git_csi_driver.Attributes.{Attributes, parse_stage_attributes}
use git_csi_driver.Volume.{
  Credentials, Volume, VolumeKind, read_only_claim, inline_volume, writeable_volume, take_health,
}
use git_csi_driver.Volume.Credential.{parse_credentials}
use git_csi_driver.Records.{StoredVolume}
use git_csi_driver.Records.Resume.{fresh_volume}
use git_csi_driver.Push.{Held}
use git_csi_driver.Node.{Mode, stage_kind, refused_argument}
use git_csi_driver.Node.Stage.{failed, stage}
use git_csi_driver.Node.Publish.{Host}
use git_csi_driver.Node.Staged.{StagedState}
use git_csi_driver.Node.Work.{WorkGit, stage_tree}

-- A call of the kubelet: the id, the staging path, the mode, the context and the Secret.
pub record StageCall : Type 0 where
  pub id : Bytes
  pub staging : Bytes
  pub mode : Mode
  pub context : Dict Bytes
  pub secrets : Dict Bytes

-- The guards of a stage.
unfoldable pub check_stage : Bytes → Bytes → Result (Unit {0})
unfolding contains_byte
check_stage id staging =
    guard (not (is_empty id)) (refused_argument (codes "volume_id"))
    >> guard (not (contains_byte b'/' id)) (refused_argument (codes "volume_id"))
    >> guard (not (is_empty staging)) (refused_argument (codes "staging_target_path"))

abbrev is_writeable : VolumeKind → Bool
is_writeable writeable_volume = true
is_writeable other = false

-- What a call asks for, past its guards.
pub record Asked : Type 0 where
  pub kind : VolumeKind
  pub parsed : Attributes
  pub holder : Option Credentials

module _ {H : Type 0} (host : Host H) (work : WorkGit H) (parse_duration : Bytes → Option ℤ)
    (find_claim note : Volume → Volume) (volume_dir : Bytes → Bytes) (has_client : Bool) where
  abbrev pub Answer : Type 0
  Answer = StagedState H × Result (Unit {0})

  unfoldable pub read_call : StageCall → Result Asked
  unfolding check_stage stage_kind parse_stage_attributes parse_credentials
  read_call call = do
    checked ← check_stage call.id call.staging
    kind ← stage_kind call.mode
    parsed ← parse_stage_attributes parse_duration (is_writeable kind) call.context
    holder ← parse_credentials call.secrets
    ok (record { kind = kind; parsed = parsed; holder = holder })

  abbrev pub arriving : StageCall → Asked → Volume
  arriving call asked = record (fresh_volume call.id asked.parsed asked.kind []) {
    credentials = asked.holder;
  }

  abbrev pub stored : StageCall → Volume → StoredVolume
  stored call v = record { volume = v; context = call.context; target = []; staging = call.staging }

  -- What the stage of a read-only claim leaves.
  abbrev pub read_only_result : StageCall → StagedState H → H → Result Volume → Answer
  read_only_result call n h (err refused) =
      (record n { host = (host.remove_all (volume_dir call.id) h).0 }, err refused)
  read_only_result call n h (ok v) = (
    record n {
      staged = insert call.id (stored call v) n.staged;
      followed = call.id ∷ n.followed;
      host = host.write_record call.id (host.placed (volume_dir call.id) v.commit h);
    },
    ok tt,
  )

  unfoldable pub stage_read_only : ℕ → ℕ → StageCall → Asked → StagedState H → Answer
  unfolding stage
  stage_read_only start now call asked n =
      let (made, is_made) = host.make_dir (volume_dir call.id) n.host in
      if not is_made
      then (record n { host = made }, err (failed internal))
      else read_only_result call n made (
          stage start now (host.repository_at asked.parsed.url made)
            (find_claim (arriving call asked)))

  -- What the stage of a work tree leaves: the volume's health is taken once, after all of it.
  abbrev pub work_result : ℕ → StageCall → StagedState H → Held H × Result (Unit {0}) → Answer
  work_result now call n (h, err refused) = (record n { host = h.repository }, err refused)
  work_result now call n (h, ok staged) = (
    record n {
      staged = insert call.id (stored call (take_health now h.volume).0) n.staged;
      armed = if has_client then call.id ∷ n.armed else n.armed;
      host = h.repository;
    },
    ok tt,
  )

  unfoldable pub stage_work : ℕ → ℕ → StageCall → Asked → StagedState H → Answer
  unfolding stage_tree take_health
  stage_work start now call asked n =
      let (made, is_made) = host.make_dir (volume_dir call.id) n.host in
      if not is_made
      then (record n { host = made }, err (failed internal))
      else work_result now call n
          (stage_tree work start note (record { volume = arriving call asked; repository = made }))

  abbrev pub stage_kind_of : VolumeKind → ℕ → ℕ → StageCall → Asked → StagedState H → Answer
  stage_kind_of read_only_claim start now call asked n = stage_read_only start now call asked n
  stage_kind_of other start now call asked n = stage_work start now call asked n

  -- A volume that is staged stays, where the call names its staging path.
  abbrev pub stage_asked : ℕ → ℕ → StageCall → StagedState H → Result Asked → Answer
  stage_asked start now call n (err refused) = (n, err refused)
  stage_asked start now call n (ok asked) = elim (lookup call.id n.staged) [
    | some s ↦
        if same s.staging call.staging then (n, ok tt) else (n, err (failed failed_precondition))
    | none ↦ stage_kind_of asked.kind start now call asked n
  ]

  -- `NodeStageVolume`
  unfoldable pub node_stage : ℕ → ℕ → StageCall → StagedState H → Answer
  unfolding read_call stage_read_only stage_work
  node_stage start now call n = stage_asked start now call n (read_call call)
