-- ===== src/Node/Staged.antt =====
-- stage.go and readonly.go: the publish and the unstage of a volume that was staged. The maps of the staged
-- and of the published volumes share the volumes, so the state has each once, with the ids of those that
-- are published.
pub mod Bound
use git_csi_driver.Prelude.{
  ℕ, Bool, true, false, not, ◌||◌, Option, none, some, List, [], ◌∷◌, if◌then◌else◌, Result, err,
  ok, internal, failed_precondition,
}
use git_csi_driver.Prelude.Text.{Bytes, codes, same}
use git_csi_driver.Prelude.Dict.{Dict, lookup, insert, remove}
use git_csi_driver.Attributes.{PodReference}
use git_csi_driver.Volume.{
  Credentials, VolumeKind, read_only_claim, inline_volume, writeable_volume, bind, bound_at,
}
use git_csi_driver.Volume.Credential.{check_secret, take_secret}
use git_csi_driver.Records.{StoredVolume}
use git_csi_driver.Push.{Git, push}
use git_csi_driver.Node.{refused_argument}
use git_csi_driver.Node.Stage.{failed}
use git_csi_driver.Node.Publish.{Host, mount_tree, without}

pub record StagedState (H : Type 0) : Type 0 where
  pub staged : Dict StoredVolume
  pub published : List Bytes
  pub followed : List Bytes
  pub watched : List Bytes
  pub armed : List Bytes
  pub host : H

unfoldable pub is_published : Bytes → List Bytes → Bool
is_published id [] = false
is_published id (one ∷ more) = same one id || is_published id more

-- A call: the target, the pod and the credential that it carries, and what its context and flags say.
pub record PublishCall : Type 0 where
  pub target : Bytes
  pub pod : PodReference
  pub holder : Option Credentials
  pub context : Dict Bytes
  pub is_read_only : Bool

module _ {H : Type 0} (host : Host H) where
  abbrev pub Answer : Type 0
  Answer = StagedState H × Result (Unit {0})

  -- A call for a target that is published: it takes the credential.
  unfoldable pub republish : PublishCall → StoredVolume → StagedState H → Answer
  unfolding take_secret
  republish call s n =
      let taken : StoredVolume = record s { volume = (take_secret call.holder s.volume).0 } in
      (record n { staged = insert s.volume.id taken n.staged }, ok tt)

  -- A read-only claim that is bound at one more target.
  abbrev pub bound_result : PublishCall → StoredVolume → StagedState H → H × Bool → Answer
  bound_result call s n (h, false) = (record n { host = h }, err (failed internal))
  bound_result call s n (h, true) =
      let v = (take_secret call.holder (bind call.target call.pod s.volume)).0 in
      (
        record n {
          staged = insert s.volume.id (record s { volume = v }) n.staged;
          published = s.volume.id ∷ n.published;
          host = host.write_record s.volume.id h;
        },
        ok tt,
      )

  abbrev pub bound_checked :
      Bytes → PublishCall → StoredVolume → StagedState H → Result (Unit {0}) → Answer
  bound_checked tree call s n (err refused) = (n, err refused)
  bound_checked tree call s n (ok checked) =
      bound_result call s n (mount_tree host tree call.target n.host)

  unfoldable pub publish_read_only : Bytes → PublishCall → StoredVolume → StagedState H → Answer
  unfolding republish check_secret mount_tree bind take_secret
  publish_read_only tree call s n =
      if not call.is_read_only
      then (n, err (refused_argument (codes "readOnly")))
      else if bound_at call.target s.volume
      then republish call s n
      else bound_checked tree call s n (check_secret s.volume call.holder)

  -- `bindReadWrite`, behind the directory of the target and what a restart left there.
  unfoldable pub mount_work_tree : Bytes → Bytes → H → H × Bool
  mount_work_tree tree target h =
      let (made, is_made) = host.make_dir target h in
      if not is_made
      then (made, false)
      else let (free, is_free) = host.unmount target made in
        if is_free then host.bind_mount tree target free else (free, false)

  abbrev pub written_result : PublishCall → StoredVolume → StagedState H → H × Bool → Answer
  written_result call s n (h, false) =
      (record n { staged = insert s.volume.id s n.staged; host = h }, err (failed internal))
  written_result call s n (h, true) = (
    record n {
      staged =
          insert s.volume.id (record s { target = call.target; context = call.context }) n.staged;
      published = s.volume.id ∷ n.published;
      watched = s.volume.id ∷ n.watched;
      host = host.write_record s.volume.id h;
    },
    ok tt,
  )

  abbrev pub written_checked :
      Bytes → PublishCall → StoredVolume → StagedState H → Result (Unit {0}) → Answer
  written_checked tree call s n (err refused) = (n, err refused)
  written_checked tree call s n (ok checked) =
      let v = (take_secret call.holder (record s.volume { pod = call.pod })).0 in
      written_result call (record s { volume = v }) n (mount_work_tree tree call.target n.host)

  unfoldable pub publish_writeable : Bytes → PublishCall → StoredVolume → StagedState H → Answer
  unfolding republish check_secret take_secret mount_work_tree is_published
  publish_writeable tree call s n =
      if is_published s.volume.id n.published
      then (if not (same s.target call.target)
          then (n, err (failed failed_precondition))
          else republish call s n)
      else written_checked tree call s n (check_secret s.volume call.holder)

  unfoldable pub publish_kind :
      VolumeKind → Bytes → PublishCall → StoredVolume → StagedState H → Answer
  unfolding publish_read_only publish_writeable
  publish_kind read_only_claim tree call s n = publish_read_only tree call s n
  publish_kind other tree call s n = publish_writeable tree call s n

  unfoldable pub publish_staged : Bytes → Bytes → PublishCall → StagedState H → Answer
  unfolding publish_kind
  publish_staged id tree call n = elim (lookup id n.staged) [
    | none ↦ (n, err (failed failed_precondition))
    | some s ↦ publish_kind s.volume.kind tree call s n
  ]

  -- What an unstage leaves to do. `mark_unstaged` writes the time of it.
  unfoldable pub finish_unstage :
      Git H → (Bytes → H → H) → ℕ → Bytes → StoredVolume → StagedState H → StagedState H
  unfolding push
  finish_unstage git mark_unstaged now directory s n = elim s.volume.kind [
    | writeable_volume ↦
        let pushed = push git now (record { volume = s.volume; repository = n.host }) in
        record n {
          armed = without s.volume.id n.armed;
          host = mark_unstaged s.volume.id pushed.repository;
        }
    | read_only_claim ↦ record n {
      followed = without s.volume.id n.followed;
      published = without s.volume.id n.published;
      host = (host.remove_all directory n.host).0;
    }
    | inline_volume ↦ n
  ]

  -- `NodeUnstageVolume`, behind its guards, which are `check_unstage`.
  unfoldable pub unstage :
      Git H → (Bytes → H → H) → ℕ → Bytes → Bytes → StagedState H → StagedState H
  unfolding finish_unstage
  unstage git mark_unstaged now id directory n = elim (lookup id n.staged) [
    | none ↦ n
    | some s ↦
        finish_unstage git mark_unstaged now directory s (record n { staged = remove id n.staged })
  ]
