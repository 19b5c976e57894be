-- ===== src/Node/Publish.antt =====
-- node.go and mount.go: the publish of an inline volume and the unpublish of any, with the mounts and the
-- directories of the host `H` as a parameter. The last commit and push of a writeable volume are those of
-- `Commit` and `Push`.
pub mod Gone
use git_csi_driver.Prelude.{
  ℕ, Bool, true, false, not, Option, none, some, List, [], ◌∷◌, ◌==◌, if◌then◌else◌, Result, err,
  ok, ◌>>=◌, ◌>>◌, guard, internal, failed_precondition,
}
use git_csi_driver.Prelude.Text.{Bytes, codes, same}
use git_csi_driver.Prelude.Dict.{Dict, lookup, insert, remove}
use git_csi_driver.Attributes.{Attributes}
use git_csi_driver.Volume.{
  Credentials, Volume, VolumeKind, inline_volume, read_only_claim, writeable_volume, bind, bound_at,
  unbind, take_health,
}
use git_csi_driver.Volume.Credential.{take_secret}
use git_csi_driver.Records.{StoredVolume}
use git_csi_driver.Records.Resume.{fresh_volume}
use git_csi_driver.Push.{Git, Held, push}
use git_csi_driver.Commit.{TreeGit, commit}
use git_csi_driver.Node.{check_publish, check_unpublish}
use git_csi_driver.Node.Stage.{Repository, failed, stage}

pub record Host (H : Type 0) : Type 0 where
  pub make_dir : Bytes → H → H × Bool
  pub remove_all : Bytes → H → H × Bool
  pub bind_mount : Bytes → Bytes → H → H × Bool
  pub remount_read_only : Bytes → H → H × Bool
  -- True also where the target holds no mount.
  pub unmount : Bytes → H → H × Bool
  pub repository_at : Bytes → H → Repository
  -- The tree of a volume, after the stage placed its commit.
  pub placed : Bytes → Bytes → H → H
  pub write_record : Bytes → H → H
  pub forget_record : Bytes → H → H

-- The volumes of the node by their id, which are those that are published; the ids of those that are staged, where
-- the volume of a claim stays after its unpublish; the loops that run, and the host.
pub record NodeState (H : Type 0) : Type 0 where
  pub volumes : Dict StoredVolume
  pub staged : List Bytes
  pub followed : List Bytes
  pub watched : List Bytes
  pub host : H

abbrev pub without : Bytes → List Bytes → List Bytes
without id [] = []
without id (one ∷ more) = let rest = without id more in if same one id then rest else one ∷ rest

module _ {H : Type 0} (host : Host H) where
  -- `bindReadOnly`: a bind that cannot be made read-only is taken away again.
  unfoldable pub bind_read_only : Bytes → Bytes → H → H × Bool
  bind_read_only source target h =
      let (bound, is_bound) = host.bind_mount source target h in
      if not is_bound
      then (bound, false)
      else let (remounted, is_read_only) = host.remount_read_only target bound in
        if is_read_only then (remounted, true) else ((host.unmount target remounted).0, false)

  -- The mount of a tree that was staged.
  unfoldable pub mount_tree : Bytes → Bytes → H → H × Bool
  unfolding bind_read_only
  mount_tree tree target h =
      let (made, is_made) = host.make_dir target h in
      if not is_made
      then (made, false)
      else let (free, is_free) = host.unmount target made in
        if is_free then bind_read_only tree target free else (free, false)

  abbrev mounted_result : Volume → H × Bool → H × Result Volume
  mounted_result v (h, true) = (h, ok v)
  mounted_result v (h, false) = (h, err (failed internal))

  abbrev staged_result : Bytes → Bytes → H → Result Volume → H × Result Volume
  staged_result tree target h (err refused) = (h, err refused)
  staged_result tree target h (ok v) =
      mounted_result v (mount_tree tree target (host.placed tree v.commit h))

  -- `publish`
  unfoldable pub publish : ℕ → ℕ → Bytes → Bytes → Bytes → Volume → H → H × Result Volume
  unfolding stage mount_tree
  publish start now directory tree target v h =
      let (made, is_made) = host.make_dir directory h in
      if not is_made
      then (made, err (failed internal))
      else staged_result tree target made
          (stage start now (host.repository_at v.attributes.url made) v)

  -- What an inline volume that was not published before becomes.
  abbrev published_result :
      Bytes → Bytes → Dict Bytes → NodeState H → H × Result Volume → NodeState H × Result (Unit {0})
  published_result directory target context n (h, err refused) =
      (record n { host = (host.remove_all directory h).0 }, err refused)
  published_result directory target context n (h, ok v) = (
    record n {
      volumes =
          insert v.id (record { volume = v; context = context; target = target; staging = [] })
            n.volumes;
      followed = v.id ∷ n.followed;
      host = host.write_record v.id h;
    },
    ok tt,
  )

  -- A call for an inline volume: the parts that parsed, and the paths of its directory and tree.
  unfoldable pub publish_inline :
      ℕ
      → ℕ
      → Bytes
      → Bytes
      → Bytes
      → Bytes
      → Dict Bytes
      → Attributes
      → Option Credentials
      → NodeState H
      → NodeState H × Result (Unit {0})
  unfolding publish take_secret
  publish_inline start now id directory tree target context parsed holder n =
      elim (lookup id n.volumes) [
        | some published ↦
            if not (same published.target target) then (n, err (failed failed_precondition)) else (
              record n {
                volumes =
                    insert id
                      (record published { volume = (take_secret holder published.volume).0 })
                      n.volumes;
              },
              ok tt,
            )
        | none ↦
            let mounting : Volume = record (fresh_volume id parsed inline_volume []) {
              credentials = holder;
            } in
            published_result directory target context n
              (publish start now directory tree target mounting n.host)
      ]

  -- The set of the node without the mount: a read-only claim keeps its tree while it has targets.
  unfoldable pub release_kind :
      VolumeKind → Bytes → Bytes → StoredVolume → NodeState H → NodeState H × StoredVolume
  unfolding unbind
  release_kind read_only_claim id target s n =
      let (v, left) = unbind target s.volume in
      let kept : StoredVolume = record s { volume = v } in
      (
        record n { volumes = if left == 0 then remove id n.volumes else insert id kept n.volumes },
        kept,
      )
  release_kind other id target s n = (
    record n {
      volumes = remove id n.volumes;
      followed = without id n.followed;
      watched = without id n.watched;
    },
    s,
  )

  unfoldable pub release : Bytes → Bytes → StoredVolume → NodeState H → NodeState H × StoredVolume
  unfolding release_kind
  release id target s n = release_kind s.volume.kind id target s n

  -- The mount comes away, then the directory of the target.
  unfoldable pub take_away : Bytes → H → H × Bool
  take_away target h =
      let (free, is_free) = host.unmount target h in
      if is_free then host.remove_all target free else (free, false)

  -- The last work of a writeable volume is committed and pushed without waiting for a timer.
  unfoldable pub flush : TreeGit H → Git H → ℕ → Volume → H → Volume × H
  unfolding commit push take_health
  flush tree git now v h =
      let (committed, r) : Volume × H = elim v.rules [
        | none ↦ (v, h)
        | some rules ↦ let (w, r, done) = commit tree rules v h in (w, r)
      ] in
      let pushed = push git now (record { volume = committed; repository = r }) in
      ((take_health now pushed.volume).0, pushed.repository)

  -- What an unpublish leaves to do for a volume that the node held.
  unfoldable pub finish_unpublish : TreeGit H → Git H → ℕ → Bytes → StoredVolume → H → H × Bool
  unfolding flush
  finish_unpublish tree git now directory s h = elim s.volume.kind [
    | read_only_claim ↦ (host.write_record s.volume.id h, true)
    | writeable_volume ↦ ((flush tree git now s.volume (host.forget_record s.volume.id h)).1, true)
    | inline_volume ↦ host.remove_all directory h
  ]

  abbrev answer_of : Bool → Result (Unit {0})
  answer_of done = guard done (failed internal)

  unfoldable pub unpublish_found :
      TreeGit H
      → Git H
      → ℕ
      → Bytes
      → Bytes
      → Bytes
      → StoredVolume
      → NodeState H
      → NodeState H × Result (Unit {0})
  unfolding release take_away finish_unpublish
  unpublish_found tree git now id directory target s n =
      let (released, kept) = release id target s n in
      let (away, is_away) = take_away target released.host in
      if not is_away
      then (record released { host = away }, err (failed internal))
      else let (finished, done) = finish_unpublish tree git now directory kept away in
        (record released { host = finished }, answer_of done)

  unfoldable pub node_unpublish :
      TreeGit H → Git H → ℕ → Bytes → Bytes → Bytes → NodeState H → NodeState H × Result (Unit {0})
  unfolding unpublish_found take_away check_unpublish
  node_unpublish tree git now id directory target n = elim (check_unpublish id target) [
    | err refused ↦ (n, err refused)
    | ok checked ↦ elim (lookup id n.volumes) [
      | some s ↦ unpublish_found tree git now id directory target s n
      | none ↦
          let (away, is_away) = take_away target n.host in
          (record n { host = away }, answer_of is_away)
    ]
  ]
