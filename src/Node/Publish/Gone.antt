-- ===== src/Node/Publish/Gone.antt =====
-- node.go: what an unpublish leaves of a volume.
use git_csi_driver.Prelude.{
  ℕ, ◌≡◌, refl, ap, ◌∙◌, ◌⊎◌, inl, inr, false, not, none, some, ◌==◌, if-either, Option-cases,
  is_some, Result, ok,
}
use git_csi_driver.Prelude.Text.{Bytes}
use git_csi_driver.Prelude.Dict.{Dict, lookup, lookup-remove_self, lookup-insert_self}
use git_csi_driver.Volume.{
  Volume, VolumeKind, inline_volume, read_only_claim, writeable_volume, bound_at, unbind,
}
use git_csi_driver.Records.{StoredVolume}
use git_csi_driver.Push.{Git}
use git_csi_driver.Commit.{TreeGit}
use git_csi_driver.Node.{check_unpublish}
use git_csi_driver.Node.Publish.{
  Host, NodeState, release_kind, release, take_away, unpublish_found, node_unpublish,
}

module _ {H : Type 0} (host : Host H) where
  -- No volume of that id is published, or one of a claim that is not bound at the target.
  abbrev pub IsReleased : Bytes → Bytes → NodeState H → Type 0
  IsReleased id target n =
      (lookup id n.volumes ≡ none)
      ⊎ ((s : StoredVolume) × (lookup id n.volumes ≡ some s)
          × (s.volume.kind ≡ read_only_claim)
          × (bound_at target s.volume ≡ false))

  unbind_kind : (target : Bytes) (v : Volume) → (unbind target v).0.kind ≡ v.kind
  unfolding unbind
  unbind_kind target v = refl

  unbind_not_bound : (target : Bytes) (v : Volume) → bound_at target (unbind target v).0 ≡ false
  unfolding bound_at unbind
  unbind_not_bound target v = ap is_some (lookup-remove_self target v.targets)

  release_kind-IsReleased :
      (k : VolumeKind) (id target : Bytes) (s : StoredVolume) (n : NodeState H)
      → s.volume.kind ≡ k
      → IsReleased id target (release_kind host k id target s n).0
  unfolding release_kind
  release_kind-IsReleased inline_volume id target s n e = inl (lookup-remove_self id n.volumes)
  release_kind-IsReleased writeable_volume id target s n e = inl (lookup-remove_self id n.volumes)
  release_kind-IsReleased read_only_claim id target s n e =
      let kept : StoredVolume = record s { volume = (unbind target s.volume).0 } in
      if-either (λ (m : Dict StoredVolume). IsReleased id target (record n { volumes = m }))
        ((unbind target s.volume).1 == 0) (λ last. inl (lookup-remove_self id n.volumes))
        (λ more. inr (
          kept,
          lookup-insert_self id kept n.volumes,
          unbind_kind target s.volume ∙ e,
          unbind_not_bound target s.volume,
        ))

  release_kind-staged :
      (k : VolumeKind) (id target : Bytes) (s : StoredVolume) (n : NodeState H)
      → (release_kind host k id target s n).0.staged ≡ n.staged
  unfolding release_kind
  release_kind-staged inline_volume id target s n = refl
  release_kind-staged writeable_volume id target s n = refl
  release_kind-staged read_only_claim id target s n = refl

  unpublish_found-IsReleased :
      (tree : TreeGit H) (git : Git H) (now : ℕ) (id directory target : Bytes) (s : StoredVolume)
      (n : NodeState H)
      → IsReleased id target (unpublish_found host tree git now id directory target s n).0
  unfolding unpublish_found release
  unpublish_found-IsReleased tree git now id directory target s n =
      let released = release_kind-IsReleased s.volume.kind id target s n refl in
      if-either (λ (r : NodeState H × Result Unit). IsReleased id target r.0)
        (not (take_away host target (release host id target s n).0.host).1) (λ stuck. released)
        (λ away. released)

  unpublish_found-staged :
      (tree : TreeGit H) (git : Git H) (now : ℕ) (id directory target : Bytes) (s : StoredVolume)
      (n : NodeState H)
      → (unpublish_found host tree git now id directory target s n).0.staged ≡ n.staged
  unfolding unpublish_found release
  unpublish_found-staged tree git now id directory target s n =
      let kept = release_kind-staged s.volume.kind id target s n in
      if-either (λ (r : NodeState H × Result Unit). r.0.staged ≡ n.staged)
        (not (take_away host target (release host id target s n).0.host).1) (λ stuck. kept)
        (λ away. kept)

  -- After a call of an unpublish that names an id and a target, whether it works or fails, no volume of that id is
  -- published on the node, or it is one of a read-only claim that is not bound at the target; and the staged volumes
  -- are those of before.
  pub node_unpublish-IsReleased :
      (tree : TreeGit H) (git : Git H) (now : ℕ) (id directory target : Bytes) (n : NodeState H)
      → check_unpublish id target ≡ ok tt
      → let m = (node_unpublish host tree git now id directory target n).0 in
        IsReleased id target m × (m.staged ≡ n.staged)
  unfolding node_unpublish
  node_unpublish-IsReleased tree git now id directory target n e =
      elim (Option-cases (lookup id n.volumes)) [
        | inl missing ↦ rw (node_unpublish, e, missing) (inl missing, refl)
        | inr (s, found) ↦
            rw (node_unpublish, e, found)
              (
                unpublish_found-IsReleased tree git now id directory target s n,
                unpublish_found-staged tree git now id directory target s n,
              )
      ]
