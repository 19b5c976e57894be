-- ===== src/Node/Staged/Bound.antt =====
-- stage.go and readonly.go: where a publish of a staged volume leaves it.
use mathlib.Core.Path.{subst}
use git_csi_driver.Prelude.{
  ◌⊎◌, inl, inr, ◌&&◌, arith, ◌≡◌, refl, sym, ap, ◌∙◌, Bool, true, false, not, Option, none, some,
  if-either, is_some, Result, err, ok,
}
use git_csi_driver.Prelude.Text.{Bytes, same, same_refl}
use git_csi_driver.Prelude.Dict.{lookup, lookup-insert_self}
use git_csi_driver.Attributes.{PodReference}
use git_csi_driver.Volume.{
  Credentials, Volume, VolumeKind, read_only_claim, inline_volume, writeable_volume, bind, bound_at,
}
use git_csi_driver.Volume.Credential.{
  Took, check_secret, take_secret, take_credential, report_no_publish_secret, tell_no_secret,
  needs_credential, same_credentials,
}
use git_csi_driver.Records.{StoredVolume}
use git_csi_driver.Node.Publish.{Host, bind_read_only, mount_tree}
use git_csi_driver.Node.Staged.{
  StagedState, PublishCall, Answer, republish, bound_result, bound_checked, publish_read_only,
  mount_work_tree, written_result, written_checked, publish_writeable, publish_kind, publish_staged,
  is_published,
}

-- What a credential does not change of a volume.
abbrev Keeps : Volume → Volume → Type 0
Keeps v w = (w.id ≡ v.id) × (w.kind ≡ v.kind) × (w.targets ≡ v.targets)

take_secret-Keeps : (holder : Option Credentials) (v : Volume) → Keeps v (take_secret holder v).0
unfolding take_secret take_credential tell_no_secret report_no_publish_secret
take_secret-Keeps none v =
    if-either (λ (r : Volume × Took). Keeps v r.0) (needs_credential v)
      (λ needed.
        if-either (λ (r : Volume × Bool). Keeps v r.0) v.no_publish_secret
          (λ said. (refl, refl, refl)) (λ first. (refl, refl, refl)))
      (λ whole. (refl, refl, refl))
take_secret-Keeps (some holder) v =
    if-either (λ (r : Volume × Took). Keeps v r.0) (same_credentials v.credentials (some holder))
      (λ kept. (refl, refl, refl)) (λ new. (refl, refl, refl))

-- A read-only claim has a map of targets, another volume one target.
abbrev pub bound_for : VolumeKind → Bytes → StoredVolume → Bool
bound_for read_only_claim target s = bound_at target s.volume
bound_for other target s = same s.target target

abbrev pub IsBound : {H : Type 0} → VolumeKind → Bytes → Bytes → StagedState H → Type 0
IsBound kind id target n =
    (s : StoredVolume) × (lookup id n.staged ≡ some s)
    × (s.volume.id ≡ id)
    × (s.volume.kind ≡ kind)
    × (bound_for kind target s ≡ true)

bound_for_alike :
    (k : VolumeKind) (target : Bytes) (s : StoredVolume) (v : Volume)
    → v.targets ≡ s.volume.targets
    → bound_for k target (record s { volume = v }) ≡ bound_for k target s
unfolding bound_at
bound_for_alike read_only_claim target s v e = ap (λ m. is_some (lookup target m)) e
bound_for_alike writeable_volume target s v e = refl
bound_for_alike inline_volume target s v e = refl

bound_at-bind :
    (target : Bytes) (pod : PodReference) (v : Volume) → bound_at target (bind target pod v) ≡ true
unfolding bind bound_at
bound_at-bind target pod v = ap is_some (lookup-insert_self target pod v.targets)

-- Where the mount points of a host show a tree: a mount that works shows it at its target, a remount keeps it there,
-- and so does the write of a record.
pub record IsMounting {H : Type 0} (host : Host H) (shows : Bytes → H → Option Bytes) : Type 0 where
  pub mounts :
      (tree target : Bytes) (h : H)
      → (host.bind_mount tree target h).1 ≡ true
      → shows target (host.bind_mount tree target h).0 ≡ some tree
  pub remounts :
      (target : Bytes) (h : H)
      → (host.remount_read_only target h).1 ≡ true
      → shows target (host.remount_read_only target h).0 ≡ shows target h
  pub writes : (id target : Bytes) (h : H) → shows target (host.write_record id h) ≡ shows target h

-- Whether the node had published the volume at the target before the call.
abbrev pub was_published : {H : Type 0} → VolumeKind → Bytes → StoredVolume → StagedState H → Bool
was_published read_only_claim target s n = bound_at target s.volume
was_published other target s n = is_published s.volume.id n.published && same s.target target

holds_unless : (b : Bool) → not b ≡ false → b ≡ true
holds_unless true e = refl
holds_unless false e = cc e

module _ {H : Type 0} (host : Host H) where
  republish-IsBound :
      (k : VolumeKind) (call : PublishCall) (s : StoredVolume) (n : StagedState H)
      → s.volume.kind ≡ k
      → bound_for k call.target s ≡ true
      → IsBound k s.volume.id call.target (republish host call s n).0
  unfolding republish
  republish-IsBound k call s n kind bound =
      let (id, same_kind, targets) = take_secret-Keeps call.holder s.volume in
      (
        record s { volume = (take_secret call.holder s.volume).0 },
        lookup-insert_self s.volume.id _ n.staged,
        id,
        same_kind ∙ kind,
        bound_for_alike k call.target s _ targets ∙ bound,
      )

  -- What an answer of ok promises.
  abbrev Bound : VolumeKind → PublishCall → StoredVolume → Answer host → Type 0
  Bound k call s a = a.1 ≡ ok tt → IsBound k s.volume.id call.target a.0

  bound_result-Bound :
      (call : PublishCall) (s : StoredVolume) (n : StagedState H) (m : H × Bool)
      → s.volume.kind ≡ read_only_claim
      → Bound read_only_claim call s (bound_result host call s n m)
  unfolding bind
  bound_result-Bound call s n (h, false) kind e = cc e
  bound_result-Bound call s n (h, true) kind e =
      let (id, same_kind, targets) =
        take_secret-Keeps call.holder (bind call.target call.pod s.volume) in
      (
        record s { volume = (take_secret call.holder (bind call.target call.pod s.volume)).0 },
        lookup-insert_self s.volume.id _ n.staged,
        id,
        same_kind ∙ kind,
        bound_for_alike read_only_claim call.target
              (record s { volume = bind call.target call.pod s.volume }) _ targets
            ∙ bound_at-bind call.target call.pod s.volume,
      )

  bound_checked-Bound :
      (tree : Bytes) (call : PublishCall) (s : StoredVolume) (n : StagedState H)
      (r : Result (Unit {0}))
      → s.volume.kind ≡ read_only_claim
      → Bound read_only_claim call s (bound_checked host tree call s n r)
  bound_checked-Bound tree call s n (err refused) kind e = cc e
  bound_checked-Bound tree call s n (ok checked) kind e =
      bound_result-Bound call s n (mount_tree host tree call.target n.host) kind e

  publish_read_only-Bound :
      (tree : Bytes) (call : PublishCall) (s : StoredVolume) (n : StagedState H)
      → s.volume.kind ≡ read_only_claim
      → Bound read_only_claim call s (publish_read_only host tree call s n)
  unfolding publish_read_only
  publish_read_only-Bound tree call s n kind =
      if-either (λ (a : Answer host). Bound read_only_claim call s a) (not call.is_read_only)
        (λ refused e. cc e)
        (λ asked.
          if-either (λ (a : Answer host). Bound read_only_claim call s a)
            (bound_at call.target s.volume)
            (λ bound e. republish-IsBound read_only_claim call s n kind bound)
            (λ unbound. bound_checked-Bound tree call s n (check_secret s.volume call.holder) kind))

  abbrev IsSingle : VolumeKind → Type 0
  IsSingle k = (target : Bytes) (s : StoredVolume) → bound_for k target s ≡ same s.target target

  written_result-Bound :
      (k : VolumeKind) (call : PublishCall) (s : StoredVolume) (n : StagedState H) (m : H × Bool)
      → IsSingle k
      → s.volume.kind ≡ k
      → Bound k call s (written_result host call s n m)
  written_result-Bound k call s n (h, false) single kind e = cc e
  written_result-Bound k call s n (h, true) single kind e = (
    record s { target = call.target; context = call.context },
    lookup-insert_self s.volume.id _ n.staged,
    refl,
    kind,
    single call.target _ ∙ same_refl call.target,
  )

  written_checked-Bound :
      (k : VolumeKind) (tree : Bytes) (call : PublishCall) (s : StoredVolume) (n : StagedState H)
      (r : Result (Unit {0}))
      → IsSingle k
      → s.volume.kind ≡ k
      → Bound k call s (written_checked host tree call s n r)
  written_checked-Bound k tree call s n (err refused) single kind e = cc e
  written_checked-Bound k tree call s n (ok checked) single kind e =
      let v : Volume = (take_secret call.holder (record s.volume { pod = call.pod })).0 in
      let (id, same_kind, targets) =
        take_secret-Keeps call.holder (record s.volume { pod = call.pod }) in
      subst (λ i. IsBound k i call.target (written_checked host tree call s n (ok checked)).0) id
        (written_result-Bound k call (record s { volume = v }) n
          (mount_work_tree host tree call.target n.host) single (same_kind ∙ kind) e)

  publish_writeable-Bound :
      (k : VolumeKind) (tree : Bytes) (call : PublishCall) (s : StoredVolume) (n : StagedState H)
      → IsSingle k
      → s.volume.kind ≡ k
      → Bound k call s (publish_writeable host tree call s n)
  unfolding publish_writeable
  publish_writeable-Bound k tree call s n single kind =
      if-either (λ (a : Answer host). Bound k call s a) (is_published s.volume.id n.published)
        (λ standing.
          if-either (λ (a : Answer host). Bound k call s a) (not (same s.target call.target))
            (λ elsewhere e. cc e)
            (λ here e.
              republish-IsBound k call s n kind (single call.target s ∙ holds_unless _ here)))
        (λ new.
          written_checked-Bound k tree call s n (check_secret s.volume call.holder) single kind)

  publish_kind-Bound :
      (k : VolumeKind) (tree : Bytes) (call : PublishCall) (s : StoredVolume) (n : StagedState H)
      → s.volume.kind ≡ k
      → Bound k call s (publish_kind host k tree call s n)
  unfolding publish_kind
  publish_kind-Bound read_only_claim tree call s n kind = publish_read_only-Bound tree call s n kind
  publish_kind-Bound writeable_volume tree call s n kind =
      publish_writeable-Bound writeable_volume tree call s n (λ t s. refl) kind
  publish_kind-Bound inline_volume tree call s n kind =
      publish_writeable-Bound inline_volume tree call s n (λ t s. refl) kind

module _ {H : Type 0} (host : Host H) (shows : Bytes → H → Option Bytes)
    (mounting : IsMounting host shows) where
  -- The target shows the tree; or it was published before, and the call does nothing to the host.
  abbrev pub IsMounted :
      VolumeKind → Bytes → PublishCall → StoredVolume → StagedState H → StagedState H → Type 0
  IsMounted k tree call s n m =
      (shows call.target m.host ≡ some tree)
      ⊎ ((was_published k call.target s n ≡ true) × (m.host ≡ n.host))

  abbrev Mounted :
      VolumeKind → Bytes → PublishCall → StoredVolume → StagedState H → Answer host → Type 0
  Mounted k tree call s n a = a.1 ≡ ok tt → IsMounted k tree call s n a.0

  abbrev Shows : Bytes → Bytes → H × Bool → Type 0
  Shows tree target m = m.1 ≡ true → shows target m.0 ≡ some tree

  bind_read_only-Shows :
      (tree target : Bytes) (h : H) → Shows tree target (bind_read_only host tree target h)
  unfolding bind_read_only
  bind_read_only-Shows tree target h =
      let (bound, works) = host.bind_mount tree target h in
      if-either (Shows tree target) (not works) (λ failed e. cc e)
        (λ worked.
          let (remounted, can) = host.remount_read_only target bound in
          if-either (Shows tree target) can
            (λ done e.
              mounting.remounts target bound done
              ∙ mounting.mounts tree target h (holds_unless _ worked))
            (λ failed e. cc e))

  mount_tree-Shows :
      (tree target : Bytes) (h : H) → Shows tree target (mount_tree host tree target h)
  unfolding mount_tree
  mount_tree-Shows tree target h =
      let (made, is_made) = host.make_dir target h in
      let (free, is_free) = host.unmount target made in
      if-either (Shows tree target) (not is_made) (λ failed e. cc e)
        (λ there.
          if-either (Shows tree target) is_free (λ clear. bind_read_only-Shows tree target free)
            (λ stuck e. cc e))

  mount_work_tree-Shows :
      (tree target : Bytes) (h : H) → Shows tree target (mount_work_tree host tree target h)
  unfolding mount_work_tree
  mount_work_tree-Shows tree target h =
      let (made, is_made) = host.make_dir target h in
      let (free, is_free) = host.unmount target made in
      if-either (Shows tree target) (not is_made) (λ failed e. cc e)
        (λ there.
          if-either (Shows tree target) is_free (λ clear. mounting.mounts tree target free)
            (λ stuck e. cc e))

  bound_result-Mounted :
      (k : VolumeKind) (tree : Bytes) (call : PublishCall) (s : StoredVolume) (n : StagedState H)
      (m : H × Bool)
      → Shows tree call.target m
      → Mounted k tree call s n (bound_result host call s n m)
  bound_result-Mounted k tree call s n (h, false) shown e = cc e
  bound_result-Mounted k tree call s n (h, true) shown e =
      inl (mounting.writes s.volume.id call.target h ∙ shown refl)

  bound_checked-Mounted :
      (k : VolumeKind) (tree : Bytes) (call : PublishCall) (s : StoredVolume) (n : StagedState H)
      (r : Result (Unit {0}))
      → Mounted k tree call s n (bound_checked host tree call s n r)
  bound_checked-Mounted k tree call s n (err refused) e = cc e
  bound_checked-Mounted k tree call s n (ok checked) e =
      bound_result-Mounted k tree call s n _ (mount_tree-Shows tree call.target n.host) e

  publish_read_only-Mounted :
      (tree : Bytes) (call : PublishCall) (s : StoredVolume) (n : StagedState H)
      → Mounted read_only_claim tree call s n (publish_read_only host tree call s n)
  unfolding publish_read_only republish
  publish_read_only-Mounted tree call s n =
      if-either (Mounted read_only_claim tree call s n) (not call.is_read_only) (λ refused e. cc e)
        (λ asked.
          if-either (Mounted read_only_claim tree call s n) (bound_at call.target s.volume)
            (λ bound e. inr (bound, refl))
            (λ unbound.
              bound_checked-Mounted read_only_claim tree call s n
                (check_secret s.volume call.holder)))

  written_result-Mounted :
      (k : VolumeKind) (tree : Bytes) (call : PublishCall) (s s' : StoredVolume) (n : StagedState H)
      (m : H × Bool)
      → Shows tree call.target m
      → Mounted k tree call s n (written_result host call s' n m)
  written_result-Mounted k tree call s s' n (h, false) shown e = cc e
  written_result-Mounted k tree call s s' n (h, true) shown e =
      inl (mounting.writes s'.volume.id call.target h ∙ shown refl)

  written_checked-Mounted :
      (k : VolumeKind) (tree : Bytes) (call : PublishCall) (s : StoredVolume) (n : StagedState H)
      (r : Result (Unit {0}))
      → Mounted k tree call s n (written_checked host tree call s n r)
  written_checked-Mounted k tree call s n (err refused) e = cc e
  written_checked-Mounted k tree call s n (ok checked) e =
      written_result-Mounted k tree call s _ n _ (mount_work_tree-Shows tree call.target n.host) e

  abbrev IsWritten : VolumeKind → Type 0
  IsWritten k =
      (target : Bytes) (s : StoredVolume) (n : StagedState H)
      → was_published k target s n ≡ (is_published s.volume.id n.published && same s.target target)

  publish_writeable-Mounted :
      (k : VolumeKind) (tree : Bytes) (call : PublishCall) (s : StoredVolume) (n : StagedState H)
      → IsWritten k
      → Mounted k tree call s n (publish_writeable host tree call s n)
  unfolding publish_writeable republish
  publish_writeable-Mounted k tree call s n written =
      if-either (Mounted k tree call s n) (is_published s.volume.id n.published)
        (λ standing.
          if-either (Mounted k tree call s n) (not (same s.target call.target))
            (λ elsewhere e. cc e)
            (λ here e. inr (written call.target s n ∙ ground (arith, standing, here), refl)))
        (λ new. written_checked-Mounted k tree call s n (check_secret s.volume call.holder))

  publish_kind-Mounted :
      (k : VolumeKind) (tree : Bytes) (call : PublishCall) (s : StoredVolume) (n : StagedState H)
      → Mounted k tree call s n (publish_kind host k tree call s n)
  unfolding publish_kind
  publish_kind-Mounted read_only_claim tree call s n = publish_read_only-Mounted tree call s n
  publish_kind-Mounted writeable_volume tree call s n =
      publish_writeable-Mounted writeable_volume tree call s n (λ t s m. refl)
  publish_kind-Mounted inline_volume tree call s n =
      publish_writeable-Mounted inline_volume tree call s n (λ t s m. refl)

  -- Where mounts show as `IsMounting` says: after a publish that answers ok, of a volume that is staged under its own
  -- id, the volume is staged with the kind it had and is bound at the target of the call, and the target shows its
  -- tree, unless the volume was published there before; then the call does nothing to the host.
  pub publish_staged-IsBound :
      (tree : Bytes) (call : PublishCall) (s : StoredVolume) (n : StagedState H)
      → lookup s.volume.id n.staged ≡ some s
      → (publish_staged host s.volume.id tree call n).1 ≡ ok tt
      → IsBound s.volume.kind s.volume.id call.target
          (publish_staged host s.volume.id tree call n).0
        × IsMounted s.volume.kind tree call s n (publish_staged host s.volume.id tree call n).0
  unfolding publish_staged
  publish_staged-IsBound tree call s n found e =
      let answered : publish_staged host s.volume.id tree call n
          ≡ publish_kind host s.volume.kind tree call s n =
        rw (publish_staged, found) refl in
      (
        subst (λ (a : Answer host). Bound host s.volume.kind call s a) (sym answered)
            (publish_kind-Bound host s.volume.kind tree call s n refl) e,
        subst (λ (a : Answer host). Mounted s.volume.kind tree call s n a) (sym answered)
            (publish_kind-Mounted s.volume.kind tree call s n) e,
      )
