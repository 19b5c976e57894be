-- ===== src/Tests/Node.antt =====
-- The calls of the kubelet at concrete inputs.
use git_csi_driver.Prelude.{◌≡◌, refl, true, false, none, some, List, [], ◌∷◌}
use git_csi_driver.Prelude.Text.{Bytes, codes, same}
use git_csi_driver.Prelude.Dict.{lookup, Dict, insert, lookup-insert_self}
use git_csi_driver.Attributes.{no_pod}
use git_csi_driver.Volume.{Volume, read_only_claim, writeable_volume}
use git_csi_driver.Records.{StoredVolume}
use git_csi_driver.Node.Stage.{Repository, stage}
use git_csi_driver.Node.Stage.Served.{IsServed, served_volume, stage-IsServed}
use git_csi_driver.Node.Publish.{Host, NodeState, node_unpublish}
use git_csi_driver.Node.Publish.Gone.{IsReleased, node_unpublish-IsReleased}
use git_csi_driver.Node.Staged.{PublishCall, StagedState, is_published, publish_staged}
use git_csi_driver.Node.Staged.Bound.{IsBound, IsMounting, IsMounted, publish_staged-IsBound}
use git_csi_driver.Tests.Tree.{an_index}
use git_csi_driver.Volume.{answer_demands_before}
use git_csi_driver.Tests.Data.{a_volume, a_git}

abbrev pub a_repository : Repository
a_repository = record {
  exists = true;
  creates = false;
  uses_credential = true;
  fetch = λ r d. none;
  resolve = λ r. some (codes "n");
  place = λ c. true;
}

abbrev a_served : Volume
a_served = served_volume 8 9 (codes "n") none a_volume

stage-IsServed_example :
    IsServed a_repository a_volume a_served.commit
    × (a_served.trouble ≡ [])
    × (a_served.answered ≡ (answer_demands_before 8 a_volume).answered)
unfolding stage
stage-IsServed_example = stage-IsServed 8 9 a_repository a_volume a_served refl

-- A host on which every call works.
abbrev a_host : Host (List Bytes)
a_host = record {
  make_dir = λ p h. (h, true);
  remove_all = λ p h. (h, true);
  bind_mount = λ s t h. (t ∷ h, true);
  remount_read_only = λ t h. (h, true);
  unmount = λ t h. (h, true);
  repository_at = λ u h. a_repository;
  placed = λ t c h. h;
  write_record = λ i h. h;
  forget_record = λ i h. h;
}

abbrev a_stored : StoredVolume
a_stored = record {
  volume = record a_volume { targets = (codes "/t", no_pod) ∷ (codes "/u", no_pod) ∷ [] };
  context = [];
  target = [];
  staging = codes "/s";
}

abbrev a_node : NodeState (List Bytes)
a_node = record {
  volumes = (codes "v", a_stored) ∷ [];
  staged = codes "v" ∷ [];
  followed = [];
  watched = [];
  host = [];
}

node_unpublish-IsReleased_example :
    let m =
      (node_unpublish a_host an_index a_git 9 (codes "v") (codes "/d") (codes "/t") a_node).0 in
    IsReleased a_host (codes "v") (codes "/t") m × (m.staged ≡ codes "v" ∷ [])
unfolding git_csi_driver.Node.check_unpublish
node_unpublish-IsReleased_example =
    node_unpublish-IsReleased a_host an_index a_git 9 (codes "v") (codes "/d") (codes "/t") a_node
      refl

-- A writeable volume and a claim that are staged, and a pod that mounts them.
abbrev a_writeable : StoredVolume
a_writeable = record a_stored { volume = record a_volume { kind = writeable_volume } }

abbrev a_claim : StoredVolume
a_claim = record a_stored { volume = record a_stored.volume { kind = read_only_claim } }

abbrev a_staged : StoredVolume → StagedState (List Bytes)
a_staged s = record {
  staged = (a_volume.id, s) ∷ [];
  published = [];
  followed = [];
  watched = [];
  armed = [];
  host = [];
}

abbrev a_publish : PublishCall
a_publish = record {
  target = codes "/w";
  pod = no_pod;
  holder = none;
  context = [];
  is_read_only = false;
}

published_test :
    let (n, answer) =
      publish_staged a_host a_volume.id (codes "/tree") a_publish (a_staged a_writeable) in
    (n.host ≡ codes "/w" ∷ []) × (is_published a_volume.id n.published ≡ true)
unfolding publish_staged lookup same
published_test = (refl, refl)

-- A claim is not mounted for a pod that may write.
refused_test :
    (publish_staged a_host a_volume.id (codes "/tree") a_publish (a_staged a_claim)).0
    ≡ a_staged a_claim
unfolding publish_staged lookup same
refused_test = refl

-- A host that keeps what its targets show.
abbrev a_mounting_host : Host (Dict Bytes)
a_mounting_host = record {
  make_dir = λ p h. (h, true);
  remove_all = λ p h. (h, true);
  bind_mount = λ s t h. (insert t s h, true);
  remount_read_only = λ t h. (h, true);
  unmount = λ t h. (h, true);
  repository_at = λ u h. a_repository;
  placed = λ t c h. h;
  write_record = λ i h. h;
  forget_record = λ i h. h;
}

a_mounting_host-IsMounting : IsMounting a_mounting_host lookup
a_mounting_host-IsMounting = record {
  mounts = λ tree target h e. lookup-insert_self target tree h;
  remounts = λ target h e. refl;
  writes = λ id target h. refl;
}

abbrev unmounted : StagedState (Dict Bytes)
unmounted = record {
  staged = (a_volume.id, a_writeable) ∷ [];
  published = [];
  followed = [];
  watched = [];
  armed = [];
  host = [];
}

publish_staged-IsBound_example :
    let m = (publish_staged a_mounting_host a_volume.id (codes "/tree") a_publish unmounted).0 in
    IsBound writeable_volume a_volume.id (codes "/w") m
    × IsMounted a_mounting_host lookup a_mounting_host-IsMounting writeable_volume
        (codes "/tree")
        a_publish
        a_writeable
        unmounted
        m
unfolding publish_staged lookup same
publish_staged-IsBound_example =
    publish_staged-IsBound a_mounting_host lookup a_mounting_host-IsMounting (codes "/tree")
      a_publish a_writeable unmounted refl refl
