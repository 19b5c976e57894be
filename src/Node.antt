-- ===== src/Node.antt =====
-- node.go, stage.go and readonly.go: the calls that the kubelet makes of a node. `Stage` has the fetch of a
-- read-only volume, `Publish` the publish and the unpublish of an inline one and what they leave, and `Staged`
-- the publish and the unstage of a volume that was staged.
pub mod Stage
pub mod Publish
pub mod Staged
pub mod Work
pub mod Arrive
pub mod Stats
use git_csi_driver.Prelude.{not, Error, Result, err, ok, ◌>>◌, guard, invalid_argument}
use git_csi_driver.Prelude.Text.{Bytes, codes, is_empty, contains_byte}
use git_csi_driver.Prelude.Dict.{Dict, value_of}
use git_csi_driver.Attributes.{PodReference}
use git_csi_driver.Volume.{VolumeKind, read_only_claim, writeable_volume}

abbrev pub refused_argument : Bytes → Error
refused_argument name = record { code = invalid_argument; subject = name }

-- The modes of `csi.VolumeCapability_AccessMode`.
pub data Mode : Type 0 where
  unknown_mode single_node_writer single_node_reader_only multi_node_reader_only : Mode
  multi_node_single_writer multi_node_multi_writer : Mode
  single_node_single_writer single_node_multi_writer : Mode

unfoldable pub stage_kind : Mode → Result VolumeKind
stage_kind single_node_single_writer = ok writeable_volume
stage_kind multi_node_reader_only = ok read_only_claim
stage_kind single_node_reader_only = ok read_only_claim
stage_kind other = err (refused_argument (codes "access_mode"))

-- The guards of a publish.
unfoldable pub check_publish : Bytes → Bytes → Result (Unit {0})
check_publish id target =
    guard (not (is_empty id)) (refused_argument (codes "volume_id"))
    >> guard (not (contains_byte b'/' id)) (refused_argument (codes "volume_id"))
    >> guard (not (is_empty target)) (refused_argument (codes "target_path"))

unfoldable pub check_unpublish : Bytes → Bytes → Result (Unit {0})
check_unpublish id target =
    guard (not (is_empty id)) (refused_argument (codes "volume_id"))
    >> guard (not (is_empty target)) (refused_argument (codes "target_path"))

unfoldable pub check_unstage : Bytes → Bytes → Result (Unit {0})
check_unstage id staging =
    guard (not (is_empty id)) (refused_argument (codes "volume_id"))
    >> guard (not (is_empty staging)) (refused_argument (codes "staging_target_path"))

-- `podOf`
unfoldable pub pod_of : Dict Bytes → PodReference
pod_of context = record {
  name = value_of (codes "csi.storage.k8s.io/pod.name") context;
  namespace = value_of (codes "csi.storage.k8s.io/pod.namespace") context;
  uid = value_of (codes "csi.storage.k8s.io/pod.uid") context;
}
