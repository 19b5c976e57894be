-- ===== src/Cluster.antt =====
-- The objects of the Kubernetes API that the driver reads, with the fields that it reads of them,
-- and the driver's name. A `nil` pointer is `none`.
use git_csi_driver.Prelude.{Bool, Option, List}
use git_csi_driver.Prelude.Text.{Bytes, codes}
use git_csi_driver.Prelude.Dict.{Dict}

abbrev pub driver_name : Bytes
driver_name = codes "git.liken.sh"

-- `corev1.PersistentVolumeAccessMode`
pub data AccessMode : Type 0 where
  read_write_once read_only_many read_write_many read_write_once_pod : AccessMode

-- `Spec.CSI`
pub record CsiSource : Type 0 where
  pub driver : Bytes
  pub volume_handle : Bytes
  pub attributes : Dict Bytes

-- The claim a volume is bound to: arming.go's `claimReference`, and the two fields of
-- `Spec.ClaimRef`.
pub record ClaimReference : Type 0 where
  pub namespace : Bytes
  pub name : Bytes

pub record PersistentVolume : Type 0 where
  pub name : Bytes
  pub source : Option CsiSource
  pub claim_ref : Option ClaimReference
  pub access_modes : List AccessMode
  pub annotations : Dict Bytes
  -- `Status.Phase == VolumeBound`
  pub is_bound : Bool
