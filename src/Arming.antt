-- ===== src/Arming.antt =====
-- arming.go, with `heldVolume` of demand.go: the claim of a writeable volume and the class that arms it.
-- The watch is a parameter: what its store holds, and the copies of the claim that it offers. So is the API
-- server: the volumes it lists and the classes it has.
pub mod Armed
use git_csi_driver.Prelude.{
  ℕ, Bool, false, not, ◌&&◌, Option, none, some, List, [], ◌∷◌, if◌then◌else◌, ℤ, leb_ℤ, Error,
  Result, err, ok, ◌>>=◌, ◌>>◌, guard,
}
use git_csi_driver.Prelude.Text.{Bytes, codes, same, is_empty}
use git_csi_driver.Prelude.Dict.{Dict}
use git_csi_driver.Cluster.{CsiSource, ClaimReference, PersistentVolume, driver_name}
use git_csi_driver.Policy.{Policy, parse_policy}
use git_csi_driver.Volume.{Volume, report_armed, take_health}

-- `Status.CurrentVolumeAttributesClassName` and `Spec.VolumeAttributesClassName`.
pub record Claim : Type 0 where
  pub name : Bytes
  pub current : Option Bytes
  pub asked : Option Bytes

-- A VolumeAttributesClass.
pub record Class : Type 0 where
  pub driver : Bytes
  pub parameters : Dict Bytes

abbrev is_handle : Bytes → CsiSource → Bool
is_handle handle source = same source.driver driver_name && same source.volume_handle handle

-- The volumes of the index of the handles.
unfoldable pub by_handle : Bytes → List PersistentVolume → List PersistentVolume
by_handle handle [] = []
by_handle handle (held ∷ volumes) =
    let rest = by_handle handle volumes in
    let mine : Bool = elim held.source [ none ↦ false | some source ↦ is_handle handle source ] in
    if mine then held ∷ rest else rest

abbrev only_one : List PersistentVolume → Option PersistentVolume
only_one [] = none
only_one (held ∷ []) = some held
only_one (held ∷ other ∷ more) = none

-- `heldVolume`; the store is none before the watch made it.
unfoldable pub held_volume : Option (List PersistentVolume) → Bytes → Option PersistentVolume
unfolding by_handle
held_volume none handle = none
held_volume (some store) handle = only_one (by_handle handle store)

-- The first volume that the API server lists with the handle, and its claim.
unfoldable pub listed_claim : Bytes → List PersistentVolume → Option ClaimReference
listed_claim handle [] = none
listed_claim handle (held ∷ volumes) =
    let later = listed_claim handle volumes in
    let mine : Bool = elim held.source [ none ↦ false | some source ↦ is_handle handle source ] in
    if mine then held.claim_ref else later

abbrev bound_claim : Option PersistentVolume → Option ClaimReference
bound_claim none = none
bound_claim (some held) = if held.is_bound then held.claim_ref else none

-- `listed` is none where the API server does not answer.
unfoldable pub claim_of :
    Option (List PersistentVolume) → Option (List PersistentVolume) → Bytes → Option ClaimReference
unfolding held_volume listed_claim
claim_of store listed handle = elim (bound_claim (held_volume store handle)) [
  | some claim ↦ some claim
  | none ↦ elim listed [ none ↦ none | some volumes ↦ listed_claim handle volumes ]
]

abbrev pub named : Option Bytes → Bytes
named none = []
named (some name) = name

unfoldable pub class_name : Claim → Bytes
class_name held = if is_empty (named held.current) then named held.asked else named held.current

-- What `armed` tells: an Event where the volume moved between armed and unarmed, and the watch of the tree
-- where the class set a new quiesce.
pub record Told : Type 0 where
  pub moved : Bool
  pub class_changed : Bool

abbrev pub same_quiesce : Policy → Option Policy → Bool
same_quiesce rules none = false
same_quiesce rules (some before) =
    leb_ℤ before.quiesce rules.quiesce && leb_ℤ rules.quiesce before.quiesce

-- Whether the rules of a class that is read set a new quiesce.
abbrev pub class_changes : Option Policy → Option Policy → Bool
class_changes none before = false
class_changes (some rules) before = not (same_quiesce rules before)

unfoldable pub armed : ℕ → ClaimReference → Bytes → Option Policy → Bytes → Volume → Volume × Told
unfolding report_armed take_health
armed now claim class rules invalid v =
    let (reported, moved) = report_armed claim class rules invalid v in
    (
      (take_health now reported).0,
      record { moved = moved; class_changed = class_changes rules v.rules },
    )

-- The rules of a class, with what is wrong with a class that is not read.
abbrev pub resolved : (Error → Bytes) → Result Policy → Option Policy × Bytes
resolved message (err refused) = (none, message refused)
resolved message (ok rules) = (some rules, [])

module _ (parse_duration parse_quantity : Bytes → Option ℤ) (message : Bytes → Error → Bytes) where
  unfoldable pub rules_of : Bytes → Class → Option Policy × Bytes
  rules_of name class =
      if not (same class.driver driver_name)
      then (none, [])
      else resolved (message name) (parse_policy parse_duration parse_quantity class.parameters)

  -- None where the class was not read. `class_of` asks the API server.
  unfoldable pub class_rules : (Bytes → Option Class) → Bytes → Option (Option Policy × Bytes)
  unfolding rules_of
  class_rules class_of name =
      if is_empty name
      then some (none, [])
      else elim (class_of name) [ none ↦ none | some class ↦ some (rules_of name class) ]

  -- None is the error that is tried again.
  unfoldable pub read :
      (Bytes → Option Class) → ℕ → ClaimReference → Claim → Volume → Option (Volume × Told)
  unfolding class_rules armed class_name
  read class_of now claim held v =
      if not (same held.name claim.name)
      then some (v, record { moved = false; class_changed = false })
      else elim (class_rules class_of (class_name held)) [
        | none ↦ none
        | some (rules, invalid) ↦ some (armed now claim (class_name held) rules invalid v)
      ]

  -- The tries of one copy: each with the classes at that time, and the copy that arrived before the next.
  unfoldable pub tries :
      ClaimReference → Claim → List ((Bytes → Option Class) × ℕ × Option Claim) → Volume → Volume
  unfolding read
  tries claim held [] v = v
  tries claim held ((class_of, now, newer) ∷ rounds) v = elim (read class_of now claim held v) [
    | some (done, told) ↦ done
    | none ↦ elim newer [ none ↦ tries claim held rounds v | some copy ↦ tries claim copy rounds v ]
  ]
