-- ===== src/Volume.antt =====
-- volume.go, with the credential of republish.go and credentials.go: one volume of the node and what
-- the driver reports about it. `Demand` has what the times of the demands promise, `Health` the order
-- of the health report.
--
-- A time is in nanoseconds since Go's zero time, which is 0; `Sub` does not saturate here. A health
-- report is a value of `Report`, its text left out. The paths on the node's disk and the lock are not
-- modelled: one operation is one critical section.
pub mod Credential
pub mod Demand
pub mod Health
use git_csi_driver.Prelude.{
  ℕ, ◌+◌, ◌-◌, Bool, true, false, not, ◌&&◌, ◌||◌, Option, none, some, List, [], ◌∷◌, map, ℤ, pos,
  sub_ℕ, leb, ltb, ◌==◌, ltb_ℤ, if◌then◌else◌, is_some, length,
}
use git_csi_driver.Prelude.Text.{Bytes, same, is_empty}
use git_csi_driver.Prelude.Dict.{Dict, lookup, insert, remove}
use git_csi_driver.Prelude.Sort.{sort}
use git_csi_driver.Attributes.{Attributes, PodReference}
use git_csi_driver.Policy.{Policy, default_policy, author}
use git_csi_driver.Cluster.{ClaimReference}

pub data VolumeKind : Type 0 where
  inline_volume read_only_claim writeable_volume : VolumeKind

-- worktree.go's `change`.
pub record Change : Type 0 where
  pub path : Bytes
  pub size : ℤ

pub record Credentials : Type 0 where
  pub private_key : Bytes
  pub known_hosts : Bytes
  pub token : Bytes
  pub username : Bytes

pub record Volume : Type 0 where
  pub id : Bytes
  pub attributes : Attributes
  pub credentials : Option Credentials
  pub kind : VolumeKind
  pub commit : Bytes
  pub trouble : Bytes
  pub pod : PodReference
  pub targets : Dict PodReference
  pub pending : List Change
  pub claim : ClaimReference
  pub class : Bytes
  pub armed : Bool
  pub rules : Option Policy
  pub invalid : Bytes
  pub last_demand : ℕ
  pub last_pull : ℕ
  pub answered : ℕ
  pub taken : ℕ
  pub skipped : List Change
  pub unpushed : ℕ
  pub oldest : ℕ
  pub last_push : ℕ
  pub diverged : Bytes
  pub ref_deleted : Bool
  pub abandoned : Bytes
  pub abnormal : Bool
  pub credential_lost : Bool
  pub no_publish_secret : Bool

abbrev pub report_diverged : Bytes → Volume → Volume
report_diverged branch v = record v { diverged = branch }

abbrev pub report_healed : Volume → Volume
report_healed v = record v { diverged = [] }

abbrev pub report_ref_deleted : Bytes → Volume → Volume
report_ref_deleted commit v = record v { commit = commit; ref_deleted = true }

abbrev pub report_abandoned : Bytes → Volume → Volume
report_abandoned message v = record v { abandoned = message }

abbrev pub author_env : Volume → List Bytes
author_env v = elim v.rules [ none ↦ author default_policy | some rules ↦ author rules ]

abbrev pub is_writeable : VolumeKind → Bool
is_writeable inline_volume = false
is_writeable read_only_claim = false
is_writeable writeable_volume = true

abbrev pub writeable : Volume → Bool
writeable v = is_writeable v.kind

unfoldable pub bind : Bytes → PodReference → Volume → Volume
bind target pod v = record v { targets = insert target pod v.targets; pod = pod }

unfoldable pub bound_at : Bytes → Volume → Bool
bound_at target v = is_some (lookup target v.targets)

-- The volume, and how many targets are left.
unfoldable pub unbind : Bytes → Volume → Volume × ℕ
unbind target v = let left = remove target v.targets in (record v { targets = left }, length left)

unfoldable pub bound_targets : Volume → List Bytes
bound_targets v = sort (map (λ entry. entry.0) v.targets)

unfoldable pub bound_pods : Volume → List PodReference
bound_pods v = map (λ entry. entry.1) v.targets

abbrev pub set_claim : ClaimReference → Volume → Volume
set_claim claim v = record v { claim = claim }

abbrev pub no_changes : List Change → Bool
no_changes [] = true
no_changes (c ∷ cs) = false

-- Whether the set went from empty to not empty.
unfoldable pub report_pending : List Change → Volume → Volume × Bool
report_pending found v =
    (record v { pending = found }, no_changes v.pending && not (no_changes found))

abbrev xor : Bool → Bool → Bool
xor true b = not b
xor false b = b

-- Whether the volume moved between armed and unarmed.
unfoldable pub report_armed :
    ClaimReference → Bytes → Option Policy → Bytes → Volume → Volume × Bool
report_armed claim class rules invalid v =
    let armed = is_some rules in
    (
      record v { claim = claim; class = class; armed = armed; rules = rules; invalid = invalid },
      xor armed v.armed,
    )

unfoldable pub namespace_of : Volume → Bytes
namespace_of v = elim v.kind [
  | inline_volume ↦ v.pod.namespace
  | read_only_claim ↦ v.claim.namespace
  | writeable_volume ↦ v.claim.namespace
]

-- Whether the change's path is among those of the list.
unfoldable pub stands : List Change → Bytes → Bool
stands [] path = false
stands (one ∷ rest) path = same one.path path || stands rest path

unfoldable pub fresh_changes : List Change → List Change → List Change
fresh_changes standing [] = []
fresh_changes standing (one ∷ found) =
    let fresh = fresh_changes standing found in
    if stands standing one.path then fresh else one ∷ fresh

-- What the last pass did not already hold.
unfoldable pub report_skipped : List Change → Volume → Volume × List Change
report_skipped found v = (record v { skipped = found }, fresh_changes v.skipped found)

abbrev pub report_unpushed : ℕ → ℕ → Volume → Volume
report_unpushed count oldest v = record v { unpushed = count; oldest = oldest }

abbrev pub report_pushed : ℕ → Volume → Volume
report_pushed at v = record v { unpushed = 0; oldest = 0; last_push = at; trouble = [] }

-- `maxLatency != 0`
abbrev pub is_zero : ℤ → Bool
is_zero (pos n) = n == 0
is_zero _ = false

unfoldable pub overdue : ℕ → Volume → Bool
overdue now v = elim v.rules [
  | none ↦ false
  | some rules ↦
      not (v.unpushed == 0)
      && not (is_zero rules.max_latency)
      && not (v.oldest == 0)
      && ltb_ℤ rules.max_latency (sub_ℕ now v.oldest)
]

-- What a volume reports, one constructor for each message of `standingReport`.
pub data Report : Type 0 where
  -- Whether the PersistentVolume names no publish Secret.
  lost_credential : Bool → Report
  in_trouble : Bytes → Report
  deleted_ref : Bytes → Report
  diverged_to : Bytes → Bytes → Report
  unreadable_class : Bytes → Report
  over_size : List Change → Report
  late_commits : ℕ → Report
  left_behind : Bytes → Report
  unarmed : ℕ → ClaimReference → Report
  standing_pending : Bytes → Bytes → ℕ → Report
  standing : Bytes → Bytes → Report

unfoldable pub credential_report : Volume → Option Bool
credential_report v = if v.credential_lost then some v.no_publish_secret else none

-- The `switch` of `standingReport`.
unfoldable pub standing_case : ℕ → Volume → Bool × Report
standing_case now v =
    if not (is_empty v.trouble)
    then (true, in_trouble v.trouble)
    else if v.ref_deleted
    then (true, deleted_ref v.attributes.ref)
    else if not (is_empty v.diverged)
    then (true, diverged_to v.diverged v.attributes.ref)
    else if not (is_empty v.invalid)
    then (true, unreadable_class v.invalid)
    else if not (no_changes v.skipped)
    then (true, over_size v.skipped)
    else if overdue now v
    then (true, late_commits v.unpushed)
    else if not (is_empty v.abandoned)
    then (true, left_behind v.abandoned)
    else if is_writeable v.kind && not v.armed && not (no_changes v.pending)
    then (true, unarmed (length v.pending) v.claim)
    else if not (no_changes v.pending)
    then (false, standing_pending v.attributes.ref v.commit (length v.pending))
    else (false, standing v.attributes.ref v.commit)

-- Whether the report is abnormal, and the report.
unfoldable pub standing_report : ℕ → Volume → Bool × Report
standing_report now v = elim (credential_report v) [
  | some unnamed ↦ (true, lost_credential unnamed)
  | none ↦ standing_case now v
]

-- The report, and whether the flag moved since the last call.
unfoldable pub take_health : ℕ → Volume → Volume × (Bool × Report) × Bool
take_health now v =
    let said = standing_report now v in
    (record v { abnormal = said.0 }, said, xor said.0 v.abnormal)

abbrev pub report_demanded : ℕ → Volume → Volume
report_demanded at v = record v { last_demand = at }

abbrev pub report_pulled : ℕ → Volume → Volume
report_pulled at v = record v { last_pull = at }

-- `demandSkew`, one minute.
abbrev pub demand_skew : ℕ
demand_skew = 60000000000

-- `start.Add(-demandSkew)` recorded where it is later than what is answered: a start within the first
-- minute of the calendar answers nothing, on ℕ as on Go's times.
unfoldable pub later_answer : ℕ → ℕ → ℕ
later_answer start answered =
    if ltb answered (start - demand_skew) then start - demand_skew else answered

unfoldable pub answer_demands_before : ℕ → Volume → Volume
answer_demands_before start v = record v { answered = later_answer start v.answered }

unfoldable pub take_demand : ℕ → ℕ → Volume → Volume × Bool
take_demand at now v =
    if at == v.taken || leb at v.answered
    then (v, false)
    else (record v { taken = at; answered = later_answer now v.answered }, true)

abbrev pub report_commit : Bytes → Volume → Volume
report_commit commit v = record v { commit = commit; trouble = []; ref_deleted = false }

-- Whether the failure is the first since the last success.
unfoldable pub report_trouble : Bytes → Volume → Volume × Bool
report_trouble message v = (record v { trouble = message }, is_empty v.trouble)
