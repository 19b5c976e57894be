-- ===== src/Attributes.antt =====
-- attributes.go: the attributes of a volume, read from the volume context. `Context` has what a
-- volume context that was read satisfies, `Helper` the URLs that name a transport helper.
--
-- `time.ParseDuration` computes a fraction in floating point, so it is the parameter
-- `parse_duration` here: the duration in nanoseconds, and `none` for a text that is no duration.
pub mod Context
pub mod Helper
use git_csi_driver.Prelude.{
  ℕ, Bool, true, false, not, ◌&&◌, ◌||◌, Option, none, some, List, [], ◌∷◌, ℤ, pos, leb, ltb, ◌==◌,
  ltb_ℤ, leb_ℤ, if◌then◌else◌, is_some, Result, ok, err, Error, invalid_argument, ◌>>=◌, ◌>>◌,
  guard,
}
use git_csi_driver.Prelude.Text.{Bytes, codes, same, is_empty, has_prefix}
use git_csi_driver.Prelude.Dict.{Dict, lookup}
use git_csi_driver.Prelude.Number.{atoi}

-- What a volume does when the fetch at publish fails.
pub data OfflinePolicy : Type 0 where
  offline_refuse offline_allow_stale : OfflinePolicy

pub data PullMode : Type 0 where
  pull_never pull_on_demand pull_timed : PullMode

pub record PullPolicy : Type 0 where
  pub mode : PullMode
  pub every : ℤ

unfoldable pub pull_every : ℤ → PullPolicy
pull_every interval = record { mode = pull_timed; every = interval }

-- Whether the volume joins its repository's loop.
unfoldable pub follows : PullMode → Bool
follows pull_never = false
follows pull_on_demand = true
follows pull_timed = true

-- The interval of the loop's timer, and none where a demand alone pulls the volume.
unfoldable pub timer : PullMode → ℤ → Option ℤ
timer pull_timed every = some every
timer pull_never every = none
timer pull_on_demand every = none

pub record PodReference : Type 0 where
  pub name : Bytes
  pub namespace : Bytes
  pub uid : Bytes

pub record Attributes : Type 0 where
  pub url : Bytes
  pub ref : Bytes
  pub pull : PullPolicy
  pub depth : ℤ
  pub offline : OfflinePolicy
  pub ephemeral : Bool
  pub pod : PodReference
  pub webhook_secret : Bytes

abbrev pub no_pod : PodReference
no_pod = record { name = []; namespace = []; uid = [] }

abbrev pub default_ref : Bytes
default_ref = codes "main"

-- Five minutes.
abbrev pub default_pull : ℤ
default_pull = pos 300000000000

abbrev refused : Bytes → Error
refused name = record { code = invalid_argument; subject = name }

-- The attributes, one constructor for each `case` of the `switch`.
pub data Key : Type 0 where
  url_key ref_key pull_key depth_key webhook_secret_key offline_key ephemeral_key : Key
  pod_name_key pod_namespace_key pod_uid_key service_account_key unknown_key : Key

unfoldable pub key_of : Bytes → Key
key_of name =
    if same name (codes "url")
    then url_key
    else if same name (codes "ref")
    then ref_key
    else if same name (codes "pull")
    then pull_key
    else if same name (codes "depth")
    then depth_key
    else if same name (codes "webhookSecret")
    then webhook_secret_key
    else if same name (codes "offline")
    then offline_key
    else if same name (codes "csi.storage.k8s.io/ephemeral")
    then ephemeral_key
    else if same name (codes "csi.storage.k8s.io/pod.name")
    then pod_name_key
    else if same name (codes "csi.storage.k8s.io/pod.namespace")
    then pod_namespace_key
    else if same name (codes "csi.storage.k8s.io/pod.uid")
    then pod_uid_key
    else if same name (codes "csi.storage.k8s.io/serviceAccount.name")
    then service_account_key
    else unknown_key

abbrev is_alnum : ℕ → Bool
is_alnum c = leb b'0' c && leb c b'9' || leb b'A' c && leb c b'Z' || leb b'a' c && leb c b'z'

-- The class `[A-Za-z0-9+.\-]`.
abbrev is_scheme : ℕ → Bool
is_scheme c = is_alnum c || c == b'+' || c == b'.' || c == b'-'

-- What is left of `[A-Za-z0-9+.\-]*::` at this place. The class holds no colon.
in_helper : Bytes → Bool
in_helper [] = false
in_helper (c ∷ []) = false
in_helper (c ∷ d ∷ s) =
    let rest = in_helper (d ∷ s) in if c == b':' then d == b':' else is_scheme c && rest

-- The regular expression `^[A-Za-z0-9][A-Za-z0-9+.\-]*::`.
unfoldable pub transport_helper : Bytes → Bool
unfolding in_helper
transport_helper [] = false
transport_helper (c ∷ s) = is_alnum c && in_helper s

unfoldable pub check_url : Bytes → Result (Unit {0})
unfolding transport_helper has_prefix
check_url url = do
  guard (not (has_prefix (codes "-") url)) (refused (codes "url"))
  guard (not (transport_helper url)) (refused (codes "url"))

unfoldable pub parse_depth : Bytes → Result ℤ
unfolding atoi
parse_depth value = elim (atoi value) [
  | none ↦ err (refused (codes "depth"))
  | some depth ↦ if ltb_ℤ depth (pos 0) then err (refused (codes "depth")) else ok depth
]

unfoldable pub parse_offline : Bytes → Result OfflinePolicy
unfolding same
parse_offline value =
    if same value (codes "refuse")
    then ok offline_refuse
    else if same value (codes "allowStale")
    then ok offline_allow_stale
    else err (refused (codes "offline"))

unfoldable pub default_attributes : Attributes
unfolding pull_every
default_attributes = record {
  url = [];
  ref = default_ref;
  pull = pull_every default_pull;
  depth = pos 0;
  offline = offline_refuse;
  ephemeral = false;
  pod = no_pod;
  webhook_secret = [];
}

abbrev is_on_demand : PullMode → Bool
is_on_demand pull_on_demand = true
is_on_demand pull_never = false
is_on_demand pull_timed = false

abbrev pub read_only_attributes : List Bytes
read_only_attributes = codes "pull" ∷ codes "depth" ∷ codes "offline" ∷ codes "webhookSecret" ∷ []

-- The loop of a writeable stage over the attributes it refuses.
unfoldable pub refuse_each : List Bytes → Dict Bytes → Result (Unit {0})
unfolding lookup
refuse_each [] context = ok tt
refuse_each (key ∷ keys) context = do
  guard (not (is_some (lookup key context))) (refused key)
  refuse_each keys context

module _ (parse_duration : Bytes → Option ℤ) where
  unfoldable pub parse_pull : Bytes → Result PullPolicy
  unfolding same pull_every
  parse_pull value =
      if same value (codes "never")
      then ok (record { mode = pull_never; every = pos 0 })
      else if same value (codes "on-demand")
      then ok (record { mode = pull_on_demand; every = pos 0 })
      else elim (parse_duration value) [
        | none ↦ err (refused (codes "pull"))
        | some pull ↦
            if leb_ℤ pull (pos 0) then err (refused (codes "pull")) else ok (pull_every pull)
      ]

  -- One round of the `switch`: the name is `name`, and `key` is what it reads as.
  unfoldable pub read_attribute : Key → Bytes → Bytes → Attributes → Result Attributes
  unfolding parse_pull parse_depth parse_offline
  read_attribute url_key name value parsed = ok (record parsed { url = value })
  read_attribute ref_key name value parsed = ok (record parsed { ref = value })
  read_attribute pull_key name value parsed = do
    p ← parse_pull value
    ok (record parsed { pull = p })
  read_attribute depth_key name value parsed = do
    d ← parse_depth value
    ok (record parsed { depth = d })
  read_attribute webhook_secret_key name value parsed =
      ok (record parsed { webhook_secret = value })
  read_attribute offline_key name value parsed = do
    o ← parse_offline value
    ok (record parsed { offline = o })
  read_attribute ephemeral_key name value parsed =
      ok (record parsed { ephemeral = same value (codes "true") })
  read_attribute pod_name_key name value parsed =
      let pod = parsed.pod in ok (record parsed { pod = record pod { name = value } })
  read_attribute pod_namespace_key name value parsed =
      let pod = parsed.pod in ok (record parsed { pod = record pod { namespace = value } })
  read_attribute pod_uid_key name value parsed =
      let pod = parsed.pod in ok (record parsed { pod = record pod { uid = value } })
  read_attribute service_account_key name value parsed = ok parsed
  read_attribute unknown_key name value parsed = err (refused name)

  -- The loop over the map, in the order of the list.
  unfoldable pub read_attributes : Dict Bytes → Attributes → Result Attributes
  unfolding read_attribute key_of
  read_attributes [] parsed = ok parsed
  read_attributes ((name, value) ∷ context) parsed = do
    next ← read_attribute (key_of name) name value parsed
    read_attributes context next

  unfoldable pub parse_volume_context : Dict Bytes → Result Attributes
  unfolding read_attributes default_attributes check_url
  parse_volume_context context = do
    parsed ← read_attributes context default_attributes
    guard (not (is_empty parsed.url)) (refused (codes "url"))
    check_url parsed.url
    guard (not (is_empty parsed.ref)) (refused (codes "ref"))
    ok parsed

  -- The publish call's volume context and its `readonly` flag.
  unfoldable pub parse_attributes : Dict Bytes → Bool → Result Attributes
  unfolding parse_volume_context
  parse_attributes context readonly = do
    parsed ← parse_volume_context context
    guard (not (parsed.ephemeral && not readonly)) (refused (codes "readOnly"))
    guard (not (parsed.ephemeral && not (is_empty parsed.webhook_secret)))
        (refused (codes "webhookSecret"))
    guard (not (parsed.ephemeral && is_on_demand parsed.pull.mode)) (refused (codes "pull"))
    ok parsed

  -- `true` where the kind is a writeable volume.
  unfoldable pub parse_stage_attributes : Bool → Dict Bytes → Result Attributes
  unfolding refuse_each parse_volume_context
  parse_stage_attributes false context = parse_volume_context context
  parse_stage_attributes true context = do
    refuse_each read_only_attributes context
    parse_volume_context context
