-- ===== src/Forge/Webhook.antt =====
-- webhook.go: the listener of the controller. A request names a Secret in its path, the Secret
-- verifies the body, and the body names what to mark. `Target` has the paths, `Answer` what an answer
-- implies, `Cache` how old a Secret may be.
--
-- The API server is the record `Api`. Time is in nanoseconds. The counter of the answers and the log
-- are not modelled: the answer is the counter's label.
pub mod Target
pub mod Answer
pub mod Cache
use git_csi_driver.Prelude.{
  ℕ, ◌+◌, Bool, true, false, not, ◌&&◌, ◌||◌, Option, none, some, List, [], ◌∷◌, ◌++◌, ℤ, pos,
  sub_ℕ, leb_ℤ, leb, if◌then◌else◌, length,
}
use git_csi_driver.Prelude.Text.{Bytes, codes, is_empty, cut_prefix, cut_byte, contains_byte}
use git_csi_driver.Prelude.Dict.{Dict, lookup, insert, value_of}
use git_csi_driver.Cluster.{PersistentVolume}
use git_csi_driver.Forge.Payload.{Push, PushPayload, parse_push}
use git_csi_driver.Forge.Verify.{ForgeName, Headers, verify}
use git_csi_driver.Forge.Match.{Marked, mark}

abbrev pub webhook_body_limit : ℕ
webhook_body_limit = 1048576

-- Thirty seconds.
abbrev pub webhook_secret_ttl : ℤ
webhook_secret_ttl = pos 30000000000

pub record CachedSecret : Type 0 where
  pub value : Bytes
  pub read : ℕ

-- What a read of a Secret answers: its data, that it is not there, or another failure.
pub data SecretAnswer : Type 0 where
  found : Dict Bytes → SecretAnswer
  not_found failed_read : SecretAnswer

-- `errUnconfigured` and every other failure.
pub data SecretOf : Type 0 where
  configured : Bytes → SecretOf
  unconfigured unreadable : SecretOf

pub record Api : Type 0 where
  -- Whether the controller found a cluster.
  pub has_client : Bool
  -- The Secret that `namespace/name` names.
  pub get_secret : Bytes → SecretAnswer
  pub listed : Option (List PersistentVolume)
  pub patch : Bytes → Bool

between : Option (Bytes × Bytes) → Option (Bytes × Bytes)
between none = none
between (some (namespace, name)) =
    if is_empty namespace || is_empty name || contains_byte b'/' name
    then none
    else some (namespace, name)

unfoldable pub webhook_target : Bytes → Option (Bytes × Bytes)
unfolding between
webhook_target path = elim (cut_prefix (codes "/webhook/") path) [
  | none ↦ none
  | some rest ↦ between (cut_byte b'/' rest)
]

unfoldable pub fresh_value : ℕ → Option CachedSecret → Option Bytes
fresh_value now none = none
fresh_value now (some holding) =
    if leb_ℤ webhook_secret_ttl (sub_ℕ now holding.read) then none else some holding.value

unfoldable pub cached : Dict CachedSecret → Bytes → ℕ → Option Bytes
unfolding fresh_value
cached held key now = fresh_value now (lookup key held)

unfoldable pub remember : Bytes → Bytes → ℕ → Dict CachedSecret → Dict CachedSecret
remember key value now held = insert key (record { value = value; read = now }) held

-- What the read answers, and what the cache holds after it.
unfoldable pub take_answer :
    Bytes → ℕ → Dict CachedSecret → SecretAnswer → SecretOf × Dict CachedSecret
take_answer key now held not_found = (unconfigured, held)
take_answer key now held failed_read = (unreadable, held)
take_answer key now held (found secret) =
    let value = value_of (codes "secret") secret in
    if is_empty value then (unconfigured, held) else (configured value, remember key value now held)

-- The clock is read at `now`, and again at `later` when the Secret is remembered.
unfoldable pub secret_of : Api → Bytes → ℕ → ℕ → Dict CachedSecret → SecretOf × Dict CachedSecret
unfolding take_answer
secret_of api key now later held =
    if not api.has_client then (unreadable, held) else elim (cached held key now) [
      | some value ↦ (configured value, held)
      | none ↦ take_answer key later held (api.get_secret key)
    ]

-- The four answers: 202 with the count, 401, 400 and 500.
pub data Response : Type 0 where
  accepted : ℕ → Response
  unauthenticated malformed failed : Response

pub record Request : Type 0 where
  pub path : Bytes
  -- `none` where the body could not be read.
  pub body : Option Bytes
  pub headers : Headers

-- The answer, and the volumes that were patched for it.
pub record Handled : Type 0 where
  pub response : Response
  pub patched : List Bytes

abbrev pub answer : Response → Handled
answer response = record { response = response; patched = [] }

-- `io.ReadAll(http.MaxBytesReader(…))`
unfoldable pub read_body : Option Bytes → Option Bytes
read_body none = none
read_body (some body) = if leb (length body) webhook_body_limit then some body else none

-- The end of `handle`: the push is marked.
unfoldable pub handle_push : Api → Bytes → Bytes → Push → Handled
handle_push api namespace name pushed = elim (mark api.patch api.listed namespace name pushed) [
  | none ↦ answer failed
  | some m ↦ record { response = accepted m.marked; patched = m.patched }
]

abbrev pub secret_key : Bytes → Bytes → Bytes
secret_key namespace name = namespace ++ b'/' ∷ name

module _ (digest : Bytes → Bytes → Bytes) (decode : Bytes → Option PushPayload) where
  -- The middle of `handle`: the body is verified and read.
  unfoldable pub handle_body : Api → Bytes → Bytes → Headers → Bytes → SecretOf → Handled
  unfolding handle_push
  handle_body api namespace name headers body unconfigured = answer unauthenticated
  handle_body api namespace name headers body unreadable = answer failed
  handle_body api namespace name headers body (configured secret) =
      if not (verify digest headers body secret).1
      then answer unauthenticated
      else elim (parse_push decode body) [
        | none ↦ answer malformed
        | some pushed ↦ handle_push api namespace name pushed
      ]

  unfoldable pub handle : Api → ℕ → ℕ → Request → Dict CachedSecret → Handled × Dict CachedSecret
  unfolding handle_body read_body
  handle api now later request held = elim (webhook_target request.path) [
    | none ↦ (answer unauthenticated, held)
    | some (namespace, name) ↦ elim (read_body request.body) [
      | none ↦ (answer malformed, held)
      | some body ↦
          let (secret, held') = secret_of api (secret_key namespace name) now later held in
          (handle_body api namespace name request.headers body secret, held')
    ]
  ]
