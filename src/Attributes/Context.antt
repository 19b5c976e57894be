-- ===== src/Attributes/Context.antt =====
-- What `parseVolumeContext` and `parseAttributes` answer with, and that the order in which Go walks
-- the map does not change a successful answer.
use mathlib.Core.List.{Permᴰ}
use git_csi_driver.Prelude.{
  ◌≡◌, ◌≢◌, ◌∙◌, ◌⊎◌, inl, inr, Option, [], ◌∷◌, ℤ, pos, ◌≤ℤ◌, ok, >>=-eq-ok, arith, ◌>>=◌,
}
use git_csi_driver.Prelude.Text.{Bytes, codes, has_prefix, same_iff}
use git_csi_driver.Prelude.Dict.{Dict, lookup}
use git_csi_driver.Prelude.Dict.Order.{IsDistinct, perm-IsDistinct}
use git_csi_driver.Attributes.{
  PullMode, pull_never, pull_on_demand, pull_timed, Attributes, Key, unknown_key, key_of,
  read_attribute, read_attributes, default_attributes, parse_volume_context, check_url,
}
use git_csi_driver.Attributes.Helper.{IsHelper, transport_helper_iff}

-- A timed pull is longer than zero.
abbrev pub HasInterval : PullMode → ℤ → Type 0
HasInterval pull_never every = Unit
HasInterval pull_on_demand every = Unit
HasInterval pull_timed every = pos 1 ≤ℤ every

abbrev pub IsOption : Bytes → Type 0
IsOption url = (rest : Bytes) × (url ≡ b'-' ∷ rest)

-- What the driver can serve.
pub record IsServable (a : Attributes) : Type 0 where
  pub named : a.url ≢ []
  pub no_option : ¬ IsOption a.url
  pub no_helper : ¬ IsHelper a.url
  pub followed : a.ref ≢ []
  pub whole : pos 0 ≤ℤ a.depth
  pub longer : HasInterval a.pull.mode a.pull.every

name_of : Key → Bytes
name_of Key.url_key = codes "url"
name_of Key.ref_key = codes "ref"
name_of Key.pull_key = codes "pull"
name_of Key.depth_key = codes "depth"
name_of Key.webhook_secret_key = codes "webhookSecret"
name_of Key.offline_key = codes "offline"
name_of Key.ephemeral_key = codes "csi.storage.k8s.io/ephemeral"
name_of Key.pod_name_key = codes "csi.storage.k8s.io/pod.name"
name_of Key.pod_namespace_key = codes "csi.storage.k8s.io/pod.namespace"
name_of Key.pod_uid_key = codes "csi.storage.k8s.io/pod.uid"
name_of Key.service_account_key = codes "csi.storage.k8s.io/serviceAccount.name"
name_of Key.unknown_key = []

-- A name that reads as a key is the name of that key.
name_of-key_of : (m : Bytes) → (m ≡ name_of (key_of m)) ⊎ (key_of m ≡ unknown_key)
unfolding key_of name_of
name_of-key_of m = ground (
  arith,
  same_iff m (codes "url"),
  same_iff m (codes "ref"),
  same_iff m (codes "pull"),
  same_iff m (codes "depth"),
  same_iff m (codes "webhookSecret"),
  same_iff m (codes "offline"),
  same_iff m (codes "csi.storage.k8s.io/ephemeral"),
  same_iff m (codes "csi.storage.k8s.io/pod.name"),
  same_iff m (codes "csi.storage.k8s.io/pod.namespace"),
  same_iff m (codes "csi.storage.k8s.io/pod.uid"),
  same_iff m (codes "csi.storage.k8s.io/serviceAccount.name"),
)

key_of-injective : (m n : Bytes) → m ≢ n → key_of m ≡ key_of n → key_of m ≡ unknown_key
key_of-injective m n d h = elim (name_of-key_of m) [
  | inr unknown ↦ unknown
  | inl em ↦ elim (name_of-key_of n) [ inr unknown ↦ h ∙ unknown | inl en ↦ absurd (d (cc)) ]
]

module _ (parse_duration : Bytes → Option ℤ) where
  abbrev Ranges : Attributes → Type 0
  Ranges a = (pos 0 ≤ℤ a.depth) × HasInterval a.pull.mode a.pull.every

  read_attribute-Ranges :
      (k : Key) (name value : Bytes) (a : Attributes) {b : Attributes}
      → Ranges a
      → read_attribute parse_duration k name value a ≡ ok b
      → Ranges b
  unfolding read_attribute
  read_attribute-Ranges Key.url_key name value a r h = ground arith
  read_attribute-Ranges _ name value a r h = ground arith

  read_attributes-Ranges :
      (context : Dict Bytes) (a : Attributes) {b : Attributes}
      → Ranges a
      → read_attributes parse_duration context a ≡ ok b
      → Ranges b
  unfolding read_attributes
  read_attributes-Ranges [] a r h = ground arith
  read_attributes-Ranges ((name, value) ∷ context) a r h =
      let (next, e, rest) =
        >>=-eq-ok (read_attribute parse_duration (key_of name) name value a) _ h in
      read_attributes-Ranges context next (read_attribute-Ranges (key_of name) name value a r e)
        rest

  -- A volume context that is read has a URL that is not empty, does not begin with a dash and names no
  -- transport helper, a ref that is not empty, a depth of zero or more and, where it is pulled by a
  -- timer, an interval of at least one nanosecond.
  pub parse_volume_context-IsServable :
      (context : Dict Bytes) {a : Attributes}
      → parse_volume_context parse_duration context ≡ ok a
      → IsServable a
  unfolding parse_volume_context default_attributes check_url has_prefix
  parse_volume_context-IsServable context {a} h =
      let (parsed, e, rest) = >>=-eq-ok (read_attributes parse_duration context _) _ h in
      let r = read_attributes-Ranges context _ (ground arith) e in
      ground (arith, transport_helper_iff a.url)

  -- Two entries of different keys are read in either order.
  read_attribute_comm :
      (k j : Key) (m n u v : Bytes) (a : Attributes) {b : Attributes}
      → k ≢ j
      → (read_attribute parse_duration k m u a >>= read_attribute parse_duration j n v) ≡ ok b
      → (read_attribute parse_duration j n v a >>= read_attribute parse_duration k m u) ≡ ok b
  unfolding read_attribute
  read_attribute_comm Key.url_key j m n u v a d h = ground arith
  read_attribute_comm _ j m n u v a d h = ground arith

module _ (parse_duration : Bytes → Option ℤ) where
  unknown_refused :
      (k : Key) (m u : Bytes) (a : Attributes) {next : Attributes}
      → k ≡ unknown_key
      → read_attribute parse_duration k m u a ≢ ok next
  unfolding read_attribute
  unknown_refused k m u a e h = ground arith

  pair_comm :
      (m n u v : Bytes) (context : Dict Bytes) (a : Attributes) {b : Attributes}
      → m ≢ n
      → read_attributes parse_duration ((m, u) ∷ (n, v) ∷ context) a ≡ ok b
      → read_attributes parse_duration ((n, v) ∷ (m, u) ∷ context) a ≡ ok b
  unfolding read_attributes
  pair_comm m n u v context a d h =
      let one = read_attribute parse_duration (key_of m) m u a in
      let (next, e, rest) = >>=-eq-ok one _ h in
      let (last, f, tail) = >>=-eq-ok (read_attribute parse_duration (key_of n) n v next) _ rest in
      let differ : key_of m ≢ key_of n =
        λ same_key. unknown_refused _ m u a (key_of-injective m n d same_key) e in
      let both =
        read_attribute_comm parse_duration (key_of m) (key_of n) m n u v a {b = last} differ
          (rw e f) in
      let (first, e', f') = >>=-eq-ok (read_attribute parse_duration (key_of n) n v a) _ both in
      rw e' (rw f' tail)

  read_attributes-perm :
      {c d : Dict Bytes} (a : Attributes) {b : Attributes}
      → Permᴰ c d
      → IsDistinct c
      → read_attributes parse_duration c a ≡ ok b
      → read_attributes parse_duration d a ≡ ok b
  unfolding read_attributes lookup
  read_attributes-perm a Permᴰ.nil d h = h
  read_attributes-perm a (Permᴰ.cons {a = (k, v)} {b = (i, w)} {l₁ = m} e p) d h =
      let (next, f, rest) = >>=-eq-ok (read_attribute parse_duration (key_of k) k v a) _ h in
      ground (arith, e, f, read_attributes-perm next p d.1 rest)
  read_attributes-perm a
        (Permᴰ.swap {a = (k, v)} {b = (i, w)} {a' = (k', v')} {b' = (i', w')} {l = m} e f) d h =
      let differ : k ≢ i = λ s. ground (arith, same_iff i k) in
      let swapped = pair_comm k i v w m a differ h in ground (arith, e, f, swapped)
  read_attributes-perm a (Permᴰ.trans p q) d h =
      read_attributes-perm a q (perm-IsDistinct p d) (read_attributes-perm a p d h)

  -- A volume context that is read in one order of the map is read with the same answer in every order,
  -- where its keys are distinct, as those of a map are.
  pub parse_volume_context-perm :
      {c d : Dict Bytes} {a : Attributes}
      → Permᴰ c d
      → IsDistinct c
      → parse_volume_context parse_duration c ≡ ok a
      → parse_volume_context parse_duration d ≡ ok a
  unfolding parse_volume_context
  parse_volume_context-perm {c} p d h =
      let (parsed, e, rest) = >>=-eq-ok (read_attributes parse_duration c default_attributes) _ h in
      rw (read_attributes-perm default_attributes p d e) rest
