-- ===== src/Forge/Match/Team.antt =====
-- Which volumes a push marks.
use mathlib.Core.List.{Memᴰ}
use git_csi_driver.Prelude.{
  ◌≤◌, ◌≡◌, refl, ◌↔◌, ◌≢◌, ◌⊎◌, Bool, true, some, List, [], ◌∷◌, ◌++◌, All, arith, length, inl,
  inr, sym, Bool-cases, Option-cases,
}
use git_csi_driver.Prelude.Text.{Bytes, codes, same, same_iff}
use git_csi_driver.Prelude.Dict.{value_of}
use git_csi_driver.Cluster.{AccessMode, CsiSource, ClaimReference, PersistentVolume, driver_name}
use git_csi_driver.Forge.Url.{comparison_key}
use git_csi_driver.Forge.Match.{
  volume_ref, all_read_only, read_only_claim_volume, ref_matches, holds_key, follows_push,
  matches_push, mark_each,
}

-- The volume is this driver's, names the Secret, and is bound in the namespace.
abbrev pub IsOfTeam : Bytes → Bytes → PersistentVolume → CsiSource → ClaimReference → Type 0
IsOfTeam namespace secret held source claim =
    (held.source ≡ some source)
    × (source.driver ≡ driver_name)
    × (value_of (codes "webhookSecret") source.attributes ≡ secret)
    × (held.claim_ref ≡ some claim)
    × (claim.namespace ≡ namespace)

-- The volume is read-only on every node.
abbrev pub IsReadOnly : PersistentVolume → Type 0
IsReadOnly held =
    (held.access_modes ≢ []) × All (λ mode. mode ≡ AccessMode.read_only_many) held.access_modes

all_read_only_iff :
    (modes : List AccessMode)
    → (all_read_only modes ≡ true) ↔ All (λ mode. mode ≡ AccessMode.read_only_many) modes
unfolding all_read_only
all_read_only_iff [] = (λ h. tt, λ h. refl)
all_read_only_iff (mode ∷ modes) =
    let (to, from) = all_read_only_iff modes in
    (λ h. (ground arith, to (ground arith)), λ h. ground (arith, from h.1))

holds_key-mem : (key : Bytes) (keys : List Bytes) → holds_key key keys ≡ true → Memᴰ key keys
unfolding holds_key
holds_key-mem key [] h = cc
holds_key-mem key (k ∷ keys) h = elim (Bool-cases (same k key)) [
  | inl e ↦ Memᴰ.head (sym ((same_iff k key).0 e))
  | inr d ↦ Memᴰ.tail (holds_key-mem key keys (ground arith))
]

mem-holds_key : (key : Bytes) {keys : List Bytes} → Memᴰ key keys → holds_key key keys ≡ true
unfolding holds_key
mem-holds_key key (Memᴰ.head {x = k} e) = ground (arith, same_iff k key)
mem-holds_key key (Memᴰ.tail m) = ground (arith, mem-holds_key key m)

-- The ref is the followed one, in full or as the branch or the tag of that name.
abbrev pub NamesRef : Bytes → Bytes → Type 0
NamesRef pushed followed =
    (pushed ≡ followed)
    ⊎ (pushed ≡ codes "refs/heads/" ++ followed)
    ⊎ (pushed ≡ codes "refs/tags/" ++ followed)

-- The volume's URL has the key of one of the push's, and its ref is the pushed one.
abbrev pub Follows : CsiSource → List Bytes → Bytes → Type 0
Follows source keys ref =
    (value_of (codes "url") source.attributes ≢ [])
    × Memᴰ (comparison_key (value_of (codes "url") source.attributes)) keys
    × NamesRef ref (volume_ref source.attributes)

ref_matches_iff :
    (pushed followed : Bytes) → (ref_matches pushed followed ≡ true) ↔ NamesRef pushed followed
unfolding ref_matches
ref_matches_iff pushed followed = (
  λ h. ground (
    arith,
    same_iff pushed followed,
    same_iff pushed (codes "refs/heads/" ++ followed),
    same_iff pushed (codes "refs/tags/" ++ followed),
  ),
  λ h. ground (
    arith,
    same_iff pushed followed,
    same_iff pushed (codes "refs/heads/" ++ followed),
    same_iff pushed (codes "refs/tags/" ++ followed),
  ),
)

follows_push_iff :
    (source : CsiSource) (keys : List Bytes) (ref : Bytes)
    → (follows_push source keys ref ≡ true) ↔ Follows source keys ref
unfolding follows_push
follows_push_iff source keys ref =
    let key = comparison_key (value_of (codes "url") source.attributes) in
    let names = ref_matches_iff ref (volume_ref source.attributes) in
    (
      λ h. (ground arith, holds_key-mem key keys (ground arith), names.0 (ground arith)),
      λ (named, member, same_ref).
          ground (arith, mem-holds_key key member, names.1 same_ref, named),
    )

matches_sound :
    (held : PersistentVolume) (namespace secret : Bytes) (keys : List Bytes) (ref : Bytes)
    → matches_push held namespace secret keys ref ≡ true
    → (source : CsiSource) × (claim : ClaimReference) × IsOfTeam namespace secret held source claim
      × IsReadOnly held
      × Follows source keys ref
unfolding matches_push read_only_claim_volume
matches_sound held namespace secret keys ref h = elim (Option-cases held.source) [
  | inl n ↦ ground arith
  | inr (source, s) ↦ elim (Option-cases held.claim_ref) [
    | inl n ↦ ground arith
    | inr (claim, c) ↦ (
      source,
      claim,
      (
        s,
        ground (arith, same_iff source.driver driver_name),
        ground (arith, same_iff (value_of (codes "webhookSecret") source.attributes) secret),
        c,
        ground (arith, same_iff claim.namespace namespace),
      ),
      (ground arith, (all_read_only_iff held.access_modes).0 (ground arith)),
      (follows_push_iff source keys ref).0 (ground arith),
    )
  ]
]

matches_complete :
    (held : PersistentVolume) (namespace secret : Bytes) (keys : List Bytes) (ref : Bytes)
    → ((source : CsiSource) × (claim : ClaimReference) × IsOfTeam namespace secret held source claim
        × IsReadOnly held
        × Follows source keys ref)
    → matches_push held namespace secret keys ref ≡ true
unfolding matches_push read_only_claim_volume
matches_complete held namespace secret keys ref
      (source, claim, (s, d, n, c, b), (some_mode, modes), follows) =
    ground (
      arith,
      same_iff source.driver driver_name,
      same_iff (value_of (codes "webhookSecret") source.attributes) secret,
      same_iff claim.namespace namespace,
      (all_read_only_iff held.access_modes).1 modes,
      (follows_push_iff source keys ref).1 follows,
    )

-- A push marks a volume exactly if the volume is this driver's, names the Secret that the push was
-- verified with, is bound to a claim in that Secret's namespace, is read-only, and follows a URL and a
-- ref that the push names.
pub matches_push_iff :
    (held : PersistentVolume) (namespace secret : Bytes) (keys : List Bytes) (ref : Bytes)
    → (matches_push held namespace secret keys ref ≡ true) ↔ (
        (source : CsiSource) × (claim : ClaimReference) × IsOfTeam namespace secret held source
          claim
        × IsReadOnly held
        × Follows source keys ref)
matches_push_iff held namespace secret keys ref =
    (matches_sound held namespace secret keys ref, matches_complete held namespace secret keys ref)

-- A volume of the list has this name, and the push marks it.
abbrev pub IsMarkedBy : Bytes → Bytes → List Bytes → Bytes → List PersistentVolume → Bytes → Type 0
IsMarkedBy namespace secret keys ref volumes name =
    (held : PersistentVolume) × Memᴰ held volumes
    × (held.name ≡ name)
    × (matches_push held namespace secret keys ref ≡ true)

module _ (patch : Bytes → Bool) (namespace secret : Bytes) (keys : List Bytes) (ref : Bytes) where
  IsMarkedBy-cons :
      (held : PersistentVolume) (volumes : List PersistentVolume) (names : List Bytes)
      → All (IsMarkedBy namespace secret keys ref volumes) names
      → All (IsMarkedBy namespace secret keys ref (held ∷ volumes)) names
  IsMarkedBy-cons held volumes [] h = tt
  IsMarkedBy-cons held volumes (name ∷ names) ((v, m, n, e), h) =
      ((v, Memᴰ.tail m, n, e), IsMarkedBy-cons held volumes names h)

  mark_each_sound :
      (volumes : List PersistentVolume)
      → All
          (IsMarkedBy namespace secret keys ref volumes)
          (mark_each patch namespace secret keys ref volumes).patched
  unfolding mark_each
  mark_each_sound [] = tt
  mark_each_sound (held ∷ volumes) =
      let later = IsMarkedBy-cons held volumes _ (mark_each_sound volumes) in
      elim (Bool-cases (matches_push held namespace secret keys ref)) [
        | inl e ↦ rw e ((held, Memᴰ.head refl, refl, e), later)
        | inr d ↦ rw d later
      ]

  -- Every listed volume that the push matches is patched by its name, whatever the API server answers to
  -- the patches.
  pub mark_each_complete :
      {held : PersistentVolume} {volumes : List PersistentVolume}
      → Memᴰ held volumes
      → matches_push held namespace secret keys ref ≡ true
      → Memᴰ held.name (mark_each patch namespace secret keys ref volumes).patched
  unfolding mark_each
  mark_each_complete {held} (Memᴰ.head {x = first} e) h = rw (← e, h) (Memᴰ.head refl)
  mark_each_complete {held} (Memᴰ.tail {x = first} {xs = rest} m) h =
      let ih = mark_each_complete m h in
      elim (Bool-cases (matches_push first namespace secret keys ref)) [
        | inl f ↦ rw f (Memᴰ.tail ih)
        | inr f ↦ rw f ih
      ]

  mark_each_count :
      (volumes : List PersistentVolume)
      → (mark_each patch namespace secret keys ref volumes).marked
        ≤ length (mark_each patch namespace secret keys ref volumes).patched
  unfolding mark_each
  mark_each_count [] = omega arith
  mark_each_count (held ∷ volumes) = ground (arith, mark_each_count volumes)

-- Only names of listed volumes that the push matches are patched, and the answered count is no more
-- than the patches.
pub mark_each_only :
    (patch : Bytes → Bool) (namespace secret : Bytes) (keys : List Bytes) (ref : Bytes)
    (volumes : List PersistentVolume)
    → All
        (IsMarkedBy namespace secret keys ref volumes)
        (mark_each patch namespace secret keys ref volumes).patched
      × ((mark_each patch namespace secret keys ref volumes).marked
          ≤ length (mark_each patch namespace secret keys ref volumes).patched)
mark_each_only patch namespace secret keys ref volumes = (
  mark_each_sound patch namespace secret keys ref volumes,
  mark_each_count patch namespace secret keys ref volumes,
)
