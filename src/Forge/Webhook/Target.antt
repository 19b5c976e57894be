-- ===== src/Forge/Webhook/Target.antt =====
-- The paths that name a Secret.
use git_csi_driver.Prelude.{
  ◌≡◌, ◌≢◌, ◌↔◌, Option, none, some, [], ◌∷◌, ◌++◌, arith, inl, inr, Option-cases,
}
use git_csi_driver.Prelude.Text.{Bytes, codes, Lacks, cut_prefix, cut_byte}
use git_csi_driver.Prelude.Text.Laws.{
  cut_prefix_sound, cut_prefix-append, cut_byte_sound, cut_byte-append, contains_byte-Lacks,
  Lacks-contains_byte,
}
use git_csi_driver.Forge.Webhook.{between, webhook_target}

-- A path element that is not empty.
abbrev pub IsElement : Bytes → Type 0
IsElement s = (s ≢ []) × Lacks b'/' s

between_sound :
    (o : Option (Bytes × Bytes)) (namespace name : Bytes)
    → between o ≡ some (namespace, name)
    → (o ≡ some (namespace, name)) × (namespace ≢ []) × IsElement name
unfolding between
between_sound none namespace name h = cc
between_sound (some (a, b)) namespace name h =
    (ground arith, ground arith, (ground arith, Lacks-contains_byte b'/' name (ground arith)))

target_sound :
    (path namespace name : Bytes)
    → webhook_target path ≡ some (namespace, name)
    → (path ≡ codes "/webhook/" ++ (namespace ++ b'/' ∷ name))
      × IsElement namespace
      × IsElement name
unfolding webhook_target
target_sound path namespace name h = elim (Option-cases (cut_prefix (codes "/webhook/") path)) [
  | inl n ↦ ground arith
  | inr (rest, e) ↦
      let (cuts, named, element) =
        between_sound (cut_byte b'/' rest) namespace name (ground arith) in
      let (spell, lacks) = cut_byte_sound b'/' rest namespace name cuts in
      (cc (cut_prefix_sound (codes "/webhook/") path rest e), (named, lacks), element)
]

target_complete :
    (namespace name : Bytes)
    → IsElement namespace
    → IsElement name
    → webhook_target (codes "/webhook/" ++ (namespace ++ b'/' ∷ name)) ≡ some (namespace, name)
unfolding webhook_target between
target_complete namespace name (n, l) (n', l') = ground (
  arith,
  cut_prefix-append (codes "/webhook/") (namespace ++ b'/' ∷ name),
  cut_byte-append b'/' namespace name l,
  contains_byte-Lacks b'/' name l',
)

-- A path names a Secret exactly if it is `/webhook/`, a namespace, a slash and a name, the two each a
-- path element that is not empty.
pub webhook_target_iff :
    (path namespace name : Bytes)
    → (webhook_target path ≡ some (namespace, name)) ↔ (
        (path ≡ codes "/webhook/" ++ (namespace ++ b'/' ∷ name))
        × IsElement namespace
        × IsElement name)
webhook_target_iff path namespace name =
    (target_sound path namespace name, λ (e, n, m). rw e (target_complete namespace name n m))
