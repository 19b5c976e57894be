-- ===== src/Forge/Url.antt =====
-- match.go: the key that makes the forms of one repository's URL equal. `Forms` has the theorem.
pub mod Forms
use git_csi_driver.Prelude.{
  ℕ, Bool, true, false, not, ◌&&◌, Option, none, some, [], ◌∷◌, ◌++◌, ◌==◌, if◌then◌else◌,
}
use git_csi_driver.Prelude.Text.{
  Bytes, codes, cut, cut_byte, contains_byte, trim, trim_suffix, to_lower, is_empty,
}

-- `_, after, scheme := strings.Cut(rest, "://")`
unfoldable pub cut_scheme : Bytes → Bytes × Bool
unfolding cut
cut_scheme raw = elim (cut (codes "://") raw) [
  | none ↦ (raw, false)
  | some (before, after) ↦ (after, true)
]

unfoldable pub cut_userinfo : Bytes → Bytes
unfolding cut_byte
cut_userinfo rest = elim (cut_byte b'@' rest) [ none ↦ rest | some (before, after) ↦ after ]

-- Without a scheme, a colon before the first slash starts the path.
unfoldable pub scp_like : Bool → Bytes → Bytes
unfolding cut_byte contains_byte
scp_like scheme rest = elim (cut_byte b':' rest) [
  | none ↦ rest
  | some (host, path) ↦
      if not scheme && not (contains_byte b'/' host) then host ++ b'/' ∷ path else rest
]

unfoldable pub cut_port : Bytes → Bytes
unfolding cut_byte
cut_port host = elim (cut_byte b':' host) [ none ↦ host | some (named, port) ↦ named ]

-- The last steps, on the host and the path.
unfoldable pub host_key : Bytes → Bytes → Bytes
unfolding cut_port trim trim_suffix to_lower
host_key host path =
    let named = to_lower (cut_port host) in
    let tidy = trim_suffix (trim (λ c. c == b'/') path) (codes ".git") in
    if is_empty tidy then named else named ++ b'/' ∷ tidy

unfoldable pub split_host : Bytes → Bytes
unfolding cut_byte host_key
split_host rest = elim (cut_byte b'/' rest) [
  | none ↦ host_key rest []
  | some (host, path) ↦ host_key host path
]

unfoldable pub comparison_key : Bytes → Bytes
unfolding cut_scheme cut_userinfo scp_like split_host
comparison_key raw =
    let (rest, scheme) = cut_scheme raw in split_host (scp_like scheme (cut_userinfo rest))
