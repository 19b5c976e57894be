-- ===== src/Forge/Verify.antt =====
-- verify.go: a push is checked against the Secret its path names. The hex HMAC-SHA256 of a body is
-- the parameter `digest`, of the secret and the body. Both comparisons take constant time in the
-- source; here they are equality.
use git_csi_driver.Prelude.{Bool, false, not, Option, none, some, if◌then◌else◌}
use git_csi_driver.Prelude.Text.{Bytes, codes, same, is_empty, cut_prefix}

pub data ForgeName : Type 0 where
  github gitlab gitea forgejo : ForgeName

-- The four headers, empty where the request carries none.
pub record Headers : Type 0 where
  pub github_signature : Bytes
  pub gitlab_token : Bytes
  pub gitea_signature : Bytes
  pub forgejo_signature : Bytes

module _ (digest : Bytes → Bytes → Bytes) where
  unfoldable pub signed_body : Bytes → Bytes → Bytes → Bool
  signed_body signature body secret = same signature (digest secret body)

  -- What follows `sha256=`.
  unfoldable pub github_signed : Bytes → Bytes → Bytes → Bool
  unfolding cut_prefix
  github_signed header body secret = elim (cut_prefix (codes "sha256=") header) [
    | none ↦ false
    | some signature ↦ signed_body signature body secret
  ]

  unfoldable pub verify : Headers → Bytes → Bytes → Option ForgeName × Bool
  unfolding github_signed signed_body
  verify header body secret =
      if not (is_empty header.github_signature)
      then (some github, github_signed header.github_signature body secret)
      else if not (is_empty header.gitlab_token)
      then (some gitlab, same header.gitlab_token secret)
      else if not (is_empty header.gitea_signature)
      then (some gitea, signed_body header.gitea_signature body secret)
      else if not (is_empty header.forgejo_signature)
      then (some forgejo, signed_body header.forgejo_signature body secret)
      else (none, false)
