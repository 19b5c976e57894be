-- ===== src/Volume/Credential/Files.antt =====
-- credentials.go: the files that a git invocation reads its credential from. The paths and the file system
-- `F` are parameters.
pub mod Secret
use git_csi_driver.Prelude.{
  ℕ, Bool, not, Option, none, some, List, [], ◌∷◌, ◌++◌, ◌==◌, if◌then◌else◌,
}
use git_csi_driver.Prelude.Text.{Bytes, codes, is_empty, has_suffix}
use git_csi_driver.Volume.{Credentials}

pub record Files (F : Type 0) : Type 0 where
  pub join : Bytes → Bytes → Bytes
  -- A path, the permissions and the content.
  pub write : Bytes → ℕ → Bytes → F → F × Bool
  pub remove : Bytes → F → F

abbrev join_by : Bytes → List Bytes → Bytes
join_by separator [] = []
join_by separator (one ∷ []) = one
join_by separator (one ∷ next ∷ more) = one ++ (separator ++ join_by separator (next ∷ more))

unfoldable pub end_with_newline : Bytes → Bytes
end_with_newline text = if has_suffix text (b'\n' ∷ []) then text else text ++ b'\n' ∷ []

abbrev quote_byte : ℕ → Bytes
quote_byte c = if c == 39 then codes "'\\''" else c ∷ []

abbrev quote_bytes : Bytes → Bytes
quote_bytes [] = []
quote_bytes (c ∷ s) = quote_byte c ++ quote_bytes s

unfoldable pub quote : Bytes → Bytes
quote path = codes "'" ++ (quote_bytes path ++ codes "'")

unfoldable pub ssh_command : Bytes → Bytes → Bool → Bytes
unfolding quote
ssh_command key hosts known_hosts = join_by (codes " ") (
    codes "ssh"
    ∷ codes "-i"
    ∷ quote key
    ∷ codes "-o"
    ∷ codes "IdentitiesOnly=yes"
    ∷ codes "-o"
    ∷ codes "BatchMode=yes"
    ∷ codes "-o"
    ∷ (codes "UserKnownHostsFile=" ++ quote hosts)
    ∷ codes "-o"
    ∷ (codes "StrictHostKeyChecking=" ++ (if known_hosts then codes "yes" else codes "accept-new"))
    ∷ [])

unfoldable pub credential_helper : Bytes → Bytes → Bytes
credential_helper username token = join_by (b'\n' ∷ []) (
    codes "#!/bin/sh"
    ∷ codes "cat <<'GIT_CSI_CREDENTIAL'"
    ∷ (codes "username=" ++ username)
    ∷ (codes "password=" ++ token)
    ∷ codes "GIT_CSI_CREDENTIAL"
    ∷ []
    ∷ [])

module _ {F : Type 0} (files : Files F) where
  -- The function that `use` answers: it removes what was written.
  abbrev pub remove_each : List Bytes → F → F
  remove_each [] f = f
  remove_each (path ∷ more) f = remove_each more (files.remove path f)

  -- The environment and the paths that were written, if each write worked.
  abbrev pub Used : Type 0
  Used = F × Option (List Bytes × List Bytes)

  unfoldable pub use_token : Bytes → Credentials → List Bytes → List Bytes → F → Used
  unfolding credential_helper
  use_token dir c env written f =
      if is_empty c.token
      then (f, some (env, written))
      else let helper = files.join dir (codes "credential-helper") in
        let (f', works) = files.write helper 448 (credential_helper c.username c.token) f in
        if not works then (remove_each written f', none) else (
          f',
          some (
            env
                ++ (codes "GIT_CONFIG_COUNT=1"
                    ∷ codes "GIT_CONFIG_KEY_0=credential.helper"
                    ∷ (codes "GIT_CONFIG_VALUE_0=" ++ helper)
                    ∷ []),
            written ++ helper ∷ [],
          ),
        )

  unfoldable pub use_credentials : Bytes → Option Credentials → F → Used
  unfolding end_with_newline ssh_command use_token
  use_credentials dir none f = (f, some ([], []))
  use_credentials dir (some c) f =
      if is_empty c.private_key
      then use_token dir c [] [] f
      else let key = files.join dir (codes "ssh-privatekey") in
        let hosts = files.join dir (codes "known_hosts") in
        let (f1, key_works) = files.write key 384 (end_with_newline c.private_key) f in
        if not key_works
        then (remove_each [] f1, none)
        else let (f2, hosts_works) = files.write hosts 384 c.known_hosts f1 in
          if not hosts_works
          then (remove_each (key ∷ []) f2, none)
          else use_token dir c
              ((codes "GIT_SSH_COMMAND=" ++ ssh_command key hosts (not (is_empty c.known_hosts)))
                ∷ [])
              (key ∷ hosts ∷ []) f2
