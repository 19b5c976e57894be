-- ===== src/Volume/Credential/Files/Secret.antt =====
-- credentials.go: what a credential leaves on the node's disk and what git's environment tells of it.
use git_csi_driver.Prelude.{
  ℕ, ◌≡◌, refl, sym, ◌∙◌, inl, inr, Bool, true, false, not, ◌&&◌, ◌||◌, ◌⊎◌, Option, none, some,
  List, [], ◌∷◌, ◌++◌, append-nil, arith, if◌then◌else◌, Bool-cases, if-either,
}
use git_csi_driver.Prelude.Text.{Bytes, codes, same, same_iff, is_empty}
use git_csi_driver.Volume.{Credentials}
use git_csi_driver.Volume.Credential.Files.{
  Files, remove_each, Used, use_token, use_credentials, end_with_newline, credential_helper,
  ssh_command,
}

-- What the writes and the removals of a file system do to the files that there are: a write that works makes its
-- file, one that fails leaves its file, a part of it or none, and a removal takes its file, if it works. `broken`
-- are the paths at which a call fails. No call touches another path.
pub record IsDisk {F : Type 0} (files : Files F) (has : Bytes → F → Bool) (broken : Bytes → Bool)
    : Type 0 where
  pub written :
      (path : Bytes) (mode : ℕ) (content : Bytes) (f : F)
      → (files.write path mode content f).1 ≡ true
      → has path (files.write path mode content f).0 ≡ true
  pub unwritten :
      (path : Bytes) (mode : ℕ) (content : Bytes) (f : F)
      → (files.write path mode content f).1 ≡ false
      → broken path ≡ true
  pub untouched :
      (path : Bytes) (mode : ℕ) (content : Bytes) (f : F) (other : Bytes)
      → same path other ≡ false
      → has other (files.write path mode content f).0 ≡ has other f
  pub removed :
      (path : Bytes) (f : F) → broken path ≡ false → has path (files.remove path f) ≡ false
  pub kept :
      (path : Bytes) (f : F) (other : Bytes)
      → same path other ≡ false
      → has other (files.remove path f) ≡ has other f

-- The same of the paths that have a file or are broken.
record IsFiles {F : Type 0} (files : Files F) (has : Bytes → F → Bool) (broken : Bytes → Bool)
    : Type 0 where
  pub written :
      (path : Bytes) (mode : ℕ) (content : Bytes) (f : F) (other : Bytes)
      → (files.write path mode content f).1 ≡ true
      → has other (files.write path mode content f).0 ≡ (same path other || has other f)
  pub unwritten :
      (path : Bytes) (mode : ℕ) (content : Bytes) (f : F) (other : Bytes)
      → (files.write path mode content f).1 ≡ false
      → has other (files.write path mode content f).0 ≡ has other f
  pub removed :
      (path : Bytes) (f : F) (other : Bytes)
      → has other (files.remove path f)
        ≡ (if same path other && not (broken other) then false else has other f)
  pub stuck : (f : F) (other : Bytes) → broken other ≡ true → has other f ≡ true

module _ {F : Type 0} (files : Files F) where
  -- The files after the git invocation: those of a use that failed, and those that its removal leaves.
  abbrev pub after_use : Used files → F
  after_use (f, none) = f
  after_use (f, some (env, paths)) = remove_each files paths f

module _ {F : Type 0} (files : Files F) (has : Bytes → F → Bool) (broken : Bytes → Bool)
    (sound : IsFiles files has broken) where
  abbrev in_each : Bytes → List Bytes → Bool
  in_each other [] = false
  in_each other (path ∷ more) = same path other || in_each other more

  has-remove_each :
      (paths : List Bytes) (f : F) (other : Bytes)
      → has other (remove_each files paths f)
        ≡ (if in_each other paths && not (broken other) then false else has other f)
  has-remove_each [] f other = refl
  has-remove_each (path ∷ more) f other =
      ground (arith, has-remove_each more (files.remove path f) other, sound.removed path f other)

  abbrev Leaves : F → F → Type 0
  Leaves f g = (other : Bytes) → has other g ≡ true → has other f ≡ true

  -- What is there is of before or is to be removed.
  abbrev Covers : List Bytes → F → F → Type 0
  Covers paths f g =
      (other : Bytes) → has other g ≡ true → (in_each other paths || has other f) ≡ true

  in_each-append :
      (other path : Bytes) (paths : List Bytes)
      → in_each other (paths ++ path ∷ []) ≡ (in_each other paths || same path other)
  in_each-append other path [] = ground arith
  in_each-append other path (one ∷ paths) = ground (arith, in_each-append other path paths)

  remove_each-Leaves :
      (paths : List Bytes) (f g : F) → Covers paths f g → Leaves f (remove_each files paths g)
  remove_each-Leaves paths f g covers other there =
      ground (arith, has-remove_each paths g other, covers other, sound.stuck f other)

  unwritten-Covers :
      (path : Bytes) (mode : ℕ) (content : Bytes) (paths : List Bytes) (f g : F)
      → Covers paths f g
      → (files.write path mode content g).1 ≡ false
      → Covers paths f (files.write path mode content g).0
  unwritten-Covers path mode content paths f g covers failed other there =
      covers other (sym (sound.unwritten path mode content g other failed) ∙ there)

  written-Covers :
      (path : Bytes) (mode : ℕ) (content : Bytes) (paths : List Bytes) (f g : F)
      → Covers paths f g
      → (files.write path mode content g).1 ≡ true
      → Covers (paths ++ path ∷ []) f (files.write path mode content g).0
  written-Covers path mode content paths f g covers worked other there = ground (
    arith,
    sound.written path mode content g other worked,
    in_each-append other path paths,
    covers other,
  )

  use_token-Leaves :
      (dir : Bytes) (c : Credentials) (env paths : List Bytes) (f g : F)
      → Covers paths f g
      → Leaves f (after_use files (use_token files dir c env paths g))
  unfolding use_token
  use_token-Leaves dir c env paths f g covers =
      let helper = files.join dir (codes "credential-helper") in
      let content = credential_helper c.username c.token in
      if-either (λ (u : Used files). Leaves f (after_use files u)) (is_empty c.token)
        (λ none_given. remove_each-Leaves paths f g covers)
        (λ given.
          if-either (λ (u : Used files). Leaves f (after_use files u))
            (not (files.write helper 448 content g).1)
            (λ failed.
              remove_each-Leaves paths f _
                (unwritten-Covers helper 448 content paths f g covers (ground (arith, failed))))
            (λ worked.
              remove_each-Leaves (paths ++ helper ∷ []) f _
                (written-Covers helper 448 content paths f g covers (ground (arith, worked)))))

  use_credentials-Covered :
      (dir : Bytes) (holder : Option Credentials) (f : F)
      → Leaves f (after_use files (use_credentials files dir holder f))
  unfolding use_credentials
  use_credentials-Covered dir none f = λ path there. there
  use_credentials-Covered dir (some c) f =
      let Left = λ (u : Used files). Leaves f (after_use files u) in
      let key = files.join dir (codes "ssh-privatekey") in
      let hosts = files.join dir (codes "known_hosts") in
      let (f1, key_works) = files.write key 384 (end_with_newline c.private_key) f in
      let (f2, hosts_works) = files.write hosts 384 c.known_hosts f1 in
      let before : Covers [] f f = λ other there. there in
      if-either Left (is_empty c.private_key) (λ no_key. use_token-Leaves dir c [] [] f f before)
        (λ with_key.
          if-either Left (not key_works)
            (λ failed.
              unwritten-Covers key 384 (end_with_newline c.private_key) [] f f before
                (ground (arith, failed)))
            (λ worked.
              let one =
                written-Covers key 384 (end_with_newline c.private_key) [] f f before
                  (ground (arith, worked)) in
              if-either Left (not hosts_works)
                (λ failed. remove_each-Leaves (key ∷ []) f _ (
                  unwritten-Covers hosts 384 c.known_hosts (key ∷ []) f f1 one
                    (ground (arith, failed))))
                (λ written. use_token-Leaves dir c _ (key ∷ hosts ∷ []) f f2 (
                  written-Covers hosts 384 c.known_hosts (key ∷ []) f f1 one
                    (ground (arith, written))))))

module _ {F : Type 0} (files : Files F) (has : Bytes → F → Bool) (broken : Bytes → Bool)
    (disk : IsDisk files has broken) where
  abbrev has_or_broken : Bytes → F → Bool
  has_or_broken path f = has path f || broken path

  disk-IsFiles : IsFiles files has_or_broken broken
  disk-IsFiles = record {
    written = λ path mode content f other e. ground (
      arith,
      same_iff path other,
      disk.written path mode content f e,
      disk.untouched path mode content f other,
    );
    unwritten = λ path mode content f other e. ground (
      arith,
      same_iff path other,
      disk.unwritten path mode content f e,
      disk.untouched path mode content f other,
    );
    removed = λ path f other.
        ground (arith, same_iff path other, disk.removed path f, disk.kept path f other);
    stuck = λ f other e. ground (arith, e);
  }

  -- Where a write that works makes its file and one that fails leaves it, a part of it or none, no file is on the
  -- disk after a git invocation that was not there before it, but one at a path at which a write or a removal
  -- failed: neither where a use of the credential fails, nor after the removal of what a use that works wrote.
  pub use_credentials-Leaves :
      (dir : Bytes) (holder : Option Credentials) (f : F) (path : Bytes)
      → has path (after_use files (use_credentials files dir holder f)) ≡ true
      → (has path f ≡ true) ⊎ (broken path ≡ true)
  use_credentials-Leaves dir holder f path there =
      let covered =
        use_credentials-Covered files has_or_broken broken disk-IsFiles dir holder f path
          (ground (arith, there)) in
      ground (arith, covered)

module _ {F : Type 0} (files : Files F) (dir : Bytes) where
  -- The environment, from which parts of the credential there are.
  abbrev token_part : Bool → List Bytes
  token_part true = []
  token_part false =
      codes "GIT_CONFIG_COUNT=1"
      ∷ codes "GIT_CONFIG_KEY_0=credential.helper"
      ∷ (codes "GIT_CONFIG_VALUE_0=" ++ files.join dir (codes "credential-helper"))
      ∷ []

  abbrev key_part : Bool → Bool → List Bytes
  key_part true no_hosts = []
  key_part false no_hosts =
      (codes "GIT_SSH_COMMAND="
        ++ ssh_command (files.join dir (codes "ssh-privatekey"))
            (files.join dir (codes "known_hosts")) (not no_hosts))
      ∷ []

  abbrev Says : List Bytes → Used files → Type 0
  Says told u = (env paths : List Bytes) → u.1 ≡ some (env, paths) → env ≡ told

  told_env :
      (env paths told left : List Bytes)
      → ◌≡◌ {A = Option (List Bytes × List Bytes)} (some (env, paths)) (some (told, left))
      → told ≡ env
  told_env env paths told left e = cc e

  use_token-Says :
      (c : Credentials) (env paths : List Bytes) (g : F)
      → Says (env ++ token_part (is_empty c.token)) (use_token files dir c env paths g)
  unfolding use_token
  use_token-Says c env paths g = elim (Bool-cases (is_empty c.token)) [
    | inl no_token ↦
        rw no_token (λ told left e. told_env env paths told left e ∙ sym (append-nil env))
    | inr token ↦ rw token (
        if-either (Says (env ++ token_part false))
          (not
            (files.write (files.join dir (codes "credential-helper")) 448
              (credential_helper c.username c.token) g).1)
          (λ failed told left e. cc e) (λ worked told left e. told_env _ _ told left e))
  ]

  environment : Credentials → List Bytes
  environment c =
      key_part (is_empty c.private_key) (is_empty c.known_hosts) ++ token_part (is_empty c.token)

  use_credentials-Says :
      (c : Credentials) (f : F) → Says (environment c) (use_credentials files dir (some c) f)
  unfolding use_credentials environment
  use_credentials-Says c f =
      let key = files.join dir (codes "ssh-privatekey") in
      let hosts = files.join dir (codes "known_hosts") in
      let (f1, key_works) = files.write key 384 (end_with_newline c.private_key) f in
      let (f2, hosts_works) = files.write hosts 384 c.known_hosts f1 in
      elim (Bool-cases (is_empty c.private_key)) [
        | inl no_key ↦ rw no_key (use_token-Says c [] [] f)
        | inr with_key ↦ rw with_key (
            if-either
              (Says (key_part false (is_empty c.known_hosts) ++ token_part (is_empty c.token)))
              (not key_works) (λ failed told left e. cc e)
              (λ worked.
                if-either
                  (Says (key_part false (is_empty c.known_hosts) ++ token_part (is_empty c.token)))
                  (not hosts_works) (λ failed told left e. cc e)
                  (λ written.
                    use_token-Says c (key_part false (is_empty c.known_hosts)) (key ∷ hosts ∷ [])
                      f2)))
      ]

  -- Git's environment names files and tells which of the key, the hosts and the token the Secret has, and nothing
  -- of what they are: two credentials that have the same of these get the same environment.
  pub use_credentials_alike :
      (c d : Credentials) (f g : F) (env env' paths paths' : List Bytes)
      → (use_credentials files dir (some c) f).1 ≡ some (env, paths)
      → (use_credentials files dir (some d) g).1 ≡ some (env', paths')
      → is_empty c.private_key ≡ is_empty d.private_key
      → is_empty c.known_hosts ≡ is_empty d.known_hosts
      → is_empty c.token ≡ is_empty d.token
      → env ≡ env'
  unfolding environment
  use_credentials_alike c d f g env env' paths paths' e e' key hosts token =
      use_credentials-Says c f env paths e
      ∙ rw (key, hosts, token) refl
      ∙ sym (use_credentials-Says d g env' paths' e')
