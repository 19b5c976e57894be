-- ===== src/Volume/Credential.antt =====
-- republish.go and `parseCredentials` of credentials.go: how a volume takes its credential from the
-- kubelet's calls. Posting the Events and waking the loops are what the answers stand for here.
pub mod Files
use git_csi_driver.Prelude.{
  ℕ, ◌≡◌, refl, inl, inr, Bool, true, false, not, ◌&&◌, ◌||◌, Option, none, some, List, [], ◌∷◌,
  suc, ◌≤◌, ◌+◌, ap, ◌∙◌, if◌then◌else◌, is_some, Result, ok, err, invalid_argument, guard, arith,
  Bool-cases,
}
use git_csi_driver.Prelude.Text.{Bytes, codes, same, same_iff, is_empty}
use git_csi_driver.Prelude.Dict.{Dict, value_of}
use git_csi_driver.Volume.{Volume, Credentials}

unfoldable pub equal : Credentials → Credentials → Bool
equal c d =
    same c.private_key d.private_key
    && same c.known_hosts d.known_hosts
    && same c.token d.token
    && same c.username d.username

-- `same`
unfoldable pub same_credentials : Option Credentials → Option Credentials → Bool
unfolding equal
same_credentials none none = true
same_credentials none (some d) = false
same_credentials (some c) none = false
same_credentials (some c) (some d) = equal c d

abbrev pub needs_credential : Volume → Bool
needs_credential v = is_some v.credentials || v.credential_lost

abbrev pub waits_for_credential : Volume → Bool
waits_for_credential v = v.credential_lost

abbrev pub lose_credential : Volume → Volume
lose_credential v = record v { credential_lost = true }

-- The volume, and whether it waited for a credential after a restart.
unfoldable pub take_credential : Option Credentials → Volume → Volume × Bool
take_credential fresh v =
    (record v { credentials = fresh; credential_lost = false }, v.credential_lost)

-- The volume, and whether this is the first time.
unfoldable pub report_no_publish_secret : Volume → Volume × Bool
report_no_publish_secret v =
    if v.no_publish_secret then (v, false) else (record v { no_publish_secret = true }, true)

abbrev no_entries : Dict Bytes → Bool
no_entries [] = true
no_entries (e ∷ m) = false

unfoldable pub parse_credentials : Dict Bytes → Result (Option Credentials)
parse_credentials secrets =
    if no_entries secrets
    then ok none
    else if is_empty (value_of (codes "ssh-privatekey") secrets)
        && is_empty (value_of (codes "token") secrets)
    then err (record { code = invalid_argument; subject = codes "nodePublishSecretRef" })
    else ok (
        some (record {
          private_key = value_of (codes "ssh-privatekey") secrets;
          known_hosts = value_of (codes "known_hosts") secrets;
          token = value_of (codes "token") secrets;
          username =
              if is_empty (value_of (codes "username") secrets)
              then codes "git"
              else value_of (codes "username") secrets;
        }))

unfoldable pub check_secret : Volume → Option Credentials → Result (Unit {0})
check_secret held holder =
    guard
      (not (
        is_some held.credentials
        && is_some holder
        && not (same_credentials held.credentials holder)))
      (record { code = invalid_argument; subject = codes "nodePublishSecretRef" })

-- What a publish did with its Secret: nothing, the Event that the PersistentVolume names no publish
-- Secret, or a credential that returned, changed or arrived. The first two of these three start the
-- work the volume held back.
pub data Took : Type 0 where
  took_nothing told_no_secret returned changed arrived : Took

unfoldable pub after_take : Bool → Bool → Took
after_take true old = returned
after_take false true = changed
after_take false false = arrived

-- `noPublishSecret`
unfoldable pub tell_no_secret : Volume → Volume × Took
unfolding report_no_publish_secret
tell_no_secret held =
    let (v, first) = report_no_publish_secret held in
    (v, if first then told_no_secret else took_nothing)

unfoldable pub take_secret : Option Credentials → Volume → Volume × Took
unfolding take_credential
take_secret none held = if needs_credential held then tell_no_secret held else (held, took_nothing)
take_secret (some holder) held =
    if same_credentials held.credentials (some holder) then (held, took_nothing) else (
      (take_credential (some holder) held).0,
      after_take (take_credential (some holder) held).1 (is_some held.credentials),
    )

-- `credentialArrived` runs.
abbrev pub starts_work : Took → Bool
starts_work took_nothing = false
starts_work told_no_secret = false
starts_work returned = true
starts_work changed = true
starts_work arrived = false
