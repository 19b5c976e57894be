-- ===== src/Tests/Forge.antt =====
-- Pushes of a forge on concrete input.
use git_csi_driver.Prelude.{
  ℕ, ◌≡◌, refl, ◌≢◌, ◌≤◌, ◌<◌, ◌+◌, ◌⊎◌, inl, inr, true, false, Bool, Option, none, some, List, [],
  ◌∷◌, arith, All, length,
}
use mathlib.Core.List.{Memᴰ}
use git_csi_driver.Prelude.Text.{Bytes, codes, same}
use git_csi_driver.Forge.Url.{comparison_key}
use git_csi_driver.Forge.Url.Forms.{scheme_form, scp_form, comparison_key_forms}
use git_csi_driver.Forge.Payload.{PushPayload}
use git_csi_driver.Forge.Match.{
  matches_push, mark_each, ref_matches, follows_push, holds_key, volume_ref,
}
use git_csi_driver.Forge.Match.Team.{
  IsMarkedBy, matches_push_iff, mark_each_only, mark_each_complete,
}
use git_csi_driver.Forge.Webhook.{
  Api, SecretAnswer, found, SecretOf, configured, Request, Handled, accepted, handle,
  webhook_target, secret_of,
}
use git_csi_driver.Forge.Webhook.Answer.{IsServed, handle-IsServed}
use git_csi_driver.Forge.Webhook.Cache.{WasCurrent, IsRecorded, secret_of_recent}
use git_csi_driver.Tests.Data.{team_volume, url}

abbrev keys : List Bytes
keys = codes "h/a" ∷ []

-- The key of the volume's URL.
key_runs : comparison_key url ≡ codes "h/a"
unfolding comparison_key
key_runs = refl

-- An at sign in the path takes the host with it.
key_with_at_sign : comparison_key (codes "https://x/a@b/c") ≡ codes "b/c"
unfolding comparison_key
key_with_at_sign = refl

matches_runs :
    matches_push team_volume (codes "team") (codes "hook") keys (codes "refs/heads/main") ≡ true
unfolding matches_push same git_csi_driver.Prelude.Dict.value_of
    git_csi_driver.Forge.Match.read_only_claim_volume follows_push holds_key comparison_key
    ref_matches volume_ref
matches_runs = refl

matches_push_iff_example :
    matches_push team_volume (codes "team") (codes "hook") keys (codes "refs/heads/main") ≡ true
matches_push_iff_example =
    (matches_push_iff team_volume (codes "team") (codes "hook") keys (codes "refs/heads/main")).1 (
      (matches_push_iff team_volume (codes "team") (codes "hook") keys (codes "refs/heads/main")).0
        matches_runs)

mark_each_only_example :
    let m =
      mark_each
        (λ name. true)
        (codes "team")
        (codes "hook")
        keys
        (codes "refs/heads/main")
        (team_volume ∷ []) in
    All
      (IsMarkedBy (codes "team") (codes "hook") keys (codes "refs/heads/main") (team_volume ∷ []))
      m.patched
    × (m.marked ≤ length m.patched)
mark_each_only_example =
    mark_each_only (λ name. true) (codes "team") (codes "hook") keys (codes "refs/heads/main")
      (team_volume ∷ [])

mark_each_complete_example :
    Memᴰ
      (codes "pv")
      (mark_each
        (λ name. false)
        (codes "team")
        (codes "hook")
        keys
        (codes "refs/heads/main")
        (team_volume ∷ [])).patched
mark_each_complete_example =
    mark_each_complete (λ name. false) (codes "team") (codes "hook") keys (codes "refs/heads/main")
      {held = team_volume} {volumes = team_volume ∷ []} (Memᴰ.head refl) matches_runs

comparison_key_forms_example :
    comparison_key (
      scheme_form
        (codes "ssh")
        (some (codes "git"))
        (codes "H")
        (some (codes "22"))
        (codes "a")
        true)
    ≡ comparison_key (scp_form none (codes "H") (codes "a") false)
unfolding git_csi_driver.Prelude.Text.has_suffix
comparison_key_forms_example =
    comparison_key_forms (codes "ssh") (some (codes "git")) none (codes "H") (some (codes "22"))
      (codes "a") true false (omega arith) (omega arith) tt (omega arith) (omega arith)
      (record {
        first = b'a';
        rest = [];
        init = [];
        last = b'a';
        from_first = refl;
        to_last = refl;
        first_ne = omega arith;
        last_ne = omega arith;
        bare = refl;
        plain = omega arith;
      })

abbrev an_api : Api
an_api = record {
  has_client = true;
  get_secret = λ key. found ((codes "secret", codes "s") ∷ []);
  listed = some (team_volume ∷ []);
  patch = λ name. true;
}

abbrev a_payload : PushPayload
a_payload = record {
  ref = codes "refs/heads/main";
  clone_url = url;
  ssh_url = [];
  git_url = [];
  html_url = [];
  repository_url = [];
  git_http_url = [];
  git_ssh_url = [];
  web_url = [];
}

abbrev a_request : Request
a_request = record {
  path = codes "/webhook/team/hook";
  body = some (codes "b");
  headers = record {
    github_signature = [];
    gitlab_token = codes "s";
    gitea_signature = [];
    forgejo_signature = [];
  };
}

abbrev handled : Handled
handled = (handle (λ secret body. []) (λ body. some a_payload) an_api 5 6 a_request []).0

handle-IsServed_example :
    (((n : ℕ) → handled.response ≢ accepted n) × (handled.patched ≡ []))
    ⊎ ((n : ℕ) × (handled.response ≡ accepted n)
        × IsServed (λ secret body. []) (λ body. some a_payload) an_api 5 6 a_request [] handled n)
handle-IsServed_example =
    handle-IsServed (λ secret body. []) (λ body. some a_payload) an_api 5 6 a_request []

-- The push is accepted for the one volume.
handle_runs : handled.response ≡ accepted 1
unfolding handle webhook_target git_csi_driver.Prelude.Text.cut_prefix
    git_csi_driver.Prelude.Text.cut_byte git_csi_driver.Prelude.Text.contains_byte secret_of
    git_csi_driver.Forge.Webhook.cached git_csi_driver.Prelude.Dict.lookup
    git_csi_driver.Prelude.Dict.value_of same git_csi_driver.Forge.Verify.verify
    git_csi_driver.Forge.Payload.parse_push git_csi_driver.Forge.Match.mark mark_each matches_push
    git_csi_driver.Forge.Match.read_only_claim_volume follows_push holds_key
    git_csi_driver.Forge.Match.comparison_keys ref_matches volume_ref
handle_runs = refl

abbrev secret_at : ℕ → Bytes → SecretAnswer
secret_at t key = found ((codes "secret", codes "s") ∷ [])

secret_of_recent_example :
    let (s, held) = secret_of an_api (codes "team/hook") 5 6 [] in
    IsRecorded secret_at 1 6 held
    × (((value : Bytes) → s ≢ configured value)
        ⊎ ((value : Bytes) × (t : ℕ) × (s ≡ configured value)
            × WasCurrent secret_at (codes "team/hook") value t
            × (5 < t + 1 + 30000000000)
            × (t ≤ 6)))
secret_of_recent_example =
    secret_of_recent secret_at 1 an_api (codes "team/hook") 4 5 5 6 [] (omega arith) (omega arith)
      (omega arith) (omega arith) refl tt
