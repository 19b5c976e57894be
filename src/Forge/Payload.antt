-- ===== src/Forge/Payload.antt =====
-- payload.go: a push, read out of the decoded JSON of a forge. `encoding/json` is the parameter
-- `decode`, which answers the fields of `pushPayload`, and `none` where the body is not that JSON.
use git_csi_driver.Prelude.{Option, none, some, List, [], ◌∷◌, if◌then◌else◌}
use git_csi_driver.Prelude.Text.{Bytes, is_empty}

pub record Push : Type 0 where
  pub ref : Bytes
  pub urls : List Bytes

-- The union of the four forges' bodies. A field a forge does not send is empty.
pub record PushPayload : Type 0 where
  pub ref : Bytes
  pub clone_url : Bytes
  pub ssh_url : Bytes
  pub git_url : Bytes
  pub html_url : Bytes
  pub repository_url : Bytes
  pub git_http_url : Bytes
  pub git_ssh_url : Bytes
  pub web_url : Bytes

-- The loop that appends each URL that is not empty.
unfoldable pub named_urls : List Bytes → List Bytes
named_urls [] = []
named_urls (url ∷ rest) = let named = named_urls rest in if is_empty url then named else url ∷ named

abbrev pub payload_urls : PushPayload → List Bytes
payload_urls p =
    p.clone_url ∷ p.ssh_url ∷ p.git_url ∷ p.html_url ∷ p.repository_url ∷ p.git_http_url
    ∷ p.git_ssh_url ∷ p.web_url ∷ []

abbrev some_push : Bytes → List Bytes → Option Push
some_push ref [] = none
some_push ref (url ∷ urls) = some (record { ref = ref; urls = url ∷ urls })

unfoldable pub push_of : PushPayload → Option Push
unfolding named_urls
push_of p = if is_empty p.ref then none else some_push p.ref (named_urls (payload_urls p))

unfoldable pub parse_push : (Bytes → Option PushPayload) → Bytes → Option Push
unfolding push_of
parse_push decode body = elim (decode body) [ none ↦ none | some p ↦ push_of p ]
