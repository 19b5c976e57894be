-- ===== src/Forge/Webhook/Answer.antt =====
-- What each answer of the listener implies.
use git_csi_driver.Prelude.{
  ℕ, ◌≡◌, refl, ◌≢◌, ◌≤◌, ◌⊎◌, inl, inr, true, Option, none, some, [], length, arith, Option-cases,
  Bool-cases,
}
use git_csi_driver.Prelude.Text.{Bytes}
use git_csi_driver.Prelude.Dict.{Dict}
use git_csi_driver.Forge.Payload.{Push, PushPayload, parse_push}
use git_csi_driver.Forge.Verify.{Headers, verify}
use git_csi_driver.Forge.Match.{Marked, mark}
use git_csi_driver.Forge.Webhook.{
  webhook_body_limit, CachedSecret, SecretOf, configured, Api, accepted, Request, Handled,
  webhook_target, read_body, secret_of, secret_key, handle_push, handle_body, handle,
}

read_body_sound :
    (b : Option Bytes) {body : Bytes}
    → read_body b ≡ some body
    → (b ≡ some body) × (length body ≤ webhook_body_limit)
unfolding read_body
read_body_sound none h = cc
read_body_sound (some b) h = (ground arith, ground arith)

module _ (digest : Bytes → Bytes → Bytes) (decode : Bytes → Option PushPayload) where
  -- The request named a Secret, its body verified against that Secret's value and is a push, and the
  -- answer is what the mark of that push patched and counted.
  pub record IsServed (api : Api) (now later : ℕ) (request : Request) (held : Dict CachedSecret)
      (r : Handled) (n : ℕ) : Type 0 where
    pub namespace : Bytes
    pub name : Bytes
    pub body : Bytes
    pub secret : Bytes
    pub pushed : Push
    pub m : Marked
    pub named : webhook_target request.path ≡ some (namespace, name)
    pub read : request.body ≡ some body
    pub within : length body ≤ webhook_body_limit
    pub known : (secret_of api (secret_key namespace name) now later held).0 ≡ configured secret
    pub verified : (verify digest request.headers body secret).1 ≡ true
    pub decoded : parse_push decode body ≡ some pushed
    pub listed : mark api.patch api.listed namespace name pushed ≡ some m
    pub counted : n ≡ m.marked
    pub written : r.patched ≡ m.patched

  handle_body_cases :
      (api : Api) (namespace name : Bytes) (headers : Headers) (body : Bytes) (s : SecretOf)
      → let r = handle_body digest decode api namespace name headers body s in
        (((n : ℕ) → r.response ≢ accepted n) × (r.patched ≡ []))
        ⊎ ((secret : Bytes) × (pushed : Push) × (m : Marked) × (s ≡ configured secret)
            × ((verify digest headers body secret).1 ≡ true)
            × (parse_push decode body ≡ some pushed)
            × (mark api.patch api.listed namespace name pushed ≡ some m)
            × (r.response ≡ accepted m.marked)
            × (r.patched ≡ m.patched))
  unfolding handle_body
  handle_body_cases api namespace name headers body SecretOf.unconfigured = inl (λ n. cc, refl)
  handle_body_cases api namespace name headers body SecretOf.unreadable = inl (λ n. cc, refl)
  handle_body_cases api namespace name headers body (configured secret) =
      elim (Bool-cases (verify digest headers body secret).1) [
        | inr bad ↦ rw bad (inl (λ n. cc, refl))
        | inl good ↦ elim (Option-cases (parse_push decode body)) [
          | inl no_push ↦ rw (good, no_push) (inl (λ n. cc, refl))
          | inr (pushed, p) ↦
              elim (Option-cases (mark api.patch api.listed namespace name pushed)) [
                | inl unlisted ↦ rw (good, p, unlisted, handle_push) (inl (λ n. cc, refl))
                | inr (m, l) ↦
                    rw (good, p, l, handle_push)
                      (inr (secret, pushed, m, refl, good, refl, l, refl, refl))
              ]
        ]
      ]

  -- The listener answers a request with a count only if the request named a Secret, its body fits and
  -- verified against that Secret, and the body is a push; the count and the patches are then those of
  -- that push. With every other answer it patches nothing.
  pub handle-IsServed :
      (api : Api) (now later : ℕ) (request : Request) (held : Dict CachedSecret)
      → let r = (handle digest decode api now later request held).0 in
        (((n : ℕ) → r.response ≢ accepted n) × (r.patched ≡ []))
        ⊎ ((n : ℕ) × (r.response ≡ accepted n) × IsServed api now later request held r n)
  unfolding handle read_body
  handle-IsServed api now later request held = elim (Option-cases (webhook_target request.path)) [
    | inl unnamed ↦ rw (unnamed, handle) (inl (λ n. cc, refl))
    | inr ((namespace, name), named) ↦ elim (Option-cases (read_body request.body)) [
      | inl unread ↦ rw (named, unread, handle) (inl (λ n. cc, refl))
      | inr (body, read) ↦
          let s = (secret_of api (secret_key namespace name) now later held).0 in
          let (carried, fits) = read_body_sound request.body read in
          rw (named, read, handle)
            (elim (handle_body_cases api namespace name request.headers body s) [
              | inl refused ↦ inl refused
              | inr (secret, pushed, m, known, verified, decoded, listed, shown, written) ↦ inr (
                m.marked,
                shown,
                record {
                  namespace = namespace;
                  name = name;
                  body = body;
                  secret = secret;
                  pushed = pushed;
                  m = m;
                  named = named;
                  read = carried;
                  within = fits;
                  known = known;
                  verified = verified;
                  decoded = decoded;
                  listed = listed;
                  counted = refl;
                  written = written;
                },
              )
            ])
    ]
  ]
