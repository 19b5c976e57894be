-- ===== src/Forge/Webhook/Cache.antt =====
-- What the listener's cache of Secrets promises about the Secrets it answers.
use git_csi_driver.Prelude.{
  ℕ, ◌≡◌, refl, ◌∙◌, ◌≤◌, ◌<◌, ◌+◌, ◌≢◌, ◌⊎◌, Option, none, some, [], ◌∷◌, arith, inl, inr,
  Option-cases, Bool-cases, sym,
}
use git_csi_driver.Prelude.Text.{Bytes, codes, same, same_iff, is_empty}
use git_csi_driver.Prelude.Dict.{Dict, lookup, insert, value_of}
use git_csi_driver.Forge.Webhook.{
  CachedSecret, SecretAnswer, found, fresh_value, take_answer, configured, Api, cached, remember,
  secret_of,
}

-- The value is what the cluster's Secret holds at the time.
pub record WasCurrent (secret_at : ℕ → Bytes → SecretAnswer) (key value : Bytes) (t : ℕ)
    : Type 0 where
  pub data_of : Dict Bytes
  pub answered : secret_at t key ≡ found data_of
  pub valued : value_of (codes "secret") data_of ≡ value

-- The value was current at a time within the latency of a request before the entry's own.
abbrev pub WasRead : (ℕ → Bytes → SecretAnswer) → ℕ → Bytes → CachedSecret → Type 0
WasRead secret_at latency key c =
    (t : ℕ) × WasCurrent secret_at key c.value t × (t ≤ c.read) × (c.read ≤ t + latency)

-- Every entry of the cache was read so, and is not later than `now`.
abbrev pub IsRecorded : (ℕ → Bytes → SecretAnswer) → ℕ → ℕ → Dict CachedSecret → Type 0
IsRecorded secret_at latency now [] = Unit
IsRecorded secret_at latency now ((key, c) ∷ held) =
    (WasRead secret_at latency key c × (c.read ≤ now)) × IsRecorded secret_at latency now held

lookup_nil {ℓ} :
    {B : Type ℓ} (key : Bytes) {c : CachedSecret} → lookup {V = CachedSecret} key [] ≡ some c → B
unfolding lookup
lookup_nil key h = cc

lookup_cases :
    (j key : Bytes) (d : CachedSecret) (held : Dict CachedSecret) {c : CachedSecret}
    → lookup key ((j, d) ∷ held) ≡ some c
    → ((j ≡ key) × (d ≡ c)) ⊎ (lookup key held ≡ some c)
unfolding lookup
lookup_cases j key d held h = elim (Bool-cases (same j key)) [
  | inl is ↦ inl (ground (arith, same_iff j key), ground arith)
  | inr differs ↦ inr (ground arith)
]

fresh_value_sound :
    (now : ℕ) (o : Option CachedSecret) {value : Bytes}
    → fresh_value now o ≡ some value
    → (c : CachedSecret) × (o ≡ some c) × (c.value ≡ value) × (now < c.read + 30000000000)
unfolding fresh_value
fresh_value_sound now none h = cc
fresh_value_sound now (some c) h = (c, refl, ground arith, ground arith)

cached_value :
    (held : Dict CachedSecret) (key : Bytes) (now : ℕ) {value : Bytes}
    → cached held key now ≡ some value
    → fresh_value now (lookup key held) ≡ some value
unfolding cached
cached_value held key now h = h

module _ (secret_at : ℕ → Bytes → SecretAnswer) (latency : ℕ) where
  lookup-IsRecorded :
      (now : ℕ) (held : Dict CachedSecret) (key : Bytes) {c : CachedSecret}
      → IsRecorded secret_at latency now held
      → lookup key held ≡ some c
      → WasRead secret_at latency key c × (c.read ≤ now)
  lookup-IsRecorded now [] key r h = lookup_nil key h
  lookup-IsRecorded now ((j, d) ∷ held) key (p, r) h = elim (lookup_cases j key d held h) [
    | inl (named, is) ↦ rw (sym named, sym is) p
    | inr later ↦ lookup-IsRecorded now held key r later
  ]

  at_value :
      {key value value' : Bytes} {t : ℕ}
      → value ≡ value'
      → WasCurrent secret_at key value t
      → WasCurrent secret_at key value' t
  at_value e w = record { data_of = w.data_of; answered = w.answered; valued = w.valued ∙ e }

  later-IsRecorded :
      (now later : ℕ) (held : Dict CachedSecret)
      → now ≤ later
      → IsRecorded secret_at latency now held
      → IsRecorded secret_at latency later held
  later-IsRecorded now later [] h r = tt
  later-IsRecorded now later ((key, c) ∷ held) h ((p, q), r) =
      ((p, omega arith), later-IsRecorded now later held h r)

  insert-IsRecorded :
      (now : ℕ) (held : Dict CachedSecret) (key : Bytes) (c : CachedSecret)
      → IsRecorded secret_at latency now held
      → WasRead secret_at latency key c
      → c.read ≤ now
      → IsRecorded secret_at latency now (insert key c held)
  unfolding insert
  insert-IsRecorded now [] key c r w h = ((w, h), tt)
  insert-IsRecorded now ((j, d) ∷ held) key c (p, r) w h = elim (Bool-cases (same j key)) [
    | inl is ↦ rw is ((w, h), r)
    | inr differs ↦ rw differs (p, insert-IsRecorded now held key c r w h)
  ]

  take_answer-IsRecorded :
      (t now : ℕ) (key : Bytes) (held : Dict CachedSecret) (a : SecretAnswer)
      → secret_at t key ≡ a
      → t ≤ now
      → now ≤ t + latency
      → IsRecorded secret_at latency now held
      → let (s, held') = take_answer key now held a in
        IsRecorded secret_at latency now held'
        × (((value : Bytes) → s ≢ configured value)
            ⊎ ((value : Bytes) × (s ≡ configured value) × WasCurrent secret_at key value t))
  unfolding take_answer remember
  take_answer-IsRecorded t now key held SecretAnswer.not_found h p q r = (r, inl (λ v. cc))
  take_answer-IsRecorded t now key held SecretAnswer.failed_read h p q r = (r, inl (λ v. cc))
  take_answer-IsRecorded t now key held (found data_of) h p q r =
      elim (Bool-cases (is_empty (value_of (codes "secret") data_of))) [
        | inl empty ↦ rw empty (r, inl (λ v. cc))
        | inr filled ↦
            let w : WasCurrent secret_at key (value_of (codes "secret") data_of) t = record {
              data_of = data_of;
              answered = h;
              valued = refl;
            } in
            rw filled (
              insert-IsRecorded now held key
                  (record { value = value_of (codes "secret") data_of; read = now }) r (t, w, p, q)
                  (omega arith),
              inr (value_of (codes "secret") data_of, refl, w),
            )
      ]

  -- Where the clock does not go back and the API server answers what the Secret holds at some time between the
  -- request and the answer, which takes no longer than the latency, the value that verifies a body is one that
  -- the Secret held within the last thirty seconds and the latency, or between the two reads of the clock,
  -- whatever the cache held; and the cache keeps recording only such values.
  pub secret_of_recent :
      (api : Api) (key : Bytes) (before now asked later : ℕ) (held : Dict CachedSecret)
      → before ≤ now
      → now ≤ asked
      → asked ≤ later
      → later ≤ now + latency
      → api.get_secret key ≡ secret_at asked key
      → IsRecorded secret_at latency before held
      → let (s, held') = secret_of api key now later held in
        IsRecorded secret_at latency later held'
        × (((value : Bytes) → s ≢ configured value)
            ⊎ ((value : Bytes) × (t : ℕ) × (s ≡ configured value)
                × WasCurrent secret_at key value t
                × (now < t + latency + 30000000000)
                × (t ≤ later)))
  unfolding secret_of
  secret_of_recent api key before now asked later held h k l m answers r =
      let kept = later-IsRecorded before later held (omega arith) r in
      elim (Bool-cases api.has_client) [
        | inr alone ↦ rw (alone, secret_of) (kept, inl (λ v. cc))
        | inl there ↦ elim (Option-cases (cached held key now)) [
          | inl stale ↦
              let (kept', outcome) =
                take_answer-IsRecorded asked later key held (api.get_secret key) (sym answers) l
                  (omega arith) kept in
              rw (there, stale, secret_of)
                (
                  kept',
                  elim outcome [
                    | inl refused ↦ inl refused
                    | inr (value, shown, current) ↦
                        inr (value, asked, shown, current, omega arith, l)
                  ],
                )
          | inr (value, c) ↦
              let (e, f, valued, young) =
                fresh_value_sound now (lookup key held) (cached_value held key now c) in
              let ((t, current, past, close), old) = lookup-IsRecorded before held key r f in
              rw (there, c, secret_of)
                (kept, inr (value, t, refl, at_value valued current, omega arith, omega arith))
        ]
      ]
