-- ===== src/Forge/Url/Forms.antt =====
-- The https, ssh and scp-like forms of one repository make one key.
use mathlib.Core.Path.{subst}
use git_csi_driver.Prelude.{
  ℕ, ◌≡◌, refl, ap, sym, ◌∙◌, ◌≢◌, Bool, true, false, Option, none, some, [], ◌∷◌, ◌++◌, ◌==◌, All,
  All-append, arith, append_assoc, append-nil,
}
use git_csi_driver.Prelude.Text.{
  Bytes, codes, Lacks, cut, cut_prefix, has_suffix, to_lower, trim, trim_suffix,
}
use git_csi_driver.Prelude.Text.Laws.{
  cut_byte-append, cut_byte-Lacks, contains_byte-Lacks, trim_ends, trim_suffix-append,
  trim_suffix_absent,
}
use git_csi_driver.Forge.Url.{
  cut_scheme, cut_userinfo, scp_like, cut_port, host_key, split_host, comparison_key,
}

-- A host: no slash, no colon, no at sign.
abbrev pub IsHost : Bytes → Type 0
IsHost = All (λ c. (c ≢ b'/') × (c ≢ b':') × (c ≢ b'@'))

-- A repository's path: it is not empty, neither begins nor ends with a slash, does not end with
-- `.git`, and holds no at sign and no colon.
pub record IsPath (path : Bytes) : Type 0 where
  pub first : ℕ
  pub rest : Bytes
  pub init : Bytes
  pub last : ℕ
  pub from_first : path ≡ first ∷ rest
  pub to_last : path ≡ init ++ last ∷ []
  pub first_ne : first ≢ b'/'
  pub last_ne : last ≢ b'/'
  pub bare : has_suffix path (codes ".git") ≡ false
  pub plain : All (λ c. (c ≢ b':') × (c ≢ b'@')) path

-- An optional part of a URL.
abbrev pub user_part : Option Bytes → Bytes
user_part none = []
user_part (some user) = user ++ b'@' ∷ []

abbrev pub port_part : Option Bytes → Bytes
port_part none = []
port_part (some port) = b':' ∷ port

abbrev pub git_part : Bool → Bytes
git_part true = codes ".git"
git_part false = []

abbrev pub IsPart : Option Bytes → Type 0
IsPart none = Unit
IsPart (some part) = IsHost part

-- `scheme://user@host:port/path.git`
abbrev pub scheme_form : Bytes → Option Bytes → Bytes → Option Bytes → Bytes → Bool → Bytes
scheme_form scheme user host port path git =
    scheme
    ++ codes "://"
    ++ (user_part user ++ (host ++ (port_part port ++ b'/' ∷ (path ++ git_part git))))

-- `user@host:path.git`
abbrev pub scp_form : Option Bytes → Bytes → Bytes → Bool → Bytes
scp_form user host path git = user_part user ++ (host ++ b':' ∷ (path ++ git_part git))

weaken : (P Q : ℕ → Type 0) → ((c : ℕ) → P c → Q c) → (s : Bytes) → All P s → All Q s
weaken P Q f [] h = tt
weaken P Q f (c ∷ s) h = (f c h.0, weaken P Q f s h.1)

cut_at_scheme :
    (scheme rest : Bytes)
    → Lacks b':' scheme
    → cut (codes "://") (scheme ++ codes "://" ++ rest) ≡ some (scheme, rest)
unfolding cut cut_prefix
cut_at_scheme [] rest h = refl
cut_at_scheme (c ∷ scheme) rest h = ground (arith, cut_at_scheme scheme rest h.1)

cut_no_scheme : (s : Bytes) → Lacks b':' s → cut (codes "://") s ≡ none
unfolding cut cut_prefix
cut_no_scheme [] h = refl
cut_no_scheme (c ∷ s) h = ground (arith, cut_no_scheme s h.1)

cut_past_colon :
    (before after : Bytes) (c : ℕ)
    → Lacks b':' before
    → c ≢ b'/'
    → Lacks b':' (c ∷ after)
    → cut (codes "://") (before ++ b':' ∷ c ∷ after) ≡ none
unfolding cut cut_prefix
cut_past_colon [] after c h d l = ground (arith, cut_no_scheme (c ∷ after) l)
cut_past_colon (e ∷ before) after c h d l = ground (arith, cut_past_colon before after c h.1 d l)

cut_userinfo-user_part :
    (user : Option Bytes) (s : Bytes)
    → IsPart user
    → Lacks b'@' s
    → cut_userinfo (user_part user ++ s) ≡ s
unfolding cut_userinfo
cut_userinfo-user_part none s u l = rw (cut_userinfo, cut_byte-Lacks b'@' s l)
cut_userinfo-user_part (some user) s u l = rw (
  append_assoc user (b'@' ∷ []) s,
  cut_userinfo,
  cut_byte-append b'@' user s (weaken _ (λ c. c ≢ b'@') (λ c h. h.2) user u),
)

cut_port-port_part :
    (host : Bytes) (port : Option Bytes) → IsHost host → cut_port (host ++ port_part port) ≡ host
unfolding cut_port
cut_port-port_part host none h =
    let lacks = weaken _ (λ c. c ≢ b':') (λ c h. h.1) host h in
    ap cut_port (append-nil host) ∙ rw (cut_port, cut_byte-Lacks b':' host lacks)
cut_port-port_part host (some port) h =
    rw (cut_port, cut_byte-append b':' host port (weaken _ (λ c. c ≢ b':') (λ c h. h.1) host h))

-- The path with its suffix is tidied to the path.
tidy_path :
    (path : Bytes) (git : Bool)
    → IsPath path
    → trim_suffix (trim (λ c. c == b'/') (path ++ git_part git)) (codes ".git") ≡ path
tidy_path path true p =
    let trimmed =
      trim_ends (λ c. c == b'/') (path ++ codes ".git") (path ++ codes ".gi")
        (p.rest ++ codes ".git") p.first b't' (ap (λ (s : Bytes). s ++ codes ".git") p.from_first)
        (sym (append_assoc path (codes ".gi") (codes "t"))) (ground (arith, p.first_ne)) refl in
    rw trimmed (trim_suffix-append path (codes ".git"))
tidy_path path false p =
    let trimmed =
      trim_ends (λ c. c == b'/') path p.init p.rest p.first p.last p.from_first p.to_last
        (ground (arith, p.first_ne)) (ground (arith, p.last_ne)) in
    rw (append-nil path, trimmed) (trim_suffix_absent path (codes ".git") p.bare)

host_key_lem :
    (host path : Bytes) (port : Option Bytes) (git : Bool)
    → IsHost host
    → IsPath path
    → host_key (host ++ port_part port) (path ++ git_part git) ≡ to_lower host ++ b'/' ∷ path
unfolding host_key
host_key_lem host path port git h p =
    rw (host_key, cut_port-port_part host port h, tidy_path path git p) (rw p.from_first)

git_part-plain : (git : Bool) → Lacks b':' (git_part git) × Lacks b'@' (git_part git)
git_part-plain true = omega arith
git_part-plain false = (tt, tt)

path-plain :
    (path : Bytes) (git : Bool)
    → All (λ c. (c ≢ b':') × (c ≢ b'@')) path
    → Lacks b':' (path ++ git_part git) × Lacks b'@' (path ++ git_part git)
path-plain path git p = (
  All-append _ path (git_part git) (weaken _ (λ c. c ≢ b':') (λ c h. h.0) path p)
      (git_part-plain git).0,
  All-append _ path (git_part git) (weaken _ (λ c. c ≢ b'@') (λ c h. h.1) path p)
      (git_part-plain git).1,
)

port_part-Lacks :
    (b : ℕ) (port : Option Bytes)
    → ((c : ℕ) → (c ≢ b'/') × (c ≢ b':') × (c ≢ b'@') → c ≢ b)
    → b':' ≢ b
    → IsPart port
    → Lacks b (port_part port)
port_part-Lacks b none f d q = tt
port_part-Lacks b (some port) f d q = (d, weaken _ (λ c. c ≢ b) f port q)

scp_like_scheme : (s : Bytes) → scp_like true s ≡ s
unfolding scp_like
scp_like_scheme s = ground arith

split_host-append : (a b : Bytes) → Lacks b'/' a → split_host (a ++ b'/' ∷ b) ≡ host_key a b
unfolding split_host
split_host-append a b h = rw (split_host, cut_byte-append b'/' a b h)

-- What follows the scheme and the user.
plain_rest :
    (host path : Bytes) (port : Option Bytes) (git : Bool)
    → IsHost host
    → IsPart port
    → IsPath path
    → split_host (host ++ (port_part port ++ b'/' ∷ (path ++ git_part git)))
      ≡ to_lower host ++ b'/' ∷ path
plain_rest host path port git h q p =
    let lacks =
      All-append _ host (port_part port) (weaken _ (λ c. c ≢ b'/') (λ c d. d.0) host h)
        (port_part-Lacks b'/' port (λ c d. d.0) (omega arith) q) in
    ap split_host (sym (append_assoc host (port_part port) (b'/' ∷ (path ++ git_part git))))
    ∙ split_host-append (host ++ port_part port) (path ++ git_part git) lacks
    ∙ host_key_lem host path port git h p

-- Every URL of the form `scheme://user@host:port/path.git`, with or without the user, the port and
-- the suffix, has the key of its host and its path.
pub comparison_key-scheme_form :
    (scheme : Bytes) (user : Option Bytes) (host : Bytes) (port : Option Bytes) (path : Bytes)
    (git : Bool)
    → Lacks b':' scheme
    → IsPart user
    → IsHost host
    → IsPart port
    → IsPath path
    → comparison_key (scheme_form scheme user host port path git) ≡ to_lower host ++ b'/' ∷ path
unfolding comparison_key
comparison_key-scheme_form scheme user host port path git s u h q p =
    let tail = host ++ (port_part port ++ b'/' ∷ (path ++ git_part git)) in
    let plain = All-append _ host _ (weaken _ (λ c. c ≢ b'@') (λ c d. d.2) host h) (
      All-append _ (port_part port) (b'/' ∷ (path ++ git_part git))
        (port_part-Lacks b'@' port (λ c d. d.2) (omega arith) q)
        (omega arith, (path-plain path git p.plain).1)) in
    rw
      (
        comparison_key,
        cut_scheme,
        cut_at_scheme scheme (user_part user ++ tail) s,
        cut_userinfo-user_part user tail u plain,
        scp_like_scheme tail,
      )
      (plain_rest host path port git h q p)

user_part-Lacks : (user : Option Bytes) → IsPart user → Lacks b':' (user_part user)
user_part-Lacks none u = tt
user_part-Lacks (some user) u =
    All-append _ user (b'@' ∷ []) (weaken _ (λ c. c ≢ b':') (λ c d. d.1) user u) (omega arith)

scp_no_scheme :
    (user : Option Bytes) (host path : Bytes) (git : Bool)
    → IsPart user
    → IsHost host
    → IsPath path
    → cut (codes "://") (scp_form user host path git) ≡ none
scp_no_scheme user host path git u h p =
    let before = user_part user ++ host in
    let shape : path ++ git_part git ≡ p.first ∷ (p.rest ++ git_part git) =
      ap (λ (s : Bytes). s ++ git_part git) p.from_first in
    let lacks =
      All-append _ (user_part user) host (user_part-Lacks user u)
        (weaken _ (λ c. c ≢ b':') (λ c d. d.1) host h) in
    let colonless : Lacks b':' (p.first ∷ (p.rest ++ git_part git)) =
      subst (Lacks b':') shape (path-plain path git p.plain).0 in
    ap (cut (codes "://")) (sym (append_assoc (user_part user) host _))
    ∙ ap (λ (s : Bytes). cut (codes "://") (before ++ b':' ∷ s)) shape
    ∙ cut_past_colon before (p.rest ++ git_part git) p.first lacks p.first_ne colonless

scp_like_host :
    (host path : Bytes) → IsHost host → scp_like false (host ++ b':' ∷ path) ≡ host ++ b'/' ∷ path
unfolding scp_like
scp_like_host host path h = rw (
  scp_like,
  cut_byte-append b':' host path (weaken _ (λ c. c ≢ b':') (λ c d. d.1) host h),
  contains_byte-Lacks b'/' host (weaken _ (λ c. c ≢ b'/') (λ c d. d.0) host h),
)

-- Every URL of the form `user@host:path.git`, with or without the user and the suffix, has that same
-- key.
pub comparison_key-scp_form :
    (user : Option Bytes) (host path : Bytes) (git : Bool)
    → IsPart user
    → IsHost host
    → IsPath path
    → comparison_key (scp_form user host path git) ≡ to_lower host ++ b'/' ∷ path
unfolding comparison_key
comparison_key-scp_form user host path git u h p =
    let tail = host ++ b':' ∷ (path ++ git_part git) in
    let plain =
      All-append _ host _ (weaken _ (λ c. c ≢ b'@') (λ c d. d.2) host h)
        (omega arith, (path-plain path git p.plain).1) in
    rw
      (
        comparison_key,
        cut_scheme,
        scp_no_scheme user host path git u h p,
        cut_userinfo-user_part user tail u plain,
        scp_like_host host (path ++ git_part git) h,
      )
      (plain_rest host path none git h tt p)

-- The URL form and the scp form of one host and path have one key, with or without a user, a port and
-- `.git`, where the scheme holds no colon, the users, the host and the port hold no slash, colon or at
-- sign, and the path is one of `IsPath`.
pub comparison_key_forms :
    (scheme : Bytes) (user other : Option Bytes) (host : Bytes) (port : Option Bytes) (path : Bytes)
    (git suffix : Bool)
    → Lacks b':' scheme
    → IsPart user
    → IsPart other
    → IsHost host
    → IsPart port
    → IsPath path
    → comparison_key (scheme_form scheme user host port path git)
      ≡ comparison_key (scp_form other host path suffix)
comparison_key_forms scheme user other host port path git suffix s u v h q p =
    comparison_key-scheme_form scheme user host port path git s u h q p
    ∙ sym (comparison_key-scp_form other host path suffix v h p)
