-- ===== src/Policy.antt =====
-- policy.go: the parameters of a VolumeAttributesClass, read into the rules an armed volume commits
-- and pushes under. `Rules` has what the rules satisfy, `Order` that a bad class is refused alike on
-- every pass, `Author` the identity that git accepts.
--
-- `parse_duration` stands for `time.ParseDuration` and `parse_quantity` for the value of
-- `resource.ParseQuantity`, which is third-party code; `none` is their error.
pub mod Rules
pub mod Order
pub mod Author
use git_csi_driver.Prelude.{
  ℕ, Bool, true, false, not, ◌&&◌, ◌||◌, Option, none, some, List, [], ◌∷◌, ◌++◌, map, ℤ, pos, leb,
  ltb, ◌==◌, ltb_ℤ, leb_ℤ, if◌then◌else◌, is_some, Result, ok, err, Error, invalid_argument, ◌>>=◌,
  ◌>>◌, guard,
}
use mathlib.Core.List.{reverse}
use git_csi_driver.Prelude.Text.{
  Bytes, codes, same, is_empty, cut_byte, contains_byte, trim_right, trim, split,
}
use git_csi_driver.Prelude.Dict.{Dict, lookup, value_of}
use git_csi_driver.Prelude.Sort.{sort}

pub record Policy : Type 0 where
  pub quiesce : ℤ
  pub max_latency : ℤ
  pub max_file_size : ℤ
  pub author_name : Bytes
  pub author_email : Bytes
  pub ignore : List Bytes
  pub metadata : Bool

abbrev refused : Bytes → Error
refused name = record { code = invalid_argument; subject = name }

-- Five seconds.
abbrev pub shortest_quiesce : ℤ
shortest_quiesce = pos 5000000000

-- Thirty seconds; the constant stands in watch.go.
abbrev pub default_quiesce : ℤ
default_quiesce = pos 30000000000

-- Five minutes.
abbrev pub default_max_latency : ℤ
default_max_latency = pos 300000000000

abbrev pub default_max_file_size : ℤ
default_max_file_size = pos 1048576

unfoldable pub default_policy : Policy
default_policy = record {
  quiesce = default_quiesce;
  max_latency = default_max_latency;
  max_file_size = default_max_file_size;
  author_name = codes "git-csi-driver";
  author_email = codes "git-csi-driver@liken.sh";
  ignore = [];
  metadata = true;
}

-- The class `\s` of Go's regular expressions.
abbrev pub is_blank : ℕ → Bool
is_blank c = c == 9 || c == 10 || c == 12 || c == 13 || c == 32

-- What `strings.TrimSpace` drops, of the ASCII bytes.
abbrev is_space : ℕ → Bool
is_space c = is_blank c || c == 11

-- `(\S.*?)\s+` against the text before the last `<`, where the second text is the first less its
-- last run of blanks. The lazy name ends where that run begins; a dot matches no newline.
name_before : Bytes → Bytes → Option Bytes
name_before before [] = none
name_before before (c ∷ rest) =
    if is_blank c || contains_byte 10 rest || same (c ∷ rest) before then none else some (c ∷ rest)

-- A byte outside `[^<>\s]`, but for `<`.
has_bad : Bytes → Bool
has_bad [] = false
has_bad (d ∷ s) = d == b'>' || is_blank d || has_bad s

unfoldable pub match_email : Bytes → Bytes → Option (Bytes × Bytes)
unfolding name_before has_bad contains_byte same trim_right
match_email email before =
    if is_empty email || has_bad email
    then none
    else elim (name_before before (trim_right is_blank before)) [
      | none ↦ none
      | some name ↦ some (name, email)
    ]

-- The regular expression `^(\S.*?)\s+<([^<>\s]+)>$`, read from the end: the address holds no `<`, so
-- it begins behind the last one.
from_end : Bytes → Option (Bytes × Bytes)
from_end [] = none
from_end (c ∷ rest) = elim (cut_byte b'<' rest) [
  | none ↦ none
  | some (email, before) ↦ if c == b'>' then match_email (reverse email) (reverse before) else none
]

unfoldable pub match_author : Bytes → Option (Bytes × Bytes)
unfolding cut_byte match_email from_end
match_author value = from_end (reverse value)

unfoldable pub parse_author : Bytes → Result (Bytes × Bytes)
unfolding match_author
parse_author value = elim (match_author value) [
  | none ↦ err (refused (codes "commit.author"))
  | some (name, email) ↦ ok (name, email)
]

-- The loop over the pieces of the list; an empty piece is no pattern.
unfoldable pub keep_patterns : List Bytes → List Bytes
unfolding trim
keep_patterns [] = []
keep_patterns (pattern ∷ rest) =
    let kept = keep_patterns rest in
    let trimmed = trim is_space pattern in if is_empty trimmed then kept else trimmed ∷ kept

unfoldable pub parse_ignore : Bytes → List Bytes
unfolding split keep_patterns
parse_ignore value = keep_patterns (split b',' value)

unfoldable pub parse_metadata_flag : Bytes → Result Bool
unfolding same
parse_metadata_flag value =
    if same value (codes "true")
    then ok true
    else if same value (codes "false")
    then ok false
    else err (refused (codes "metadata"))

-- The environment git reads the author and the committer from.
unfoldable pub author : Policy → List Bytes
author p =
    (codes "GIT_AUTHOR_NAME=" ++ p.author_name)
    ∷ (codes "GIT_AUTHOR_EMAIL=" ++ p.author_email)
    ∷ (codes "GIT_COMMITTER_NAME=" ++ p.author_name)
    ∷ (codes "GIT_COMMITTER_EMAIL=" ++ p.author_email)
    ∷ []

module _ (parse_duration : Bytes → Option ℤ) where
  unfoldable pub parse_quiesce : Bytes → Result ℤ
  parse_quiesce value = elim (parse_duration value) [
    | none ↦ err (refused (codes "push.quiesce"))
    | some quiesce ↦
        if ltb_ℤ quiesce shortest_quiesce then err (refused (codes "push.quiesce")) else ok quiesce
  ]

  unfoldable pub parse_max_latency : Bytes → Result ℤ
  unfolding same
  parse_max_latency value =
      if same value (codes "never") then ok (pos 0) else elim (parse_duration value) [
        | none ↦ err (refused (codes "push.maxLatency"))
        | some latency ↦ ok latency
      ]

module _ (parse_quantity : Bytes → Option ℤ) where
  unfoldable pub parse_max_file_size : Bytes → Result ℤ
  parse_max_file_size value = elim (parse_quantity value) [
    | none ↦ err (refused (codes "commit.maxFileSize"))
    | some size ↦ if ltb_ℤ size (pos 0) then err (refused (codes "commit.maxFileSize")) else ok size
  ]

-- The parameters, one constructor for each `case` of the `switch`.
pub data Parameter : Type 0 where
  quiesce_parameter max_latency_parameter max_file_size_parameter : Parameter
  author_parameter ignore_parameter metadata_parameter unknown_parameter : Parameter

unfoldable pub parameter_of : Bytes → Parameter
parameter_of name =
    if same name (codes "push.quiesce")
    then quiesce_parameter
    else if same name (codes "push.maxLatency")
    then max_latency_parameter
    else if same name (codes "commit.maxFileSize")
    then max_file_size_parameter
    else if same name (codes "commit.author")
    then author_parameter
    else if same name (codes "ignore")
    then ignore_parameter
    else if same name (codes "metadata")
    then metadata_parameter
    else unknown_parameter

module _ (parse_duration parse_quantity : Bytes → Option ℤ) where
  -- One round of the `switch`: the name is `name`, and the parameter is what it reads as.
  unfoldable pub read_parameter : Parameter → Bytes → Bytes → Policy → Result Policy
  unfolding parse_quiesce parse_max_latency parse_max_file_size parse_author parse_metadata_flag
  read_parameter quiesce_parameter name value resolved = do
    q ← parse_quiesce parse_duration value
    ok (record resolved { quiesce = q })
  read_parameter max_latency_parameter name value resolved = do
    l ← parse_max_latency parse_duration value
    ok (record resolved { max_latency = l })
  read_parameter max_file_size_parameter name value resolved = do
    s ← parse_max_file_size parse_quantity value
    ok (record resolved { max_file_size = s })
  read_parameter author_parameter name value resolved = do
    (n, e) ← parse_author value
    ok (record resolved { author_name = n; author_email = e })
  read_parameter ignore_parameter name value resolved =
      ok (record resolved { ignore = parse_ignore value })
  read_parameter metadata_parameter name value resolved = do
    m ← parse_metadata_flag value
    ok (record resolved { metadata = m })
  read_parameter unknown_parameter name value resolved = err (refused name)

  -- The loop over the sorted names.
  unfoldable pub read_parameters : List Bytes → Dict Bytes → Policy → Result Policy
  unfolding read_parameter parameter_of value_of
  read_parameters [] parameters resolved = ok resolved
  read_parameters (name ∷ names) parameters resolved = do
    next ← read_parameter (parameter_of name) name (value_of name parameters) resolved
    read_parameters names parameters next

-- The default push.maxLatency stretches to the quiesce where the class sets none.
unfoldable pub stretch : Bool → Policy → Policy
stretch latency_set resolved =
    if not latency_set && ltb_ℤ resolved.max_latency resolved.quiesce
    then record resolved { max_latency = resolved.quiesce }
    else resolved

abbrev is_zero : ℤ → Bool
is_zero (pos n) = n == 0
is_zero (ℤ.negsuc n) = false

unfoldable pub check_latency : Policy → Result Policy
check_latency resolved =
    if not (is_zero resolved.max_latency) && ltb_ℤ resolved.max_latency resolved.quiesce
    then err (refused (codes "push.maxLatency"))
    else ok resolved

abbrev pub names_of : Dict Bytes → List Bytes
names_of [] = []
names_of ((name, value) ∷ m) = name ∷ names_of m

module _ (parse_duration parse_quantity : Bytes → Option ℤ) where
  unfoldable pub parse_policy : Dict Bytes → Result Policy
  unfolding lookup sort read_parameters default_policy stretch check_latency
  parse_policy parameters = do
    let latency_set = is_some (lookup (codes "push.maxLatency") parameters)
    resolved ←
        read_parameters parse_duration parse_quantity (sort (names_of parameters)) parameters
          default_policy
    check_latency (stretch latency_set resolved)
