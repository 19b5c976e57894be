-- ===== src/Metadata/Line.antt =====
-- metadata.go: the lines of the record, written and read.
pub mod RoundTrip
pub mod Local
use git_csi_driver.Prelude.{
  ℕ, zero, suc, Bool, true, false, not, ◌&&◌, ◌||◌, Option, none, some, List, [], ◌∷◌, ◌++◌,
  if◌then◌else◌, ℤ, ◌>>◌, guard,
}
use git_csi_driver.Prelude.Text.{
  Bytes, codes, same, is_empty, has_prefix, cut_byte, split, trim_suffix, has_suffix,
}
use git_csi_driver.Prelude.Number.{parse_uint, atoi, print_int, print_octal}
use git_csi_driver.Prelude.Optional.{◌>>=◌}
use git_csi_driver.Metadata.{MetadataRecord}

unfoldable pub file_name : MetadataRecord → Bytes
file_name one = if one.directory then one.path ++ b'/' ∷ [] else one.path

-- `fmt.Fprintf(lines, "%04o %d %d %s\n", …)`, without the newline.
unfoldable pub metadata_line : MetadataRecord → Bytes
unfolding file_name
metadata_line one =
    let owned = print_int one.gid ++ b' ' ∷ file_name one in
    print_octal one.mode ++ b' ' ∷ (print_int one.uid ++ b' ' ∷ owned)

unfoldable pub metadata_content : List MetadataRecord → Bytes
unfolding metadata_line
metadata_content [] = []
metadata_content (one ∷ records) = metadata_line one ++ b'\n' ∷ metadata_content records

-- `strings.SplitN` at one byte, into one part more than the number at most.
unfoldable pub split_n : ℕ → ℕ → Bytes → List Bytes
split_n sep zero s = s ∷ []
split_n sep (suc n) s = elim (cut_byte sep s) [
  | none ↦ s ∷ []
  | some (part, rest) ↦ part ∷ split_n sep n rest
]

-- The directories a path has gone down, after one more of its elements. There is none above the first.
unfoldable pub next_depth : ℕ → Bytes → Option ℕ
next_depth depth part =
    if same part (codes "..")
    then elim depth [ zero ↦ none | suc d ↦ some d ]
    else if same part (codes ".") || is_empty part
    then some depth
    else some (suc depth)

unfoldable pub stays_inside : ℕ → List Bytes → Bool
unfolding next_depth
stays_inside depth [] = true
stays_inside depth (part ∷ parts) = elim (next_depth depth part) [
  | none ↦ false
  | some d ↦ stays_inside d parts
]

-- `filepath.IsLocal` on Linux: not empty, not absolute, and never above where it begins.
unfoldable pub is_local : Bytes → Bool
unfolding stays_inside
is_local path =
    not (is_empty path) && not (has_prefix (codes "/") path) && stays_inside 0 (split b'/' path)

unfoldable pub local_record : Bytes → ℕ → ℤ → ℤ → Option MetadataRecord
unfolding is_local
local_record name mode uid gid =
    let path = trim_suffix name (codes "/") in
    if is_local path
    then some (record {
      path = path;
      directory = has_suffix name (codes "/");
      mode = mode;
      uid = uid;
      gid = gid;
    })
    else none

unfoldable pub parse_fields : List Bytes → Option MetadataRecord
unfolding local_record
parse_fields (mode ∷ uid ∷ gid ∷ name ∷ []) = do
  m ← parse_uint 8 32 mode
  u ← atoi uid
  g ← atoi gid
  local_record name m u g
parse_fields fields = none

unfoldable pub parse_metadata_line : Bytes → Option MetadataRecord
unfolding split_n parse_fields
parse_metadata_line line = parse_fields (split_n b' ' 3 line)

unfoldable pub keep_records : List Bytes → List MetadataRecord
unfolding parse_metadata_line
keep_records [] = []
keep_records (line ∷ lines) = elim (parse_metadata_line line) [
  | none ↦ keep_records lines
  | some one ↦ one ∷ keep_records lines
]

-- A line that is not read is left out.
unfoldable pub parse_metadata_content : Bytes → List MetadataRecord
unfolding keep_records
parse_metadata_content content = keep_records (split b'\n' content)
