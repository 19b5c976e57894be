-- ===== src/Records/Mounts.antt =====
-- records.go: the mount points in the table that the kernel publishes.
pub mod Table
use git_csi_driver.Prelude.{
  ℕ, zero, suc, Bool, false, ◌&&◌, ◌||◌, Option, none, some, List, [], ◌∷◌, leb, ◌==◌,
  if◌then◌else◌, length,
}
use git_csi_driver.Prelude.Text.{
  Bytes, Lacks, codes, same, same_refl, is_empty, has_prefix, split, trim_suffix,
}

-- The ASCII blanks of `strings.Fields`.
abbrev is_space : ℕ → Bool
is_space c = c == b' ' || (leb b'\t' c && leb c b'\r')

unfoldable pub fields_from : Bytes → List Bytes
fields_from [] = [] ∷ []
fields_from (c ∷ s) =
    let rest = fields_from s in
    if is_space c then [] ∷ rest else elim rest [ [] ↦ (c ∷ []) ∷ [] | p ∷ ps ↦ (c ∷ p) ∷ ps ]

unfoldable pub keep_words : List Bytes → List Bytes
keep_words [] = []
keep_words (p ∷ ps) = if is_empty p then keep_words ps else p ∷ keep_words ps

-- `strings.Fields`
unfoldable pub fields : Bytes → List Bytes
unfolding fields_from keep_words
fields s = keep_words (fields_from s)

-- `mountEscapes`: the byte that the text begins with an escape of.
unfoldable pub escape_at : Bytes → Option ℕ
escape_at s =
    if has_prefix (codes "\\040") s
    then some b' '
    else if has_prefix (codes "\\011") s
    then some b'\t'
    else if has_prefix (codes "\\012") s
    then some b'\n'
    else if has_prefix (codes "\\134") s
    then some b'\\'
    else none

-- `mountEscapes.Replace`, where the first bytes belong to an escape that was replaced.
unfoldable pub replace_escapes : ℕ → Bytes → Bytes
unfolding escape_at
replace_escapes skip [] = []
replace_escapes zero (c ∷ s) = elim (escape_at (c ∷ s)) [
  | none ↦ c ∷ replace_escapes zero s
  | some b ↦ b ∷ replace_escapes 3 s
]
replace_escapes (suc skip) (c ∷ s) = replace_escapes skip s

unfoldable pub line_mounts : Bytes → List Bytes → Bool
unfolding replace_escapes
line_mounts path (a ∷ b ∷ c ∷ d ∷ point ∷ more) = same (replace_escapes 0 point) path
line_mounts path few = false

-- `bufio.Scanner` ends at a line of 64 KiB, and drops a carriage return at the end of a line.
unfoldable pub scan_lines : Bytes → List Bytes → Bool
unfolding line_mounts fields
scan_lines path [] = false
scan_lines path (line ∷ lines) =
    let later = scan_lines path lines in
    if leb 65536 (length line)
    then false
    else line_mounts path (fields (trim_suffix line (codes "\r"))) || later

-- A line that is empty mounts nothing, so the last part of the split does not count.
unfoldable pub mounted_in : Bytes → Bytes → Bool
unfolding scan_lines
mounted_in table path = scan_lines path (split b'\n' table)
