-- ===== src/Records/Mounts/Table.antt =====
-- records.go: the table that the kernel writes is read as its mount points.
use git_csi_driver.Prelude.{
  ℕ, ◌<◌, ◌≡◌, refl, sym, ap, ◌∙◌, ◌≢◌, Bool, true, false, ◌&&◌, ◌||◌, List, [], ◌∷◌, ◌++◌, arith,
  leb, ◌==◌, if◌then◌else◌, if-either, length, All, All-append, weaken_All,
}
use git_csi_driver.Prelude.Text.{
  Bytes, Lacks, codes, same, is_empty, has_prefix, has_suffix, split, trim_suffix,
}
use git_csi_driver.Prelude.Text.Laws.{split-append, trim_suffix_absent, All-reverse}
use mathlib.Core.List.{reverse}
use git_csi_driver.Records.Mounts.{
  is_space, fields_from, keep_words, fields, escape_at, replace_escapes, line_mounts, scan_lines,
  mounted_in,
}

-- How the kernel writes a mount point: a blank, a tab, a newline and a backslash as octal escapes.
abbrev pub escape_byte : ℕ → Bytes → Bytes
escape_byte c s =
    if c == b' '
    then codes "\\040" ++ s
    else if c == b'\t'
    then codes "\\011" ++ s
    else if c == b'\n'
    then codes "\\012" ++ s
    else if c == b'\\'
    then codes "\\134" ++ s
    else c ∷ s

abbrev pub escape : Bytes → Bytes
escape [] = []
escape (c ∷ s) = escape_byte c (escape s)

replace_escapes-escape : (s : Bytes) → replace_escapes 0 (escape s) ≡ s
unfolding replace_escapes escape_at has_prefix
replace_escapes-escape [] = refl
replace_escapes-escape (c ∷ s) = ground (arith, replace_escapes-escape s)

-- A line of the table: the four words before the mount point, the mount point, and the words after it.
pub record Mount : Type 0 where
  pub mount_id : Bytes
  pub parent_id : Bytes
  pub device : Bytes
  pub root : Bytes
  pub point : Bytes
  pub more : List Bytes

abbrev pub join_words : Bytes → List Bytes → Bytes
join_words w [] = w
join_words w (v ∷ ws) = w ++ b' ' ∷ join_words v ws

abbrev pub mount_words : Mount → List Bytes
mount_words m = m.parent_id ∷ m.device ∷ m.root ∷ escape m.point ∷ m.more

abbrev pub mount_line : Mount → Bytes
mount_line m = join_words m.mount_id (mount_words m)

abbrev pub write_table : List Mount → Bytes
write_table [] = []
write_table (m ∷ mounts) = mount_line m ++ b'\n' ∷ write_table mounts

abbrev pub IsWord : Bytes → Type 0
IsWord w = (is_empty w ≡ false) × All (λ c. is_space c ≡ false) w

-- A mount point that is not empty and holds none of the blanks that the kernel writes as they are, words
-- around it, and a line that a scanner holds.
abbrev pub IsMountLine : Mount → Type 0
IsMountLine m =
    (is_empty m.point ≡ false)
    × All (λ c. (leb 11 c && leb c 13) ≡ false) m.point
    × IsWord m.mount_id
    × IsWord m.parent_id
    × IsWord m.device
    × IsWord m.root
    × All IsWord m.more
    × (length (mount_line m) < 65536)

escape_byte-All :
    (c : ℕ) (s : Bytes)
    → (leb 11 c && leb c 13) ≡ false
    → All (λ b. is_space b ≡ false) s
    → All (λ b. is_space b ≡ false) (escape_byte c s)
escape_byte-All c s h k =
    if-either (All (λ b. is_space b ≡ false)) (c == b' ') (λ e. (refl, (refl, (refl, (refl, k)))))
      λ n1.
        if-either (All (λ b. is_space b ≡ false)) (c == b'\t')
          (λ e. (refl, (refl, (refl, (refl, k)))))
          λ n2.
            if-either (All (λ b. is_space b ≡ false)) (c == b'\n')
              (λ e. (refl, (refl, (refl, (refl, k)))))
              λ n3.
                if-either (All (λ b. is_space b ≡ false)) (c == b'\\')
                  (λ e. (refl, (refl, (refl, (refl, k))))) λ n4. (ground arith, k)

escape-All :
    (s : Bytes)
    → All (λ c. (leb 11 c && leb c 13) ≡ false) s
    → All (λ b. is_space b ≡ false) (escape s)
escape-All [] h = tt
escape-All (c ∷ s) h = escape_byte-All c (escape s) h.0 (escape-All s h.1)

escape-IsWord :
    (s : Bytes)
    → is_empty s ≡ false
    → All (λ c. (leb 11 c && leb c 13) ≡ false) s
    → IsWord (escape s)
escape-IsWord [] e h = cc e
escape-IsWord (c ∷ s) e h = (ground arith, escape-All (c ∷ s) h)

fields_from-append :
    (w s : Bytes)
    → All (λ c. is_space c ≡ false) w
    → fields_from (w ++ b' ' ∷ s) ≡ w ∷ fields_from s
unfolding fields_from
fields_from-append [] s h = refl
fields_from-append (c ∷ w) s h = rw (h.0, fields_from-append w s h.1) refl

fields_from_word : (w : Bytes) → All (λ c. is_space c ≡ false) w → fields_from w ≡ w ∷ []
unfolding fields_from
fields_from_word [] h = refl
fields_from_word (c ∷ w) h = rw (h.0, fields_from_word w h.1) refl

fields-join_words :
    (w : Bytes) (ws : List Bytes) → IsWord w → All IsWord ws → fields (join_words w ws) ≡ w ∷ ws
unfolding fields keep_words
fields-join_words w [] h hs = rw (fields_from_word w h.1, h.0) refl
fields-join_words w (v ∷ ws) h hs =
    rw (fields_from-append w (join_words v ws) h.1, h.0)
      (ap (λ l. w ∷ l) (fields-join_words v ws hs.0 hs.1))

blank_apart : (b c : ℕ) → is_space b ≡ true → is_space c ≡ false → c ≢ b
blank_apart b c blank p e = cc (blank, p, ap is_space e)

-- A byte that is a blank, but not the space, is in no line of words.
join_words-Lacks :
    (b : ℕ) (w : Bytes) (ws : List Bytes)
    → is_space b ≡ true
    → b ≢ b' '
    → IsWord w
    → All IsWord ws
    → Lacks b (join_words w ws)
join_words-Lacks b w [] blank other h hs = weaken_All (λ c p e. blank_apart b c blank p e) w h.1
join_words-Lacks b w (v ∷ ws) blank other h hs =
    All-append _ w _ (weaken_All (λ c p e. blank_apart b c blank p e) w h.1)
      (λ e. other (sym e), join_words-Lacks b v ws blank other hs.0 hs.1)

has_prefix-Lacks : (b : ℕ) (s : Bytes) → Lacks b s → has_prefix (b ∷ []) s ≡ false
unfolding has_prefix
has_prefix-Lacks b [] h = refl
has_prefix-Lacks b (c ∷ s) h = ground (arith, h.0)

has_suffix-Lacks : (b : ℕ) (s : Bytes) → Lacks b s → has_suffix s (b ∷ []) ≡ false
unfolding has_suffix
has_suffix-Lacks b s h = has_prefix-Lacks b (reverse s) (All-reverse (λ c. c ≢ b) s h)

mount_words-All : (m : Mount) → IsMountLine m → All IsWord (mount_words m)
mount_words-All m (some_point, plain, a, b, c, d, more, fits) =
    (b, (c, (d, (escape-IsWord m.point some_point plain, more))))

line_mounts-mount_line :
    (path : Bytes) (m : Mount)
    → IsMountLine m
    → line_mounts path (fields (trim_suffix (mount_line m) (codes "\r"))) ≡ same m.point path
unfolding line_mounts
line_mounts-mount_line path m h =
    let words = mount_words-All m h in
    let ends =
      has_suffix-Lacks b'\r' (mount_line m)
        (join_words-Lacks b'\r' m.mount_id (mount_words m) refl (omega arith) h.2 words) in
    ap (λ l. line_mounts path (fields l)) (trim_suffix_absent (mount_line m) (codes "\r") ends)
    ∙ ap (line_mounts path) (fields-join_words m.mount_id (mount_words m) h.2 words)
    ∙ ap (λ point. same point path) (replace_escapes-escape m.point)

-- Whether one of the mounts is at the path.
abbrev pub any_point : Bytes → List Mount → Bool
any_point path [] = false
any_point path (m ∷ mounts) = same m.point path || any_point path mounts

long_enough : (n : ℕ) → n < 65536 → leb 65536 n ≡ false
long_enough n h = ground arith

scan_lines-mount_line :
    (path : Bytes) (m : Mount) (lines : List Bytes)
    → IsMountLine m
    → scan_lines path (mount_line m ∷ lines) ≡ (same m.point path || scan_lines path lines)
unfolding scan_lines
scan_lines-mount_line path m lines h =
    let fits : leb 65536 (length (mount_line m)) ≡ false =
      long_enough (length (mount_line m)) h.7 in
    rw (scan_lines, fits, line_mounts-mount_line path m h) refl

-- The table that the kernel writes has a path exactly if one of the mounts is there, where no mount point is
-- empty or holds a blank that the kernel writes as it is, the other words are not empty and hold no blank,
-- and a scanner holds every line.
pub mounted_in-write_table :
    (path : Bytes) (mounts : List Mount)
    → All IsMountLine mounts
    → mounted_in (write_table mounts) path ≡ any_point path mounts
unfolding mounted_in split trim_suffix
mounted_in-write_table path [] h = refl
mounted_in-write_table path (m ∷ mounts) h =
    let line =
      join_words-Lacks b'\n' m.mount_id (mount_words m) refl (omega arith) h.0.2
        (mount_words-All m h.0) in
    ap (scan_lines path) (split-append b'\n' (mount_line m) (write_table mounts) line)
    ∙ scan_lines-mount_line path m (split b'\n' (write_table mounts)) h.0
    ∙ ap (λ later. same m.point path || later) (mounted_in-write_table path mounts h.1)
