-- ===== src/Metadata/Line/RoundTrip.antt =====
-- metadata.go: the record that was written is read back.
use git_csi_driver.Prelude.{
  ℕ, suc, ◌^◌, ◌<◌, ◌≡◌, refl, ap, ◌∙◌, inl, inr, true, false, some, List, [], ◌∷◌, ◌++◌, arith,
  Bool-cases, All, All-append,
}
use git_csi_driver.Prelude.Text.{Bytes, Lacks, codes, cut_byte, split, has_suffix}
use git_csi_driver.Prelude.Text.Laws.{
  cut_byte-append, split-append, trim_suffix-append, trim_suffix_absent, has_suffix-append,
}
use git_csi_driver.Prelude.Number.{print_int, print_octal}
use git_csi_driver.Prelude.Number.Laws.{
  FitsInt, atoi-print_int, parse_uint-print_octal, print_octal-Lacks, print_int-Lacks,
}
use git_csi_driver.Metadata.{MetadataRecord}
use git_csi_driver.Metadata.Line.{
  file_name, metadata_line, metadata_content, split_n, is_local, local_record, parse_fields,
  parse_metadata_line, keep_records, parse_metadata_content,
}

-- A record that a walk makes: the path stays inside the tree, does not end in a slash and holds no
-- newline, and the numbers fit.
abbrev pub IsWritable : MetadataRecord → Type 0
IsWritable one =
    (is_local one.path ≡ true)
    × (has_suffix one.path (codes "/") ≡ false)
    × Lacks b'\n' one.path
    × (one.mode < 2 ^ 32)
    × FitsInt one.uid
    × FitsInt one.gid

split_n-append :
    (sep n : ℕ) (s t : Bytes)
    → Lacks sep s
    → split_n sep (suc n) (s ++ sep ∷ t) ≡ s ∷ split_n sep n t
unfolding split_n
split_n-append sep n s t h = rw (split_n, cut_byte-append sep s t h) refl

local_record-file_name :
    (one : MetadataRecord)
    → is_local one.path ≡ true
    → has_suffix one.path (codes "/") ≡ false
    → local_record (file_name one) one.mode one.uid one.gid ≡ some one
unfolding local_record file_name
local_record-file_name one inside ends = elim (Bool-cases one.directory) [
  | inl folder ↦
      rw
        (
          local_record,
          file_name,
          folder,
          trim_suffix-append one.path (codes "/"),
          inside,
          has_suffix-append one.path (codes "/"),
        )
        refl
  | inr file ↦
      rw (local_record, file_name, file, trim_suffix_absent one.path (codes "/") ends, inside, ends)
        refl
]

split_n-metadata_line :
    (one : MetadataRecord)
    → split_n b' ' 3 (metadata_line one)
      ≡ print_octal one.mode ∷ print_int one.uid ∷ print_int one.gid ∷ file_name one ∷ []
unfolding metadata_line split_n
split_n-metadata_line one =
    let last = file_name one in
    let two = print_int one.gid ++ b' ' ∷ last in
    let three = print_int one.uid ++ b' ' ∷ two in
    split_n-append b' ' 2 (print_octal one.mode) three
      (print_octal-Lacks b' ' one.mode (omega arith))
    ∙ ap (λ l. print_octal one.mode ∷ l)
        (split_n-append b' ' 1 (print_int one.uid) two (print_int-Lacks b' ' one.uid (omega arith))
          ∙ ap (λ l. print_int one.uid ∷ l)
              (split_n-append b' ' 0 (print_int one.gid) last
                (print_int-Lacks b' ' one.gid (omega arith))))

parse_metadata_line-metadata_line :
    (one : MetadataRecord) → IsWritable one → parse_metadata_line (metadata_line one) ≡ some one
unfolding parse_metadata_line parse_fields
parse_metadata_line-metadata_line one (inside, ends, plain, mode, uid, gid) =
    rw
      (
        split_n-metadata_line one,
        parse_uint-print_octal 32 one.mode mode,
        atoi-print_int one.uid uid,
        atoi-print_int one.gid gid,
      )
      (local_record-file_name one inside ends)

file_name-Lacks : (one : MetadataRecord) → Lacks b'\n' one.path → Lacks b'\n' (file_name one)
unfolding file_name
file_name-Lacks one plain = elim (Bool-cases one.directory) [
  | inl folder ↦ rw (file_name, folder) (All-append _ _ _ plain (omega arith, tt))
  | inr file ↦ rw (file_name, file) plain
]

metadata_line-Lacks :
    (one : MetadataRecord) → Lacks b'\n' one.path → Lacks b'\n' (metadata_line one)
unfolding metadata_line file_name
metadata_line-Lacks one plain =
    All-append _ (print_octal one.mode) _ (print_octal-Lacks b'\n' one.mode (omega arith)) (
      omega arith,
      All-append _ _ _ (print_int-Lacks b'\n' one.uid (omega arith)) (
        omega arith,
        All-append _ (print_int one.gid) _ (print_int-Lacks b'\n' one.gid (omega arith))
            (omega arith, file_name-Lacks one plain),
      ),
    )

keep_records-metadata_line :
    (one : MetadataRecord) (lines : List Bytes)
    → IsWritable one
    → keep_records (metadata_line one ∷ lines) ≡ one ∷ keep_records lines
unfolding keep_records
keep_records-metadata_line one lines h =
    rw (keep_records, parse_metadata_line-metadata_line one h) refl

-- Records that are written to the file are read back as they are, where every path is local, ends in no
-- slash and holds no newline, every mode has 32 bits at most and every owner and group fits an int of 64.
pub parse_metadata_content-metadata_content :
    (records : List MetadataRecord)
    → All IsWritable records
    → parse_metadata_content (metadata_content records) ≡ records
unfolding parse_metadata_content metadata_content keep_records split parse_metadata_line
    parse_fields split_n cut_byte
parse_metadata_content-metadata_content [] h = refl
parse_metadata_content-metadata_content (one ∷ records) (h, rest) =
    ap keep_records (
      split-append b'\n' (metadata_line one) (metadata_content records)
        (metadata_line-Lacks one h.2))
    ∙ keep_records-metadata_line one (split b'\n' (metadata_content records)) h
    ∙ ap (λ l. one ∷ l) (parse_metadata_content-metadata_content records rest)
