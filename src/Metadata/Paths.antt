-- ===== src/Metadata/Paths.antt =====
-- metadata.go: the records of the paths that an update rewrote. `path.Dir` cleans what it answers, and
-- cut off again and again it takes the last element of a clean path away.
use git_csi_driver.Prelude.{Bool, false, ◌&&◌, ◌||◌, List, [], ◌∷◌, ◌++◌, if◌then◌else◌}
use git_csi_driver.Prelude.Text.{Bytes, codes, same, is_empty, split}
use mathlib.Core.List.{reverse}
use git_csi_driver.Metadata.{MetadataRecord}

-- `path.Clean`: the elements that stand, the last one first, after one more of them.
unfoldable pub clean_onto : Bool → List Bytes → Bytes → List Bytes
clean_onto rooted stack part =
    if is_empty part || same part (codes ".")
    then stack
    else if same part (codes "..")
    then elim stack [
      | [] ↦ if rooted then [] else part ∷ []
      | top ∷ below ↦ if same top (codes "..") then part ∷ top ∷ below else below
    ]
    else part ∷ stack

unfoldable pub clean_all : Bool → List Bytes → List Bytes → List Bytes
unfolding clean_onto
clean_all rooted stack [] = stack
clean_all rooted stack (part ∷ parts) = clean_all rooted (clean_onto rooted stack part) parts

-- `path.Dir` of a relative path, as the elements of what it answers, the last one first: none stands for ".".
unfoldable pub dir_elements : Bytes → List Bytes
unfolding clean_all
dir_elements path = elim (reverse (split b'/' path)) [
  | [] ↦ []
  | last ∷ above ↦ clean_all false [] (reverse above)
]

unfoldable pub join_elements : List Bytes → Bytes
join_elements [] = codes "."
join_elements (part ∷ []) = part
join_elements (part ∷ above ∷ more) = join_elements (above ∷ more) ++ b'/' ∷ part

-- `for dir := path.Dir(one); dir != "."; dir = path.Dir(dir)`
unfoldable pub holding_dirs : List Bytes → List Bytes
unfolding join_elements
holding_dirs [] = []
holding_dirs (part ∷ above) = join_elements (part ∷ above) ∷ holding_dirs above

unfoldable pub holding_all : List Bytes → List Bytes
unfolding dir_elements holding_dirs
holding_all [] = []
holding_all (one ∷ changed) = holding_dirs (dir_elements one) ++ holding_all changed

-- A look-up in a set of paths.
unfoldable pub among : Bytes → List Bytes → Bool
among path [] = false
among path (one ∷ more) = same path one || among path more

unfoldable pub selected : List Bytes → List Bytes → MetadataRecord → Bool
unfolding among dir_elements join_elements
selected rewritten holding one =
    let inside =
      one.directory
      && (among one.path holding || among (join_elements (dir_elements one.path)) holding) in
    among one.path rewritten || inside

unfoldable pub records_of : List Bytes → List Bytes → List MetadataRecord → List MetadataRecord
unfolding selected
records_of rewritten holding [] = []
records_of rewritten holding (one ∷ records) =
    let found = records_of rewritten holding records in
    if selected rewritten holding one then one ∷ found else found

unfoldable pub records_under : List MetadataRecord → List Bytes → List MetadataRecord
unfolding records_of holding_all
records_under records changed = records_of changed (holding_all changed) records
