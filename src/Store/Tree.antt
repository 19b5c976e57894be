-- ===== src/Store/Tree.antt =====
-- store.go: `replaceTree`, which makes a published directory hold what a fresh checkout holds, and
-- `treeSize`. `Replaced` has what a replace promises.
--
-- A directory is the list of its entries with its inode, and its order is that of `os.ReadDir`. Each call of
-- the file system works or fails as the list of `Call` says, one after the other, and past its end it works.
-- `os.Lstat` fails only where there is nothing.
pub mod Replaced
pub mod Steady
pub mod Total
use git_csi_driver.Prelude.{
  ℕ, ◌+◌, Bool, true, false, Option, none, some, List, [], ◌∷◌, if◌then◌else◌, is_some, length,
}
use git_csi_driver.Prelude.Text.{Bytes, same}

mutual
  pub data Tree : Type 0 where
    file : Bytes → Tree
    link : Bytes → Tree
    dir : ℕ → Entries → Tree

  pub data Entries : Type 0 where
    nil : Entries
    entry : Bytes → Tree → Entries → Entries

unfoldable pub find : Bytes → Entries → Option Tree
find name nil = none
find name (entry one t more) = if same one name then some t else find name more

-- `os.Rename` onto a name: what stood there is replaced.
unfoldable pub put : Bytes → Tree → Entries → Entries
put name t nil = entry name t nil
put name t (entry one u more) =
    if same one name then entry name t more else entry one u (put name t more)

unfoldable pub discard : Bytes → Entries → Entries
discard name nil = nil
discard name (entry one u more) =
    let rest = discard name more in if same one name then rest else entry one u rest

-- `entry.IsDir()`
abbrev pub is_dir : Tree → Bool
is_dir (dir inode content) = true
is_dir other = false

-- A call that fails. A removal that fails leaves a part of what it removes, or nothing of it.
pub data Call : Type 0 where
  works : Call
  fails : Option Tree → Call

abbrev pub next_call : List Call → Call
next_call [] = works
next_call (call ∷ calls) = call

abbrev pub later_calls : List Call → List Call
later_calls [] = []
later_calls (call ∷ calls) = calls

abbrev pub left_at : Bytes → Option Tree → Entries → Entries
left_at name none standing = discard name standing
left_at name (some part) standing = put name part standing

-- What a part of a replace leaves: the published entries, the calls after it and whether it worked.
pub record Replacing : Type 0 where
  pub published : Entries
  pub calls : List Call
  pub is_ok : Bool

-- `os.RemoveAll`
unfoldable pub remove_all : Bytes → Entries → List Call → Replacing
unfolding put discard
remove_all name published calls = elim (next_call calls) [
  | works ↦ record { published = discard name published; calls = later_calls calls; is_ok = true }
  | fails part ↦ record {
    published = left_at name part published;
    calls = later_calls calls;
    is_ok = false;
  }
]

-- `os.Rename`
unfoldable pub rename : Bytes → Tree → Entries → List Call → Replacing
unfolding put
rename name t published calls = elim (next_call calls) [
  | works ↦ record { published = put name t published; calls = later_calls calls; is_ok = true }
  | fails part ↦ record { published = published; calls = later_calls calls; is_ok = false }
]

-- What follows a part that worked.
abbrev pub and_then : Replacing → (Entries → List Call → Replacing) → Replacing
and_then r next = if r.is_ok then next r.published r.calls else r

-- The entries that the fresh tree does not hold.
unfoldable pub remove_gone : (fresh standing published : Entries) → List Call → Replacing
unfolding find remove_all
remove_gone fresh nil published calls = record {
  published = published;
  calls = calls;
  is_ok = true;
}
remove_gone fresh (entry name t more) published calls =
    if is_some (find name fresh)
    then remove_gone fresh more published calls
    else and_then (remove_all name published calls) (remove_gone fresh more)

-- `os.ReadDir`
abbrev pub read_dir : Entries → List Call → Replacing
read_dir published calls = elim (next_call calls) [
  | works ↦ record { published = published; calls = later_calls calls; is_ok = true }
  | fails part ↦ record { published = published; calls = later_calls calls; is_ok = false }
]

-- One level of a replace, with the loop over its arriving entries, behind the two reads.
unfoldable pub clear_level :
    (Entries → List Call → Replacing) → Entries → Entries → List Call → Replacing
unfolding remove_gone
clear_level arrive_each fresh published calls =
    and_then (remove_gone fresh published published calls) arrive_each

unfoldable pub replace_level :
    (Entries → List Call → Replacing) → Entries → Entries → List Call → Replacing
unfolding clear_level
replace_level arrive_each fresh published calls =
    and_then (read_dir published calls)
      λ p after. and_then (read_dir p after) (clear_level arrive_each fresh)

-- What stands at the name of an arriving directory is a directory, whose inode stays, something else, or
-- nothing. `merge` replaces its content.
unfoldable pub arrive_dir :
    (Entries → List Call → Replacing)
    → Bytes
    → ℕ
    → Entries
    → Option Tree
    → Entries
    → List Call
    → Replacing
unfolding rename remove_all put
arrive_dir merge name inode content none published calls =
    rename name (dir inode content) published calls
arrive_dir merge name inode content (some (dir standing q)) published calls =
    let r = merge q calls in record r { published = put name (dir standing r.published) published }
arrive_dir merge name inode content (some other) published calls =
    and_then (remove_all name published calls) (rename name (dir inode content))

-- What arrives is no directory.
unfoldable pub arrive_file : Bytes → Tree → Option Tree → Entries → List Call → Replacing
unfolding rename remove_all
arrive_file name t (some (dir standing q)) published calls =
    and_then (remove_all name published calls) (rename name t)
arrive_file name t other published calls = rename name t published calls

-- The loop over the arriving entries.
unfoldable pub arrive_each : Entries → Entries → List Call → Replacing
unfolding arrive_dir arrive_file find replace_level
arrive_each nil published calls = record { published = published; calls = calls; is_ok = true }
arrive_each (entry name (dir inode content) more) published calls =
    and_then
      (arrive_dir (replace_level (arrive_each content) content) name inode content
        (find name published) published calls)
      (arrive_each more)
arrive_each (entry name t more) published calls =
    and_then (arrive_file name t (find name published) published calls) (arrive_each more)

unfoldable pub replace_tree : Entries → Entries → List Call → Replacing
unfolding arrive_each
replace_tree fresh = replace_level (arrive_each fresh) fresh

unfoldable mutual
  pub size_of : Tree → ℕ
  size_of (file content) = length content
  size_of (link target) = 0
  size_of (dir inode content) = tree_size content

  pub tree_size : Entries → ℕ
  tree_size nil = 0
  tree_size (entry name t more) = size_of t + tree_size more
