-- ===== src/Store/Tree/Total.antt =====
-- store.go: a replace whose calls all work.
use git_csi_driver.Prelude.{ℕ, ◌≡◌, refl, true, Option, none, some, List, [], if-either, is_some}
use git_csi_driver.Prelude.Text.{Bytes}
use git_csi_driver.Store.Tree.{
  Tree, file, link, dir, Entries, nil, entry, find, Call, Replacing, remove_all, rename, and_then,
  remove_gone, clear_level, replace_level, arrive_dir, arrive_file, arrive_each, replace_tree,
}
use git_csi_driver.Store.Tree.Replaced.{IsProper, content, replace_tree-content}

abbrev Works : Replacing → Type 0
Works r = (r.is_ok ≡ true) × (r.calls ≡ [])

abbrev AllWork : (Entries → List Call → Replacing) → Type 0
AllWork next = (p : Entries) → Works (next p [])

and_then-Works :
    (r : Replacing) (next : Entries → List Call → Replacing)
    → Works r
    → AllWork next
    → Works (and_then r next)
and_then-Works r next (worked, none_left) all = rw (worked, none_left) (all r.published)

remove_gone-Works : (fresh standing : Entries) → AllWork (remove_gone fresh standing)
unfolding remove_gone remove_all
remove_gone-Works fresh nil p = (refl, refl)
remove_gone-Works fresh (entry name t more) p =
    if-either Works (is_some (find name fresh)) (λ both. remove_gone-Works fresh more p)
      (λ gone. remove_gone-Works fresh more _)

replace_level-Works :
    (fresh : Entries) (each : Entries → List Call → Replacing)
    → AllWork each
    → AllWork (replace_level each fresh)
unfolding replace_level clear_level
replace_level-Works fresh each all p =
    and_then-Works (remove_gone fresh p p []) each (remove_gone-Works fresh p p) all

arrive_file-Works :
    (name : Bytes) (t : Tree) (there : Option Tree) (p : Entries)
    → Works (arrive_file name t there p [])
unfolding arrive_file rename remove_all
arrive_file-Works name t none p = (refl, refl)
arrive_file-Works name t (some (file held)) p = (refl, refl)
arrive_file-Works name t (some (link target)) p = (refl, refl)
arrive_file-Works name t (some (dir inode q)) p = (refl, refl)

arrive_dir-Works :
    (merge : Entries → List Call → Replacing) (name : Bytes) (inode : ℕ) (e : Entries)
    (there : Option Tree) (p : Entries)
    → AllWork merge
    → Works (arrive_dir merge name inode e there p [])
unfolding arrive_dir rename remove_all
arrive_dir-Works merge name inode e none p all = (refl, refl)
arrive_dir-Works merge name inode e (some (file held)) p all = (refl, refl)
arrive_dir-Works merge name inode e (some (link target)) p all = (refl, refl)
arrive_dir-Works merge name inode e (some (dir standing q)) p all = all q

arrive_each-Works : (e : Entries) → AllWork (arrive_each e)
unfolding arrive_each
arrive_each-Works nil p = (refl, refl)
arrive_each-Works (entry name (file held) more) p =
    and_then-Works _ (arrive_each more) (arrive_file-Works name (file held) (find name p) p)
      (arrive_each-Works more)
arrive_each-Works (entry name (link target) more) p =
    and_then-Works _ (arrive_each more) (arrive_file-Works name (link target) (find name p) p)
      (arrive_each-Works more)
arrive_each-Works (entry name (dir inode below) more) p =
    and_then-Works _ (arrive_each more)
      (arrive_dir-Works _ name inode below (find name p) p
        (replace_level-Works below (arrive_each below) (arrive_each-Works below)))
      (arrive_each-Works more)

-- A replace of a directory by one whose names are distinct, where every call works, works and makes the published
-- directory read, at every path, as the fresh one, whatever it held before.
pub replace_tree_lem :
    (fresh published : Entries)
    → IsProper fresh
    → let r = replace_tree fresh published [] in
      (r.is_ok ≡ true) × (content r.published ≡ content fresh)
unfolding replace_tree
replace_tree_lem fresh published proper =
    let (worked, none_left) =
      replace_level-Works fresh (arrive_each fresh) (arrive_each-Works fresh) published in
    (worked, replace_tree-content fresh published [] proper worked)
