-- ===== src/Store/Tree/Replaced.antt =====
-- store.go: what a replace of a published tree leaves, path by path.
use mathlib.Core.Path.{fun_ext, subst}
use git_csi_driver.Prelude.{
  ℕ, ◌≡◌, refl, sym, ap, ◌∙◌, inl, inr, true, false, Option, none, some, List, [], ◌∷◌, arith,
  if◌then◌else◌, Bool-cases, if-either, is_some,
}
use git_csi_driver.Prelude.Text.{Bytes, same, same_refl, same_iff}
use git_csi_driver.Store.Tree.{
  Tree, file, link, dir, Entries, nil, entry, find, put, discard, Call, works, fails, Replacing,
  remove_all, rename, and_then, remove_gone, read_dir, clear_level, replace_level, arrive_dir,
  arrive_file, arrive_each, replace_tree,
}

-- What a reader finds at a path. It does not tell the inode or the order of a directory.
pub data Sight : Type 0 where
  is_file is_link : Bytes → Sight
  is_directory : Sight

abbrev pub sight : Tree → Sight
sight (file content) = is_file content
sight (link target) = is_link target
sight (dir inode content) = is_directory

abbrev inside : Option Tree → Bytes → Option Tree
inside (some (dir inode content)) name = find name content
inside other name = none

unfoldable pub look : List Bytes → Option Tree → Option Sight
unfolding find
look path none = none
look [] (some t) = some (sight t)
look (name ∷ path) (some (dir inode content)) = look path (find name content)
look (name ∷ path) (some other) = none

-- The content of a directory, as a function of the paths below it.
abbrev pub content : Entries → List Bytes → Option Sight
content e path = look path (some (dir 0 e))

-- Names are distinct in each directory, as a file system has them.
abbrev mutual
  pub IsTree : Tree → Type 0
  IsTree (dir inode content) = IsProper content
  IsTree other = Unit

  pub IsProper : Entries → Type 0
  IsProper nil = Unit
  IsProper (entry name t more) = (find name more ≡ none) × IsTree t × IsProper more

pub Alike : Option Tree → Option Tree → Type 0
Alike a b = (path : List Bytes) → look path a ≡ look path b

find-put :
    (name other : Bytes) (t : Tree) (e : Entries)
    → find other (put name t e) ≡ (if same name other then some t else find other e)
unfolding find put
find-put name other t nil = refl
find-put name other t (entry one u more) =
    ground (
      arith,
      find-put name other t more,
      same_iff one other,
      same_iff one name,
      same_iff name other,
    )

find-discard :
    (name other : Bytes) (e : Entries)
    → find other (discard name e) ≡ (if same name other then none else find other e)
unfolding find discard
find-discard name other nil = ground arith
find-discard name other (entry one u more) = ground (
  arith,
  find-discard name other more,
  same_iff one other,
  same_iff one name,
  same_iff name other,
)

pub find-put_self : (name : Bytes) (t : Tree) (e : Entries) → find name (put name t e) ≡ some t
find-put_self name t e = find-put name name t e ∙ rw (same_refl name) refl

find-put_other :
    (name other : Bytes) (t : Tree) (e : Entries)
    → same name other ≡ false
    → find other (put name t e) ≡ find other e
find-put_other name other t e h = find-put name other t e ∙ rw h refl

find-discard_other :
    (name other : Bytes) (e : Entries)
    → same name other ≡ false
    → find other (discard name e) ≡ find other e
find-discard_other name other e h = find-discard name other e ∙ rw h refl

abbrev pub Untouched : Bytes → Entries → Entries → Type 0
Untouched name p q = (other : Bytes) → same name other ≡ false → find other q ≡ find other p

pub and_then-either :
    (P : Replacing → Type 0) (r : Replacing) (next : Entries → List Call → Replacing)
    → (r.is_ok ≡ false → P r)
    → (r.is_ok ≡ true → P (next r.published r.calls))
    → P (and_then r next)
and_then-either P r next stops goes = if-either P r.is_ok goes stops

pub remove_all-Untouched :
    (name : Bytes) (p : Entries) (calls : List Call)
    → Untouched name p (remove_all name p calls).published
unfolding remove_all
remove_all-Untouched name p [] other e = find-discard_other name other p e
remove_all-Untouched name p (works ∷ calls) other e = find-discard_other name other p e
remove_all-Untouched name p (fails none ∷ calls) other e = find-discard_other name other p e
remove_all-Untouched name p (fails (some part) ∷ calls) other e = find-put_other name other part p e

-- A part that works leaves at the name what reads as the tree, and it leaves the other names alone.
abbrev pub Settles : Bytes → Tree → Entries → Replacing → Type 0
Settles name t p r =
    (r.is_ok ≡ true → Alike (find name r.published) (some t)) × Untouched name p r.published

Alike-of_eq : (a b : Option Tree) → a ≡ b → Alike a b
unfolding Alike
Alike-of_eq a b e path = ap (look path) e

rename-Settles :
    (name : Bytes) (t : Tree) (p : Entries) (calls : List Call)
    → Settles name t p (rename name t p calls)
unfolding rename
rename-Settles name t p [] =
    (λ e. Alike-of_eq _ _ (find-put_self name t p), λ other. find-put_other name other t p)
rename-Settles name t p (works ∷ calls) =
    (λ e. Alike-of_eq _ _ (find-put_self name t p), λ other. find-put_other name other t p)
rename-Settles name t p (fails part ∷ calls) = (λ e. cc e, λ other e. refl)

-- A removal and a rename onto the name.
removed-Settles :
    (name : Bytes) (t : Tree) (p : Entries) (calls : List Call)
    → Settles name t p (and_then (remove_all name p calls) (rename name t))
removed-Settles name t p calls =
    let gone = remove_all name p calls in
    and_then-either (Settles name t p) gone (rename name t)
      (λ failed. (λ works. cc (failed, works), remove_all-Untouched name p calls))
      (λ removed.
        let (settled, untouched) = rename-Settles name t gone.published gone.calls in
        (settled, λ other e. untouched other e ∙ remove_all-Untouched name p calls other e))

pub arrive_file-Settles :
    (name : Bytes) (t : Tree) (there : Option Tree) (p : Entries) (calls : List Call)
    → Settles name t p (arrive_file name t there p calls)
unfolding arrive_file
arrive_file-Settles name t none p calls = rename-Settles name t p calls
arrive_file-Settles name t (some (dir standing q)) p calls = removed-Settles name t p calls
arrive_file-Settles name t (some (file held)) p calls = rename-Settles name t p calls
arrive_file-Settles name t (some (link target)) p calls = rename-Settles name t p calls

dir-Alike :
    (i j : ℕ) (q e : Entries)
    → ((name : Bytes) → Alike (find name q) (find name e))
    → Alike (some (dir i q)) (some (dir j e))
unfolding look Alike
dir-Alike i j q e alike [] = refl
dir-Alike i j q e alike (name ∷ path) = alike name path

-- A replace of a directory that works makes it read as the fresh one.
abbrev pub Merges : Entries → (Entries → List Call → Replacing) → Type 0
Merges e merge =
    (q : Entries) (calls : List Call)
    → (merge q calls).is_ok ≡ true
    → (name : Bytes) → Alike (find name (merge q calls).published) (find name e)

pub arrive_dir-Settles :
    (merge : Entries → List Call → Replacing) (name : Bytes) (inode : ℕ) (e : Entries)
    (there : Option Tree) (p : Entries) (calls : List Call)
    → Merges e merge
    → Settles name (dir inode e) p (arrive_dir merge name inode e there p calls)
unfolding arrive_dir
arrive_dir-Settles merge name inode e none p calls merges =
    rename-Settles name (dir inode e) p calls
arrive_dir-Settles merge name inode e (some (file held)) p calls merges =
    removed-Settles name (dir inode e) p calls
arrive_dir-Settles merge name inode e (some (link target)) p calls merges =
    removed-Settles name (dir inode e) p calls
arrive_dir-Settles merge name inode e (some (dir standing q)) p calls merges =
    let t : Tree = dir standing (merge q calls).published in
    (
      λ worked.
          subst (λ found. Alike found (some (dir inode e))) (sym (find-put_self name t p))
            (dir-Alike standing inode _ e (merges q calls worked)),
      λ other. find-put_other name other t p,
    )

abbrev pub or_else : Option Tree → Option Tree → Option Tree
or_else none other = other
or_else (some t) other = some t

-- A loop over arriving entries that works leaves each of them at its name, and the other names alone.
abbrev pub Covers : Entries → Entries → Replacing → Type 0
Covers e p r =
    r.is_ok ≡ true
    → (name : Bytes) → Alike (find name r.published) (or_else (find name e) (find name p))

step-Alike :
    (one : Bytes) (t : Tree) (more p q : Entries)
    → find one more ≡ none
    → Alike (find one q) (some t)
    → Untouched one p q
    → (name : Bytes)
    → Alike
        (or_else (find name more) (find name q))
        (or_else (find name (entry one t more)) (find name p))
unfolding find
step-Alike one t more p q new settled untouched name = elim (Bool-cases (same one name)) [
  | inl at ↦ let e : one ≡ name = (same_iff one name).0 at in rw (← e, same_refl one, new) settled
  | inr other ↦ rw (other, untouched name other) (Alike-of_eq _ _ refl)
]

Alike-trans : (a b c : Option Tree) → Alike a b → Alike b c → Alike a c
unfolding Alike
Alike-trans a b c h k path = h path ∙ k path

-- One arriving entry and the loop after it.
entry-Covers :
    (one : Bytes) (t : Tree) (more p : Entries) (r : Replacing)
    → find one more ≡ none
    → Settles one t p r
    → ((q : Entries) (calls : List Call) → Covers more q (arrive_each more q calls))
    → Covers (entry one t more) p (and_then r (arrive_each more))
entry-Covers one t more p r new (settled, untouched) rest =
    and_then-either (Covers (entry one t more) p) r (arrive_each more)
      (λ failed done. cc (failed, done))
      (λ worked done name.
        Alike-trans _ _ _ (rest r.published r.calls done name)
          (step-Alike one t more p r.published new (settled worked) untouched name))

remove_all-ok :
    (name : Bytes) (p : Entries) (calls : List Call)
    → (remove_all name p calls).is_ok ≡ true
    → (remove_all name p calls).published ≡ discard name p
unfolding remove_all
remove_all-ok name p [] worked = refl
remove_all-ok name p (works ∷ calls) worked = refl
remove_all-ok name p (fails part ∷ calls) worked = cc worked

-- A walk of the standing entries that works keeps what the fresh tree holds, and only that of what it walks.
abbrev pub Clears : Entries → Entries → Entries → Replacing → Type 0
Clears fresh standing p r =
    r.is_ok ≡ true
    → (name : Bytes)
    → find name r.published ≡ (
        if is_some (find name fresh)
        then find name p
        else if is_some (find name standing)
        then none
        else find name p)

remove_gone-Clears :
    (fresh standing p : Entries) (calls : List Call)
    → Clears fresh standing p (remove_gone fresh standing p calls)
unfolding remove_gone
remove_gone-Clears fresh nil p calls = λ worked name. ground arith
remove_gone-Clears fresh (entry one t more) p calls =
    if-either (λ r. Clears fresh (entry one t more) p r) (is_some (find one fresh))
      (λ kept worked name.
        ground (arith, same_iff one name, remove_gone-Clears fresh more p calls worked name))
      (λ gone.
        let r = remove_all one p calls in
        and_then-either (Clears fresh (entry one t more) p) r (remove_gone fresh more)
          (λ failed done. cc (failed, done))
          (λ worked done name.
            let removed : find name r.published ≡ (if same one name then none else find name p) =
              ap (find name) (remove_all-ok one p calls worked) ∙ find-discard one name p in
            ground (
              arith,
              same_iff one name,
              removed,
              remove_gone-Clears fresh more r.published r.calls done name,
            )))

-- What is cleared of all that the fresh tree does not hold, and covered by it, reads as the fresh tree.
cleared-Alike :
    (fresh p : Entries) (cleared : Replacing) (r : Replacing)
    → Clears fresh p p cleared
    → cleared.is_ok ≡ true
    → Covers fresh cleared.published r
    → r.is_ok ≡ true
    → (name : Bytes) → Alike (find name r.published) (find name fresh)
cleared-Alike fresh p cleared r clears worked covers done name =
    Alike-trans _ _ _ (covers done name) (Alike-of_eq _ _ (ground (arith, clears worked name)))

abbrev Reads : Entries → Replacing → Type 0
Reads fresh r = r.is_ok ≡ true → (name : Bytes) → Alike (find name r.published) (find name fresh)

clear_level-Reads :
    (fresh : Entries)
    → ((q : Entries) (calls : List Call) → Covers fresh q (arrive_each fresh q calls))
    → (p : Entries) (calls : List Call)
    → Reads fresh (clear_level (arrive_each fresh) fresh p calls)
unfolding clear_level
clear_level-Reads fresh covers p calls =
    let cleared = remove_gone fresh p p calls in
    and_then-either (Reads fresh) cleared (arrive_each fresh) (λ failed done. cc (failed, done))
      λ worked.
        cleared-Alike fresh p cleared (arrive_each fresh cleared.published cleared.calls)
          (remove_gone-Clears fresh p p calls) worked (covers cleared.published cleared.calls)

pub level-Merges :
    (fresh : Entries)
    → ((q : Entries) (calls : List Call) → Covers fresh q (arrive_each fresh q calls))
    → Merges fresh (replace_level (arrive_each fresh) fresh)
unfolding replace_level
level-Merges fresh covers p calls =
    let first = read_dir p calls in
    let then_clear = clear_level (arrive_each fresh) fresh in
    let second = read_dir first.published first.calls in
    and_then-either (Reads fresh) first (λ q after. and_then (read_dir q after) then_clear)
      (λ failed done. cc (failed, done))
      λ worked.
        and_then-either (Reads fresh) second then_clear (λ failed done. cc (failed, done))
          λ again. clear_level-Reads fresh covers second.published second.calls

pub arrive_each-Covers :
    (e p : Entries) (calls : List Call) → IsProper e → Covers e p (arrive_each e p calls)
unfolding arrive_each
arrive_each-Covers nil p calls proper = λ worked name. Alike-of_eq _ _ refl
arrive_each-Covers (entry name (file held) more) p calls (new, plain, proper) =
    entry-Covers name (file held) more p _ new
      (arrive_file-Settles name (file held) (find name p) p calls)
      (λ q after. arrive_each-Covers more q after proper)
arrive_each-Covers (entry name (link target) more) p calls (new, plain, proper) =
    entry-Covers name (link target) more p _ new
      (arrive_file-Settles name (link target) (find name p) p calls)
      (λ q after. arrive_each-Covers more q after proper)
arrive_each-Covers (entry name (dir inode below) more) p calls (new, deep, proper) =
    entry-Covers name (dir inode below) more p _ new
      (arrive_dir-Settles _ name inode below (find name p) p calls
        (level-Merges below (λ q after. arrive_each-Covers below q after deep)))
      (λ q after. arrive_each-Covers more q after proper)

-- A replace that works makes the published directory read, at every path, as the fresh one.
pub replace_tree-content :
    (fresh published : Entries) (calls : List Call)
    → IsProper fresh
    → (replace_tree fresh published calls).is_ok ≡ true
    → content (replace_tree fresh published calls).published ≡ content fresh
unfolding replace_tree look Alike
replace_tree-content fresh published calls proper worked = fun_ext λ path.
    dir-Alike 0 0 _ fresh
      (level-Merges fresh (λ q after. arrive_each-Covers fresh q after proper) published calls
        worked)
      path
