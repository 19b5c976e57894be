-- ===== src/Store/Tree/Steady.antt =====
-- store.go: what a reader of a published tree finds while a replace runs, wherever it stops.
use mathlib.Core.Path.{subst}
use git_csi_driver.Prelude.{
  ℕ, ◌≡◌, refl, ap, ◌∙◌, ◌⊎◌, inl, inr, true, false, Option, none, some, List, [], ◌∷◌, arith,
  Bool-cases, if-either, Option-cases, is_some,
}
use git_csi_driver.Prelude.Text.{Bytes, same, same_iff}
use git_csi_driver.Store.Tree.{
  Tree, file, link, dir, Entries, nil, entry, find, is_dir, Call, works, fails, Replacing,
  remove_all, rename, and_then, remove_gone, read_dir, clear_level, replace_level, arrive_dir,
  arrive_file, arrive_each, replace_tree,
}
use git_csi_driver.Store.Tree.Replaced.{
  IsTree, IsProper, Untouched, arrive_file-Settles, arrive_dir-Settles, arrive_each-Covers,
  level-Merges, and_then-either, find-put_self, remove_all-Untouched,
}

unfoldable pub tree_at : List Bytes → Tree → Option Tree
unfolding find
tree_at [] t = some t
tree_at (name ∷ path) (dir inode below) = elim (find name below) [
  | none ↦ none
  | some t ↦ tree_at path t
]
tree_at (name ∷ path) other = none

-- What one replace makes of an entry that both trees have.
abbrev Turns : Tree → Tree → Tree → Type 0
Turns (dir i e) (dir j q) v =
    (v ≡ dir j q) ⊎ ((calls : List Call) × (v ≡ dir j (replace_tree e q calls).published))
Turns t u v = (v ≡ t) ⊎ (v ≡ u)

abbrev Turned : Bytes → Tree → Tree → Entries → Type 0
Turned name t u p = (v : Tree) × (find name p ≡ some v) × Turns t u v

-- The arrival of one entry.
abbrev arrived : Bytes → Tree → Entries → List Call → Replacing
arrived name (dir inode below) p calls =
    arrive_dir (replace_level (arrive_each below) below) name inode below (find name p) p calls
arrived name t p calls = arrive_file name t (find name p) p calls

arrive_each_entry :
    (name : Bytes) (t : Tree) (more p : Entries) (calls : List Call)
    → arrive_each (entry name t more) p calls ≡ and_then (arrived name t p calls) (arrive_each more)
unfolding arrive_each
arrive_each_entry name (dir inode below) more p calls = refl
arrive_each_entry name (file held) more p calls = refl
arrive_each_entry name (link target) more p calls = refl

arrived-Untouched :
    (name : Bytes) (t : Tree) (p : Entries) (calls : List Call)
    → IsTree t
    → Untouched name p (arrived name t p calls).published
arrived-Untouched name (dir inode below) p calls deep =
    (arrive_dir-Settles _ name inode below (find name p) p calls
      (level-Merges below (λ q after. arrive_each-Covers below q after deep))).1
arrived-Untouched name (file held) p calls plain =
    (arrive_file-Settles name (file held) (find name p) p calls).1
arrived-Untouched name (link target) p calls plain =
    (arrive_file-Settles name (link target) (find name p) p calls).1

rename-Turned :
    (name : Bytes) (t u : Tree) (p : Entries) (calls : List Call)
    → find name p ≡ some u
    → (v : Tree) × (find name (rename name t p calls).published ≡ some v) × ((v ≡ t) ⊎ (v ≡ u))
unfolding rename
rename-Turned name t u p [] held = (t, find-put_self name t p, inl refl)
rename-Turned name t u p (works ∷ calls) held = (t, find-put_self name t p, inl refl)
rename-Turned name t u p (fails part ∷ calls) held = (u, held, inr refl)

arrived-Turned :
    (name : Bytes) (t u : Tree) (p : Entries) (calls : List Call)
    → find name p ≡ some u
    → is_dir t ≡ is_dir u
    → Turned name t u (arrived name t p calls).published
unfolding arrive_dir arrive_file replace_tree
arrived-Turned name (dir i e) (dir j q) p calls held alike =
    rw held (dir j (replace_tree e q calls).published, find-put_self name _ p, inr (calls, refl))
arrived-Turned name (dir i e) (file a) p calls held alike = cc alike
arrived-Turned name (dir i e) (link a) p calls held alike = cc alike
arrived-Turned name (file b) (dir j q) p calls held alike = cc alike
arrived-Turned name (link b) (dir j q) p calls held alike = cc alike
arrived-Turned name (file b) (file a) p calls held alike =
    rw held (rename-Turned name (file b) (file a) p calls held)
arrived-Turned name (file b) (link a) p calls held alike =
    rw held (rename-Turned name (file b) (link a) p calls held)
arrived-Turned name (link b) (file a) p calls held alike =
    rw held (rename-Turned name (link b) (file a) p calls held)
arrived-Turned name (link b) (link a) p calls held alike =
    rw held (rename-Turned name (link b) (link a) p calls held)

arrive_each_other :
    (e p : Entries) (calls : List Call) (name : Bytes)
    → IsProper e
    → find name e ≡ none
    → find name (arrive_each e p calls).published ≡ find name p
unfolding arrive_each find
arrive_each_other nil p calls name proper missing = refl
arrive_each_other (entry one t more) p calls name (new, deep, proper) missing =
    let r = arrived one t p calls in
    let other : same one name ≡ false = ground (arith, missing) in
    let kept = arrived-Untouched one t p calls deep name other in
    rw (arrive_each_entry one t more p calls) (
      and_then-either (λ (a : Replacing). find name a.published ≡ find name p) r (arrive_each more)
        (λ failed. kept)
        (λ worked.
          arrive_each_other more r.published r.calls name proper (ground (arith, missing)) ∙ kept))

Turns-old : (t u : Tree) → is_dir t ≡ is_dir u → Turns t u u
Turns-old (dir i e) (dir j q) alike = inl refl
Turns-old (dir i e) (file a) alike = inr refl
Turns-old (dir i e) (link a) alike = inr refl
Turns-old (file b) u alike = inr refl
Turns-old (link b) u alike = inr refl

entry-Turned :
    (one : Bytes) (t u : Tree) (more p : Entries) (calls : List Call)
    → IsProper (entry one t more)
    → find one p ≡ some u
    → is_dir t ≡ is_dir u
    → Turned one t u (and_then (arrived one t p calls) (arrive_each more)).published
entry-Turned one t u more p calls (new, deep, proper) held alike =
    let r = arrived one t p calls in
    let (v, found, turns) = arrived-Turned one t u p calls held alike in
    and_then-either (λ (a : Replacing). Turned one t u a.published) r (arrive_each more)
      (λ failed. (v, found, turns))
      (λ worked. (v, arrive_each_other more r.published r.calls one proper new ∙ found, turns))

arrive_each-Turned :
    (e p : Entries) (calls : List Call) (name : Bytes) (t u : Tree)
    → IsProper e
    → find name e ≡ some t
    → find name p ≡ some u
    → is_dir t ≡ is_dir u
    → Turned name t u (arrive_each e p calls).published
unfolding find
arrive_each-Turned nil p calls name t u proper arriving held alike = cc arriving
arrive_each-Turned (entry one s more) p calls name t u (new, deep, proper) arriving held alike =
    let r = arrived one s p calls in
    rw (arrive_each_entry one s more p calls) (elim (Bool-cases (same one name)) [
      | inl at ↦
          let e : one ≡ name = (same_iff one name).0 at in
          let f : s ≡ t = ground (arith, arriving, at) in
          subst (λ n. Turned n t u (and_then r (arrive_each more)).published) e
            (subst (λ x. Turned one x u (and_then r (arrive_each more)).published) f
              (entry-Turned one s u more p calls (new, deep, proper) (ap (λ n. find n p) e ∙ held)
                (ap is_dir f ∙ alike)))
      | inr other ↦
          let kept = arrived-Untouched one s p calls deep name other in
          and_then-either (λ (a : Replacing). Turned name t u a.published) r (arrive_each more)
            (λ failed. (u, kept ∙ held, Turns-old t u alike))
            (λ worked.
              arrive_each-Turned more r.published r.calls name t u proper (ground (arith, arriving))
                (kept ∙ held) alike)
    ])

remove_gone_kept :
    (fresh standing p : Entries) (calls : List Call) (name : Bytes)
    → is_some (find name fresh) ≡ true
    → find name (remove_gone fresh standing p calls).published ≡ find name p
unfolding remove_gone
remove_gone_kept fresh nil p calls name arriving = refl
remove_gone_kept fresh (entry one t more) p calls name arriving =
    let Kept = λ (a : Replacing). find name a.published ≡ find name p in
    if-either Kept (is_some (find one fresh))
      (λ both. remove_gone_kept fresh more p calls name arriving)
      (λ gone.
        let r = remove_all one p calls in
        let other : same one name ≡ false = ground (arith, same_iff one name) in
        let kept = remove_all-Untouched one p calls name other in
        and_then-either Kept r (remove_gone fresh more) (λ failed. kept)
          (λ worked. remove_gone_kept fresh more r.published r.calls name arriving ∙ kept))

clear_level-Turned :
    (fresh p : Entries) (calls : List Call) (name : Bytes) (t u : Tree)
    → IsProper fresh
    → find name fresh ≡ some t
    → find name p ≡ some u
    → is_dir t ≡ is_dir u
    → Turned name t u (clear_level (arrive_each fresh) fresh p calls).published
unfolding clear_level
clear_level-Turned fresh p calls name t u proper arriving held alike =
    let cleared = remove_gone fresh p p calls in
    let kept : find name cleared.published ≡ find name p =
      remove_gone_kept fresh p p calls name (ap is_some arriving) in
    and_then-either (λ (a : Replacing). Turned name t u a.published) cleared (arrive_each fresh)
      (λ failed. (u, kept ∙ held, Turns-old t u alike))
      (λ worked.
        arrive_each-Turned fresh cleared.published cleared.calls name t u proper arriving
          (kept ∙ held) alike)

read_dir-published : (p : Entries) (calls : List Call) → (read_dir p calls).published ≡ p
read_dir-published p [] = refl
read_dir-published p (works ∷ calls) = refl
read_dir-published p (fails part ∷ calls) = refl

-- One level of a replace, wherever it stops.
replace_tree-Turned :
    (fresh p : Entries) (calls : List Call) (name : Bytes) (t u : Tree)
    → IsProper fresh
    → find name fresh ≡ some t
    → find name p ≡ some u
    → is_dir t ≡ is_dir u
    → Turned name t u (replace_tree fresh p calls).published
unfolding replace_tree replace_level
replace_tree-Turned fresh p calls name t u proper arriving held alike =
    let Stays = λ (a : Replacing). Turned name t u a.published in
    let first = read_dir p calls in
    let second = read_dir first.published first.calls in
    let then_clear = clear_level (arrive_each fresh) fresh in
    let once : find name first.published ≡ some u =
      ap (find name) (read_dir-published p calls) ∙ held in
    let twice : find name second.published ≡ some u =
      ap (find name) (read_dir-published first.published first.calls) ∙ once in
    and_then-either Stays first (λ q after. and_then (read_dir q after) then_clear)
      (λ failed. (u, once, Turns-old t u alike))
      λ worked.
        and_then-either Stays second then_clear (λ failed. (u, twice, Turns-old t u alike))
          λ again.
            clear_level-Turned fresh second.published second.calls name t u proper arriving twice
              alike

-- An entry after a replace: a directory is the one that stood there, anything else is the old entry or the
-- fresh one.
abbrev pub Follows : Tree → Tree → Tree → Type 0
Follows (dir i e) (dir j q) (dir k r) = k ≡ j
Follows (dir i e) (dir j q) other = ⊥
Follows t u v = (v ≡ t) ⊎ (v ≡ u)

Turns-Follows : (t u v : Tree) → is_dir t ≡ is_dir u → Turns t u v → Follows t u v
Turns-Follows (dir i e) (dir j q) v alike (inl kept) = rw kept refl
Turns-Follows (dir i e) (dir j q) v alike (inr (calls, made)) = rw made refl
Turns-Follows (dir i e) (file a) v alike turns = cc alike
Turns-Follows (dir i e) (link a) v alike turns = cc alike
Turns-Follows (file b) u v alike turns = turns
Turns-Follows (link b) u v alike turns = turns

alike_above :
    (path : List Bytes) (a b t u : Tree)
    → tree_at path a ≡ some t
    → tree_at path b ≡ some u
    → is_dir t ≡ is_dir u
    → is_dir a ≡ is_dir b
unfolding tree_at
alike_above [] a b t u e f alike = ground arith
alike_above (name ∷ path) (dir i x) (dir j y) t u e f alike = refl
alike_above (name ∷ path) (dir i x) (file y) t u e f alike = cc f
alike_above (name ∷ path) (dir i x) (link y) t u e f alike = cc f
alike_above (name ∷ path) (file x) b t u e f alike = cc e
alike_above (name ∷ path) (link x) b t u e f alike = cc e

find-IsTree : (name : Bytes) (e : Entries) (t : Tree) → IsProper e → find name e ≡ some t → IsTree t
unfolding find
find-IsTree name nil t proper found = absurd (cc found)
find-IsTree name (entry one s more) t (new, deep, proper) found =
    elim (Bool-cases (same one name)) [
      | inl at ↦ let e : s ≡ t = ground (arith, found, at) in subst IsTree e deep
      | inr other ↦ find-IsTree name more t proper (ground (arith, found, other))
    ]

-- One step into a directory.
step_into :
    (name : Bytes) (path : List Bytes) (i : ℕ) (e : Entries) (t : Tree)
    → tree_at (name ∷ path) (dir i e) ≡ some t
    → (a : Tree) × (find name e ≡ some a) × (tree_at path a ≡ some t)
unfolding tree_at
step_into name path i e t found = elim (Option-cases (find name e)) [
  | inl missing ↦ absurd (ground (arith, found, missing))
  | inr (a, here) ↦ (a, here, ground (arith, found, here))
]

step_at :
    (name : Bytes) (path : List Bytes) (i : ℕ) (e : Entries) (a : Tree)
    → find name e ≡ some a
    → tree_at (name ∷ path) (dir i e) ≡ tree_at path a
unfolding tree_at
step_at name path i e a here = rw (tree_at, here) refl

path-Follows :
    (path : List Bytes) (a b v t u : Tree)
    → IsTree a
    → Turns a b v
    → tree_at path a ≡ some t
    → tree_at path b ≡ some u
    → is_dir t ≡ is_dir u
    → (w : Tree) × (tree_at path v ≡ some w) × Follows t u w
unfolding tree_at
path-Follows [] a b v t u proper turns e f alike =
    let at : a ≡ t = ground (arith, e) in
    let bu : b ≡ u = ground (arith, f) in
    (
      v,
      refl,
      Turns-Follows t u v alike (subst (λ x. Turns x u v) at (subst (λ y. Turns a y v) bu turns)),
    )
path-Follows (name ∷ path) (dir i x) (dir j y) v t u proper (inl kept) e f alike =
    (u, rw kept f, Turns-Follows t u u alike (Turns-old t u alike))
path-Follows (name ∷ path) (dir i x) (dir j y) v t u proper (inr (calls, made)) e f alike =
    let (a, at_a, ea) = step_into name path i x t e in
    let (b, at_b, fb) = step_into name path j y u f in
    let (c, at_c, turns) =
      replace_tree-Turned x y calls name a b proper at_a at_b
        (alike_above path a b t u ea fb alike) in
    let (w, at_w, follows) =
      path-Follows path a b c t u (find-IsTree name x a proper at_a) turns ea fb alike in
    (w, ap (tree_at (name ∷ path)) made ∙ step_at name path j _ c at_c ∙ at_w, follows)
path-Follows (name ∷ path) (dir i x) (file y) v t u proper turns e f alike = cc f
path-Follows (name ∷ path) (dir i x) (link y) v t u proper turns e f alike = cc f
path-Follows (name ∷ path) (file x) b v t u proper turns e f alike = cc e
path-Follows (name ∷ path) (link x) b v t u proper turns e f alike = cc e

-- Wherever a replace of a directory whose names are distinct stops, or where it works, at each path at which
-- both trees have a directory, or both have something else, the published tree has the directory with the
-- inode that it had, or else the entry that it had or the fresh one.
pub replace_tree-Follows :
    (path : List Bytes) (fresh published : Entries) (calls : List Call) (i j : ℕ) (t u : Tree)
    → IsProper fresh
    → tree_at path (dir i fresh) ≡ some t
    → tree_at path (dir j published) ≡ some u
    → is_dir t ≡ is_dir u
    → (v : Tree) × (tree_at path (dir j (replace_tree fresh published calls).published) ≡ some v)
      × Follows t u v
replace_tree-Follows path fresh published calls i j t u proper =
    path-Follows path (dir i fresh) (dir j published)
      (dir j (replace_tree fresh published calls).published) t u proper (inr (calls, refl))
