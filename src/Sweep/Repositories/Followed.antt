-- ===== src/Sweep/Repositories/Followed.antt =====
-- sweep.go: a ref that something follows stays.
use git_csi_driver.Prelude.{
  ℕ, ◌≡◌, refl, sym, ap, ◌∙◌, inl, inr, Bool, true, false, not, ◌&&◌, ◌||◌, Option, none, some,
  List, [], ◌∷◌, ◌++◌, map, arith, Bool-cases, ℤ,
}
use mathlib.Core.Option.{some-injective}
use git_csi_driver.Prelude.Text.{Bytes, same, same_refl, same_iff}
use git_csi_driver.Prelude.Dict.{Dict, lookup}
use git_csi_driver.Volume.{Volume}
use git_csi_driver.Sweep.{Tree, Node, sweep_volumes}
use git_csi_driver.Sweep.Trees.{sweep_volumes-Holds}
use git_csi_driver.Sweep.Repositories.{
  full_ref, among, held, names_repository, uses_repository, held_refs, followed_in_store,
  followed_refs, sweep_refs, sweep_repository, sweep_each_repository, sweep_repositories,
  sweep_store,
}

among-append : (ref : Bytes) (l m : List Bytes) → among ref (l ++ m) ≡ (among ref l || among ref m)
unfolding among
among-append ref [] m = refl
among-append ref (one ∷ l) m = ground (arith, among-append ref l m)

-- Whether the refs left of a repository have the ref, and no repository has none.
abbrev pub has_ref : Bytes → Option (List Bytes) → Bool
has_ref ref none = false
has_ref ref (some refs) = among ref refs

held_alike : (m n : Node) → m.volumes ≡ n.volumes → m.staged ≡ n.staged → held m ≡ held n
unfolding held
held_alike m n volumes staged =
    ap (λ l. map (λ entry. entry.1) l ++ map (λ entry. entry.1) m.staged) volumes
    ∙ ap (λ l. map (λ entry. entry.1) n.volumes ++ map (λ entry. entry.1) l) staged

lookup-kept :
    (dir d : Bytes) (swept : Option (List Bytes)) (stay : List Bytes) (rest : Dict (List Bytes))
    → swept ≡ some stay
    → same d dir ≡ true
    → lookup dir (elim swept [ none ↦ rest | some l ↦ (d, l) ∷ rest ]) ≡ some stay
unfolding lookup
lookup-kept dir d swept stay rest e here = rw (e, here) refl

lookup-skipped :
    (dir d : Bytes) (swept : Option (List Bytes)) (rest : Dict (List Bytes))
    → same d dir ≡ false
    → lookup dir (elim swept [ none ↦ rest | some l ↦ (d, l) ∷ rest ]) ≡ lookup dir rest
unfolding lookup
lookup-skipped dir d none rest there = refl
lookup-skipped dir d (some l) rest there = rw there refl

module _ (parse_duration : Bytes → Option ℤ) (repository_of : Bytes → Bytes)
    (deletes : Bytes → Bytes → Bool) (removes : Bytes → List Bytes → Option (List Bytes)) where
  same_followed :
      (ref one : Bytes) (followed : List Bytes)
      → same one ref ≡ true
      → among one followed ≡ among ref followed
  same_followed ref one followed s = ap (λ r. among r followed) ((same_iff one ref).0 s)

  same_deleted : (dir ref one : Bytes) → same one ref ≡ true → deletes dir one ≡ deletes dir ref
  same_deleted dir ref one s = ap (deletes dir) ((same_iff one ref).0 s)

  sweep_refs-among :
      (dir ref : Bytes) (followed refs : List Bytes)
      → among ref (sweep_refs parse_duration repository_of deletes removes dir followed refs)
        ≡ (among ref refs && (among ref followed || not (deletes dir ref)))
  unfolding sweep_refs among
  sweep_refs-among dir ref followed [] = refl
  sweep_refs-among dir ref followed (one ∷ refs) = ground (
    arith,
    same_followed ref one followed,
    same_deleted dir ref one,
    sweep_refs-among dir ref followed refs,
  )

  sweep_repository_used :
      (dir : Bytes) (refs : List Bytes) (n : Node)
      → uses_repository parse_duration repository_of deletes removes dir n ≡ true
      → sweep_repository parse_duration repository_of deletes removes dir refs n
        ≡ some (
            sweep_refs parse_duration repository_of deletes removes dir
              (followed_refs parse_duration repository_of deletes removes dir n)
              refs)
  unfolding sweep_repository
  sweep_repository_used dir refs n used = rw (sweep_repository, used) refl

  -- A repository that is used stays, without the refs that nothing follows and git deletes.
  lookup-sweep_each_repository :
      (dir : Bytes) (n : Node) (repositories : Dict (List Bytes)) (refs : List Bytes)
      → uses_repository parse_duration repository_of deletes removes dir n ≡ true
      → lookup dir repositories ≡ some refs
      → lookup dir
          (sweep_each_repository parse_duration repository_of deletes removes n repositories)
        ≡ some (
            sweep_refs parse_duration repository_of deletes removes dir
              (followed_refs parse_duration repository_of deletes removes dir n)
              refs)
  unfolding lookup sweep_each_repository
  lookup-sweep_each_repository dir n [] refs used e = cc e
  lookup-sweep_each_repository dir n ((d, held_by) ∷ repositories) refs used e =
      elim (Bool-cases (same d dir)) [
        | inl here ↦
            let at : d ≡ dir = (same_iff d dir).0 here in
            let found : held_by ≡ refs = some-injective _ _ (sym (rw here refl) ∙ e) in
            let swept =
              ap (λ k. sweep_repository parse_duration repository_of deletes removes k held_by n) at
              ∙ ap (λ l. sweep_repository parse_duration repository_of deletes removes dir l n)
                  found
              ∙ sweep_repository_used dir refs n used in
            lookup-kept dir d _ _
              (sweep_each_repository parse_duration repository_of deletes removes n repositories)
              swept here
        | inr there ↦
            lookup-skipped dir d
              (sweep_repository parse_duration repository_of deletes removes d held_by n)
              (sweep_each_repository parse_duration repository_of deletes removes n repositories)
              there
            ∙ lookup-sweep_each_repository dir n repositories refs used (ground (arith, there, e))
      ]

  names-held :
      (v : Volume) (before after : List Volume)
      → names_repository parse_duration repository_of deletes removes
          (repository_of v.attributes.url)
          (before ++ v ∷ after)
        ≡ true
  unfolding names_repository
  names-held v [] after = ground (arith, same_refl (repository_of v.attributes.url))
  names-held v (w ∷ before) after = ground (arith, names-held v before after)

  held_refs-held :
      (v : Volume) (before after : List Volume)
      → among (full_ref v.attributes.ref) (
          held_refs parse_duration repository_of deletes removes
            (repository_of v.attributes.url)
            (before ++ v ∷ after))
        ≡ true
  unfolding held_refs among
  held_refs-held v [] after =
      ground
        (arith, same_refl (repository_of v.attributes.url), same_refl (full_ref v.attributes.ref))
  held_refs-held v (w ∷ before) after = ground (arith, held_refs-held v before after)

  uses_held :
      (n : Node) (v : Volume) (before after : List Volume)
      → held n ≡ before ++ v ∷ after
      → uses_repository parse_duration repository_of deletes removes
          (repository_of v.attributes.url)
          n
        ≡ true
  unfolding uses_repository
  uses_held n v before after e = rw (uses_repository, e, names-held v before after) refl

  followed_held :
      (n : Node) (v : Volume) (before after : List Volume)
      → held n ≡ before ++ v ∷ after
      → among (full_ref v.attributes.ref) (
          followed_refs parse_duration repository_of deletes removes
            (repository_of v.attributes.url)
            n)
        ≡ true
  unfolding followed_refs
  followed_held n v before after e =
      among-append (full_ref v.attributes.ref)
        (held_refs parse_duration repository_of deletes removes (repository_of v.attributes.url)
          (held n))
        (followed_in_store parse_duration repository_of deletes removes
          (repository_of v.attributes.url) n.trees)
      ∙ rw (e, held_refs-held v before after) refl

  -- After a pass a repository of a volume that the node holds is still there, and has the ref that the
  -- volume follows if it had it.
  pub sweep_store_keeps :
      (parse_time : Bytes → Option ℕ) (sweep_after : ℤ) (clock : Bytes → ℕ)
      (remains : Bytes → Tree → Option Tree) (n : Node) (v : Volume) (before after : List Volume)
      (refs : List Bytes)
      → held n ≡ before ++ v ∷ after
      → lookup (repository_of v.attributes.url) n.repositories ≡ some refs
      → among (full_ref v.attributes.ref) refs ≡ true
      → has_ref (full_ref v.attributes.ref) (
          lookup
            (repository_of v.attributes.url)
            (sweep_store parse_duration repository_of deletes removes parse_time sweep_after clock
              remains n).repositories)
        ≡ true
  unfolding sweep_store sweep_repositories
  sweep_store_keeps parse_time sweep_after clock remains n v before after refs holds_v e has =
      let (volumes, staged, repositories) =
        sweep_volumes-Holds parse_time sweep_after clock remains n in
      let m = sweep_volumes parse_time sweep_after clock remains n in
      let dir = repository_of v.attributes.url in
      let held_m : held m ≡ before ++ v ∷ after = held_alike m n volumes staged ∙ holds_v in
      let found : lookup dir m.repositories ≡ some refs = ap (lookup dir) repositories ∙ e in
      let swept =
        lookup-sweep_each_repository dir m m.repositories refs (uses_held m v before after held_m)
          found in
      ap (has_ref (full_ref v.attributes.ref)) swept
      ∙ sweep_refs-among dir (full_ref v.attributes.ref) _ refs
      ∙ ground (arith, has, followed_held m v before after held_m)
