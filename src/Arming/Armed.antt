-- ===== src/Arming/Armed.antt =====
-- arming.go: the class that arms a volume.
use git_csi_driver.Prelude.{
  ℕ, ◌≡◌, refl, sym, ap, ◌∙◌, ◌≢◌, ◌↔◌, inl, inr, true, not, Option, none, some, [], ◌∷◌, arith,
  if◌then◌else◌, Bool-cases, if-either, Option-cases, is_some, ℤ, Error, err, ok,
}
use mathlib.Core.Option.{some-injective}
use mathlib.Core.Path.{subst}
use git_csi_driver.Prelude.Text.{Bytes, same, same_iff, is_empty}
use git_csi_driver.Cluster.{ClaimReference, driver_name}
use git_csi_driver.Policy.{Policy, parse_policy}
use git_csi_driver.Volume.{Volume, report_armed, take_health}
use git_csi_driver.Arming.{
  Claim, Class, Told, armed, named, class_name, class_rules, rules_of, resolved, read,
}

-- The class in force for a claim: that of its status, which the API server writes once it has moved the volume to
-- the class, and before that the one that its spec asks for.
abbrev pub in_force : Option Bytes → Option Bytes → Bytes
in_force (some (c ∷ name)) asked = c ∷ name
in_force (some []) none = []
in_force (some []) (some name) = name
in_force none none = []
in_force none (some name) = name

in_force_lem :
    (current asked : Option Bytes)
    → (if is_empty (named current) then named asked else named current) ≡ in_force current asked
in_force_lem (some (c ∷ name)) asked = refl
in_force_lem (some []) none = refl
in_force_lem (some []) (some name) = refl
in_force_lem none none = refl
in_force_lem none (some name) = refl

class_name-in_force : (held : Claim) → class_name held ≡ in_force held.current held.asked
unfolding class_name
class_name-in_force held = in_force_lem held.current held.asked

module _ (parse_duration parse_quantity : Bytes → Option ℤ) (message : Bytes → Error → Bytes) where
  -- The class of that name is one of this driver, and is read with these rules.
  abbrev pub GivesRules : (Bytes → Option Class) → Bytes → Policy → Type 0
  GivesRules class_of name rules =
      (class : Class) × (name ≢ [])
      × (class_of name ≡ some class)
      × (class.driver ≡ driver_name)
      × (parse_policy parse_duration parse_quantity class.parameters ≡ ok rules)

  is_empty_iff : (s : Bytes) → (is_empty s ≡ true) ↔ (s ≡ [])
  is_empty_iff [] = (λ e. refl, λ e. refl)
  is_empty_iff (c ∷ s) = (λ e. cc e, λ e. cc e)

  same_class :
      (class_of : Bytes → Option Class) (name : Bytes) (class : Class) (p : Policy)
      → class_of name ≡ some class
      → (g : GivesRules class_of name p) → class ≡ g.0
  same_class class_of name class p found g = some-injective _ _ (sym found ∙ g.2)

  same_parse :
      (class_of : Bytes → Option Class) (name : Bytes) (class : Class) (p : Policy)
      → class_of name ≡ some class
      → (g : GivesRules class_of name p)
      → parse_policy parse_duration parse_quantity class.parameters ≡ ok p
  same_parse class_of name class p found g =
      ap (λ (c : Class). parse_policy parse_duration parse_quantity c.parameters)
        (same_class class_of name class p found g)
      ∙ g.4

  rules_of_iff :
      (class_of : Bytes → Option Class) (name : Bytes) (class : Class) (p : Policy)
      → name ≢ []
      → class_of name ≡ some class
      → ((rules_of parse_duration parse_quantity message name class).0 ≡ some p)
        ↔ GivesRules class_of name p
  unfolding rules_of
  rules_of_iff class_of name class p some_name found =
      if-either (λ (r : Option Policy × Bytes). (r.0 ≡ some p) ↔ GivesRules class_of name p)
        (not (same class.driver driver_name))
        (λ other. (
          λ e. cc e,
          λ g. ground (
            arith,
            other,
            (same_iff class.driver driver_name).1
                (ap (λ (c : Class). c.driver) (same_class class_of name class p found g) ∙ g.3),
          ),
        ))
        (λ ours.
          elim (parse_policy parse_duration parse_quantity class.parameters)
              as (λ r.
                parse_policy parse_duration parse_quantity class.parameters ≡ r
                → ((resolved (message name) r).0 ≡ some p) ↔ GivesRules class_of name p) [
                  | err refused ↦ λ parsed.
                      (λ e. cc e, λ g. cc (parsed, same_parse class_of name class p found g))
                  | ok rules ↦ λ parsed. (
                    λ e. (
                      class,
                      some_name,
                      found,
                      (same_iff class.driver driver_name).0 (ground (arith, ours)),
                      parsed ∙ ap ok (some-injective _ _ e),
                    ),
                    λ g. cc (parsed, same_parse class_of name class p found g),
                  )
                ]
            refl)

  class_rules-GivesRules :
      (class_of : Bytes → Option Class) (name : Bytes) (answer : Option Policy × Bytes) (p : Policy)
      → class_rules parse_duration parse_quantity message class_of name ≡ some answer
      → (answer.0 ≡ some p) ↔ GivesRules class_of name p
  unfolding class_rules
  class_rules-GivesRules class_of name answer p e = elim (Bool-cases (is_empty name)) [
    | inl nameless ↦
        let nothing : answer ≡ (none, []) =
          some-injective _ _ (sym e ∙ rw (class_rules, nameless) refl) in
        (λ f. cc (f, ap (λ r. r.0) nothing), λ g. absurd (g.1 ((is_empty_iff name).0 nameless)))
    | inr some_name ↦ elim (Option-cases (class_of name)) [
      | inl missing ↦
          let failed : none ≡ some answer = sym (rw (class_rules, some_name, missing) refl) ∙ e in
          cc failed
      | inr (class, found) ↦
          let ours : rules_of parse_duration parse_quantity message name class ≡ answer =
            some-injective _ _ (sym (rw (class_rules, some_name, found) refl) ∙ e) in
          subst (λ r. (r.0 ≡ some p) ↔ GivesRules class_of name p) ours
            (rules_of_iff class_of name class p (λ n. cc (some_name, (is_empty_iff name).1 n))
              found)
    ]
  ]

  read_some :
      (class_of : Bytes → Option Class) (now : ℕ) (claim : ClaimReference) (held : Claim)
      (v : Volume) (result : Volume × Told)
      → held.name ≡ claim.name
      → read parse_duration parse_quantity message class_of now claim held v ≡ some result
      → (answer : Option Policy × Bytes) × (class_rules parse_duration parse_quantity message
            class_of
            (class_name held)
          ≡ some answer)
        × (armed now claim (class_name held) answer.0 answer.1 v ≡ result)
  unfolding read
  read_some class_of now claim held v result mine e =
      let same_name : same held.name claim.name ≡ true = (same_iff held.name claim.name).1 mine in
      elim (Option-cases
        (class_rules parse_duration parse_quantity message class_of (class_name held))) [
          | inl failed ↦
              let none_read : none ≡ some result = sym (rw (read, same_name, failed) refl) ∙ e in
              cc none_read
          | inr (answer, given) ↦
              (answer, given, some-injective _ _ (sym (rw (read, same_name, given) refl) ∙ e))
        ]

  -- A volume whose claim is read has the rules of a class exactly if the class in force for the claim, that of
  -- its status or else that of its spec, is one of this driver and is read with those rules; and it is armed exactly if it has rules.
  pub read_iff :
      (class_of : Bytes → Option Class) (now : ℕ) (claim : ClaimReference) (held : Claim)
      (v v' : Volume) (told : Told) (p : Policy)
      → held.name ≡ claim.name
      → read parse_duration parse_quantity message class_of now claim held v ≡ some (v', told)
      → ((v'.rules ≡ some p) ↔ GivesRules class_of (in_force held.current held.asked) p)
        × (v'.armed ≡ is_some v'.rules)
        × (v'.class ≡ in_force held.current held.asked)
        × (v'.claim ≡ claim)
  unfolding armed report_armed take_health
  read_iff class_of now claim held v v' told p mine e =
      let (answer, given, q) = read_some class_of now claim held v (v', told) mine e in
      let rules : answer.0 ≡ v'.rules = ap (λ r. r.0.rules) q in
      (
        subst (λ name. (v'.rules ≡ some p) ↔ GivesRules class_of name p) (class_name-in_force held)
            (subst (λ r. (r ≡ some p) ↔ GivesRules class_of (class_name held) p) rules
              (class_rules-GivesRules class_of (class_name held) answer p given)),
        sym (ap (λ r. r.0.armed) q) ∙ ap is_some rules,
        sym (ap (λ r. r.0.class) q) ∙ class_name-in_force held,
        sym (ap (λ r. r.0.claim) q),
      )

  class_rules_failed_iff :
      (class_of : Bytes → Option Class) (name : Bytes)
      → (class_rules parse_duration parse_quantity message class_of name ≡ none)
        ↔ ((name ≢ []) × (class_of name ≡ none))
  unfolding class_rules
  class_rules_failed_iff class_of name = ground (arith, is_empty_iff name)

  -- The read of a claim fails, and is tried again, exactly if a class is in force for it and the API server
  -- does not answer with that class.
  pub read_none_iff :
      (class_of : Bytes → Option Class) (now : ℕ) (claim : ClaimReference) (held : Claim)
      (v : Volume)
      → held.name ≡ claim.name
      → (read parse_duration parse_quantity message class_of now claim held v ≡ none)
        ↔ ((class_name held ≢ []) × (class_of (class_name held) ≡ none))
  unfolding read
  read_none_iff class_of now claim held v mine =
      let same_name : same held.name claim.name ≡ true = (same_iff held.name claim.name).1 mine in
      let (only, enough) = class_rules_failed_iff class_of (class_name held) in
      (
        λ e.
            elim (Option-cases
              (class_rules parse_duration parse_quantity message class_of (class_name held))) [
                | inl failed ↦ only failed
                | inr (answer, given) ↦
                    let read_none : some (armed now claim (class_name held) answer.0 answer.1 v)
                        ≡ none =
                      sym (rw (read, same_name, given) refl) ∙ e in
                    cc read_none
              ],
        λ h. rw (read, same_name, enough h) refl,
      )
