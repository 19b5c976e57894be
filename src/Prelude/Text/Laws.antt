-- ===== src/Prelude/Text/Laws.antt =====
-- Laws of the text functions: what a cut, a trim or a search answers on a text of known form.
use mathlib.Core.List.{[], ◌∷◌, ◌++◌, reverse, reverse-append, reverse-reverse}
use mathlib.Core.Logic.{inl, inr}
use mathlib.Core.Bool.{Bool, true, false}
use mathlib.Core.Option.{none, some}
use mathlib.Core.Path.{◌≡◌, refl, ap, ◌∙◌}
use Prim.Native.Nat.{ℕ}
use native.Mathlib.Omega.{arith}
use git_csi_driver.Prelude.Tests.{All, All-append, Bool-cases, Option-cases, ◌==◌}
use git_csi_driver.Prelude.Text.{
  Bytes, Lacks, cut_byte, cut_prefix, has_prefix, contains_byte, trim_left, trim_right, trim,
  trim_suffix, has_suffix, split,
}

pub All-reverse : (P : ℕ → Type 0) (s : Bytes) → All P s → All P (reverse s)
All-reverse P [] h = tt
All-reverse P (c ∷ s) h =
    rw (reverse-append (c ∷ []) s)
      (All-append P (reverse s) (c ∷ []) (All-reverse P s h.1) (h.0, tt))

pub cut_byte-append :
    (sep : ℕ) (s t : Bytes) → Lacks sep s → cut_byte sep (s ++ sep ∷ t) ≡ some (s, t)
unfolding cut_byte
cut_byte-append sep [] t h = ground arith
cut_byte-append sep (c ∷ s) t h = ground (arith, cut_byte-append sep s t h.1)

pub cut_byte-Lacks : (sep : ℕ) (s : Bytes) → Lacks sep s → cut_byte sep s ≡ none
unfolding cut_byte
cut_byte-Lacks sep [] h = refl
cut_byte-Lacks sep (c ∷ s) h = ground (arith, cut_byte-Lacks sep s h.1)

-- What a cut answers spells the text, and its first part holds no separator.
pub cut_byte_sound :
    (sep : ℕ) (s a b : Bytes) → cut_byte sep s ≡ some (a, b) → (s ≡ a ++ sep ∷ b) × Lacks sep a
unfolding cut_byte
cut_byte_sound sep [] a b h = cc
cut_byte_sound sep (c ∷ s) a b h = elim (Bool-cases (c == sep)) [
  | inl e ↦ ground arith
  | inr d ↦ elim (Option-cases (cut_byte sep s)) [
    | inl n ↦ ground arith
    | inr ((a', b'), e) ↦ ground (arith, cut_byte_sound sep s a' b')
  ]
]

-- A part with no separator stands first.
pub split-append :
    (sep : ℕ) (s t : Bytes) → Lacks sep s → split sep (s ++ sep ∷ t) ≡ s ∷ split sep t
unfolding split
split-append sep [] t h = ground arith
split-append sep (c ∷ s) t h = ground (arith, split-append sep s t h.1)

pub contains_byte-Lacks : (b : ℕ) (s : Bytes) → Lacks b s → contains_byte b s ≡ false
unfolding contains_byte
contains_byte-Lacks b [] h = refl
contains_byte-Lacks b (c ∷ s) h = ground (arith, contains_byte-Lacks b s h.1)

pub Lacks-contains_byte : (b : ℕ) (s : Bytes) → contains_byte b s ≡ false → Lacks b s
unfolding contains_byte
Lacks-contains_byte b [] h = tt
Lacks-contains_byte b (c ∷ s) h = (ground arith, Lacks-contains_byte b s (ground arith))

pub cut_prefix-append : (p s : Bytes) → cut_prefix p (p ++ s) ≡ some s
unfolding cut_prefix
cut_prefix-append [] s = refl
cut_prefix-append (c ∷ p) s = ground (arith, cut_prefix-append p s)

pub cut_prefix_sound : (p s rest : Bytes) → cut_prefix p s ≡ some rest → s ≡ p ++ rest
unfolding cut_prefix
cut_prefix_sound [] s rest h = cc
cut_prefix_sound (c ∷ p) [] rest h = cc
cut_prefix_sound (c ∷ p) (d ∷ s) rest h = ground (arith, cut_prefix_sound p s rest)

cut_prefix-none : (p s : Bytes) → has_prefix p s ≡ false → cut_prefix p s ≡ none
unfolding cut_prefix has_prefix
cut_prefix-none [] s h = cc
cut_prefix-none (c ∷ p) [] h = refl
cut_prefix-none (c ∷ p) (d ∷ s) h = ground (arith, cut_prefix-none p s)

pub trim_suffix-append : (s suffix : Bytes) → trim_suffix (s ++ suffix) suffix ≡ s
unfolding trim_suffix
trim_suffix-append s suffix = rw (
  trim_suffix,
  reverse-append s suffix,
  cut_prefix-append (reverse suffix) (reverse s),
  reverse-reverse,
)

has_prefix-append : (p s : Bytes) → has_prefix p (p ++ s) ≡ true
unfolding has_prefix
has_prefix-append [] s = refl
has_prefix-append (c ∷ p) s = ground (arith, has_prefix-append p s)

pub has_suffix-append : (s suffix : Bytes) → has_suffix (s ++ suffix) suffix ≡ true
unfolding has_suffix
has_suffix-append s suffix =
    rw (has_suffix, reverse-append s suffix) (has_prefix-append (reverse suffix) (reverse s))

pub trim_suffix_absent : (s suffix : Bytes) → has_suffix s suffix ≡ false → trim_suffix s suffix ≡ s
unfolding trim_suffix has_suffix
trim_suffix_absent s suffix h = rw (trim_suffix, cut_prefix-none (reverse suffix) (reverse s) h)

module _ (drops : ℕ → Bool) where
  trim_right-All : (gap : Bytes) → All (λ c. drops c ≡ true) gap → trim_right drops gap ≡ []
  unfolding trim_right
  trim_right-All [] h = refl
  trim_right-All (c ∷ gap) h = rw (trim_right-All gap h.1, h.0)

  pub trim_right-append :
      (init gap : Bytes) (last : ℕ)
      → drops last ≡ false
      → All (λ c. drops c ≡ true) gap
      → trim_right drops (init ++ last ∷ gap) ≡ init ++ last ∷ []
  unfolding trim_right
  trim_right-append [] gap last l g = rw (trim_right-All gap g, l)
  trim_right-append (c ∷ []) gap last l g = rw (trim_right-append [] gap last l g)
  trim_right-append (c ∷ d ∷ init) gap last l g = rw (trim_right-append (d ∷ init) gap last l g)

  -- A text that neither begins nor ends with a dropped byte is left as it is.
  pub trim_ends :
      (s init rest : Bytes) (first last : ℕ)
      → s ≡ first ∷ rest
      → s ≡ init ++ last ∷ []
      → drops first ≡ false
      → drops last ≡ false
      → trim drops s ≡ s
  unfolding trim trim_left
  trim_ends s init rest first last e e' f l =
      let left : trim_left drops s ≡ s = rw e (rw f) in
      let right : trim_right drops s ≡ s = rw e' (trim_right-append init [] last l tt) in
      ap (trim_right drops) left ∙ right
