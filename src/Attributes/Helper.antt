-- ===== src/Attributes/Helper.antt =====
-- The regular expression `transportHelper` of attributes.go, as the texts that it matches.
use git_csi_driver.Prelude.{
  ℕ, ◌≡◌, refl, ◌↔◌, true, [], ◌∷◌, ◌++◌, ◌==◌, All, Bool-cases, inl, inr, arith,
}
use git_csi_driver.Prelude.Text.{Bytes}
use git_csi_driver.Attributes.{is_alnum, is_scheme, in_helper, transport_helper}

-- A word of the scheme's characters, two colons, and anything.
abbrev pub IsHelperTail : Bytes → Type 0
IsHelperTail s =
    (word rest : Bytes) × (s ≡ word ++ b':' ∷ b':' ∷ rest) × All (λ c. is_scheme c ≡ true) word

-- The word begins with a letter or a digit.
abbrev pub IsHelper : Bytes → Type 0
IsHelper url = (c : ℕ) × (s : Bytes) × (url ≡ c ∷ s) × (is_alnum c ≡ true) × IsHelperTail s

in_helper_sound : (s : Bytes) → in_helper s ≡ true → IsHelperTail s
unfolding in_helper
in_helper_sound [] h = cc
in_helper_sound (c ∷ []) h = cc
in_helper_sound (c ∷ d ∷ s) h = elim (Bool-cases (c == b':')) [
  | inl colon ↦ ([], s, ground arith, tt)
  | inr other ↦
      let (word, rest, e, w) = in_helper_sound (d ∷ s) (ground arith) in
      (c ∷ word, rest, cc, (ground arith, w))
]

in_helper_complete :
    (word rest : Bytes)
    → All (λ c. is_scheme c ≡ true) word
    → in_helper (word ++ b':' ∷ b':' ∷ rest) ≡ true
unfolding in_helper
in_helper_complete [] rest w = refl
in_helper_complete (c ∷ []) rest w = ground arith
in_helper_complete (c ∷ d ∷ word) rest w = ground (arith, in_helper_complete (d ∷ word) rest w.1)

-- The check refuses exactly the URLs whose first word is a scheme's name and is followed by two
-- colons.
pub transport_helper_iff : (url : Bytes) → (transport_helper url ≡ true) ↔ IsHelper url
unfolding transport_helper
transport_helper_iff [] = (λ h. cc, λ (c, s, e, _, _). cc)
transport_helper_iff (c ∷ s) = (
  λ h. (c, s, refl, ground arith, in_helper_sound s (ground arith)),
  λ (d, t, e, alnum, (word, rest, tail, w)). ground (arith, in_helper_complete word rest w),
)
