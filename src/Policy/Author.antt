-- ===== src/Policy/Author.antt =====
-- The identity of commit.author: what is written in git's form is read back.
use mathlib.Core.List.{reverse, reverse-append, reverse-reverse, reverse-cons}
use git_csi_driver.Prelude.{
  ℕ, ◌≡◌, refl, ap, ◌∙◌, ◌≢◌, true, false, some, [], ◌∷◌, ◌++◌, ok, arith, All, append_assoc,
}
use git_csi_driver.Prelude.Text.{Bytes, Lacks, same_iff, trim_right}
use git_csi_driver.Prelude.Text.Laws.{
  All-reverse, cut_byte-append, contains_byte-Lacks, trim_right-append,
}
use git_csi_driver.Policy.{
  is_blank, name_before, has_bad, match_email, from_end, match_author, parse_author,
}

-- An address that git accepts.
abbrev pub IsEmail : Bytes → Type 0
IsEmail email = (email ≢ []) × All (λ c. (c ≢ b'<') × (c ≢ b'>') × (is_blank c ≡ false)) email

-- A name that begins and ends with a character that is no blank and holds no newline.
abbrev pub IsName : Bytes → Type 0
IsName name =
    (first : ℕ) × (rest : Bytes) × (last : ℕ) × (init : Bytes) × (name ≡ first ∷ rest)
    × (name ≡ init ++ last ∷ [])
    × (is_blank first ≡ false)
    × (is_blank last ≡ false)
    × Lacks 10 name

has_bad_IsEmail :
    (email : Bytes)
    → All (λ c. (c ≢ b'<') × (c ≢ b'>') × (is_blank c ≡ false)) email
    → has_bad email ≡ false
unfolding has_bad
has_bad_IsEmail [] h = refl
has_bad_IsEmail (c ∷ email) h = ground (arith, has_bad_IsEmail email h.1)

longer_ne : (s t : Bytes) (c : ℕ) → s ≢ s ++ c ∷ t
longer_ne [] t c e = cc
longer_ne (d ∷ s) t c e = longer_ne s t c (ground arith)

email_Lacks :
    (email : Bytes)
    → All (λ c. (c ≢ b'<') × (c ≢ b'>') × (is_blank c ≡ false)) email
    → Lacks b'<' email
email_Lacks [] h = tt
email_Lacks (c ∷ email) h = (h.0.0, email_Lacks email h.1)

reverse_form :
    (name gap email : Bytes)
    → reverse (name ++ gap ++ b'<' ∷ email ++ b'>' ∷ [])
      ≡ b'>' ∷ (reverse email ++ b'<' ∷ reverse (name ++ gap))
reverse_form name gap email = simp (reverse-append, reverse-cons, append_assoc)

name_before_lem :
    (name gap : Bytes) (blank : ℕ)
    → IsName name
    → name_before (name ++ blank ∷ gap) name ≡ some name
unfolding name_before
name_before_lem [] gap blank (f, r, l, i, e, e', bf, bl, no_newline) = cc
name_before_lem (c ∷ rest) gap blank (f, r, l, i, e, e', bf, bl, no_newline) = ground (
  arith,
  contains_byte-Lacks 10 rest no_newline.1,
  same_iff (c ∷ rest) ((c ∷ rest) ++ blank ∷ gap),
  longer_ne (c ∷ rest) gap blank,
)

trim_right-IsName :
    (name gap : Bytes)
    → IsName name
    → All (λ c. is_blank c ≡ true) gap
    → trim_right is_blank (name ++ gap) ≡ name
trim_right-IsName name gap (f, r, l, i, e, e', bf, bl, no_newline) g =
    rw (e', append_assoc) (trim_right-append is_blank i gap l bl g)

from_end_lem :
    (before email : Bytes)
    → Lacks b'<' email
    → from_end (b'>' ∷ (reverse email ++ b'<' ∷ reverse before)) ≡ match_email email before
unfolding from_end
from_end_lem before email h = rw (
  cut_byte-append b'<' (reverse email) (reverse before) (All-reverse (λ c. c ≢ b'<') email h),
  from_end,
  reverse-reverse,
  reverse-reverse,
)

match_email_lem :
    (name gap email : Bytes) (blank : ℕ)
    → IsName name
    → All (λ c. is_blank c ≡ true) (blank ∷ gap)
    → IsEmail email
    → match_email email (name ++ blank ∷ gap) ≡ some (name, email)
unfolding match_email
match_email_lem name gap [] blank n g (named, good) = absurd (named refl)
match_email_lem name gap (c ∷ email) blank n g (named, good) = rw (
  has_bad_IsEmail (c ∷ email) good,
  trim_right-IsName name (blank ∷ gap) n g,
  name_before_lem name gap blank n,
)

match_author_lem :
    (name gap email : Bytes) (blank : ℕ)
    → IsName name
    → All (λ c. is_blank c ≡ true) (blank ∷ gap)
    → IsEmail email
    → match_author (name ++ blank ∷ gap ++ b'<' ∷ email ++ b'>' ∷ []) ≡ some (name, email)
unfolding match_author
match_author_lem name gap email blank n g (named, good) =
    ap from_end (reverse_form name (blank ∷ gap) email)
    ∙ from_end_lem (name ++ blank ∷ gap) email (email_Lacks email good)
    ∙ match_email_lem name gap email blank n g (named, good)

-- A name, one blank or more and an address in angle brackets are read as that name and that address,
-- where the name begins and ends with no blank and holds no newline, and the address is not empty and
-- holds no blank and no angle bracket.
pub parse_author_lem :
    (name gap email : Bytes) (blank : ℕ)
    → IsName name
    → All (λ c. is_blank c ≡ true) (blank ∷ gap)
    → IsEmail email
    → parse_author (name ++ blank ∷ gap ++ b'<' ∷ email ++ b'>' ∷ []) ≡ ok (name, email)
unfolding parse_author
parse_author_lem name gap email blank n g m =
    rw (match_author_lem name gap email blank n g m, parse_author)
