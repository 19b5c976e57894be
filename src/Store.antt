-- ===== src/Store.antt =====
-- store.go and git.go: the store of a node, its bare repositories, the placement of a commit in the
-- tree of a read-only volume and what git is called with. `Tree` has the replace of a tree and `Placed` what
-- a placement promises.
--
-- The paths, SHA-256, the processes of git and the disk are parameters. What a checkout beside the tree still
-- holds after a placement is not modelled, for the next placement begins by its removal.
pub mod Tree
pub mod Placed
use git_csi_driver.Prelude.{
  ℕ, suc, Bool, true, false, ◌&&◌, ◌||◌, Option, none, some, List, [], ◌∷◌, ◌++◌, leb, ◌==◌,
  if◌then◌else◌, ℤ, pos, ltb_ℤ,
}
use git_csi_driver.Prelude.Text.{Bytes, codes, is_empty, split, trim, trim_right}
use git_csi_driver.Prelude.Number.{print_int}
use git_csi_driver.Prelude.Dict.{Dict, lookup, insert}
use git_csi_driver.Store.Tree.{
  Entries, Call, works, fails, next_call, later_calls, Replacing, replace_tree,
}

-- The store: its root and the lock of each repository, made on first use. A lock is its number.
pub record Store : Type 0 where
  pub root : Bytes
  pub locks : Dict ℕ
  pub made : ℕ

pub record BareRepository : Type 0 where
  pub url : Bytes
  pub name : Bytes
  pub dir : Bytes

-- The first half of `lock`: which lock a call takes.
unfoldable pub lock_of : Bytes → Store → Store × ℕ
lock_of name s = elim (lookup name s.locks) [
  | some held ↦ (s, held)
  | none ↦ (record s { locks = insert name s.made s.locks; made = suc s.made }, s.made)
]

module _ (join : Bytes → Bytes → Bytes) where
  -- `sum` is the hexadecimal SHA-256.
  unfoldable pub repository : (Bytes → Bytes) → Bytes → Store → BareRepository
  repository sum url s = record {
    url = url;
    name = sum url;
    dir = join (join s.root (codes "repos")) (sum url);
  }

  unfoldable pub volume_dir : Bytes → Store → Bytes
  volume_dir id s = join (join s.root (codes "volumes")) id

  -- `exists`, where `stat` tells whether there is a file.
  unfoldable pub repository_exists : (Bytes → Bool) → BareRepository → Bool
  repository_exists stat r = stat (join r.dir (codes "HEAD"))

abbrev pub ref_prefix : Bytes
ref_prefix = codes "refs/git-csi/"

-- What `fetch` and `resolve` run git with.
unfoldable pub fetch_arguments : Bytes → Bytes → ℤ → List Bytes
unfolding print_int
fetch_arguments url ref depth =
    (codes "fetch" ∷ codes "--quiet" ∷ codes "--no-tags" ∷ [])
    ++ ((if ltb_ℤ (pos 0) depth then (codes "--depth=" ++ print_int depth) ∷ [] else [])
        ++ (url ∷ (codes "+" ++ (ref ++ (codes ":" ++ (ref_prefix ++ ref)))) ∷ []))

unfoldable pub resolve_arguments : Bytes → List Bytes
resolve_arguments ref =
    codes "rev-parse"
    ∷ codes "--verify"
    ∷ codes "--end-of-options"
    ∷ (ref_prefix ++ (ref ++ codes "^{commit}"))
    ∷ []

-- The blanks of ASCII.
abbrev pub is_blank : ℕ → Bool
is_blank c = c == 32 || (leb 9 c && leb c 13)

unfoldable pub said_lines : List Bytes → List Bytes
unfolding trim
said_lines [] = []
said_lines (line ∷ lines) =
    if is_empty (trim is_blank line)
    then said_lines lines
    else trim is_blank line ∷ said_lines lines

abbrev pub join_words : List Bytes → Bytes
join_words [] = []
join_words (word ∷ []) = word
join_words (word ∷ next ∷ words) = word ++ (codes " " ++ join_words (next ∷ words))

-- `gitReason`, of git's standard error and the error's own text.
unfoldable pub git_reason : Bytes → Bytes → Bytes
unfolding said_lines split
git_reason stderr message = elim (said_lines (split b'\n' stderr)) [
  | [] ↦ message
  | line ∷ lines ↦ join_words (line ∷ lines)
]

-- `trimLine`
abbrev pub trim_line : Bytes → Bytes
trim_line out = trim_right (λ c. c == b'\n' || c == b'\r') out

-- The directory of a read-only volume: its tree with its inode, and the file of its commit.
pub record Directory : Type 0 where
  pub tree : Option (ℕ × Entries)
  pub placed : Option Bytes

pub record Placing : Type 0 where
  pub directory : Directory
  pub calls : List Call
  pub is_ok : Bool

-- A call that changes nothing here.
abbrev pub plain_call : Directory → List Call → Placing
plain_call d calls = elim (next_call calls) [
  | works ↦ record { directory = d; calls = later_calls calls; is_ok = true }
  | fails part ↦ record { directory = d; calls = later_calls calls; is_ok = false }
]

abbrev pub place_then : Placing → (Directory → List Call → Placing) → Placing
place_then p next = if p.is_ok then next p.directory p.calls else p

-- A call that changes the directory if it works.
abbrev pub changing_call : Directory → Directory → List Call → Placing
changing_call after d calls = elim (next_call calls) [
  | works ↦ record { directory = after; calls = later_calls calls; is_ok = true }
  | fails part ↦ record { directory = d; calls = later_calls calls; is_ok = false }
]

-- The write beside the file and the rename onto it.
unfoldable pub record_placed : Bytes → Directory → List Call → Placing
record_placed commit d calls = place_then (plain_call d calls) λ same_d after.
    changing_call (record same_d { placed = some (commit ++ b'\n' ∷ []) }) same_d after

unfoldable pub placed_commit : Directory → Bytes
placed_commit d = elim d.placed [ none ↦ [] | some written ↦ trim_line written ]

abbrev pub arrived_in : ℕ → Directory → Replacing → Placing
arrived_in inode d r = record {
  directory = record d { tree = some (inode, r.published) };
  calls = r.calls;
  is_ok = r.is_ok;
}

-- The removal of the checkout that follows a replace may fail.
unfoldable pub arrive_at : ℕ × Entries → Option (ℕ × Entries) → Directory → List Call → Placing
unfolding replace_tree
arrive_at fresh none d calls = changing_call (record d { tree = some fresh }) d calls
arrive_at fresh (some (inode, published)) d calls =
    let r = arrived_in inode d (replace_tree fresh.1 published calls) in
    if r.is_ok then record r { calls = later_calls r.calls } else r

unfoldable pub arrive : ℕ × Entries → Directory → List Call → Placing
unfolding arrive_at
arrive fresh d calls = arrive_at fresh d.tree d calls

-- `checkout` answers what git writes for the commit in an empty directory.
unfoldable pub place : (Bytes → Option (ℕ × Entries)) → Bytes → Directory → List Call → Placing
unfolding arrive record_placed
place checkout commit d calls = place_then (plain_call d calls) λ cleared after.
    elim (checkout commit) [
      | none ↦ record { directory = cleared; calls = after; is_ok = false }
      | some fresh ↦ place_then (arrive fresh cleared after) (record_placed commit)
    ]
