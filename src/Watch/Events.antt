-- ===== src/Watch/Events.antt =====
-- watch.go: the events that the kernel writes into the buffer of an inotify file. The fuel counts the
-- events, and a buffer has fewer of them than bytes. A number is little-endian, as on the machines that the
-- driver is built for; a slice past the buffer, at which Go panics, is none.
pub mod Laws
use git_csi_driver.Prelude.{
  ℕ, zero, suc, ◌+◌, ◌*◌, ◌/◌, ◌%◌, Bool, ◌&&◌, Option, none, some, List, [], ◌∷◌, ◌++◌, ◌==◌,
  if◌then◌else◌, length,
}
use git_csi_driver.Prelude.Text.{Bytes, codes, is_empty, trim_right}

-- `binary.NativeEndian.Uint32`
abbrev pub uint32 : ℕ → ℕ → ℕ → ℕ → ℕ
uint32 a b c d = a + 256 * b + 65536 * c + 16777216 * d

-- `unix.IN_CREATE` and `unix.IN_ISDIR`
abbrev pub creates : ℕ → Bool
creates mask = mask / 256 % 2 == 1

abbrev pub is_directory : ℕ → Bool
is_directory mask = mask / 1073741824 % 2 == 1

-- `trimZeros`
unfoldable pub trim_zeros : Bytes → Bytes
trim_zeros name = trim_right (λ c. c == 0) name

-- `filepath.Join` of a clean directory and the name of a file in it.
abbrev pub join_path : Bytes → Bytes → Bytes
join_path dir name =
    if is_empty dir then name else if is_empty name then dir else dir ++ b'/' ∷ name

-- So many bytes, and those after them.
unfoldable pub slice : ℕ → Bytes → Option (Bytes × Bytes)
slice zero s = some ([], s)
slice (suc n) [] = none
slice (suc n) (c ∷ s) = elim (slice n s) [ none ↦ none | some (name, rest) ↦ some (c ∷ name, rest) ]

-- The directory the pod created, or nothing.
unfoldable pub arrival_of : (ℕ → Bytes) → ℕ → ℕ → Bytes → Bytes
unfolding trim_zeros
arrival_of watched descriptor mask name =
    if creates mask && is_directory mask
    then join_path (watched descriptor) (trim_zeros name)
    else []

unfoldable pub byte_at : ℕ → Bytes → ℕ
byte_at n [] = 0
byte_at zero (c ∷ s) = c
byte_at (suc n) (c ∷ s) = byte_at n s

-- The number that begins at an offset of the header.
unfoldable pub number_at : ℕ → Bytes → ℕ
unfolding byte_at
number_at n s = uint32 (byte_at n s) (byte_at (n + 1) s) (byte_at (n + 2) s) (byte_at (n + 3) s)

-- The loop, from the first event that is not read yet; `unix.SizeofInotifyEvent` is 16.
unfoldable pub events_from : (ℕ → Bytes) → ℕ → Bytes → Option (List Bytes)
unfolding slice arrival_of number_at
events_from watched zero buffer = some []
events_from watched (suc fuel) buffer = elim (slice 16 buffer) [
  | none ↦ some []
  | some (header, after) ↦ elim (slice (number_at 12 header) after) [
    | none ↦ none
    | some (name, rest) ↦ elim (events_from watched fuel rest) [
      | none ↦ none
      | some found ↦
          some (arrival_of watched (number_at 0 header) (number_at 4 header) name ∷ found)
    ]
  ]
]

unfoldable pub events : (ℕ → Bytes) → Bytes → Option (List Bytes)
unfolding events_from
events watched buffer = events_from watched (length buffer) buffer
