-- ===== src/Watch/Events/Laws.antt =====
-- watch.go: the loop over the events ends, and reads the events that the kernel wrote.
use git_csi_driver.Prelude.{
  ℕ, zero, suc, ◌+◌, ◌/◌, ◌%◌, ◌^◌, ◌≤◌, ◌<◌, ◌≡◌, refl, sym, ap, ◌∙◌, inl, inr, ◌&&◌, Option, none,
  some, List, [], ◌∷◌, ◌++◌, map, arith, ◌==◌, if◌then◌else◌, Option-cases, length, All,
}
use git_csi_driver.Prelude.Text.{Bytes, Lacks, trim_right}
use git_csi_driver.Watch.Events.{
  uint32, creates, is_directory, trim_zeros, join_path, slice, arrival_of, byte_at, number_at,
  events_from, events,
}

slice-length : (n : ℕ) (s a b : Bytes) → slice n s ≡ some (a, b) → length s ≡ n + length b
unfolding slice
slice-length zero s a b e = ground (arith, e)
slice-length (suc n) [] a b e = cc e
slice-length (suc n) (c ∷ s) a b e = elim (Option-cases (slice n s)) [
  | inl short ↦ ground (arith, short, e)
  | inr ((a', b'), found) ↦ ground (arith, found, e, slice-length n s a' b')
]

no_events :
    (watched : ℕ → Bytes) (fuel : ℕ) (buffer : Bytes)
    → length buffer ≤ 0
    → events_from watched fuel buffer ≡ some []
unfolding events_from slice
no_events watched zero buffer h = refl
no_events watched (suc fuel) [] h = refl
no_events watched (suc fuel) (c ∷ s) h = absurd (omega (arith, h))

same_fuel :
    (watched : ℕ → Bytes) (fuel more : ℕ) (buffer : Bytes)
    → length buffer ≤ fuel
    → length buffer ≤ more
    → events_from watched fuel buffer ≡ events_from watched more buffer
unfolding events_from
same_fuel watched zero more buffer h k = sym (no_events watched more buffer h)
same_fuel watched (suc fuel) zero buffer h k = no_events watched (suc fuel) buffer k
same_fuel watched (suc fuel) (suc more) buffer h k = elim (Option-cases (slice 16 buffer)) [
  | inl short ↦ rw (events_from, short) refl
  | inr ((header, after), e) ↦ elim (Option-cases (slice (number_at 12 header) after)) [
    | inl cut ↦ rw (events_from, e, cut) refl
    | inr ((name, rest), e') ↦
        let all = slice-length 16 buffer header after e in
        let tail = slice-length (number_at 12 header) after name rest e' in
        rw (events_from, e, e')
          (ap
            (λ o. elim o as (λ x. Option (List Bytes)) [
              | none ↦ none
              | some found ↦
                  some (arrival_of watched (number_at 0 header) (number_at 4 header) name ∷ found)
            ])
            (same_fuel watched fuel more rest (omega (arith, all, tail, h))
              (omega (arith, all, tail, k))))
  ]
]

-- The loop answers the same with any fuel from the length of the buffer on, for every event is 16 bytes long
-- at least.
pub events_from_lem :
    (watched : ℕ → Bytes) (fuel : ℕ) (buffer : Bytes)
    → length buffer ≤ fuel
    → events_from watched fuel buffer ≡ events watched buffer
unfolding events
events_from_lem watched fuel buffer h =
    same_fuel watched fuel (length buffer) buffer h (omega arith)

-- An event as the kernel writes it: the name padded with zero bytes.
pub record KernelEvent : Type 0 where
  pub descriptor : ℕ
  pub mask : ℕ
  pub cookie : ℕ
  pub name : Bytes
  pub padding : ℕ

abbrev write_number : ℕ → Bytes → Bytes
write_number n s = n % 256 ∷ n / 256 % 256 ∷ n / 65536 % 256 ∷ n / 16777216 % 256 ∷ s

abbrev padded : ℕ → Bytes
padded zero = []
padded (suc n) = 0 ∷ padded n

abbrev write_event : KernelEvent → Bytes → Bytes
write_event e rest = write_number e.descriptor (
    write_number e.mask (
      write_number e.cookie (
        write_number (length (e.name ++ padded e.padding)) ((e.name ++ padded e.padding) ++ rest))))

abbrev pub write_events : List KernelEvent → Bytes
write_events [] = []
write_events (e ∷ more) = write_event e (write_events more)

-- Numbers of 32 bits, and a name with no zero byte.
abbrev pub IsKernelEvent : KernelEvent → Type 0
IsKernelEvent e =
    (e.descriptor < 2 ^ 32)
    × (e.mask < 2 ^ 32)
    × (length (e.name ++ padded e.padding) < 2 ^ 32)
    × Lacks 0 e.name

-- The directory that an event says the pod created, or nothing.
abbrev pub arrival : (ℕ → Bytes) → KernelEvent → Bytes
arrival watched e =
    if creates e.mask && is_directory e.mask then join_path (watched e.descriptor) e.name else []

uint32_lem :
    (n : ℕ)
    → n < 2 ^ 32
    → uint32 (n % 256) (n / 256 % 256) (n / 65536 % 256) (n / 16777216 % 256) ≡ n
uint32_lem n h = omega (arith, h)

length-append : (s t : Bytes) → length (s ++ t) ≡ length s + length t
length-append [] t = omega arith
length-append (c ∷ s) t = omega (arith, length-append s t)

slice-append : (s t : Bytes) → slice (length s) (s ++ t) ≡ some (s, t)
unfolding slice
slice-append [] t = refl
slice-append (c ∷ s) t = rw (slice-append s t) refl

trim_zeros-padded : (name : Bytes) (n : ℕ) → Lacks 0 name → trim_zeros (name ++ padded n) ≡ name
unfolding trim_zeros trim_right
trim_zeros-padded [] zero h = refl
trim_zeros-padded [] (suc n) h =
    let gone : trim_right (λ c. c == 0) (padded n) ≡ [] = trim_zeros-padded [] n tt in rw gone refl
trim_zeros-padded (c ∷ []) n h =
    let gone : trim_right (λ c. c == 0) (padded n) ≡ [] = trim_zeros-padded [] n tt in
    rw (trim_zeros, trim_right, gone) (ground (arith, h.0))
trim_zeros-padded (c ∷ d ∷ name) n h =
    let rest : trim_right (λ c. c == 0) ((d ∷ name) ++ padded n) ≡ d ∷ name =
      trim_zeros-padded (d ∷ name) n h.1 in
    rw rest refl

arrival_of_lem :
    (watched : ℕ → Bytes) (e : KernelEvent)
    → IsKernelEvent e
    → arrival_of watched e.descriptor e.mask (e.name ++ padded e.padding) ≡ arrival watched e
unfolding arrival_of
arrival_of_lem watched e (descriptor, mask, long, plain) =
    rw (arrival_of, trim_zeros-padded e.name e.padding plain) refl

events_from_next :
    (watched : ℕ → Bytes) (fuel : ℕ) (buffer header after name rest : Bytes) (found : List Bytes)
    → slice 16 buffer ≡ some (header, after)
    → slice (number_at 12 header) after ≡ some (name, rest)
    → events_from watched fuel rest ≡ some found
    → events_from watched (suc fuel) buffer
      ≡ some (arrival_of watched (number_at 0 header) (number_at 4 header) name ∷ found)
unfolding events_from
events_from_next watched fuel buffer header after name rest found e e' read =
    rw (events_from, e, e', read) refl

abbrev header_of : KernelEvent → Bytes
header_of e = write_number e.descriptor (
    write_number e.mask
      (write_number e.cookie (write_number (length (e.name ++ padded e.padding)) [])))

header_numbers :
    (e : KernelEvent)
    → IsKernelEvent e
    → (number_at 0 (header_of e) ≡ e.descriptor)
      × (number_at 4 (header_of e) ≡ e.mask)
      × (number_at 12 (header_of e) ≡ length (e.name ++ padded e.padding))
unfolding number_at byte_at
header_numbers e (descriptor, mask, long, plain) =
    (uint32_lem e.descriptor descriptor, uint32_lem e.mask mask, uint32_lem _ long)

slice-write_event :
    (e : KernelEvent) (rest : Bytes)
    → slice 16 (write_event e rest) ≡ some (header_of e, (e.name ++ padded e.padding) ++ rest)
unfolding slice
slice-write_event e rest = refl

events_from-write_event :
    (watched : ℕ → Bytes) (fuel : ℕ) (e : KernelEvent) (rest : Bytes) (found : List Bytes)
    → IsKernelEvent e
    → events_from watched fuel rest ≡ some found
    → events_from watched (suc fuel) (write_event e rest) ≡ some (arrival watched e ∷ found)
events_from-write_event watched fuel e rest found h read =
    let (descriptor, mask, long) = header_numbers e h in
    let name = e.name ++ padded e.padding in
    events_from_next watched fuel (write_event e rest) (header_of e) (name ++ rest) name rest found
      (slice-write_event e rest) (ap (λ n. slice n (name ++ rest)) long ∙ slice-append name rest)
      read
    ∙ ap (λ d. some (arrival_of watched d (number_at 4 (header_of e)) name ∷ found)) descriptor
    ∙ ap (λ m. some (arrival_of watched e.descriptor m name ∷ found)) mask
    ∙ ap (λ a. some (a ∷ found)) (arrival_of_lem watched e h)

events_from-write_events :
    (watched : ℕ → Bytes) (fuel : ℕ) (written : List KernelEvent)
    → All IsKernelEvent written
    → length (write_events written) ≤ fuel
    → events_from watched fuel (write_events written) ≡ some (map (arrival watched) written)
events_from-write_events watched fuel [] h k = no_events watched fuel [] (omega arith)
events_from-write_events watched zero (e ∷ written) h k = absurd (omega (arith, k))
events_from-write_events watched (suc fuel) (e ∷ written) h k =
    events_from-write_event watched fuel e (write_events written) _ h.0 (
      events_from-write_events watched fuel written h.1
        (omega (arith, k, length-append (e.name ++ padded e.padding) (write_events written))))

-- The events that the kernel writes, with descriptors, masks and lengths of 32 bits and names that hold no
-- zero byte, are read as they are, one arrival for each.
pub events-write_events :
    (watched : ℕ → Bytes) (written : List KernelEvent)
    → All IsKernelEvent written
    → events watched (write_events written) ≡ some (map (arrival watched) written)
unfolding events
events-write_events watched written h =
    events_from-write_events watched (length (write_events written)) written h (omega arith)
