-- ===== src/Fwu/Invariant.antt =====
-- The invariant of the firmware update service, over every order of calls and every answer of the
-- layers below.
use kfsw_services.Common.{
  ℕ, ◌≤◌, ◌<◌, ◌≡◌, sym, ◌∙◌, Bool, true, false, ◌||◌, List, [], ◌∷◌, arith, length, length-append,
  ◌==◌, if◌then◌else◌,
}
use kfsw_services.Fwu.{
  Phase, receiving, ready, verified, State, Slot, Answers, Crc, begin, write, verify, finish, abort,
  secondary_acquire, secondary_release, max_image_size, is_receiving, is_failed,
}

-- The phases in which the slot holds the start of an image, and those in which it holds a whole one.
abbrev pub holds_bytes : Phase → Bool
holds_bytes receiving = true
holds_bytes verified = true
holds_bytes ready = true
holds_bytes _ = false

abbrev pub holds_image : Phase → Bool
holds_image verified = true
holds_image ready = true
holds_image _ = false

abbrev pub is_ready : Phase → Bool
is_ready ready = true
is_ready _ = false

-- `length`: `received` counts the bytes that went to flash; `checked`: the running CRC is theirs;
-- `whole`: a verified image has the declared size and CRC; `alone`: nobody reads a slot that is being
-- written or whose contents are unknown; `offered`: an image is ready only if a swap is scheduled.
pub record IsValid (crc : Crc) (s : State) : Type 0 where
  pub small : s.total_size < 0x1_0000_0000
  pub counted : holds_bytes s.phase ≡ true → length s.written ≡ s.received
  pub checked : holds_bytes s.phase ≡ true → s.actual_crc32 ≡ crc.update 0 s.written
  pub inside : holds_bytes s.phase ≡ true → s.received ≤ s.total_size
  pub whole :
      holds_image s.phase ≡ true → (s.received ≡ s.total_size) × (s.actual_crc32 ≡ s.expected_crc32)
  pub alone : (is_receiving s.phase || is_failed s.phase) ≡ true → s.secondary_readers ≡ 0
  pub offered : is_ready s.phase ≡ true → s.swap_scheduled ≡ true

max_image_size-le : (p : Slot) → max_image_size p ≤ p.partition_size
unfolding max_image_size
max_image_size-le p = ground arith

module _ (crc : Crc) where
  begin-IsValid :
      (p : Slot) (a : Answers) {s : State} (total_size expected_crc32 : ℕ)
      → p.partition_size < 0x1_0000_0000
      → IsValid crc s
      → IsValid crc (begin p a s total_size expected_crc32).0
  unfolding begin
  begin-IsValid p a {s} total_size expected_crc32 h v =
      ground (arith, max_image_size-le p, crc.update-nil 0)

  write-IsValid :
      (a : Answers) {s : State} (offset : ℕ) (bytes : List ℕ)
      → IsValid crc s
      → IsValid crc (write crc a s offset bytes).0
  unfolding write
  write-IsValid a {s} offset bytes v =
      ground (arith, length-append s.written bytes, crc.update-append 0 s.written bytes)

  verify-IsValid : (a : Answers) {s : State} → IsValid crc s → IsValid crc (verify a s).0
  unfolding verify
  verify-IsValid a v = ground arith

  finish-IsValid : (a : Answers) {s : State} → IsValid crc s → IsValid crc (finish a s).0
  unfolding finish
  finish-IsValid a {s} v = ground (arith, verify-IsValid a v)

  abort-IsValid : (a : Answers) {s : State} → IsValid crc s → IsValid crc (abort a s).0
  unfolding abort
  abort-IsValid a v = ground arith

-- The calls of the service, each with what the layers below answer during it. A reader is released
-- only when one is open, as the assertion of the release says.
pub data Call : Type 0 where
  begins : Answers → ℕ → ℕ → Call
  writes : Answers → ℕ → List ℕ → Call
  verifies : Answers → Call
  finishes : Answers → Call
  aborts : Answers → Call
  acquires : Call
  releases : Call

module _ (crc : Crc) (p : Slot) where
  unfoldable pub step : State → Call → State
  step s (begins a total_size expected_crc32) = (begin p a s total_size expected_crc32).0
  step s (writes a offset bytes) = (write crc a s offset bytes).0
  step s (verifies a) = (verify a s).0
  step s (finishes a) = (finish a s).0
  step s (aborts a) = (abort a s).0
  step s acquires = (secondary_acquire s).0
  step s releases = if s.secondary_readers == 0 then s else secondary_release s

  unfoldable pub run : State → List Call → State
  run s [] = s
  run s (c ∷ cs) = run (step s c) cs

module _ (crc : Crc) (p : Slot) (fits : p.partition_size < 0x1_0000_0000) where
  pub step-IsValid : {s : State} (c : Call) → IsValid crc s → IsValid crc (step crc p s c)
  unfolding step secondary_acquire secondary_release
  step-IsValid (begins a total_size expected_crc32) v =
      begin-IsValid crc p a total_size expected_crc32 fits v
  step-IsValid (writes a offset bytes) v = write-IsValid crc a offset bytes v
  step-IsValid (verifies a) v = verify-IsValid crc a v
  step-IsValid (finishes a) v = finish-IsValid crc a v
  step-IsValid (aborts a) v = abort-IsValid crc a v
  step-IsValid acquires v = ground arith
  step-IsValid releases v = ground arith

  run-IsValid : (cs : List Call) {s : State} → IsValid crc s → IsValid crc (run crc p s cs)
  unfolding run
  run-IsValid [] v = v
  run-IsValid (c ∷ cs) v = run-IsValid cs (step-IsValid c v)

  -- Whatever is called in whatever order, and whatever the flash and the bootloader answer: an image
  -- that counts as ready has all its declared bytes, the CRC of the bytes that went to flash is the
  -- declared one, and a swap is scheduled.
  pub run_ready_is_whole :
      (s : State) (cs : List Call)
      → IsValid crc s
      → (run crc p s cs).phase ≡ ready
      → (length (run crc p s cs).written ≡ (run crc p s cs).total_size)
        × (crc.update 0 (run crc p s cs).written ≡ (run crc p s cs).expected_crc32)
        × ((run crc p s cs).swap_scheduled ≡ true)
  run_ready_is_whole s cs v h =
      let end = run crc p s cs in
      let w : IsValid crc end = run-IsValid cs v in
      let bytes : holds_bytes end.phase ≡ true = rw h in
      let image : holds_image end.phase ≡ true = rw h in
      let done : is_ready end.phase ≡ true = rw h in
      (
        w.counted bytes ∙ (w.whole image).0,
        sym (w.checked bytes) ∙ (w.whole image).1,
        w.offered done,
      )
