-- ===== src/Fwu.antt =====
-- src/fwu/fwu.c: the firmware update service, in a build with a target partition and MCUboot.
-- `fwu_state` and the other static variables are a record; every function holds fwu_lock for its
-- whole change of state. What the flash, the stream writer and MCUboot answer is a parameter of
-- each call, as is the CRC. The log lines are left out.
pub mod Invariant
pub mod Upload
pub mod Reading
pub mod Sample
mod Tests
use kfsw_services.Common.{
  ℕ, zero, suc, ◌+◌, ◌-◌, ◌*◌, ◌≤◌, ◌<◌, ◌≡◌, Bool, true, false, not, ◌&&◌, ◌||◌, List, [], ◌∷◌,
  ◌++◌, ltb, leb, ◌==◌, if◌then◌else◌, length, Option, none, some,
}
use kfsw_services.Common.Words.{u32}
use kfsw_services.Common.Codes.{Code, success, einval, efbig, ebusy, espipe, eagain, eilseq, eio}

-- `enum kfsw_fwu_state`.
pub data Phase : Type 0 where
  idle : Phase
  receiving : Phase
  ready : Phase
  failed : Phase
  verified : Phase

-- What mcuboot_swap_type() answers.
pub data Swap : Type 0 where
  no_swap : Swap
  test_swap : Swap
  permanent_swap : Swap
  revert_swap : Swap

-- `fwu_state` and the other static variables. `written` is the bytes of the
-- calls of the stream writer that have succeeded since stream_flash_init, which the code hands on and
-- does not keep; what a call that fails has written of its bytes is not part of the state.
pub record State : Type 0 where
  pub phase : Phase
  pub total_size : ℕ
  pub received : ℕ
  pub expected_crc32 : ℕ
  pub actual_crc32 : ℕ
  pub started : ℕ
  pub completed : ℕ
  pub failures : ℕ
  pub swap_scheduled : Bool
  pub secondary_readers : ℕ
  pub area_open : Bool
  pub stream_open : Bool
  pub written : List ℕ

-- The partition: its size, CONFIG_KFSW_FWU_SLOT_OFFSET_SECTORS, and the sector size that
-- `fwu_sector_size` reads from the flash driver (0 where that fails).
pub record Slot : Type 0 where
  pub partition_size : ℕ
  pub offset_sectors : ℕ
  pub sector_size : ℕ

-- What the layers below answer during one call: flash_area_open and flash_area_flatten of
-- `fwu_erase_slot`, the second flash_area_open of `kfsw_fwu_begin`, stream_flash_init, the two uses of
-- stream_flash_buffered_write, boot_request_upgrade, and mcuboot_swap_type before and after it.
pub record Answers : Type 0 where
  pub erase_open : Code
  pub erase_flatten : Code
  pub open_area : Code
  pub init : Code
  pub write : Code
  pub flush : Code
  pub request_upgrade : Code
  pub swap_before : Swap
  pub swap_after : Swap

-- crc32_ieee_update as documented: one update by a text and by its two parts in turn agree, and the
-- value is a uint32_t.
pub record Crc : Type 0 where
  pub update : ℕ → List ℕ → ℕ
  pub update-append : (c : ℕ) (a b : List ℕ) → update c (a ++ b) ≡ update (update c a) b
  pub update-nil : (c : ℕ) → update c [] ≡ c

abbrev pub is_receiving : Phase → Bool
is_receiving receiving = true
is_receiving _ = false

abbrev pub is_failed : Phase → Bool
is_failed failed = true
is_failed _ = false

abbrev pub is_verified : Phase → Bool
is_verified verified = true
is_verified _ = false

abbrev pub is_revert : Swap → Bool
is_revert revert_swap = true
is_revert _ = false

abbrev pub is_test : Swap → Bool
is_test test_swap = true
is_test _ = false

-- `secondary_needed_for_revert`.
abbrev pub secondary_needed_for_revert : Answers → Bool
secondary_needed_for_revert a = is_revert a.swap_before

-- `kfsw_fwu_secondary_acquire`.
unfoldable pub secondary_acquire : State → State × Code
secondary_acquire s =
    if is_receiving s.phase || is_failed s.phase
    then (s, ebusy)
    else (record s { secondary_readers = u32 (s.secondary_readers + 1) }, success)

-- `kfsw_fwu_secondary_release`, whose decrement wraps behind its assertion that a reader is open.
unfoldable pub secondary_release : State → State
secondary_release s = record s { secondary_readers = u32 (s.secondary_readers + 0xffff_ffff) }

-- `kfsw_fwu_slot_write_offset`.
unfoldable pub slot_write_offset : Slot → ℕ
slot_write_offset p =
    if p.offset_sectors == 0
    then 0
    else if p.sector_size == 0
    then 0
    else u32 (p.sector_size * p.offset_sectors)

-- `kfsw_fwu_max_image_size`; KFSW_FWU_TRAILER_SECTORS is 1.
unfoldable pub max_image_size : Slot → ℕ
unfolding slot_write_offset
max_image_size p =
    if p.sector_size == 0
    then 0
    else if leb p.partition_size (u32 (slot_write_offset p + p.sector_size))
    then 0
    else p.partition_size - slot_write_offset p - p.sector_size

-- `fwu_close_stream`.
abbrev pub close_stream : State → State
close_stream s = record s { area_open = false; stream_open = false }

-- `fwu_erase_slot`: its result, and the handle that it leaves.
abbrev pub erase_result : Answers → Code
erase_result a = if a.erase_open == success then a.erase_flatten else a.erase_open

abbrev pub after_erase : Answers → State → State
after_erase a s = if a.erase_open == success then record s { area_open = false } else s

abbrev pub fail : State → State
fail s = record s { phase = failed; failures = u32 (s.failures + 1) }

-- `kfsw_fwu_begin` behind its tests of the size and of the service being free.
unfoldable pub open_slot : Answers → State → ℕ → ℕ → State × Code
open_slot a s total_size expected_crc32 =
    let erased : State = after_erase a s in
    if not (erase_result a == success)
    then (fail erased, erase_result a)
    else if not (a.open_area == success)
    then (fail erased, a.open_area)
    else if not (a.init == success)
    then (fail (close_stream erased), a.init)
    else (
      record erased {
        area_open = true;
        stream_open = true;
        total_size = total_size;
        expected_crc32 = expected_crc32;
        received = 0;
        actual_crc32 = 0;
        swap_scheduled = false;
        phase = receiving;
        started = u32 (s.started + 1);
        written = [];
      },
      success,
    )

-- `kfsw_fwu_begin`.
unfoldable pub begin : Slot → Answers → State → ℕ → ℕ → State × Code
unfolding open_slot
begin p a s total_size expected_crc32 =
    if total_size == 0
    then (s, einval)
    else if ltb (max_image_size p) total_size
    then (s, efbig)
    else if is_receiving s.phase || not (s.secondary_readers == 0) || secondary_needed_for_revert a
    then (s, ebusy)
    else open_slot a s total_size expected_crc32

-- `kfsw_fwu_write`; the data pointer is not null and `data` are its `size` bytes.
unfoldable pub write : Crc → Answers → State → ℕ → List ℕ → State × Code
write crc a s offset bytes =
    if length bytes == 0
    then (s, einval)
    else if not (is_receiving s.phase)
    then (s, einval)
    else if not (offset == s.received)
    then (s, espipe)
    else if ltb s.total_size (offset + length bytes)
    then (s, efbig)
    else if not (a.write == success)
    then (fail s, a.write)
    else (
      record s {
        actual_crc32 = crc.update s.actual_crc32 bytes;
        received = u32 (s.received + length bytes);
        written = s.written ++ bytes;
      },
      success,
    )

-- `fwu_verify_locked`. The erase that follows a bad CRC leaves the slot erased or not; either way
-- its result is only logged.
unfoldable pub verify : Answers → State → State × Code
verify a s =
    if is_verified s.phase
    then (s, success)
    else if not (is_receiving s.phase)
    then (s, einval)
    else if not (s.received == s.total_size)
    then (s, eagain)
    else if not (s.actual_crc32 == s.expected_crc32)
    then (fail (after_erase a (close_stream s)), eilseq)
    else if not (a.flush == success)
    then (fail (close_stream s), a.flush)
    else (record (close_stream s) { phase = verified }, success)

-- `kfsw_fwu_finish`.
unfoldable pub finish : Answers → State → State × Code
unfolding verify
finish a s =
    if not (s.secondary_readers == 0)
    then (s, ebusy)
    else if not ((verify a s).1 == success)
    then verify a s
    else if not (a.request_upgrade == success)
    then (fail (verify a s).0, a.request_upgrade)
    else if not (is_test a.swap_after)
    then (fail (verify a s).0, eio)
    else (
      record (verify a s).0 {
        swap_scheduled = true;
        phase = ready;
        completed = u32 ((verify a s).0.completed + 1);
      },
      success,
    )

-- `kfsw_fwu_abort`.
unfoldable pub abort : Answers → State → State × Code
abort a s =
    if not (s.secondary_readers == 0) || secondary_needed_for_revert a
    then (s, ebusy)
    else let closed : State = record (close_stream s) {
      failures = if is_receiving s.phase then u32 (s.failures + 1) else s.failures;
    } in
      if not (erase_result a == success)
      then (record (after_erase a closed) { phase = failed }, erase_result a)
      else (
        record (after_erase a closed) {
          total_size = 0;
          received = 0;
          expected_crc32 = 0;
          actual_crc32 = 0;
          swap_scheduled = false;
          phase = idle;
          written = [];
        },
        success,
      )
