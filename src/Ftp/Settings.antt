-- ===== src/Ftp/Settings.antt =====
-- src/ftp/ftp_state.c: the counters of the transfers, and the settings that the ground may change.
use kfsw_services.Common.{ℕ, ◌+◌, ◌≤◌, Bool, ◌||◌, ltb, ◌==◌, if◌then◌else◌, arith}
use kfsw_services.Common.Words.{u32}
use kfsw_services.Common.Codes.{Code, success, erange}
use kfsw_services.Ftp.{chunk_size}

-- The file's static variables. An `atomic_t` is read as a uint32_t.
pub record State : Type 0 where
  pub transfers : ℕ
  pub failures : ℕ
  pub bytes : ℕ
  pub timeout_ms : ℕ
  pub chunk_size : ℕ

-- `kfsw_ftp_count_transfer`.
abbrev pub count_transfer : ℕ → Bool → State → State
count_transfer bytes failed s =
    if failed
    then record s { failures = u32 (s.failures + 1) }
    else record s { transfers = u32 (s.transfers + 1); bytes = u32 (s.bytes + bytes) }

-- `kfsw_ftp_check_timeout_ms`, with the bounds of the header.
abbrev pub check_timeout_ms : ℕ → Code
check_timeout_ms timeout_ms =
    if ltb timeout_ms 1000 || ltb 120000 timeout_ms then erange else success

-- `kfsw_ftp_set_timeout_ms`.
unfoldable pub set_timeout_ms : ℕ → State → State × Code
set_timeout_ms timeout_ms s =
    if check_timeout_ms timeout_ms == success
    then (record s { timeout_ms = timeout_ms }, success)
    else (s, check_timeout_ms timeout_ms)

-- `kfsw_ftp_check_chunk_size`.
abbrev pub check_chunk_size : ℕ → Code
check_chunk_size size = if (size == 0) || ltb chunk_size size then erange else success

-- `kfsw_ftp_set_chunk_size`.
unfoldable pub set_chunk_size : ℕ → State → State × Code
set_chunk_size size s =
    if check_chunk_size size == success
    then (record s { chunk_size = size }, success)
    else (s, check_chunk_size size)

-- The settings that every setter keeps.
pub record IsInRange (s : State) : Type 0 where
  pub least : 1000 ≤ s.timeout_ms
  pub most : s.timeout_ms ≤ 120000
  pub some_bytes : 1 ≤ s.chunk_size
  pub fits : s.chunk_size ≤ chunk_size

-- The setters keep the timeout between one and 120 seconds and the chunk between one byte and the
-- buffer.
pub setters-IsInRange :
    (timeout_ms size : ℕ) (s : State)
    → IsInRange s
    → IsInRange (set_timeout_ms timeout_ms s).0 × IsInRange (set_chunk_size size s).0
unfolding set_timeout_ms set_chunk_size
setters-IsInRange timeout_ms size s h =
    let least = h.least in
    let most = h.most in
    let some_bytes = h.some_bytes in
    let fits = h.fits in
    (
      record {
        least = ground (arith, least);
        most = ground (arith, most);
        some_bytes = ground (arith, some_bytes);
        fits = ground (arith, fits);
      },
      record {
        least = ground (arith, least);
        most = ground (arith, most);
        some_bytes = ground (arith, some_bytes);
        fits = ground (arith, fits);
      },
    )
