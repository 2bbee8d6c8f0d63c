-- ===== src/Ftp/Status.antt =====
-- The status of ftp_protocol.c's packets and the errors of the program.
use kfsw_services.Common.{ℕ, ◌≤◌, ◌≡◌, ◌≢◌, ◌↔◌, arith}
use kfsw_services.Common.Codes.{Code, success}
use kfsw_services.Ftp.{wire_status_to_errno, errno_to_wire_status}

-- A status that is sent is the status again behind the error that it stands for, but for
-- INVALID_REQUEST, the number 1.
pub errno_to_wire_status-wire_status_to_errno :
    (status : ℕ)
    → status ≤ 13
    → status ≢ 1
    → errno_to_wire_status (wire_status_to_errno status) ≡ status
unfolding errno_to_wire_status wire_status_to_errno
errno_to_wire_status-wire_status_to_errno status known h = ground (arith, known, h)

-- An error never passes for success, in either direction, and every error has a status of the
-- protocol.
pub errno_to_wire_status-success :
    (e : Code) (status : ℕ)
    → ((errno_to_wire_status e ≡ 0) ↔ (e ≡ success))
      × ((wire_status_to_errno status ≡ success) ↔ (status ≡ 0))
      × (errno_to_wire_status e ≤ 13)
unfolding errno_to_wire_status wire_status_to_errno
errno_to_wire_status-success e status = (ground arith, ground arith, ground arith)
