-- ===== src/FwuLite.antt =====
-- src/fwu/fwu_lite_protocol.c: the wire format of the lightweight upload, and the handler that turns a
-- request into a call of the firmware update service. Pointers that the code tests for null are
-- given, but for a message's data, which is an option.
pub mod Codec
pub mod Blocks
mod Tests
use kfsw_services.Common.{
  ℕ, zero, suc, ◌+◌, ◌-◌, ◌*◌, ◌/◌, ◌≤◌, ◌<◌, ◌≡◌, Bool, true, false, not, ◌&&◌, ◌||◌, Option, none,
  some, List, [], ◌∷◌, ◌++◌, ltb, leb, ◌==◌, if◌then◌else◌, length, take, drop,
}
use kfsw_services.Common.Words.{u8, u16, u32, put_be16, put_be32, get_be16, get_be32, byte_at}
use kfsw_services.Common.Codes.{
  Code, Result, ok, err, success, einval, ebadmsg, emsgsize, ebusy, efbig, espipe, eilseq, eagain,
}
use kfsw_services.Event.{is_null, bytes_of}
use kfsw_services.Fwu
use kfsw_services.Fwu.{State, Slot, Answers, Crc, is_receiving}

-- `struct kfsw_fwu_lite_message`.
pub record Message : Type 0 where
  pub opcode : ℕ
  pub status : ℕ
  pub block_index : ℕ
  pub argument : ℕ
  pub extra : ℕ
  pub data_size : ℕ
  pub payload : Option (List ℕ)

-- `enum kfsw_fwu_lite_opcode`.
abbrev pub op_begin : ℕ
op_begin = 1

abbrev pub op_block : ℕ
op_block = 2

abbrev pub op_status : ℕ
op_status = 3

abbrev pub op_verify : ℕ
op_verify = 4

abbrev pub op_start_flashing : ℕ
op_start_flashing = 5

abbrev pub op_abort : ℕ
op_abort = 6

-- `enum kfsw_fwu_lite_status`.
abbrev pub status_ok : ℕ
status_ok = 0

abbrev pub status_invalid : ℕ
status_invalid = 1

abbrev pub status_out_of_order : ℕ
status_out_of_order = 2

abbrev pub status_bad_block : ℕ
status_bad_block = 3

abbrev pub status_bad_image : ℕ
status_bad_image = 4

abbrev pub status_too_large : ℕ
status_too_large = 5

abbrev pub status_busy : ℕ
status_busy = 6

abbrev pub status_failed : ℕ
status_failed = 7

abbrev pub header_size : ℕ
header_size = 12

-- `opcode_is_known`.
unfoldable pub opcode_is_known : ℕ → Bool
opcode_is_known opcode =
    (opcode == op_begin)
    || (opcode == op_block)
    || (opcode == op_status)
    || (opcode == op_verify)
    || (opcode == op_start_flashing)
    || (opcode == op_abort)

-- The twelve bytes before the payload.
abbrev pub header : Message → List ℕ
header m = m.opcode ∷ m.status ∷ (put_be16 m.block_index ++ put_be32 m.argument ++ put_be32 m.extra)

-- KFSW_FWU_LITE_MAX_BLOCK_SIZE is CONFIG_KFSW_FWU_LITE_BLOCK_SIZE, 16 to 512.
module _ (max_block_size : ℕ) where
  -- `kfsw_fwu_lite_encode` into a buffer of `buffer_size` bytes: the bytes written.
  unfoldable pub encode : Message → ℕ → Result (List ℕ)
  encode m buffer_size =
      if ltb 0 m.data_size && is_null m.payload
      then err einval
      else if ltb max_block_size m.data_size
      then err emsgsize
      else if ltb buffer_size (header_size + m.data_size)
      then err emsgsize
      else ok (header m ++ take m.data_size (bytes_of m.payload))

  -- The fields that `kfsw_fwu_lite_decode` reads before its last two tests.
  abbrev pub parsed : List ℕ → Message
  parsed b = record {
    opcode = byte_at b 0;
    status = byte_at b 1;
    block_index = get_be16 b 2;
    argument = get_be32 b 4;
    extra = get_be32 b 8;
    data_size = u16 (length b - header_size);
    payload = if ltb 0 (u16 (length b - header_size)) then some (drop header_size b) else none;
  }

  -- `kfsw_fwu_lite_decode` of a packet.
  unfoldable pub decode : List ℕ → Result Message
  unfolding opcode_is_known
  decode b =
      if ltb (length b) header_size
      then err ebadmsg
      else if not (opcode_is_known (byte_at b 0))
      then err ebadmsg
      else if ltb max_block_size (u16 (length b - header_size))
      then err emsgsize
      else ok (parsed b)

-- `status_for_errno`.
unfoldable pub status_for_errno : Code → ℕ
status_for_errno result =
    if result == success
    then status_ok
    else if result == ebusy
    then status_busy
    else if result == efbig
    then status_too_large
    else if result == espipe
    then status_out_of_order
    else if result == eilseq
    then status_bad_image
    else if (result == einval) || (result == eagain)
    then status_invalid
    else status_failed

module _ (max_block_size : ℕ) (crc : Crc) (p : Slot) (a : Answers) where
  -- `describe_state`, on a reply whose opcode and status are set.
  abbrev pub describe_state : State → ℕ → ℕ → Message
  describe_state s opcode status = record {
    opcode = opcode;
    status = status;
    block_index = u16 (s.received / max_block_size);
    argument = s.actual_crc32;
    extra = s.received;
    data_size = 0;
    payload = none;
  }

  -- The tests of `handle_block`, in their order: the status of the first that fails.
  unfoldable pub refuse_block : State → Message → Option ℕ
  refuse_block s request =
      if is_null request.payload || (request.data_size == 0)
      then some status_invalid
      else if not (is_receiving s.phase)
      then some status_invalid
      else if not (request.block_index == s.received / max_block_size)
      then some status_out_of_order
      else if ltb (u32 (s.received + request.data_size)) s.total_size
          && not (request.data_size == max_block_size)
      then some status_invalid
      else if not
          (crc.update 0 (take request.data_size (bytes_of request.payload)) == request.argument)
      then some status_bad_block
      else none

  -- `handle_block`: the new state and the reply's status. It reads the status and writes under two
  -- acquisitions of fwu_lock: `seen` is the state at the first, `s` that at the second.
  unfoldable pub handle_block : State → State → Message → State × ℕ
  handle_block seen s request = elim (refuse_block seen request) [
    | some status ↦ (s, status)
    | none ↦
        let (s', result) =
          Fwu.write crc a s seen.received (take request.data_size (bytes_of request.payload)) in
        (s', status_for_errno result)
  ]

  -- The switch of `kfsw_fwu_lite_handle`, when no other thread calls the service meanwhile.
  unfoldable pub dispatch : State → Message → State × ℕ
  dispatch s request =
      if request.opcode == op_begin
      then (
        (Fwu.begin p a s request.argument request.extra).0,
        status_for_errno (Fwu.begin p a s request.argument request.extra).1,
      )
      else if request.opcode == op_block
      then handle_block s s request
      else if request.opcode == op_status
      then (s, status_ok)
      else if request.opcode == op_verify
      then ((Fwu.verify a s).0, status_for_errno (Fwu.verify a s).1)
      else if request.opcode == op_start_flashing
      then ((Fwu.finish a s).0, status_for_errno (Fwu.finish a s).1)
      else if request.opcode == op_abort
      then ((Fwu.abort a s).0, status_for_errno (Fwu.abort a s).1)
      else (s, status_invalid)

  -- `kfsw_fwu_lite_handle`: the new state and the reply, when no other thread calls the service
  -- meanwhile.
  unfoldable pub handle : State → Message → State × Message
  handle s request =
      let (s', status) = dispatch s request in (s', describe_state s' request.opcode status)
