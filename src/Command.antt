-- ===== src/Command.antt =====
-- src/command/command_protocol.c: the wire format of commands. Pointers that the code tests for null
-- are given, but for a message's payload and a text argument, which are options. The ticket cache of
-- command_retry.c is in the child `Retry`.
pub mod Codec
pub mod Args
pub mod Rebuild
pub mod Retry
pub mod Pending
pub mod Once
pub mod Effect
pub mod Kept
pub mod Again
mod Tests
use kfsw_services.Common.{
  ℕ, zero, suc, ◌+◌, ◌-◌, Bool, true, false, not, ◌&&◌, ◌||◌, Option, none, some, List, [], ◌∷◌,
  ◌++◌, ltb, ◌==◌, if◌then◌else◌, length, take, drop,
}
use kfsw_services.Common.Words.{put_be16, put_be32, put_be64, byte_at, get_be16, get_be32, get_be64}
use kfsw_services.Common.Codes.{
  Result, ok, err, ◌>>=◌, einval, e2big, ebadmsg, emsgsize, enotsup, enametoolong, eprotonosupport,
}
use kfsw_services.Event.{is_null, bytes_of}

-- `struct kfsw_command_message`.
pub record Message : Type 0 where
  pub version : ℕ
  pub token : ℕ
  pub opcode : ℕ
  pub status : ℕ
  pub arg_count : ℕ
  pub command_id : ℕ
  pub request_id : ℕ
  pub payload_size : ℕ
  pub payload : Option (List ℕ)

-- `enum kfsw_command_opcode`.
abbrev pub op_request : ℕ
op_request = 1

abbrev pub op_result : ℕ
op_result = 2

abbrev pub op_prepare : ℕ
op_prepare = 3

abbrev pub op_execute : ℕ
op_execute = 5

abbrev pub max_args : ℕ
max_args = 4

abbrev pub max_text_size : ℕ
max_text_size = 64

abbrev pub max_payload_size : ℕ
max_payload_size = 192

abbrev pub header_size : ℕ → ℕ
header_size version = if version == 2 then 20 else 12

-- The version that the encoder writes: zero selects version 1.
abbrev pub wire_version : Message → ℕ
wire_version m = if m.version == 0 then 1 else m.version

-- The bytes before the payload.
abbrev pub header : ℕ → Message → List ℕ
header version m =
    version
    ∷ m.opcode
    ∷ m.status
    ∷ m.arg_count
    ∷ (put_be16 m.command_id
        ++ (put_be16 m.request_id
            ++ (put_be16 m.payload_size
                ++ (0 ∷ 0 ∷ (if version == 2 then put_be64 m.token else [])))))

-- `kfsw_command_protocol_encode` into a buffer of `capacity` bytes: the bytes written.
unfoldable pub encode : Message → ℕ → Result (List ℕ)
encode m capacity =
    if ltb max_payload_size m.payload_size
    then err einval
    else if not (m.payload_size == 0) && is_null m.payload
    then err einval
    else if ltb max_args m.arg_count
    then err einval
    else if not (wire_version m == 1) && not (wire_version m == 2)
    then err eprotonosupport
    else if ltb capacity (header_size (wire_version m) + m.payload_size)
    then err emsgsize
    else ok (header (wire_version m) m ++ take m.payload_size (bytes_of m.payload))

-- The largest opcode of a version.
abbrev last_opcode : ℕ → ℕ
last_opcode version = if version == 2 then op_execute else op_result

-- The message that the decoder fills in.
abbrev pub parsed : List ℕ → Message
parsed b = record {
  version = byte_at b 0;
  token = if byte_at b 0 == 2 then get_be64 b 12 else 0;
  opcode = byte_at b 1;
  status = byte_at b 2;
  arg_count = byte_at b 3;
  command_id = get_be16 b 4;
  request_id = get_be16 b 6;
  payload_size = get_be16 b 8;
  payload = some (drop (header_size (byte_at b 0)) b);
}

-- `kfsw_command_protocol_decode`.
unfoldable pub decode : List ℕ → Result Message
decode b =
    if ltb (length b) 12
    then err emsgsize
    else if not (byte_at b 0 == 1) && not (byte_at b 0 == 2)
    then err eprotonosupport
    else if ltb (length b) (header_size (byte_at b 0))
    then err emsgsize
    else if not (byte_at b 10 == 0) || not (byte_at b 11 == 0)
    then err ebadmsg
    else if ltb (byte_at b 1) op_request || ltb (last_opcode (byte_at b 0)) (byte_at b 1)
    then err enotsup
    else if ltb max_args (byte_at b 3)
    then err e2big
    else if ltb max_payload_size (get_be16 b 8)
    then err emsgsize
    else if not (header_size (byte_at b 0) + get_be16 b 8 == length b)
    then err emsgsize
    else ok (parsed b)

-- `struct kfsw_command_arg`. An integer is its 32-bit pattern; a text is the characters before its
-- terminator, or a null pointer; `other` is a type that the protocol does not have.
pub data Arg : Type 0 where
  u32_arg : ℕ → Arg
  i32_arg : ℕ → Arg
  text_arg : Option (List ℕ) → Arg
  other_arg : ℕ → Arg

-- The type byte.
abbrev pub type_byte : Arg → ℕ
type_byte (u32_arg n) = 1
type_byte (i32_arg n) = 2
type_byte (text_arg t) = 3
type_byte (other_arg type) = type

-- The bytes of a value, as the switch of `kfsw_command_encode_args` sizes them and the tail of the
-- loop stores them.
unfoldable pub value_bytes : Arg → Result (List ℕ)
value_bytes (u32_arg n) = ok (put_be32 n)
value_bytes (i32_arg n) = ok (put_be32 n)
value_bytes (text_arg none) = err einval
value_bytes (text_arg (some t)) = if ltb max_text_size (length t) then err enametoolong else ok t
value_bytes (other_arg type) = err enotsup

-- One entry of the payload.
abbrev pub entry : Arg → List ℕ → List ℕ
entry a v = type_byte a ∷ (put_be16 (length v) ++ v)

-- The loop of `kfsw_command_encode_args` from an offset: the bytes from there on.
unfoldable pub encode_from : ℕ → ℕ → List Arg → Result (List ℕ)
encode_from capacity offset [] = ok []
encode_from capacity offset (a ∷ args) = elim (value_bytes a) [
  | err e ↦ err e
  | ok v ↦
      let rest = encode_from capacity (offset + 3 + length v) args in
      if ltb capacity (offset + 3 + length v)
      then err emsgsize
      else rest >>= λ bytes. ok (entry a v ++ bytes)
]

-- `kfsw_command_encode_args` into a buffer of `capacity` bytes.
unfoldable pub encode_args : List Arg → ℕ → Result (List ℕ)
encode_args args capacity =
    if ltb max_args (length args) then err e2big else encode_from capacity 0 args

-- `memchr(text, '\0', size) != NULL`.
unfoldable pub has_zero : List ℕ → Bool
has_zero [] = false
has_zero (c ∷ cs) = (c == 0) || has_zero cs

-- The switch of `kfsw_command_decode_args` on a type byte and the value's bytes.
unfoldable pub decode_value : ℕ → List ℕ → Result Arg
decode_value type v =
    if type == 1
    then if length v == 4 then ok (u32_arg (get_be32 v 0)) else err ebadmsg
    else if type == 2
    then if length v == 4 then ok (i32_arg (get_be32 v 0)) else err ebadmsg
    else if type == 3
    then if ltb max_text_size (length v)
      then err emsgsize
      else if has_zero v
      then err ebadmsg
      else ok (text_arg (some v))
    else err enotsup

-- The loop of `kfsw_command_decode_args` over the bytes that are left, `count` entries before its end.
unfoldable pub decode_from : ℕ → List ℕ → Result (List Arg)
decode_from zero b = if length b == 0 then ok [] else err emsgsize
decode_from (suc count) b =
    let size = get_be16 b 1 in
    let value = take size (drop 3 b) in
    let rest = decode_from count (drop size (drop 3 b)) in
    if ltb (length b) 3
    then err emsgsize
    else if ltb (length b) (3 + size)
    then err emsgsize
    else decode_value (byte_at b 0) value >>= λ a. rest >>= λ args. ok (a ∷ args)

-- `kfsw_command_decode_args` of a payload of `payload_size` bytes, into room for `room` arguments.
unfoldable pub decode_args : ℕ → ℕ → List ℕ → Result (List Arg)
decode_args arg_count room payload =
    if ltb room arg_count then err e2big else decode_from arg_count payload
