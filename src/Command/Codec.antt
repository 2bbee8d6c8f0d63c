-- ===== src/Command/Codec.antt =====
-- The message codec of command_protocol.c.
use kfsw_services.Common.{
  ℕ, ◌*◌, ◌+◌, ◌≤◌, ◌<◌, ◌≡◌, ◌⊎◌, inl, inr, ap, ◌∙◌, List, ◌∷◌, ◌++◌, arith, length, take, drop,
  take_all, All, some,
}
use kfsw_services.Common.Words.{byte_at, get_be16}
use kfsw_services.Common.Codes.{ok}
use kfsw_services.Command.{Message, encode, decode, wire_version, header_size, header, parsed}

-- The fields have the widths of `struct kfsw_command_message`, the opcode is one of the version's, a
-- message of version 1 has no token, and the payload is there, with `payload_size` bytes.
pub record IsWire (m : Message) (d : List ℕ) : Type 0 where
  pub opcode :
      ((m.version ≤ 1) × (m.token ≡ 0) × (1 ≤ m.opcode) × (m.opcode ≤ 2))
      ⊎ ((m.version ≡ 2) × (1 ≤ m.opcode) × (m.opcode ≤ 5))
  pub token : m.token < 0x1_0000_0000_0000_0000
  pub command_id : m.command_id < 0x1_0000
  pub request_id : m.request_id < 0x1_0000
  pub payload : m.payload ≡ some d
  pub payload_size : length d ≡ m.payload_size

-- The decoder on a header and the bytes behind it.
decode-header_one :
    (m : Message) (d : List ℕ)
    → IsWire m d
    → m.version ≤ 1
    → m.payload_size ≤ 192
    → m.arg_count ≤ 4
    → decode (header 1 m ++ d) ≡ ok (record m { version = 1 })
unfolding decode
decode-header_one m d w v a b =
    let limits : (m.token ≡ 0) × (1 ≤ m.opcode) × (m.opcode ≤ 2) = ground (arith, w.opcode) in
    ground (arith, w.command_id, w.request_id, w.payload, w.payload_size)

decode-header_two :
    (m : Message) (d : List ℕ)
    → IsWire m d
    → m.version ≡ 2
    → m.payload_size ≤ 192
    → m.arg_count ≤ 4
    → decode (header 2 m ++ d) ≡ ok (record m { version = 2 })
unfolding decode
decode-header_two m d w v a b =
    let limits : (1 ≤ m.opcode) × (m.opcode ≤ 5) = ground (arith, w.opcode) in
    ground (arith, w.token, w.command_id, w.request_id, w.payload, w.payload_size)

-- A message whose opcode its version has, without a token in version 1, with fields of their widths and
-- a payload that is given, of the size that it states: what the encoder makes of it, where it accepts
-- it, is decoded to the message, with the version written out.
pub message_decode-encode :
    (m : Message) (d : List ℕ) (capacity : ℕ) {b : List ℕ}
    → IsWire m d
    → encode m capacity ≡ ok b
    → decode b ≡ ok (record m { version = wire_version m })
unfolding encode
message_decode-encode m d capacity {b} w h =
    let small : m.payload_size ≤ 192 = ground arith in
    let few : m.arg_count ≤ 4 = ground arith in
    let all : take m.payload_size d ≡ d =
      take_all d m.payload_size (omega (arith, w.payload_size)) in
    let bytes : header (wire_version m) m ++ d ≡ b = ground (arith, all, w.payload) in
    elim w.opcode [
      | inl (one, _, _, _) ↦
          let version : wire_version m ≡ 1 = ground arith in
          rw (← bytes, version) (decode-header_one m d w one small few)
      | inr (two, _, _) ↦
          let version : wire_version m ≡ 2 = ground arith in
          rw (← bytes, version) (decode-header_two m d w two small few)
    ]

-- What the decoder has checked of a packet that it accepts.
record Accepted (b : List ℕ) : Type 0 where
  version : (byte_at b 0 ≡ 1) ⊎ (byte_at b 0 ≡ 2)
  reserved : (byte_at b 10 ≡ 0) × (byte_at b 11 ≡ 0)
  arg_count : byte_at b 3 ≤ 4
  payload_size : get_be16 b 8 ≤ 192
  size : header_size (byte_at b 0) + get_be16 b 8 ≡ length b

decode-Accepted : (b : List ℕ) {m : Message} → decode b ≡ ok m → (parsed b ≡ m) × Accepted b
unfolding decode
decode-Accepted b h = ground arith

encode-ok :
    (b : List ℕ)
    → Accepted b
    → encode (parsed b) (length b)
      ≡ ok (
          header (byte_at b 0) (parsed b)
          ++ take (get_be16 b 8) (drop (header_size (byte_at b 0)) b))
unfolding encode
encode-ok b c = ground (arith, c.version, c.arg_count, c.payload_size, c.size)

encode-parsed_one :
    (b : List ℕ)
    → All (λ x. x < 0x100) b
    → Accepted b
    → byte_at b 0 ≡ 1
    → encode (parsed b) (length b) ≡ ok b
encode-parsed_one (b0 ∷ b1 ∷ b2 ∷ b3 ∷ b4 ∷ b5 ∷ b6 ∷ b7 ∷ b8 ∷ b9 ∷ b10 ∷ b11 ∷ d) bytes c v =
    let b : List ℕ = b0 ∷ b1 ∷ b2 ∷ b3 ∷ b4 ∷ b5 ∷ b6 ∷ b7 ∷ b8 ∷ b9 ∷ b10 ∷ b11 ∷ d in
    let size : b8 * 0x100 + b9 ≡ length d = ground (arith, c.size) in
    let all : take (b8 * 0x100 + b9) d ≡ d = take_all d (b8 * 0x100 + b9) (omega arith) in
    let (r10, r11) = c.reserved in
    let shut = encode-ok b c in
    let same : header b0 (parsed b) ++ take (b8 * 0x100 + b9) (drop (header_size b0) b) ≡ b =
      rw (v, r10, r11, all) (ground arith) in
    shut ∙ ap ok same
encode-parsed_one b bytes c v = ground (arith, c.size)

encode-parsed_two :
    (b : List ℕ)
    → All (λ x. x < 0x100) b
    → Accepted b
    → byte_at b 0 ≡ 2
    → encode (parsed b) (length b) ≡ ok b
encode-parsed_two
      (b0 ∷ b1 ∷ b2 ∷ b3 ∷ b4 ∷ b5 ∷ b6 ∷ b7 ∷ b8 ∷ b9 ∷ b10 ∷ b11 ∷ b12 ∷ b13 ∷ b14 ∷ b15 ∷ b16
        ∷ b17 ∷ b18 ∷ b19 ∷ d)
      bytes c v =
    let b : List ℕ =
      b0 ∷ b1 ∷ b2 ∷ b3 ∷ b4 ∷ b5 ∷ b6 ∷ b7 ∷ b8 ∷ b9 ∷ b10 ∷ b11 ∷ b12 ∷ b13 ∷ b14 ∷ b15 ∷ b16
      ∷ b17 ∷ b18 ∷ b19 ∷ d in
    let size : b8 * 0x100 + b9 ≡ length d = ground (arith, c.size) in
    let all : take (b8 * 0x100 + b9) d ≡ d = take_all d (b8 * 0x100 + b9) (omega arith) in
    let (r10, r11) = c.reserved in
    let shut = encode-ok b c in
    let same : header b0 (parsed b) ++ take (b8 * 0x100 + b9) (drop (header_size b0) b) ≡ b =
      rw (v, r10, r11, all) (ground arith) in
    shut ∙ ap ok same
encode-parsed_two b bytes c v = ground (arith, c.size)

-- Every packet of bytes that the decoder accepts is what the encoder makes of the message, in a
-- buffer of the packet's size: no two packets decode to the same message.
pub message_encode-decode :
    (b : List ℕ) {m : Message}
    → All (λ x. x < 0x100) b
    → decode b ≡ ok m
    → encode m (length b) ≡ ok b
message_encode-decode b bytes h =
    let (same, c) = decode-Accepted b h in
    rw (← same) elim c.version [
      | inl one ↦ encode-parsed_one b bytes c one
      | inr two ↦ encode-parsed_two b bytes c two
    ]
