-- ===== src/FwuLite/Codec.antt =====
-- The codec of fwu_lite_protocol.c's messages.
use kfsw_services.Common.{
  ℕ, ◌*◌, ◌+◌, ◌≤◌, ◌<◌, ◌≡◌, ap, ◌∙◌, true, List, [], ◌∷◌, ◌++◌, arith, length, take, take_all,
  All, none, some, if◌then◌else◌, ltb, Option-cases, inl, inr,
}
use kfsw_services.Common.Codes.{ok}
use kfsw_services.FwuLite.{Message, encode, decode, opcode_is_known, header}

-- A payload of `data_size` bytes, or none.
abbrev pub HasPayload : Message → Type 0
HasPayload m = elim m.payload [
  | none ↦ m.data_size ≡ 0
  | some b ↦ (length b ≡ m.data_size) × (0 < m.data_size)
]

-- The fields have the widths of `struct kfsw_fwu_lite_message`, the opcode is one of the protocol's,
-- and the data pointer is null exactly if there is no data.
pub record IsWire (m : Message) : Type 0 where
  pub known : opcode_is_known m.opcode ≡ true
  pub block_index : m.block_index < 0x1_0000
  pub argument : m.argument < 0x1_0000_0000
  pub extra : m.extra < 0x1_0000_0000
  pub payload : HasPayload m

abbrev with_payload : Message → List ℕ → Message
with_payload m d = record m {
  data_size = length d;
  payload = if ltb 0 (length d) then some d else none;
}

module _ (max_block_size : ℕ) (small : max_block_size ≤ 512) where
  -- The decoder on a header and the bytes behind it.
  decode-header :
      (m : Message) (d : List ℕ)
      → opcode_is_known m.opcode ≡ true
      → m.block_index < 0x1_0000
      → m.argument < 0x1_0000_0000
      → m.extra < 0x1_0000_0000
      → length d ≤ max_block_size
      → decode max_block_size (header m ++ d) ≡ ok (with_payload m d)
  unfolding decode
  decode-header m d known a b c fits = ground arith

  -- A message whose opcode the protocol knows, with fields of their widths, and a payload that is null
  -- exactly if it is empty and has the size that it states: what the encoder makes of it, where it
  -- accepts it, is decoded to the message. The largest block is at most 512 bytes.
  pub decode-encode :
      (m : Message) (buffer_size : ℕ) {b : List ℕ}
      → IsWire m
      → encode max_block_size m buffer_size ≡ ok b
      → decode max_block_size b ≡ ok m
  unfolding encode
  decode-encode m buffer_size {b} w h = elim (Option-cases m.payload) [
    | inl e ↦
        let empty : m.data_size ≡ 0 = ground arith in
        let bytes : header m ++ [] ≡ b = ground arith in
        let read = decode-header m [] w.known w.block_index w.argument w.extra (omega arith) in
        let same : with_payload m [] ≡ m = ground arith in rw (← bytes) (read ∙ ap ok same)
    | inr (d, e) ↦
        let size : (length d ≡ m.data_size) × (0 < m.data_size) = rw (e, HasPayload) at w.payload in
        let all : take m.data_size d ≡ d = take_all d m.data_size (omega arith) in
        let fits : m.data_size ≤ max_block_size = ground arith in
        let bytes : header m ++ d ≡ b = ground (arith, all) in
        let read = decode-header m d w.known w.block_index w.argument w.extra (omega arith) in
        let same : with_payload m d ≡ m = ground arith in rw (← bytes) (read ∙ ap ok same)
  ]

  -- Every packet of bytes that the decoder accepts is what the encoder makes of the message, in a
  -- buffer of the packet's size: nothing of a packet is ignored. The packet is shorter than 65548
  -- bytes, so that its payload's length fits the 16-bit field.
  pub encode-decode :
      (b : List ℕ) {m : Message}
      → All (λ x. x < 0x100) b
      → length b < 0x1_000c
      → decode max_block_size b ≡ ok m
      → encode max_block_size m (length b) ≡ ok b
  unfolding encode decode
  encode-decode (b0 ∷ b1 ∷ b2 ∷ b3 ∷ b4 ∷ b5 ∷ b6 ∷ b7 ∷ b8 ∷ b9 ∷ b10 ∷ b11 ∷ d) {m} bytes short
        h =
      let all : take (length d) d ≡ d = take_all d (length d) (omega arith) in
      let size : m.data_size ≡ length d = ground arith in
      let index : m.block_index ≡ b2 * 0x100 + b3 = ground arith in
      let argument : m.argument ≡ b4 * 0x100_0000 + b5 * 0x1_0000 + b6 * 0x100 + b7 =
        ground arith in
      let extra : m.extra ≡ b8 * 0x100_0000 + b9 * 0x1_0000 + b10 * 0x100 + b11 = ground arith in
      ground (arith, all)
  encode-decode b {m} bytes short h = ground arith
