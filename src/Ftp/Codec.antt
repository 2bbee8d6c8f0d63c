-- ===== src/Ftp/Codec.antt =====
-- The codec of ftp_protocol.c's packets.
use kfsw_services.Common.{
  ℕ, ◌+◌, ◌<◌, ◌≤◌, ◌≡◌, refl, sym, ap, ap₂, ◌∙◌, false, some, List, ◌++◌, arith, length,
  length-append, take, drop, take_all, take-append, drop-append, drop-append_more,
}
use kfsw_services.Common.Words.{get_be16, get_be32}
use kfsw_services.Common.Codes.{ok}
use kfsw_services.Ftp.{
  Message, header, header_size, encode, decode, parsed, has_nul, op_first, op_last, max_path_size,
  chunk_size,
}

-- A message with a path and data of the sizes that it states, and fields of the widths of
-- `struct kfsw_ftp_message`.
pub record IsWire (m : Message) (path contents : List ℕ) : Type 0 where
  pub first : op_first ≤ m.opcode
  pub last : m.opcode ≤ op_last
  pub request_id : m.request_id < 0x1_0000_0000
  pub offset : m.offset < 0x1_0000_0000
  pub total_size : m.total_size < 0x1_0000_0000
  pub crc32 : m.crc32 < 0x1_0000_0000
  pub has_path : m.path ≡ some path
  pub has_contents : m.contents ≡ some contents
  pub path_size : m.path_size ≡ length path
  pub data_size : m.data_size ≡ length contents
  pub no_nul : has_nul path ≡ false

-- The message that is read back: its pointers go into the packet.
abbrev pub received : Message → List ℕ → List ℕ → Message
received m path contents = record m { path = some (path ++ contents); contents = some contents }

path_size-header :
    (m : Message) (tail : List ℕ)
    → m.path_size < 0x1_0000
    → get_be16 (header m ++ tail) 20 ≡ m.path_size
path_size-header m tail h = omega (arith, h)

data_size-header :
    (m : Message) (tail : List ℕ)
    → m.data_size < 0x1_0000
    → get_be16 (header m ++ tail) 22 ≡ m.data_size
data_size-header m tail h = omega (arith, h)

length-header : (m : Message) (tail : List ℕ) → length (header m ++ tail) ≡ 24 + length tail
length-header m tail = omega arith

drop-header : (m : Message) (tail : List ℕ) (n : ℕ) → drop (24 + n) (header m ++ tail) ≡ drop n tail
drop-header m tail n = drop-append_more (header m) tail (24 + n) n (omega arith)

parsed-header :
    (m : Message) (path contents : List ℕ)
    → IsWire m path contents
    → length path ≤ max_path_size
    → length contents ≤ chunk_size
    → parsed (header m ++ (path ++ contents)) ≡ received m path contents
parsed-header m path contents w short small =
    let tail = path ++ contents in
    let b = header m ++ tail in
    let request_id : get_be32 b 4 ≡ m.request_id = omega (arith, w.request_id) in
    let offset : get_be32 b 8 ≡ m.offset = omega (arith, w.offset) in
    let total_size : get_be32 b 12 ≡ m.total_size = omega (arith, w.total_size) in
    let crc32 : get_be32 b 16 ≡ m.crc32 = omega (arith, w.crc32) in
    let path_size = path_size-header m tail (omega (arith, w.path_size, short)) in
    let data_size = data_size-header m tail (omega (arith, w.data_size, small)) in
    let rest : drop (24 + get_be16 b 20) b ≡ contents =
      ap (λ n. drop (24 + n) b) (path_size ∙ w.path_size)
      ∙ drop-header m tail (length path)
      ∙ drop-append path contents (length path) refl in
    ground (arith, request_id, offset, total_size, crc32, path_size, data_size, rest)

decode-header :
    (m : Message) (path contents : List ℕ)
    → IsWire m path contents
    → length path ≤ max_path_size
    → length contents ≤ chunk_size
    → decode (header m ++ (path ++ contents)) ≡ ok (received m path contents)
unfolding decode
decode-header m path contents w short small =
    let tail = path ++ contents in
    let b = header m ++ tail in
    let read = parsed-header m path contents w short small in
    let path_size = path_size-header m tail (omega (arith, w.path_size, short)) ∙ w.path_size in
    let data_size = data_size-header m tail (omega (arith, w.data_size, small)) ∙ w.data_size in
    let total : length b ≡ 24 + (length path + length contents) =
      length-header m tail ∙ ap (λ n. 24 + n) (length-append path contents) in
    let first = w.first in
    let last = w.last in
    let taken : take (get_be16 b 20) (drop header_size b) ≡ path =
      ap (λ n. take n (drop header_size b)) path_size
      ∙ ap (take (length path)) (drop-header m tail 0)
      ∙ take-append path contents (length path) refl in
    let clean : has_nul (take (get_be16 b 20) (drop header_size b)) ≡ false =
      ap has_nul taken ∙ w.no_nul in
    ground (arith, read, path_size, data_size, total, first, last, clean, short, small)

encode-ok :
    (m : Message) (path contents : List ℕ) (capacity : ℕ) (b : List ℕ)
    → m.path ≡ some path
    → m.contents ≡ some contents
    → encode m capacity ≡ ok b
    → (m.path_size ≤ max_path_size)
      × (m.data_size ≤ chunk_size)
      × (header m ++ (take m.path_size path ++ take m.data_size contents) ≡ b)
unfolding encode
encode-ok m path contents capacity b p c h =
    let written = rw (encode, p, c) at h in
    (ground (arith, h), ground (arith, h), ground (arith, written))

-- A message with a known opcode, fields of their widths, and a path without a zero byte and data that
-- are both given and of the sizes that it states: what the encoder makes of it, where it accepts it,
-- is decoded to the message: each field, with the path and the data at the pointers into the packet.
pub packet_decode-encode :
    (m : Message) (path contents : List ℕ) (capacity : ℕ) (b : List ℕ)
    → IsWire m path contents
    → encode m capacity ≡ ok b
    → decode b ≡ ok (received m path contents)
packet_decode-encode m path contents capacity b w h =
    let (short, small, made) = encode-ok m path contents capacity b w.has_path w.has_contents h in
    let whole_path : take m.path_size path ≡ path =
      take_all path m.path_size (omega (arith, w.path_size)) in
    let whole_data : take m.data_size contents ≡ contents =
      take_all contents m.data_size (omega (arith, w.data_size)) in
    let bytes : header m ++ (path ++ contents) ≡ b =
      ap (λ t. header m ++ t) (ap₂ (◌++◌) (sym whole_path) (sym whole_data)) ∙ made in
    ap decode (sym bytes)
    ∙ decode-header m path contents w (omega (arith, short, w.path_size))
        (omega (arith, small, w.data_size))
