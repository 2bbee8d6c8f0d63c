-- ===== src/Command/Args.antt =====
-- The argument codec of command_protocol.c.
use kfsw_services.Common.{
  ℕ, suc, ◌+◌, ◌≤◌, ◌<◌, ◌≡◌, inl, inr, refl, ◌∙◌, false, List, [], ◌∷◌, ◌++◌, arith, length, take,
  drop, take-append, drop-append, length-append, All, none, some, ltb,
}
use kfsw_services.Common.Words.{get_be16, byte_at}
use kfsw_services.Common.Codes.{ok, ◌>>=◌, Result-cases}
use kfsw_services.Command.{
  Arg, u32_arg, i32_arg, text_arg, other_arg, type_byte, value_bytes, entry, encode_from,
  encode_args, has_zero, decode_value, decode_from, decode_args,
}

-- An integer fits 32 bits; a text has no zero before its terminator.
abbrev pub IsArg : Arg → Type 0
IsArg (u32_arg n) = n < 0x1_0000_0000
IsArg (i32_arg n) = n < 0x1_0000_0000
IsArg (text_arg none) = Unit
IsArg (text_arg (some t)) = has_zero t ≡ false
IsArg (other_arg type) = Unit

decode_value-value_bytes :
    (a : Arg) {v : List ℕ}
    → IsArg a
    → value_bytes a ≡ ok v
    → (decode_value (type_byte a) v ≡ ok a) × (length v ≤ 64)
unfolding value_bytes decode_value
decode_value-value_bytes (u32_arg n) i h = ground arith
decode_value-value_bytes (i32_arg n) i h = ground arith
decode_value-value_bytes (text_arg none) i h = ground arith
decode_value-value_bytes (text_arg (some t)) i h = ground arith
decode_value-value_bytes (other_arg type) i h = ground arith

-- One round of the decoder's loop, on bytes that hold an entry.
abbrev rest_of : List ℕ → List ℕ
rest_of b = drop (get_be16 b 1) (drop 3 b)

decode_from-suc :
    (b : List ℕ) (count : ℕ)
    → 3 + get_be16 b 1 ≤ length b
    → decode_from (suc count) b ≡ (
        decode_value (byte_at b 0) (take (get_be16 b 1) (drop 3 b)) >>= λ a.
        decode_from count (rest_of b) >>= λ args. ok (a ∷ args))
unfolding decode_from
decode_from-suc b count h =
    let whole : 3 ≤ length b = omega (arith, h) in
    let one : ltb (length b) 3 ≡ false = ground arith in
    let two : ltb (length b) (3 + get_be16 b 1) ≡ false = ground arith in rw (one, two) refl

decode_from-entry :
    (a : Arg) (v rest : List ℕ) (count : ℕ) {args : List Arg}
    → decode_value (type_byte a) v ≡ ok a
    → length v ≤ 64
    → decode_from count rest ≡ ok args
    → decode_from (suc count) (entry a v ++ rest) ≡ ok (a ∷ args)
decode_from-entry a v rest count h small r =
    let b = entry a v ++ rest in
    let size : get_be16 b 1 ≡ length v = omega arith in
    let value : take (get_be16 b 1) (v ++ rest) ≡ v = take-append v rest (get_be16 b 1) size in
    let left : drop (get_be16 b 1) (v ++ rest) ≡ rest = drop-append v rest (get_be16 b 1) size in
    decode_from-suc b count (omega (arith, length-append v rest, size))
    ∙ rw (value, left, h, r) refl

-- What the encoder's loop has made of its first argument.
record Encoded (a : Arg) (args : List Arg) (capacity offset : ℕ) (b : List ℕ) : Type 0 where
  value : List ℕ
  rest : List ℕ
  value_ok : value_bytes a ≡ ok value
  rest_ok : encode_from capacity (offset + 3 + length value) args ≡ ok rest
  bytes : entry a value ++ rest ≡ b

encode_from-Encoded :
    (a : Arg) (args : List Arg) (capacity offset : ℕ) {b : List ℕ}
    → encode_from capacity offset (a ∷ args) ≡ ok b
    → Encoded a args capacity offset b
unfolding encode_from
encode_from-Encoded a args capacity offset {b} h = elim (Result-cases (value_bytes a)) [
  | inl (e, p) ↦ absurd (ground (arith, p, h))
  | inr (v, p) ↦ elim (Result-cases (encode_from capacity (offset + 3 + length v) args)) [
    | inl (e, q) ↦ absurd (ground (arith, p, q, h))
    | inr (rest, q) ↦ record {
      value = v;
      rest = rest;
      value_ok = p;
      rest_ok = q;
      bytes = ground (arith, p, q, h);
    }
  ]
]

decode_from-encode_from :
    (args : List Arg) (capacity offset : ℕ) {b : List ℕ}
    → All IsArg args
    → encode_from capacity offset args ≡ ok b
    → decode_from (length args) b ≡ ok args
unfolding encode_from decode_from
decode_from-encode_from [] capacity offset i h = ground arith
decode_from-encode_from (a ∷ args) capacity offset (i, is) h =
    let e = encode_from-Encoded a args capacity offset h in
    let (value, small) = decode_value-value_bytes a i e.value_ok in
    let rest = decode_from-encode_from args capacity (offset + 3 + length e.value) is e.rest_ok in
    rw (← e.bytes) (decode_from-entry a e.value e.rest (length args) value small rest)

-- The payload that the encoder makes of arguments is decoded to the same arguments, in a receiver that
-- has room for them.
pub decode_args-encode_args :
    (args : List Arg) (capacity room : ℕ) {b : List ℕ}
    → All IsArg args
    → length args ≤ room
    → encode_args args capacity ≡ ok b
    → decode_args (length args) room b ≡ ok args
unfolding encode_args decode_args
decode_args-encode_args args capacity room {b} i fits h =
    let few : ltb room (length args) ≡ false = ground arith in
    let inner : encode_from capacity 0 args ≡ ok b = ground arith in
    rw few (decode_from-encode_from args capacity 0 i inner)
