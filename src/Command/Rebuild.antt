-- ===== src/Command/Rebuild.antt =====
-- The encoding of command arguments that command_protocol.c has decoded.
use kfsw_services.Common.{
  ℕ, zero, suc, ◌*◌, ◌/◌, ◌%◌, ◌+◌, ◌≤◌, ◌<◌, ◌≡◌, inl, inr, refl, ap, sym, ◌∙◌, List, [], ◌∷◌,
  ◌++◌, arith, length, length-take, length-drop, take, drop, All, some, none, false, ltb,
}
use kfsw_services.Common.Words.{put_be32, get_be32}
use kfsw_services.Common.Codes.{ok, Result-cases}
use kfsw_services.Command.{
  Arg, u32_arg, i32_arg, text_arg, other_arg, type_byte, value_bytes, entry, encode_from,
  encode_args, decode_value, decode_from, decode_args,
}

abbrev AreBytes : List ℕ → Type 0
AreBytes b = All (λ x. x < 0x100) b

-- Four bytes are the big-endian bytes of their number.
put_be32-get_be32 : (v : List ℕ) → AreBytes v → length v ≡ 4 → put_be32 (get_be32 v 0) ≡ v
put_be32-get_be32 (b0 ∷ b1 ∷ b2 ∷ b3 ∷ []) bytes h = ground arith
put_be32-get_be32 (b0 ∷ b1 ∷ b2 ∷ b3 ∷ b4 ∷ v) bytes h = absurd (omega arith)
put_be32-get_be32 [] bytes h = absurd (omega arith)
put_be32-get_be32 (b0 ∷ []) bytes h = absurd (omega arith)
put_be32-get_be32 (b0 ∷ b1 ∷ []) bytes h = absurd (omega arith)
put_be32-get_be32 (b0 ∷ b1 ∷ b2 ∷ []) bytes h = absurd (omega arith)

-- What the value decoder accepts is a value that the encoder writes back.
value_bytes-decode_value :
    (type : ℕ) (v : List ℕ) (a : Arg)
    → AreBytes v
    → decode_value type v ≡ ok a
    → (value_bytes a ≡ ok v) × (type_byte a ≡ type)
unfolding value_bytes decode_value
value_bytes-decode_value type v (u32_arg n) bytes h =
    let number : (get_be32 v 0 ≡ n) × (length v ≡ 4) × (type ≡ 1) = ground (arith, h) in
    let same = put_be32-get_be32 v bytes number.1 in
    (ap ok (ap put_be32 (sym number.0) ∙ same), sym number.2)
value_bytes-decode_value type v (i32_arg n) bytes h =
    let number : (get_be32 v 0 ≡ n) × (length v ≡ 4) × (type ≡ 2) = ground (arith, h) in
    let same = put_be32-get_be32 v bytes number.1 in
    (ap ok (ap put_be32 (sym number.0) ∙ same), sym number.2)
value_bytes-decode_value type v (text_arg none) bytes h = absurd (ground (arith, h))
value_bytes-decode_value type v (text_arg (some t)) bytes h = ground (arith, h)
value_bytes-decode_value type v (other_arg n) bytes h = absurd (ground (arith, h))

take-append-drop : (n : ℕ) (b : List ℕ) → take n b ++ drop n b ≡ b
take-append-drop zero b = refl
take-append-drop (suc n) [] = refl
take-append-drop (suc n) (x ∷ b) = ap (◌∷◌ x) (take-append-drop n b)

take-AreBytes : (n : ℕ) (b : List ℕ) → AreBytes b → AreBytes (take n b)
take-AreBytes zero b h = tt
take-AreBytes (suc n) [] h = tt
take-AreBytes (suc n) (x ∷ b) (h, hs) = (h, take-AreBytes n b hs)

drop-AreBytes : (n : ℕ) (b : List ℕ) → AreBytes b → AreBytes (drop n b)
drop-AreBytes zero b h = h
drop-AreBytes (suc n) [] h = tt
drop-AreBytes (suc n) (x ∷ b) (h, hs) = drop-AreBytes n b hs

-- What a round of the decoder's loop has found in the bytes that it accepts.
record Decoded (count b0 size : ℕ) (d : List ℕ) (args : List Arg) : Type 0 where
  argument : Arg
  others : List Arg
  inside : size ≤ length d
  value_ok : decode_value b0 (take size d) ≡ ok argument
  others_ok : decode_from count (drop size d) ≡ ok others
  all : argument ∷ others ≡ args

decode_from-Decoded :
    (count b0 b1 b2 : ℕ) (d : List ℕ) (args : List Arg)
    → decode_from (suc count) (b0 ∷ b1 ∷ b2 ∷ d) ≡ ok args
    → Decoded count b0 (b1 * 0x100 + b2) d args
unfolding decode_from
decode_from-Decoded count b0 b1 b2 d args h =
    elim (Result-cases (decode_value b0 (take (b1 * 0x100 + b2) d))) [
      | inl (e, p) ↦ absurd (ground (arith, p, h))
      | inr (a, p) ↦ elim (Result-cases (decode_from count (drop (b1 * 0x100 + b2) d))) [
        | inl (e, q) ↦ absurd (ground (arith, p, q, h))
        | inr (others, q) ↦ record {
          argument = a;
          others = others;
          inside = ground (arith, p, q, h);
          value_ok = p;
          others_ok = q;
          all = ground (arith, p, q, h);
        }
      ]
    ]

entry-take :
    (a : Arg) (b0 b1 b2 : ℕ) (d : List ℕ)
    → AreBytes (b0 ∷ b1 ∷ b2 ∷ d)
    → b1 * 0x100 + b2 ≤ length d
    → type_byte a ≡ b0
    → entry a (take (b1 * 0x100 + b2) d) ++ drop (b1 * 0x100 + b2) d ≡ b0 ∷ b1 ∷ b2 ∷ d
entry-take a b0 b1 b2 d bytes inside type =
    let n = b1 * 0x100 + b2 in
    let size : length (take n d) ≡ n = omega (arith, length-take n d) in
    let high : n / 0x100 % 0x100 ≡ b1 = omega arith in
    let low : n % 0x100 ≡ b2 = omega arith in rw (size, high, low, type, take-append-drop n d) refl

encode_from-cons :
    (a : Arg) (args : List Arg) (capacity offset : ℕ) (v rest : List ℕ)
    → value_bytes a ≡ ok v
    → ltb capacity (offset + 3 + length v) ≡ false
    → encode_from capacity (offset + 3 + length v) args ≡ ok rest
    → encode_from capacity offset (a ∷ args) ≡ ok (entry a v ++ rest)
unfolding encode_from
encode_from-cons a args capacity offset v rest p q r = ground (arith, p, q, r)

encode_from-decode_from :
    (count : ℕ) (b : List ℕ) (args : List Arg) (capacity offset : ℕ)
    → AreBytes b
    → decode_from count b ≡ ok args
    → offset + length b ≤ capacity
    → (encode_from capacity offset args ≡ ok b) × (length args ≡ count)
unfolding encode_from decode_from
encode_from-decode_from zero [] args capacity offset bytes h fits =
    let none_left : [] ≡ args = ground (arith, h) in rw (← none_left) (refl, refl)
encode_from-decode_from zero (x ∷ b) args capacity offset bytes h fits = absurd (ground (arith, h))
encode_from-decode_from (suc count) [] args capacity offset bytes h fits =
    absurd (ground (arith, h))
encode_from-decode_from (suc count) (b0 ∷ []) args capacity offset bytes h fits =
    absurd (ground (arith, h))
encode_from-decode_from (suc count) (b0 ∷ b1 ∷ []) args capacity offset bytes h fits =
    absurd (ground (arith, h))
encode_from-decode_from (suc count) (b0 ∷ b1 ∷ b2 ∷ d) args capacity offset bytes h fits =
    let left : AreBytes d = bytes.1.1.1 in
    let n = b1 * 0x100 + b2 in
    let e = decode_from-Decoded count b0 b1 b2 d args h in
    let size : length (take n d) ≡ n = omega (arith, length-take n d, e.inside) in
    let value =
      value_bytes-decode_value b0 (take n d) e.argument (take-AreBytes n d left) e.value_ok in
    let room : offset + 3 + length (take n d) + length (drop n d) ≤ capacity =
      omega (arith, size, length-drop n d, e.inside, fits) in
    let rest =
      encode_from-decode_from count (drop n d) e.others capacity (offset + 3 + length (take n d))
        (drop-AreBytes n d left) e.others_ok room in
    let in_room : ltb capacity (offset + 3 + length (take n d)) ≡ false = ground (arith, room) in
    let whole = entry-take e.argument b0 b1 b2 d bytes e.inside value.1 in
    let made =
      encode_from-cons e.argument e.others capacity offset (take n d) (drop n d) value.0 in_room
        rest.0 in
    rw (← e.all) (made ∙ ap ok whole, ap suc rest.1)

-- A payload of bytes that is decoded to arguments is what the encoder makes of them, in a buffer of its
-- size: a request has one form. There are at most four arguments.
pub encode_args-decode_args :
    (count room : ℕ) (b : List ℕ) (args : List Arg)
    → All (λ x. x < 0x100) b
    → count ≤ 4
    → decode_args count room b ≡ ok args
    → encode_args args (length b) ≡ ok b
unfolding decode_args encode_args
encode_args-decode_args count room b args bytes few h =
    let inner : decode_from count b ≡ ok args = ground (arith, h) in
    let (made, counted) =
      encode_from-decode_from count b args (length b) 0 bytes inner (omega arith) in
    let in_bounds : ltb 4 (length args) ≡ false = ground (arith, counted, few) in rw in_bounds made
