-- ===== src/Journal/Codec.antt =====
-- The codec of journal_store.c's records.
use kfsw_services.Common.{
  ℕ, zero, suc, ◌+◌, ◌-◌, ◌<◌, ◌≤◌, ◌≡◌, sym, ap, ◌∙◌, false, List, [], ◌∷◌, ◌++◌, append_assoc,
  arith, length, length-append, length-take, length-replicate, take, drop, take-append, replicate,
  list_eq,
}
use kfsw_services.Common.Words.{put_be32, byte_at, get_be16, get_be32, get_be64}
use kfsw_services.Common.Codes.{ok}
use kfsw_services.Event.{max_payload_size}
use kfsw_services.Journal.{
  Record, u64_max, padded, fields, body, encode, is_malformed, parsed, is_out_of_range, decode,
}

-- A record of the widths of `struct kfsw_journal_record`, of an event that the journal takes, with a
-- number and a boot of their ranges, and zeros behind the payload.
pub record IsRecord (r : Record) : Type 0 where
  pub sequence : r.sequence < u64_max
  pub numbered : 0 < r.sequence
  pub boot : r.boot < u64_max
  pub booted : 0 < r.boot
  pub utc_seconds : r.utc_seconds ≤ u64_max
  pub monotonic_us : r.event.monotonic_us ≤ u64_max
  pub event_sequence : r.event.sequence < 0x1_0000_0000
  pub first_source : 1 ≤ r.event.source
  pub last_source : r.event.source ≤ 7
  pub id : r.event.id < 0x1_0000
  pub severity : r.event.severity ≤ 3
  pub payload_size : r.event.payload_size ≤ max_payload_size
  pub payload : r.event.payload ≡ padded r.event.payload_size r.event.payload
  pub payload_length : length r.event.payload ≡ max_payload_size

length-padded :
    (size : ℕ) (bytes : List ℕ)
    → size ≤ max_payload_size
    → length bytes ≡ max_payload_size
    → length (padded size bytes) ≡ max_payload_size
length-padded size bytes h e = omega (
  arith,
  length-append (take size bytes) (replicate (max_payload_size - size) 0),
  length-take size bytes,
  length-replicate {A = ℕ} (max_payload_size - size) 0,
  h,
  e,
)

byte_at-append :
    (xs ys : List ℕ) (i k : ℕ) → i ≡ length xs + k → byte_at (xs ++ ys) i ≡ byte_at ys k
byte_at-append [] ys i k e = let same : i ≡ k = omega (arith, e) in ap (byte_at ys) same
byte_at-append (x ∷ xs) ys zero k e = absurd (omega (arith, e))
byte_at-append (x ∷ xs) ys (suc i) k e = byte_at-append xs ys i k (omega (arith, e))

-- The payload's field is read back.
padded-padded :
    (size : ℕ) (bytes tail : List ℕ)
    → size ≤ length bytes
    → padded size (padded size bytes ++ tail) ≡ padded size bytes
padded-padded size bytes tail h =
    let zeros : List ℕ = replicate (max_payload_size - size) 0 in
    let apart = append_assoc (take size bytes) zeros tail in
    let first =
      take-append (take size bytes) (zeros ++ tail) size
        (omega (arith, length-take size bytes, h)) in
    ap (λ l. l ++ zeros) (ap (take size) apart ∙ first)

module _ (crc : List ℕ → ℕ) (bounded : (b : List ℕ) → crc b < 0x1_0000_0000) where
  -- The bytes of a record, from the fields on.
  apart :
      (r : Record)
      → encode crc r
        ≡ fields r ++ (padded r.event.payload_size r.event.payload ++ put_be32 (crc (body r)))
  unfolding encode body
  apart r =
      append_assoc (fields r) (padded r.event.payload_size r.event.payload)
        (put_be32 (crc (body r)))

  length-body : (r : Record) → IsRecord r → length (body r) ≡ 68
  unfolding body
  length-body r w = omega (
    arith,
    length-append (fields r) (padded r.event.payload_size r.event.payload),
    length-padded r.event.payload_size r.event.payload w.payload_size w.payload_length,
  )

  pub length-encode : (r : Record) → IsRecord r → length (encode crc r) ≡ 72
  unfolding encode
  length-encode r w =
      omega (arith, length-append (body r) (put_be32 (crc (body r))), length-body r w)

  covered : (r : Record) → IsRecord r → take 68 (encode crc r) ≡ body r
  unfolding encode
  covered r w = take-append (body r) (put_be32 (crc (body r))) 68 (sym (length-body r w))

  checksum : (r : Record) → IsRecord r → get_be32 (encode crc r) 68 ≡ crc (body r)
  unfolding encode
  checksum r w =
      let c = crc (body r) in
      let size = length-body r w in
      omega (
        arith,
        bounded (body r),
        byte_at-append (body r) (put_be32 c) 68 0 (omega (arith, size)),
        byte_at-append (body r) (put_be32 c) 69 1 (omega (arith, size)),
        byte_at-append (body r) (put_be32 c) 70 2 (omega (arith, size)),
        byte_at-append (body r) (put_be32 c) 71 3 (omega (arith, size)),
      )

  -- The fields, with any bytes behind them.
  parsed-fields :
      (r : Record) (tail : List ℕ)
      → IsRecord r
      → padded r.event.payload_size (drop 52 (fields r ++ tail)) ≡ r.event.payload
      → parsed (fields r ++ tail) ≡ r
  parsed-fields r tail w payload =
      let b = fields r ++ tail in
      let sequence : get_be64 b 8 ≡ r.sequence = omega (arith, w.sequence) in
      let boot : get_be64 b 16 ≡ r.boot = omega (arith, w.boot) in
      let monotonic_us : get_be64 b 24 ≡ r.event.monotonic_us = omega (arith, w.monotonic_us) in
      let utc_seconds : get_be64 b 32 ≡ r.utc_seconds = omega (arith, w.utc_seconds) in
      let event_sequence : get_be32 b 40 ≡ r.event.sequence = omega (arith, w.event_sequence) in
      let source : get_be16 b 44 ≡ r.event.source = omega (arith, w.last_source) in
      let id : get_be16 b 46 ≡ r.event.id = omega (arith, w.id) in
      ground (arith, sequence, boot, monotonic_us, utc_seconds, event_sequence, source, id, payload)

  well_formed-fields :
      (r : Record) (tail : List ℕ)
      → IsRecord r
      → get_be32 (fields r ++ tail) 68 ≡ crc (take 68 (fields r ++ tail))
      → is_malformed crc (fields r ++ tail) ≡ false
  unfolding is_malformed list_eq
  well_formed-fields r tail w sum =
      let b = fields r ++ tail in
      let source : get_be16 b 44 ≡ r.event.source = omega (arith, w.last_source) in
      let size : get_be16 b 6 ≡ 72 = omega arith in
      let first = w.first_source in
      let last = w.last_source in
      let severity = w.severity in
      let payload_size = w.payload_size in
      ground (arith, sum, source, size, first, last, severity, payload_size)

  decode_ok :
      (b : List ℕ) (r : Record)
      → is_malformed crc b ≡ false
      → parsed b ≡ r
      → is_out_of_range r ≡ false
      → decode crc b ≡ ok r
  unfolding decode
  decode_ok b r well_formed read in_range =
      let of_read : is_out_of_range (parsed b) ≡ false = ap is_out_of_range read ∙ in_range in
      rw (decode, well_formed, of_read) (ap ok read)

  -- A record that the journal encodes is decoded to itself: each field, and the payload with the zeros
  -- behind it, for any CRC of 32 bits.
  pub record_decode-encode : (r : Record) → IsRecord r → decode crc (encode crc r) ≡ ok r
  record_decode-encode r w =
      let size = r.event.payload_size in
      let payload = r.event.payload in
      let tail = padded size payload ++ put_be32 (crc (body r)) in
      let whole = apart r in
      let sum : get_be32 (fields r ++ tail) 68 ≡ crc (take 68 (fields r ++ tail)) =
        ap (λ b. get_be32 b 68) (sym whole)
        ∙ checksum r w
        ∙ ap crc (sym (covered r w) ∙ ap (take 68) whole) in
      let fits = w.payload_size in
      let long = w.payload_length in
      let field : padded size (padded size payload ++ put_be32 (crc (body r))) ≡ payload =
        padded-padded size payload (put_be32 (crc (body r))) (omega (arith, fits, long))
        ∙ sym w.payload in
      let sequence = w.sequence in
      let numbered = w.numbered in
      let boot = w.boot in
      let booted = w.booted in
      ap (decode crc) whole
      ∙ decode_ok (fields r ++ tail) r (well_formed-fields r tail w sum)
          (parsed-fields r tail w field) (ground (arith, sequence, numbered, boot, booted))
