-- ===== src/FwuLite/Tests.antt =====
-- The theorems about fwu_lite_protocol.c at concrete inputs, with blocks of 16 bytes.
use kfsw_services.Common.{
  ℕ, ◌/◌, ◌≡◌, ◌≢◌, ◌⊎◌, refl, true, List, [], ◌∷◌, ◌++◌, arith, replicate, some,
}
use kfsw_services.Common.Codes.{ok}
use kfsw_services.Fwu
use kfsw_services.Fwu.{State, Slot, Answers, Crc, idle, receiving, no_swap, test_swap}
use kfsw_services.Fwu.Sample.{sum_from, sum_crc, slot, works, fresh}
use kfsw_services.FwuLite.{
  Message, encode, decode, opcode_is_known, handle, handle_block, refuse_block, dispatch,
  status_for_errno, status_ok, status_out_of_order, status_too_large,
}
use kfsw_services.FwuLite.Codec.{IsWire, decode-encode, encode-decode}
use kfsw_services.FwuLite.Blocks.{
  handle_block_lem, block_bytes, resend_full_block, resend_short_block,
}

-- An image of 20 bytes, none of which has arrived.
abbrev begun : State
begun = record fresh {
  phase = receiving;
  total_size = 20;
  expected_crc32 = 20;
  started = 1;
  area_open = true;
  stream_open = true;
}

-- The same with the first block there.
abbrev half_way : State
half_way = record begun { received = 16; actual_crc32 = 16; written = replicate 16 1 }

abbrev first_block : Message
first_block = record {
  opcode = 2;
  status = 0;
  block_index = 0;
  argument = 16;
  extra = 0;
  data_size = 16;
  payload = some (replicate 16 1);
}

abbrev last_block : Message
last_block = record {
  opcode = 2;
  status = 0;
  block_index = 1;
  argument = 4;
  extra = 0;
  data_size = 4;
  payload = some (replicate 4 1);
}

abbrev packet : List ℕ
packet = 2 ∷ 0 ∷ 0 ∷ 1 ∷ 0 ∷ 0 ∷ 0 ∷ 4 ∷ 0 ∷ 0 ∷ 0 ∷ 0 ∷ 1 ∷ 1 ∷ 1 ∷ 1 ∷ []

last_block-encode : encode 16 last_block 28 ≡ ok packet
unfolding encode
last_block-encode = refl

last_block-IsWire : IsWire last_block
unfolding opcode_is_known
last_block-IsWire = ground arith

decode-encode_example : decode 16 packet ≡ ok last_block
decode-encode_example =
    decode-encode 16 (omega arith) last_block 28 last_block-IsWire last_block-encode

encode-decode_test : encode 16 last_block 16 ≡ ok packet
unfolding decode
encode-decode_test = encode-decode 16 (omega arith) packet (omega arith) (omega arith) refl

handle_block_lem_example :
    let (t, status) = handle_block 16 sum_crc slot works half_way half_way last_block in
    ((status ≡ status_ok)
      × (t.written ≡ half_way.written ++ block_bytes last_block)
      × (last_block.block_index ≡ half_way.received / 16)
      × (sum_from 0 (block_bytes last_block) ≡ last_block.argument))
    ⊎ ((status ≢ status_ok) × (t.written ≡ half_way.written) × (t.received ≡ half_way.received))
handle_block_lem_example = handle_block_lem 16 sum_crc slot works half_way half_way last_block

resend_full_block_test :
    let t = (handle 16 sum_crc slot works begun first_block).0 in
    ((handle 16 sum_crc slot works t first_block).0 ≡ t)
    × ((handle 16 sum_crc slot works t first_block).1.status ≡ status_out_of_order)
    × ((handle 16 sum_crc slot works t first_block).1.block_index ≡ 1)
unfolding handle dispatch handle_block refuse_block Fwu.write status_for_errno
resend_full_block_test =
    resend_full_block 16 sum_crc slot works begun first_block (omega arith) (omega arith) refl refl
      refl

resend_short_block_test :
    let t = (handle 16 sum_crc slot works half_way last_block).0 in
    (t.received ≡ t.total_size)
    × ((handle 16 sum_crc slot works t last_block).0 ≡ t)
    × ((handle 16 sum_crc slot works t last_block).1.status ≡ status_too_large)
    × ((handle 16 sum_crc slot works t last_block).1.block_index ≡ 1)
unfolding handle dispatch handle_block refuse_block Fwu.write status_for_errno
resend_short_block_test =
    resend_short_block 16 sum_crc slot works half_way last_block (omega arith) refl refl
      (omega arith) refl (omega arith) refl
