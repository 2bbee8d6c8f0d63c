-- ===== src/FwuLite/Blocks.antt =====
-- What a block request does, and what happens when the sender repeats it because the reply was lost.
use native.Mathlib.Nat.{add-div_right, div-eq_of_lt-le}
use kfsw_services.Common.{
  ℕ, ◌+◌, ◌*◌, ◌/◌, ◌≤◌, ◌<◌, ◌≡◌, ◌≢◌, ◌↔◌, refl, ap, sym, ◌∙◌, true, false, List, ◌++◌, arith,
  length, take, none, some, Option-cases, inl, inr, ◌⊎◌,
}
use kfsw_services.Common.Words.{u16, u32}
use kfsw_services.Common.Codes.{success, efbig}
use kfsw_services.Event.{bytes_of, is_null}
use kfsw_services.Fwu
use kfsw_services.Fwu.{State, Slot, Answers, Crc, receiving, is_receiving}
use kfsw_services.FwuLite.{
  Message, refuse_block, handle_block, dispatch, handle, status_for_errno, status_ok,
  status_out_of_order, status_too_large, op_block, describe_state,
}

-- The bytes of a block.
abbrev pub block_bytes : Message → List ℕ
block_bytes request = take request.data_size (bytes_of request.payload)

status_for_errno-ok : (c : ℕ) → (status_for_errno c ≡ status_ok) ↔ (c ≡ success)
unfolding status_for_errno
status_for_errno-ok c = ground arith

status_for_errno-efbig : status_for_errno efbig ≡ status_too_large
unfolding status_for_errno
status_for_errno-efbig = refl

module _ (crc : Crc) (a : Answers) where
  abbrev extended : State → List ℕ → State
  extended s bytes = record s {
    actual_crc32 = crc.update s.actual_crc32 bytes;
    received = u32 (s.received + length bytes);
    written = s.written ++ bytes;
  }

  -- The only write that succeeds is one that fits, and it adds its bytes.
  write_cases :
      (s : State) (offset : ℕ) (bytes : List ℕ)
      → ((Fwu.write crc a s offset bytes ≡ (extended s bytes, success))
          × (offset ≡ s.received)
          × (0 < length bytes)
          × (offset + length bytes ≤ s.total_size))
        ⊎ (((Fwu.write crc a s offset bytes).1 ≢ success)
            × ((Fwu.write crc a s offset bytes).0.written ≡ s.written)
            × ((Fwu.write crc a s offset bytes).0.received ≡ s.received))
  unfolding Fwu.write
  write_cases s offset bytes = ground arith

  write_too_far :
      (s : State) (offset : ℕ) (bytes : List ℕ)
      → is_receiving s.phase ≡ true
      → offset ≡ s.received
      → 0 < length bytes
      → s.total_size < offset + length bytes
      → Fwu.write crc a s offset bytes ≡ (s, efbig)
  unfolding Fwu.write
  write_too_far s offset bytes r at some_bytes far = ground arith

module _ (max_block_size : ℕ) (crc : Crc) (p : Slot) (a : Answers) where
  -- What the tests of a block request guarantee when all of them pass.
  record Passed (s : State) (request : Message) : Type 0 where
    live : is_receiving s.phase ≡ true
    given : is_null request.payload ≡ false
    some_data : request.data_size ≢ 0
    index : request.block_index ≡ s.received / max_block_size
    last :
        (s.total_size ≤ u32 (s.received + request.data_size)) ⊎ (request.data_size ≡ max_block_size)
    sum : crc.update 0 (block_bytes request) ≡ request.argument

  refuse_block-none :
      (s : State) (request : Message)
      → refuse_block max_block_size crc p a s request ≡ none
      → Passed s request
  unfolding refuse_block
  refuse_block-none s request h = ground arith

  refuse_block_ne-ok :
      (s : State) (request : Message) (status : ℕ)
      → refuse_block max_block_size crc p a s request ≡ some status
      → status ≢ status_ok
  unfolding refuse_block
  refuse_block_ne-ok s request status h = ground arith

  -- A block request answered with OK has appended exactly the block's bytes to those accepted so far;
  -- its index was the number of whole blocks received before, and their CRC is the one that the
  -- request declares. With any other answer no byte is accepted: the bytes accepted and the place at
  -- which the next one is expected stay as they were. This holds whatever other threads have done to
  -- the service between the reading of its status and the write.
  pub handle_block_lem :
      (seen s : State) (request : Message)
      → ((handle_block max_block_size crc p a seen s request).1 ≡ status_ok)
          × ((handle_block max_block_size crc p a seen s request).0.written
              ≡ s.written ++ block_bytes request)
          × (request.block_index ≡ s.received / max_block_size)
          × (crc.update 0 (block_bytes request) ≡ request.argument)
        ⊎ ((handle_block max_block_size crc p a seen s request).1 ≢ status_ok)
          × ((handle_block max_block_size crc p a seen s request).0.written ≡ s.written)
          × ((handle_block max_block_size crc p a seen s request).0.received ≡ s.received)
  unfolding handle_block
  handle_block_lem seen s request =
      elim (Option-cases (refuse_block max_block_size crc p a seen request)) [
        | inl clear ↦
            let passed = refuse_block-none seen request clear in
            elim (write_cases crc a s seen.received (block_bytes request)) [
              | inl taken ↦
                  let same : seen.received / max_block_size ≡ s.received / max_block_size =
                    ap (λ n. n / max_block_size) taken.1 in
                  let index = passed.index ∙ same in
                  ground (
                    arith,
                    clear,
                    taken,
                    index,
                    passed.sum,
                    status_for_errno-ok (Fwu.write crc a s seen.received (block_bytes request)).1,
                  )
              | inr refused ↦ ground (
                arith,
                clear,
                refused,
                status_for_errno-ok (Fwu.write crc a s seen.received (block_bytes request)).1,
              )
            ]
        | inr (status, refused) ↦ ground (arith, refuse_block_ne-ok seen request status refused)
      ]

  -- What an accepted block leaves behind.
  handle_block_accepted :
      (s t : State) (request : Message)
      → handle_block max_block_size crc p a s s request ≡ (t, status_ok)
      → Passed s request
        × (t ≡ extended crc a s (block_bytes request))
        × (0 < length (block_bytes request))
        × (s.received + length (block_bytes request) ≤ s.total_size)
  unfolding handle_block
  handle_block_accepted s t request h =
      elim (Option-cases (refuse_block max_block_size crc p a s request)) [
        | inl clear ↦
            let passed = refuse_block-none s request clear in
            let cases = write_cases crc a s s.received (block_bytes request) in
            let code = status_for_errno-ok (Fwu.write crc a s s.received (block_bytes request)).1 in
            (
              passed,
              ground (arith, cases, code),
              ground (arith, cases, code),
              ground (arith, cases, code),
            )
        | inr (status, refused) ↦
            absurd (ground (arith, refuse_block_ne-ok s request status refused))
      ]

  refuse_block_index :
      (s : State) (request : Message)
      → is_null request.payload ≡ false
      → request.data_size ≢ 0
      → is_receiving s.phase ≡ true
      → request.block_index ≢ s.received / max_block_size
      → handle_block max_block_size crc p a s s request ≡ (s, status_out_of_order)
  unfolding handle_block refuse_block
  refuse_block_index s request given some_data live other = ground arith

  -- A block past the end of the image that passes the other tests.
  handle_block_too_far :
      (s : State) (request : Message)
      → Passed s request
      → 0 < length (block_bytes request)
      → s.total_size < s.received + length (block_bytes request)
      → handle_block max_block_size crc p a s s request ≡ (s, status_too_large)
  unfolding handle_block refuse_block
  handle_block_too_far s request passed some_bytes far = ground (
    arith,
    passed,
    write_too_far crc a s s.received (block_bytes request) passed.live refl some_bytes far,
    status_for_errno-efbig,
  )

  handle-block :
      (s : State) (request : Message)
      → request.opcode ≡ op_block
      → let (t, status) = handle_block max_block_size crc p a s s request in
        handle max_block_size crc p a s request
        ≡ (t, describe_state max_block_size crc p a t request.opcode status)
  unfolding handle dispatch
  handle-block s request op = ground arith

  -- The same on two calls of `handle_block`.
  block_again_full :
      (s t : State) (request : Message)
      → s.total_size < 0x1_0000_0000
      → 0 < max_block_size
      → length (block_bytes request) ≡ max_block_size
      → handle_block max_block_size crc p a s s request ≡ (t, status_ok)
      → (handle_block max_block_size crc p a t t request ≡ (t, status_out_of_order))
        × (t.received / max_block_size ≡ request.block_index + 1)
  block_again_full s t request small positive full accepted =
      let (passed, grown, _, fits) = handle_block_accepted s t request accepted in
      let more : t.received ≡ s.received + max_block_size = ground arith in
      let next : t.received / max_block_size ≡ request.block_index + 1 =
        ap (λ n. n / max_block_size) more
        ∙ add-div_right s.received positive
        ∙ ap (λ n. n + 1) (sym passed.index) in
      let live : is_receiving t.phase ≡ true = ground (arith, passed) in
      (refuse_block_index t request passed.given passed.some_data live (omega (arith, next)), next)

  block_again_short :
      (s t : State) (request : Message)
      → s.total_size + max_block_size < 0x1_0000_0000
      → length (block_bytes request) ≡ request.data_size
      → request.data_size < max_block_size
      → s.received ≡ request.block_index * max_block_size
      → handle_block max_block_size crc p a s s request ≡ (t, status_ok)
      → (t.received ≡ t.total_size)
        × (handle_block max_block_size crc p a t t request ≡ (t, status_too_large))
        × (t.received / max_block_size ≡ request.block_index)
  block_again_short s t request small whole short aligned accepted =
      let (passed, grown, some_bytes, fits) = handle_block_accepted s t request accepted in
      let end : t.received ≡ s.received + request.data_size = ground arith in
      let total : t.total_size ≡ s.total_size = ground arith in
      let done : t.received ≡ t.total_size = ground (arith, passed) in
      let place : t.received / max_block_size ≡ request.block_index =
        div-eq_of_lt-le {k = request.block_index} max_block_size (grind arith) (grind arith) in
      let live : is_receiving t.phase ≡ true = ground (arith, passed) in
      let passed' : Passed t request = record {
        live = live;
        given = passed.given;
        some_data = passed.some_data;
        index = sym place;
        last = inl (omega arith);
        sum = passed.sum;
      } in
      (done, handle_block_too_far t request passed' some_bytes (omega arith), place)

  -- The first OK of two repeated requests, on `handle_block`.
  first_ok :
      (s : State) (request : Message)
      → request.opcode ≡ op_block
      → (handle max_block_size crc p a s request).1.status ≡ status_ok
      → handle_block max_block_size crc p a s s request
        ≡ ((handle max_block_size crc p a s request).0, status_ok)
  first_ok s request op accepted = ground (arith, handle-block s request op)

  -- A full block whose OK reply was lost, and that the sender repeats, is recognised: the service
  -- stays as it is, and the reply is OUT_OF_ORDER with the index of the next block, by which the
  -- sender moves on.
  pub resend_full_block :
      (s : State) (request : Message)
      → s.total_size < 0x1_0000_0000
      → 0 < max_block_size
      → request.opcode ≡ op_block
      → length (block_bytes request) ≡ max_block_size
      → (handle max_block_size crc p a s request).1.status ≡ status_ok
      → let t = (handle max_block_size crc p a s request).0 in
        ((handle max_block_size crc p a t request).0 ≡ t)
        × ((handle max_block_size crc p a t request).1.status ≡ status_out_of_order)
        × ((handle max_block_size crc p a t request).1.block_index ≡ u16 (request.block_index + 1))
  resend_full_block s request small positive op full accepted =
      let t = (handle max_block_size crc p a s request).0 in
      let again =
        block_again_full s t request small positive full (first_ok s request op accepted) in
      ground (arith, handle-block t request op, again)

  -- The bug: a shorter last block whose OK reply was lost, and that the sender repeats, is answered
  -- with TOO_LARGE and the index of that same block, so the sender takes a complete transfer for a
  -- failed one. It happens for every short last block whose predecessors were full, of an image that
  -- ends more than a block below 4 GiB.
  pub resend_short_block :
      (s : State) (request : Message)
      → s.total_size + max_block_size < 0x1_0000_0000
      → request.opcode ≡ op_block
      → length (block_bytes request) ≡ request.data_size
      → request.data_size < max_block_size
      → s.received ≡ request.block_index * max_block_size
      → request.block_index < 0x1_0000
      → (handle max_block_size crc p a s request).1.status ≡ status_ok
      → let t = (handle max_block_size crc p a s request).0 in
        (t.received ≡ t.total_size)
        × ((handle max_block_size crc p a t request).0 ≡ t)
        × ((handle max_block_size crc p a t request).1.status ≡ status_too_large)
        × ((handle max_block_size crc p a t request).1.block_index ≡ request.block_index)
  resend_short_block s request small op whole short aligned index accepted =
      let t = (handle max_block_size crc p a s request).0 in
      let again =
        block_again_short s t request small whole short aligned (first_ok s request op accepted) in
      ground (arith, handle-block t request op, again)
