-- ===== src/Fwu/Upload.antt =====
-- A whole transfer: begin, the spans in order, and finish.
use kfsw_services.Common.{
  ℕ, ◌+◌, ◌≤◌, ◌<◌, ◌≡◌, ◌≢◌, refl, ap, sym, ◌∙◌, true, false, List, [], ◌∷◌, ◌++◌, arith, length,
  length-append, if◌then◌else◌, ◌==◌, All, append-nil, append_assoc,
}
use kfsw_services.Common.Codes.{Code, success, eilseq}
use kfsw_services.Fwu.{
  idle, receiving, ready, failed, State, Slot, Answers, Crc, begin, write, finish, max_image_size,
  is_revert, is_test,
}

-- All layers below do what they are asked.
pub record IsWorking (a : Answers) : Type 0 where
  pub erase_open : a.erase_open ≡ success
  pub erase_flatten : a.erase_flatten ≡ success
  pub open_area : a.open_area ≡ success
  pub init : a.init ≡ success
  pub write : a.write ≡ success
  pub flush : a.flush ≡ success
  pub request_upgrade : a.request_upgrade ≡ success
  pub no_trial : is_revert a.swap_before ≡ false
  pub scheduled : is_test a.swap_after ≡ true

-- The bytes of all spans.
abbrev pub join : List (List ℕ) → List ℕ
join [] = []
join (c ∷ cs) = c ++ join cs

module _ (crc : Crc) (a : Answers) where
  abbrev extended : State → List ℕ → State
  extended s c = record s {
    actual_crc32 = crc.update s.actual_crc32 c;
    received = s.received + length c;
    written = s.written ++ c;
  }

  write_accepted :
      (s : State) (offset : ℕ) (c : List ℕ)
      → IsWorking a
      → s.phase ≡ receiving
      → offset ≡ s.received
      → 0 < length c
      → s.received + length c ≤ s.total_size
      → s.total_size < 0x1_0000_0000
      → write crc a s offset c ≡ (extended s c, success)
  unfolding write
  write_accepted s offset c good r at some_bytes fits small = ground arith

  -- A sender that stops at the first refusal.
  unfoldable pub send : State → ℕ → List (List ℕ) → State × Code
  send s offset [] = (s, success)
  send s offset (c ∷ cs) =
      let (s', code) = write crc a s offset c in
      let rest = send s' (offset + length c) cs in if code == success then rest else (s', code)

  -- What the spans leave behind.
  record Sent (s : State) (spans : List (List ℕ)) (t : State) (code : Code) : Type 0 where
    sent : code ≡ success
    phase : t.phase ≡ receiving
    received : t.received ≡ s.received + length (join spans)
    written : t.written ≡ s.written ++ join spans
    checked : t.actual_crc32 ≡ crc.update s.actual_crc32 (join spans)
    total : t.total_size ≡ s.total_size
    expected : t.expected_crc32 ≡ s.expected_crc32
    readers : t.secondary_readers ≡ s.secondary_readers

  send-Sent :
      (spans : List (List ℕ)) (s : State) (offset : ℕ)
      → IsWorking a
      → s.phase ≡ receiving
      → offset ≡ s.received
      → All (λ c. 0 < length c) spans
      → s.received + length (join spans) ≤ s.total_size
      → s.total_size < 0x1_0000_0000
      → Sent s spans (send s offset spans).0 (send s offset spans).1
  unfolding send
  send-Sent [] s offset good r at spans fits small = record {
    sent = refl;
    phase = r;
    received = omega arith;
    written = sym (append-nil s.written);
    checked = sym (crc.update-nil s.actual_crc32);
    total = refl;
    expected = refl;
    readers = refl;
  }
  send-Sent (c ∷ cs) s offset good r at spans fits small =
      let size = length-append c (join cs) in
      let step = write_accepted s offset c good r at spans.0 (omega (arith, size)) small in
      let rest =
        send-Sent cs (extended s c) (offset + length c) good r (omega arith) spans.1
          (omega (arith, size)) small in
      rw step (record {
        sent = rest.sent;
        phase = rest.phase;
        received = omega (arith, rest.received, size);
        written = rest.written ∙ append_assoc s.written c (join cs);
        checked = rest.checked ∙ sym (crc.update-append s.actual_crc32 c (join cs));
        total = rest.total;
        expected = rest.expected;
        readers = rest.readers;
      })

  begin_accepted :
      (p : Slot) (s : State) (total_size expected_crc32 : ℕ)
      → IsWorking a
      → s.phase ≡ idle
      → s.secondary_readers ≡ 0
      → 0 < total_size
      → total_size ≤ max_image_size p
      → let t = (begin p a s total_size expected_crc32).0 in
        ((begin p a s total_size expected_crc32).1 ≡ success)
        × (t.phase ≡ receiving)
        × (t.received ≡ 0)
        × (t.actual_crc32 ≡ 0)
        × (t.written ≡ [])
        × (t.total_size ≡ total_size)
        × (t.expected_crc32 ≡ expected_crc32)
        × (t.secondary_readers ≡ 0)
  unfolding begin
  begin_accepted p s total_size expected_crc32 good i r k m = ground arith

  finish_whole :
      (u : State)
      → IsWorking a
      → u.phase ≡ receiving
      → u.received ≡ u.total_size
      → u.secondary_readers ≡ 0
      → (u.actual_crc32 ≡ u.expected_crc32
          → ((finish a u).1 ≡ success) × ((finish a u).0.phase ≡ ready))
        × (u.actual_crc32 ≢ u.expected_crc32
            → ((finish a u).1 ≡ eilseq) × ((finish a u).0.phase ≡ failed))
  unfolding finish
  finish_whole u good r w rd = (λ same. ground arith, λ other. ground arith)

  -- An image sent in order, in spans of any size but zero, of the declared total size, over layers
  -- that work and from an idle service with no reader: every span is accepted and the bytes that
  -- went to flash are the image. If its CRC is the declared one, finish succeeds and the image is
  -- ready; if not, finish returns -EILSEQ and the transfer has failed.
  pub finish-send :
      (p : Slot) (s : State) (spans : List (List ℕ)) (expected_crc32 : ℕ)
      → IsWorking a
      → s.phase ≡ idle
      → s.secondary_readers ≡ 0
      → All (λ c. 0 < length c) spans
      → 0 < length (join spans)
      → length (join spans) ≤ max_image_size p
      → length (join spans) < 0x1_0000_0000
      → let started = (begin p a s (length (join spans)) expected_crc32).0 in
        let sent = (send started 0 spans).0 in
        ((send started 0 spans).1 ≡ success)
        × (sent.written ≡ join spans)
        × (crc.update 0 (join spans) ≡ expected_crc32
            → ((finish a sent).1 ≡ success) × ((finish a sent).0.phase ≡ ready))
        × (crc.update 0 (join spans) ≢ expected_crc32
            → ((finish a sent).1 ≡ eilseq) × ((finish a sent).0.phase ≡ failed))
  finish-send p s spans expected_crc32 good i r nonempty k m n =
      let t = (begin p a s (length (join spans)) expected_crc32).0 in
      let (c, ph, re, ac, wr, to, ex, rd) =
        begin_accepted p s (length (join spans)) expected_crc32 good i r k m in
      let all = send-Sent spans t 0 good ph (omega arith) nonempty (omega arith) (omega arith) in
      let u = (send t 0 spans).0 in
      let whole : u.received ≡ u.total_size = omega (arith, all.received, all.total) in
      let sum : u.actual_crc32 ≡ crc.update 0 (join spans) =
        all.checked ∙ ap (λ q. crc.update q (join spans)) ac in
      let declared : u.expected_crc32 ≡ expected_crc32 = all.expected ∙ ex in
      let done = finish_whole u good all.phase whole (all.readers ∙ rd) in
      (
        all.sent,
        all.written ∙ ap (λ w. w ++ join spans) wr,
        λ same. done.0 (sum ∙ same ∙ sym declared),
        λ other. done.1 (λ e. other (sym sum ∙ e ∙ declared)),
      )
