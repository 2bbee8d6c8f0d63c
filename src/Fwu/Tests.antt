-- ===== src/Fwu/Tests.antt =====
-- The theorems about fwu.c at concrete inputs.
use kfsw_services.Common.{ℕ, ◌≡◌, ◌≢◌, refl, true, List, [], ◌∷◌, arith, length}
use kfsw_services.Common.Codes.{success, eilseq}
use kfsw_services.Fwu.{State, ready, failed, begin, write, finish, max_image_size}
use kfsw_services.Fwu.Invariant.{
  IsValid, Call, begins, writes, verifies, finishes, aborts, acquires, releases, run, step,
  run_ready_is_whole,
}
use kfsw_services.Fwu.Sample.{sum_from, sum_crc, slot, works, fresh}
use kfsw_services.Fwu.Upload.{IsWorking, send, finish-send}

abbrev spans : List (List ℕ)
spans = (1 ∷ 2 ∷ []) ∷ (3 ∷ []) ∷ []

abbrev calls : List Call
calls =
    begins works 3 6 ∷ writes works 0 (1 ∷ 2 ∷ []) ∷ writes works 2 (3 ∷ []) ∷ finishes works ∷ []

fresh-IsValid : IsValid sum_crc fresh
fresh-IsValid = ground arith

uploaded : (run sum_crc slot fresh calls).phase ≡ ready
unfolding run step begin write finish max_image_size
uploaded = refl

run_ready_is_whole_example :
    (length (run sum_crc slot fresh calls).written ≡ (run sum_crc slot fresh calls).total_size)
    × (sum_from 0 (run sum_crc slot fresh calls).written
        ≡ (run sum_crc slot fresh calls).expected_crc32)
    × ((run sum_crc slot fresh calls).swap_scheduled ≡ true)
run_ready_is_whole_example =
    run_ready_is_whole sum_crc slot (omega arith) fresh calls fresh-IsValid uploaded

works-IsWorking : IsWorking works
works-IsWorking = ground arith

usable : max_image_size slot ≡ 3072
unfolding max_image_size
usable = refl

finish-send_example :
    let started = (begin slot works fresh 3 6).0 in
    let sent = (send sum_crc works started 0 spans).0 in
    ((send sum_crc works started 0 spans).1 ≡ success)
    × (sent.written ≡ 1 ∷ 2 ∷ 3 ∷ [])
    × (◌≡◌ {A = ℕ} 6 6 → ((finish works sent).1 ≡ success) × ((finish works sent).0.phase ≡ ready))
    × (◌≢◌ {A = ℕ} 6 6 → ((finish works sent).1 ≡ eilseq) × ((finish works sent).0.phase ≡ failed))
finish-send_example =
    finish-send sum_crc works slot fresh spans 6 works-IsWorking refl refl (omega arith)
      (omega arith) (omega (arith, usable)) (omega arith)

-- One reader, and the calls of others meanwhile, a second reader among them.
abbrev read : State
read = record fresh { secondary_readers = 1 }

abbrev meanwhile : List Call
meanwhile =
    begins works 3 6 ∷ acquires ∷ verifies works ∷ releases ∷ finishes works ∷ aborts works ∷ []
