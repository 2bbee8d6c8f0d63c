-- ===== src/Event/Tests.antt =====
-- The theorems about event.c at concrete inputs, and runs of its functions.
use kfsw_services.Common.{
  ℕ, ◌+◌, ◌≤◌, ◌<◌, ◌≡◌, ◌≢◌, ◌⊎◌, refl, List, [], ◌∷◌, Bool, true, none, some, arith,
}
use kfsw_services.Common.Words.{u32}
use kfsw_services.Common.Codes.{ok, err, enoent}
use kfsw_services.Event.{Record, State, Emission, emit, boot, get, visit, filled_slot}
use kfsw_services.Event.Window.{contents}
use kfsw_services.Event.Invariant.{IsValid, emit-IsValid}
use kfsw_services.Event.Store.{last_n}
use kfsw_services.Event.History.{Call, emits, step, run, log_run, empty_log, contents-run}
use kfsw_services.Event.Counting.{
  IsNumbered, IsAccounted, run-IsNumbered, emit-IsAccounted, emit_declared_source_refused,
}
use kfsw_services.Event.Reading.{get-contents, visit_total, visit-contents, walk}

abbrev boot_event : Emission
boot_event = record {
  source = 1;
  id = 7;
  severity = 2;
  payload = some (1 ∷ 2 ∷ 3 ∷ []);
  payload_size = 2;
}

abbrev limits_event : Emission
limits_event = record boot_event { source = 10 }

abbrev slot : ℕ → ℕ → Record
slot n now = record {
  monotonic_us = now;
  sequence = n;
  source = 1;
  id = 7;
  severity = 2;
  payload_size = 2;
  payload = 1 ∷ 2 ∷ 0 ∷ 0 ∷ 0 ∷ 0 ∷ 0 ∷ 0 ∷ 0 ∷ 0 ∷ 0 ∷ 0 ∷ 0 ∷ 0 ∷ 0 ∷ 0 ∷ [];
}

-- A full ring of two records, the third event having overwritten the first.
abbrev wrapped : State
wrapped = record {
  ring = slot 2 30 ∷ slot 1 20 ∷ [];
  next_sequence = 3;
  recorded_count = 3;
  rejected_count = 0;
  overwritten_count = 1;
  held_count = 2;
  oldest_index = 1;
}

abbrev calls : List Call
calls = emits boot_event 10 ∷ emits limits_event 15 ∷ emits boot_event 20 ∷ emits boot_event 30 ∷ []

wrapped-run : run (boot 2) calls ≡ record wrapped { rejected_count = 1 }
unfolding run step emit boot filled_slot
wrapped-run = refl

wrapped-IsValid : IsValid wrapped
wrapped-IsValid = omega arith

newest_first : get wrapped 0 ≡ ok (slot 2 30)
unfolding get
newest_first = refl

emit-IsValid_test : IsValid (emit wrapped boot_event 40).0
emit-IsValid_test = emit-IsValid {s = wrapped} boot_event 40 wrapped-IsValid

contents-run_example :
    (contents (run (boot 2) calls) ≡ last_n 2 (log_run empty_log calls).entries)
    × ((run (boot 2) calls).next_sequence ≡ (log_run empty_log calls).next)
contents-run_example = contents-run 2 calls (omega arith) (omega arith)

run-IsNumbered_example : IsNumbered (run wrapped calls)
run-IsNumbered_example = run-IsNumbered wrapped calls wrapped-IsValid (1, (refl, (refl, refl)))

emit-IsAccounted_test :
    let s' = (emit wrapped boot_event 40).0 in
    IsAccounted s'
    × (((s'.recorded_count ≡ u32 (wrapped.recorded_count + 1)) × (s'.rejected_count ≡ 0))
        ⊎ (s' ≡ record wrapped { rejected_count = u32 1 }))
emit-IsAccounted_test = emit-IsAccounted {s = wrapped} boot_event 40 wrapped-IsValid refl

emit_declared_source_refused_test :
    emit wrapped limits_event 40 ≡ (record wrapped { rejected_count = 1 }, none)
emit_declared_source_refused_test =
    emit_declared_source_refused wrapped limits_event 40 (omega arith) (omega arith)

get-contents_test :
    (wrapped.held_count ≤ 1 → get wrapped 1 ≡ err enoent)
    × (1 < wrapped.held_count → get wrapped 1 ≡ ok (slot 1 20))
get-contents_test = get-contents {s = wrapped} 1 wrapped-IsValid

-- A visitor that counts records and stops at the second.
abbrev counter : Record → ℕ → ℕ × Bool
counter r n = (n + 1, true)

-- Between the rounds the ring is cleared.
abbrev disturbed : ℕ → State
disturbed k = record wrapped { held_count = 1 }

visit_total_example : visit counter 3 disturbed 0 ≢ none
visit_total_example = visit_total counter disturbed 2 0 (λ k. omega arith) (omega arith)

visit-contents_example : visit counter 3 (λ _. wrapped) 0 ≡ some (walk counter (contents wrapped) 0)
visit-contents_example = visit-contents counter {s = wrapped} 0 wrapped-IsValid
