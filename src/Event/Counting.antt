-- ===== src/Event/Counting.antt =====
-- The sequence numbers and the counters of event.c.
use kfsw_services.Common.{
  ℕ, ◌+◌, ◌≤◌, ◌≡◌, refl, ap, sym, ◌∙◌, List, [], ◌∷◌, ◌++◌, arith, drop, inl, inr, ◌⊎◌, Bool-cases,
  none, ◌==◌,
}
use kfsw_services.Common.Words.{u32}
use kfsw_services.Event.{
  Record, State, Emission, depth, store, emit, clear, is_refused, filled_slot, source_table,
  source_limits,
}
use kfsw_services.Event.Window.{contents}
use kfsw_services.Event.Invariant.{IsValid}
use kfsw_services.Event.Store.{store_room, store_full}
use kfsw_services.Event.History.{
  Call, emits, clears, step, run, emit_refused, emit_accepted, next_sequence-store, step-IsValid,
}

-- The records are numbered one after the other from `first`, and the next number is `next`.
abbrev pub Numbered : ℕ → List Record → ℕ → Type 0
Numbered first [] next = first ≡ next
Numbered first (r ∷ rs) next = (r.sequence ≡ first) × Numbered (u32 (first + 1)) rs next

Numbered-append :
    (first next : ℕ) (rs : List Record) (r : Record)
    → Numbered first rs next
    → r.sequence ≡ next
    → Numbered first (rs ++ r ∷ []) (u32 (next + 1))
Numbered-append first next [] r h e = (e ∙ sym h, ap (λ q. u32 (q + 1)) h)
Numbered-append first next (x ∷ rs) r h e = (h.0, Numbered-append (u32 (first + 1)) next rs r h.1 e)

-- The held records have consecutive numbers that end just below the next one.
abbrev pub IsNumbered : State → Type 0
IsNumbered s = (first : ℕ) × Numbered first (contents s) s.next_sequence

Numbered-drop :
    (first next : ℕ) (rs : List Record)
    → Numbered first rs next
    → (first' : ℕ) × Numbered first' (drop 1 rs) next
Numbered-drop first next [] h = (first, h)
Numbered-drop first next (r ∷ rs) h = (u32 (first + 1), h.1)

store-IsNumbered :
    (s : State) (e : Emission) (now : ℕ) → IsValid s → IsNumbered s → IsNumbered (store s e now)
unfolding filled_slot
store-IsNumbered s e now v (first, h) =
    rw next_sequence-store elim (Bool-cases (s.held_count == depth s)) [
      | inl full ↦
          let (first', h') = Numbered-drop first s.next_sequence (contents s) h in
          (
            first',
            rw (store_full s e now v full) (Numbered-append first' s.next_sequence _ _ h' refl),
          )
      | inr room ↦
          (first, rw (store_room s e now v room) (Numbered-append first s.next_sequence _ _ h refl))
    ]

step-IsNumbered : (s : State) (c : Call) → IsValid s → IsNumbered s → IsNumbered (step s c)
unfolding step clear
step-IsNumbered s (emits e now) v h = elim (Bool-cases (is_refused e)) [
  | inl bad ↦ rw (emit_refused s e now bad) h
  | inr good ↦ rw (emit_accepted s e now good) (store-IsNumbered s e now v h)
]
step-IsNumbered s clears v h = (s.next_sequence, refl)

-- After any calls the held records carry consecutive sequence numbers (modulo 2^32), oldest
-- first, and the newest one is just below the next number: inside the ring there is no gap.
pub run-IsNumbered : (s : State) (cs : List Call) → IsValid s → IsNumbered s → IsNumbered (run s cs)
unfolding run
run-IsNumbered s [] v h = h
run-IsNumbered s (c ∷ cs) v h =
    run-IsNumbered (step s c) cs (step-IsValid c v) (step-IsNumbered s c v h)

-- Every recorded event is held or counted as overwritten, modulo 2^32.
abbrev pub IsAccounted : State → Type 0
IsAccounted s = u32 (s.overwritten_count + s.held_count) ≡ s.recorded_count

-- An emission counts the event once: as recorded, and then either the ring holds one more or one
-- more is overwritten, or as rejected, and then nothing else changes.
pub emit-IsAccounted :
    {s : State} (e : Emission) (now : ℕ)
    → IsValid s
    → IsAccounted s
    → let s' = (emit s e now).0 in
      IsAccounted s'
      × (((s'.recorded_count ≡ u32 (s.recorded_count + 1)) × (s'.rejected_count ≡ s.rejected_count))
          ⊎ (s' ≡ record s { rejected_count = u32 (s.rejected_count + 1) }))
unfolding emit store
emit-IsAccounted {s} e now v h = ground arith

-- The code drops every event of the sources that event.h declares as KFSW_EVENT_SOURCE_TABLE,
-- KFSW_EVENT_SOURCE_SCRUB and KFSW_EVENT_SOURCE_LIMITS (8, 9 and 10): whatever its severity and
-- payload, the event is counted as rejected, the ring stays as it was and the journal gets nothing.
pub emit_declared_source_refused :
    (s : State) (e : Emission) (now : ℕ)
    → source_table ≤ e.source
    → e.source ≤ source_limits
    → emit s e now ≡ (record s { rejected_count = u32 (s.rejected_count + 1) }, none)
unfolding emit
emit_declared_source_refused s e now low high = ground arith
