-- ===== src/Event/History.antt =====
-- The ring against the list of all records: what it holds after any calls.
use kfsw_services.Common.{
  ℕ, ◌+◌, ◌<◌, ◌≡◌, refl, ap, ap₂, sym, ◌∙◌, List, [], ◌∷◌, ◌++◌, arith, true, false, if◌then◌else◌,
  inl, inr, Bool-cases, length-replicate,
}
use kfsw_services.Common.Words.{u32}
use kfsw_services.Event.{
  Record, State, Emission, depth, store, emit, clear, boot, is_refused, filled_slot, zero_record,
}
use kfsw_services.Event.Window.{contents}
use kfsw_services.Event.Store.{last_n, drop-nil, last_n-append-last_n, contents-store}
use kfsw_services.Event.Invariant.{
  IsValid, emit-IsValid, clear-IsValid, boot-IsValid, store-IsValid, depth-store,
}

-- The calls that change the ring.
pub data Call : Type 0 where
  emits : Emission → ℕ → Call
  clears : Call

unfoldable pub step : State → Call → State
step s (emits e now) = (emit s e now).0
step s clears = clear s

unfoldable pub run : State → List Call → State
run s [] = s
run s (c ∷ cs) = run (step s c) cs

-- All records accepted since the last clear, with no bound, and the next sequence number.
pub record Log : Type 0 where
  pub entries : List Record
  pub next : ℕ

unfoldable pub log_step : Log → Call → Log
log_step l (emits e now) =
    if is_refused e
    then l
    else record { entries = l.entries ++ filled_slot l.next e now ∷ []; next = u32 (l.next + 1) }
log_step l clears = record l { entries = [] }

unfoldable pub log_run : Log → List Call → Log
log_run l [] = l
log_run l (c ∷ cs) = log_run (log_step l c) cs

abbrev pub empty_log : Log
empty_log = record { entries = []; next = 0 }

-- The ring holds the last records of the log.
record Shows (s : State) (l : Log) : Type 0 where
  valid : IsValid s
  held : contents s ≡ last_n (depth s) l.entries
  numbered : s.next_sequence ≡ l.next

pub emit_refused :
    (s : State) (e : Emission) (now : ℕ)
    → is_refused e ≡ true
    → (emit s e now).0 ≡ record s { rejected_count = u32 (s.rejected_count + 1) }
unfolding emit
emit_refused s e now h = rw h

pub emit_accepted :
    (s : State) (e : Emission) (now : ℕ) → is_refused e ≡ false → (emit s e now).0 ≡ store s e now
unfolding emit
emit_accepted s e now h = rw h

pub next_sequence-store :
    (s : State) (e : Emission) (now : ℕ) → (store s e now).next_sequence ≡ u32 (s.next_sequence + 1)
unfolding store
next_sequence-store s e now = ground arith

store-Shows :
    {s : State} {l : Log} (e : Emission) (now : ℕ)
    → Shows s l
    → Shows
        (store s e now)
        (record { entries = l.entries ++ filled_slot l.next e now ∷ []; next = u32 (l.next + 1) })
store-Shows {s} {l} e now h = record {
  valid = store-IsValid e now h.valid;
  held =
      contents-store s e now h.valid
      ∙ ap (λ xs. last_n (depth s) (xs ++ filled_slot s.next_sequence e now ∷ [])) h.held
      ∙ last_n-append-last_n (depth s) l.entries _
      ∙ ap₂ (λ d q. last_n d (l.entries ++ filled_slot q e now ∷ [])) (sym (depth-store s e now))
          h.numbered;
  numbered = next_sequence-store s e now ∙ ap (λ q. u32 (q + 1)) h.numbered;
}

step-Shows : {s : State} {l : Log} (c : Call) → Shows s l → Shows (step s c) (log_step l c)
unfolding step log_step clear
step-Shows {s} {l} (emits e now) h = elim (Bool-cases (is_refused e)) [
  | inl bad ↦
      rw (emit_refused s e now bad, bad)
        (record { valid = omega (arith, h.valid); held = h.held; numbered = h.numbered })
  | inr good ↦ rw (emit_accepted s e now good, good) (store-Shows e now h)
]
step-Shows {s} {l} clears h = record {
  valid = clear-IsValid h.valid;
  held = sym (drop-nil _);
  numbered = h.numbered;
}

run-Shows : (cs : List Call) {s : State} {l : Log} → Shows s l → Shows (run s cs) (log_run l cs)
unfolding run log_run
run-Shows [] h = h
run-Shows (c ∷ cs) h = run-Shows cs (step-Shows c h)

boot-Shows : (n : ℕ) → 0 < n → n < 0x1_0000 → Shows (boot n) empty_log
unfolding boot
boot-Shows n p q = record { valid = boot-IsValid n p q; held = sym (drop-nil _); numbered = refl }

pub step-IsValid : {s : State} (c : Call) → IsValid s → IsValid (step s c)
unfolding step
step-IsValid (emits e now) v = emit-IsValid e now v
step-IsValid clears v = clear-IsValid v

depth-step : (s : State) (c : Call) → depth (step s c) ≡ depth s
unfolding step emit clear
depth-step s (emits e now) = ground (arith, depth-store s e now)
depth-step s clears = refl

depth-run : (s : State) (cs : List Call) → depth (run s cs) ≡ depth s
unfolding run
depth-run s [] = refl
depth-run s (c ∷ cs) = depth-run (step s c) cs ∙ depth-step s c

-- After any calls from boot, a ring of `n` records (1 to 65535) holds, oldest first, exactly the
-- last `n` of the records accepted since the last clear, and numbers the next record as the
-- unbounded log does: a full ring overwrites its oldest record and a refused event leaves no trace.
pub contents-run :
    (n : ℕ) (cs : List Call)
    → 0 < n
    → n < 0x1_0000
    → (contents (run (boot n) cs) ≡ last_n n (log_run empty_log cs).entries)
      × ((run (boot n) cs).next_sequence ≡ (log_run empty_log cs).next)
unfolding boot
contents-run n cs p q =
    let shown = run-Shows cs (boot-Shows n p q) in
    let size : depth (run (boot n) cs) ≡ n =
      depth-run (boot n) cs ∙ length-replicate n zero_record in
    (shown.held ∙ ap (λ d. last_n d (log_run empty_log cs).entries) size, shown.numbered)
