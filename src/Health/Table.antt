-- ===== src/Health/Table.antt =====
-- The component table of health.c: what every operation keeps true, and what a registration stores.
use kfsw_services.Common.{
  ℕ, zero, suc, ◌+◌, ◌≤◌, ◌≡◌, refl, subst, true, false, none, some, List, [], ◌∷◌, map, arith,
  if◌then◌else◌, length, length-set, get_elem?, set, length-take, All, Option-cases, Bool-cases,
  inl, inr,
}
use kfsw_services.Common.Words.{sat_inc, u8}
use kfsw_services.Health.{
  Entry, State, working, Watchdog, registered, first_free, register, used_entry, unregister, report,
  same_prefix, name_size,
}
use kfsw_services.Health.Supervise.{
  scan, evaluate, start, set_interval_ms, just_reported, work_handler,
}

abbrev pub used_count : List Entry → ℕ
used_count [] = 0
used_count (e ∷ es) = (if e.used then 1 else 0) + used_count es

-- A stored name fits its field with the terminator.
abbrev pub HasShortName : Entry → Type 0
HasShortName e = length e.name ≤ 15

-- The table is at most as long as Kconfig allows (32), `count` counts the entries in use, every
-- name fits, and the watchdog is fed only while all deadlines are met.
pub record IsWellFormed (s : State) : Type 0 where
  pub small : length s.entries ≤ 32
  pub counted : s.count ≡ used_count s.entries
  pub named : All HasShortName s.entries
  pub fed_while_working : s.feeding ≡ true → s.mode ≡ working

pub used_count-le : (es : List Entry) → used_count es ≤ length es
used_count-le [] = omega arith
used_count-le (e ∷ es) = ground (arith, used_count-le es)

none≢some : {e : Entry} → none ≡ some e → ⊥
none≢some h = cc

-- An entry put in place of another.
pub used_count-set :
    (es : List Entry) (i : ℕ) (old new : Entry)
    → get_elem? es i ≡ some old
    → used_count (set es i new) + (if old.used then 1 else 0)
      ≡ used_count es + (if new.used then 1 else 0)
used_count-set [] i old new h = absurd (none≢some h)
used_count-set (e ∷ es) zero old new h = ground arith
used_count-set (e ∷ es) (suc i) old new h = ground (arith, used_count-set es i old new h)

pub All-set {κ} :
    (P : Entry → Type κ) (es : List Entry) (i : ℕ) (new : Entry)
    → All P es
    → P new
    → All P (set es i new)
All-set P [] i new h p = h
All-set P (e ∷ es) zero new h p = (p, h.1)
All-set P (e ∷ es) (suc i) new h p = (h.0, All-set P es i new h.1 p)

pub All-get_elem? {κ} :
    (P : Entry → Type κ) (es : List Entry) (i : ℕ) (e : Entry)
    → All P es
    → get_elem? es i ≡ some e
    → P e
All-get_elem? P [] i e h q = absurd (none≢some q)
All-get_elem? P (x ∷ es) zero e h q = let same : x ≡ e = cc in subst P same h.0
All-get_elem? P (x ∷ es) (suc i) e h q = All-get_elem? P es i e h.1 q

pub first_free-get_elem? :
    (es : List Entry) (i : ℕ)
    → first_free es ≡ some i
    → (e : Entry) × (get_elem? es i ≡ some e) × (e.used ≡ false)
unfolding first_free
first_free-get_elem? [] i h = absurd (none≢some' h)
  where
    none≢some' : none ≡ some i → ⊥
    none≢some' q = cc
first_free-get_elem? (e ∷ es) i h = elim (Bool-cases e.used) [
  | inl taken ↦ elim (Option-cases (first_free es)) [
    | inl full ↦ let stuck : none ≡ some i = ground arith in absurd (none≢some' stuck)
    | inr (j, free) ↦
        let there = first_free-get_elem? es j free in
        let at : suc j ≡ i = ground arith in rw (← at) there
  ]
  | inr free ↦ let at : 0 ≡ i = ground arith in rw (← at) (e, refl, free)
]
  where
    none≢some' : none ≡ some i → ⊥
    none≢some' q = cc

used_entry-get_elem? :
    (s : State) (i : ℕ) (e : Entry)
    → used_entry s i ≡ some e
    → (get_elem? s.entries i ≡ some e) × (e.used ≡ true)
unfolding used_entry
used_entry-get_elem? s i e h = ground arith

-- One entry is replaced, and the count moves with it.
replace-IsWellFormed :
    {s : State} (i count : ℕ) (old new : Entry) (by : List ℕ)
    → IsWellFormed s
    → get_elem? s.entries i ≡ some old
    → HasShortName new
    → count + (if old.used then 1 else 0) ≡ s.count + (if new.used then 1 else 0)
    → IsWellFormed (record s { entries = set s.entries i new; count = count; faulted_by = by })
replace-IsWellFormed {s} i count old new by v at short moved = record {
  small = omega (arith, length-set s.entries i new, v.small);
  counted = omega (arith, used_count-set s.entries i old new at, moved, v.counted);
  named = All-set HasShortName s.entries i new v.named short;
  fed_while_working = v.fed_while_working;
}

pub register-IsWellFormed :
    (s : State) (name : List ℕ) (deadline_ms now : ℕ)
    → IsWellFormed s
    → IsWellFormed (register s name deadline_ms now).0
unfolding register
register-IsWellFormed s name deadline_ms now v = elim (Option-cases (first_free s.entries)) [
  | inl full ↦ ground (arith, v)
  | inr (i, free) ↦
      let at = first_free-get_elem? s.entries i free in
      let kept =
        replace-IsWellFormed i (u8 (s.count + 1)) at.0 (registered name deadline_ms now)
          s.faulted_by v at.1 (omega (arith, length-take 15 name))
          (ground (arith, at.2, used_count-le s.entries, v)) in
      ground (arith, v, kept)
]

unregister-IsWellFormed :
    (s : State) (handle : ℕ) → IsWellFormed s → IsWellFormed (unregister s handle).0
unfolding unregister
unregister-IsWellFormed s handle v = elim (Option-cases (used_entry s handle)) [
  | inl missing ↦ ground (arith, v)
  | inr (e, there) ↦
      let at = used_entry-get_elem? s handle e there in
      let freed : Entry = record e { used = false; name = [] } in
      let by = if same_prefix name_size s.faulted_by e.name then [] else s.faulted_by in
      let kept = replace-IsWellFormed handle (u8 (s.count + 255)) e freed by v at.0 (omega arith) (
        ground (
          arith,
          at.1,
          used_count-le s.entries,
          used_count-set s.entries handle e freed at.0,
          v,
        )) in
      ground (arith, there, kept)
]

report-IsWellFormed :
    (s : State) (handle now : ℕ) → IsWellFormed s → IsWellFormed (report s handle now).0
unfolding report
report-IsWellFormed s handle now v = elim (Option-cases (used_entry s handle)) [
  | inl missing ↦ ground (arith, v)
  | inr (e, there) ↦
      let at = used_entry-get_elem? s handle e there in
      let fresh : Entry = record e { last_report_ms = now; reports = sat_inc e.reports } in
      let kept =
        replace-IsWellFormed handle s.count e fresh s.faulted_by v at.0
          (All-get_elem? HasShortName s.entries handle e v.named at.0) refl in
      ground (arith, there, kept)
]

-- The loop of an evaluation changes warning flags only.
scan-kept :
    (now : ℕ) (es : List Entry)
    → All HasShortName es
    → (length (scan now es).0 ≡ length es)
      × (used_count (scan now es).0 ≡ used_count es)
      × All HasShortName (scan now es).0
unfolding scan
scan-kept now [] h = (refl, refl, tt)
scan-kept now (e ∷ es) h = ground (arith, scan-kept now es h.1)

pub evaluate-IsWellFormed :
    (w : Watchdog) (s : State) (now : ℕ) → IsWellFormed s → IsWellFormed (evaluate w s now).0
unfolding evaluate
evaluate-IsWellFormed w s now v = ground (arith, scan-kept now s.entries v.named)

just_reported-kept :
    (now : ℕ) (es : List Entry)
    → All HasShortName es
    → (length (map (just_reported now) es) ≡ length es)
      × (used_count (map (just_reported now) es) ≡ used_count es)
      × All HasShortName (map (just_reported now) es)
just_reported-kept now [] h = (refl, refl, tt)
just_reported-kept now (e ∷ es) h = ground (arith, just_reported-kept now es h.1)

start-IsWellFormed :
    (w : Watchdog) (s : State) (now : ℕ) → IsWellFormed s → IsWellFormed (start w s now).0
unfolding start
start-IsWellFormed w s now v = ground (arith, just_reported-kept now s.entries v.named)

-- The calls that change the service.
pub data Call : Type 0 where
  registers : List ℕ → ℕ → Call
  unregisters : ℕ → Call
  reports : ℕ → Call
  evaluates : Call
  works : Call
  starts : Call
  sets_interval : ℕ → Call

module _ (w : Watchdog) where
  unfoldable pub step : State → ℕ → Call → State
  step s now (registers name deadline_ms) = (register s name deadline_ms now).0
  step s now (unregisters handle) = (unregister s handle).0
  step s now (reports handle) = (report s handle now).0
  step s now evaluates = (evaluate w s now).0
  step s now works = work_handler w s now
  step s now starts = (start w s now).0
  step s now (sets_interval interval_ms) = (set_interval_ms w s interval_ms).0

  -- Every call of the service, whatever it returns, keeps the invariant: `count` is the number of
  -- components in use, the names fit their fields, and `feeding` is only set while the last
  -- evaluation found every deadline met.
  pub step-IsWellFormed :
      (s : State) (now : ℕ) (call : Call) → IsWellFormed s → IsWellFormed (step s now call)
  unfolding step work_handler set_interval_ms
  step-IsWellFormed s now (registers name deadline_ms) v =
      register-IsWellFormed s name deadline_ms now v
  step-IsWellFormed s now (unregisters handle) v = unregister-IsWellFormed s handle v
  step-IsWellFormed s now (reports handle) v = report-IsWellFormed s handle now v
  step-IsWellFormed s now evaluates v = evaluate-IsWellFormed w s now v
  step-IsWellFormed s now works v =
      let kept = evaluate-IsWellFormed w s now v in
      record {
        small = kept.small;
        counted = kept.counted;
        named = kept.named;
        fed_while_working = kept.fed_while_working;
      }
  step-IsWellFormed s now starts v = start-IsWellFormed w s now v
  step-IsWellFormed s now (sets_interval interval_ms) v = ground (arith, v)
