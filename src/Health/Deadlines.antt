-- ===== src/Health/Deadlines.antt =====
-- When `kfsw_health_evaluate` feeds the watchdog, and what a fault reports.
use kfsw_services.Common.{
  ℕ, ◌+◌, ◌≤◌, ◌<◌, ◌≡◌, ◌≢◌, ◌↔◌, refl, sym, ◌∙◌, true, false, Option, none, some, List, [], ◌∷◌,
  map, arith, get_elem?, set, All, Option-cases, Bool-cases, inl, inr, ◌⊎◌, get_elem?-set-some,
}
use kfsw_services.Common.Words.{u32}
use kfsw_services.Common.Codes.{ok, success, etimedout}
use kfsw_services.Event
use kfsw_services.Event.{Emission}
use kfsw_services.Health.{
  Entry, State, working, faulted, Watchdog, registered, first_free, register,
}
use kfsw_services.Health.Supervise.{
  scan, evaluate, start, set_interval_ms, is_stopped, is_working, just_reported, elapsed_ms,
  fault_event, timeout_in_force,
}
use kfsw_services.Health.Table.{first_free-get_elem?, All-get_elem?}

-- The test of the code, in which the silence is cut to 32 bits.
abbrev MeetsCut : ℕ → Entry → Type 0
MeetsCut now e = e.used ≡ true → elapsed_ms now e ≤ e.deadline_ms

-- The loop finds an overdue entry exactly if there is one, and then the first.
scan_met : (now : ℕ) (es : List Entry) → All (MeetsCut now) es → (scan now es).1 ≡ none
unfolding scan
scan_met now [] h = refl
scan_met now (e ∷ es) h = ground (arith, h.0, scan_met now es h.1)

scan-none : (now : ℕ) (es : List Entry) → (scan now es).1 ≡ none → All (MeetsCut now) es
unfolding scan
scan-none now [] h = tt
scan-none now (e ∷ es) h = (ground arith, scan-none now es (ground arith))

evaluate_cut :
    (w : Watchdog) (s : State) (now : ℕ)
    → is_stopped s.mode ≡ false
    → (((evaluate w s now).1.fed ≡ true) ↔ All (MeetsCut now) s.entries)
      × (((evaluate w s now).1.code ≡ success) ↔ All (MeetsCut now) s.entries)
      × (((evaluate w s now).1.fed ≡ true)
          ⊎ (((evaluate w s now).1.code ≡ etimedout)
              × ((evaluate w s now).0.mode ≡ faulted)
              × ((evaluate w s now).0.feeding ≡ false)))
unfolding evaluate
evaluate_cut w s now runs = elim (Option-cases (scan now s.entries).1) [
  | inl met ↦
      let all = scan-none now s.entries met in
      ((λ _. all, ground arith), (λ _. all, ground arith), ground arith)
  | inr (e, missed) ↦
      let broken =
        λ (h : All (MeetsCut now) s.entries). some≢none (sym missed ∙ scan_met now s.entries h) in
      (
        (λ fed. absurd (ground arith), λ h. absurd (broken h)),
        (λ fed. absurd (ground arith), λ h. absurd (broken h)),
        ground arith,
      )
]
  where
    some≢none : {x : Entry} → some x ≡ none → ⊥
    some≢none q = cc

-- A component in use is silent for no longer than its deadline.
abbrev pub MeetsDeadline : ℕ → Entry → Type 0
MeetsDeadline now e = e.used ≡ true → now ≤ e.last_report_ms + e.deadline_ms

-- The last report is not in the future, and less than 2^32 ms ago.
abbrev pub IsRecent : ℕ → Entry → Type 0
IsRecent now e = (e.last_report_ms ≤ now) × (now < e.last_report_ms + 0x1_0000_0000)

elapsed-recent :
    (now : ℕ) (e : Entry)
    → now < 0x1_0000_0000_0000_0000
    → IsRecent now e
    → elapsed_ms now e + e.last_report_ms ≡ now
elapsed-recent now e small recent = omega (arith, small, recent.0, recent.1)

cut-deadline :
    (now : ℕ) (es : List Entry)
    → now < 0x1_0000_0000_0000_0000
    → All (IsRecent now) es
    → All (MeetsCut now) es
    → All (MeetsDeadline now) es
cut-deadline now [] small recent h = tt
cut-deadline now (e ∷ es) small recent h =
    let same = elapsed-recent now e small recent.0 in
    (λ used. let cut = h.0 used in omega (arith, same, cut), cut-deadline now es small recent.1 h.1)

deadline-cut :
    (now : ℕ) (es : List Entry)
    → now < 0x1_0000_0000_0000_0000
    → All (IsRecent now) es
    → All (MeetsDeadline now) es
    → All (MeetsCut now) es
deadline-cut now [] small recent h = tt
deadline-cut now (e ∷ es) small recent h =
    let same = elapsed-recent now e small recent.0 in
    (λ used. let met = h.0 used in omega (arith, same, met), deadline-cut now es small recent.1 h.1)

-- While supervision runs, at a time of 64 bits at which the last report of every entry of the table is
-- less than 2^32 ms ago and not in the future: an evaluation calls the feed of the watchdog exactly
-- when every component in use is within its deadline, and returns 0 exactly then, whatever the feed
-- answers; otherwise it returns -ETIMEDOUT and leaves the service faulted and not feeding.
pub evaluate_feeds :
    (w : Watchdog) (s : State) (now : ℕ)
    → is_stopped s.mode ≡ false
    → now < 0x1_0000_0000_0000_0000
    → All (IsRecent now) s.entries
    → (((evaluate w s now).1.fed ≡ true) ↔ All (MeetsDeadline now) s.entries)
      × (((evaluate w s now).1.code ≡ success) ↔ All (MeetsDeadline now) s.entries)
      × (((evaluate w s now).1.fed ≡ true)
          ⊎ (((evaluate w s now).1.code ≡ etimedout)
              × ((evaluate w s now).0.mode ≡ faulted)
              × ((evaluate w s now).0.feeding ≡ false)))
evaluate_feeds w s now runs small recent =
    let (fed, code, otherwise) = evaluate_cut w s now runs in
    let there = cut-deadline now s.entries small recent in
    let back = deadline-cut now s.entries small recent in
    (
      (λ h. there (fed.0 h), λ h. fed.1 (back h)),
      (λ h. there (code.0 h), λ h. code.1 (back h)),
      otherwise,
    )

-- Either a working service has become faulted, with one more fault counted and an event that the
-- ring accepts, or there is no event and no fault more.
abbrev pub ReportsOnce : State → State → Option Emission → Type 0
ReportsOnce s s' event =
    ((s.mode ≡ working)
      × (s'.mode ≡ faulted)
      × (s'.faults ≡ u32 (s.faults + 1))
      × ((e : Entry) × (event ≡ some (fault_event e)) × (Event.is_refused (fault_event e) ≡ false)))
    ⊎ ((event ≡ none) × (s'.faults ≡ s.faults) × ((s.mode ≡ working) → s'.mode ≡ working))

fault_event_accepted : (e : Entry) → Event.is_refused (fault_event e) ≡ false
unfolding Event.is_refused
fault_event_accepted e = ground arith

-- What an evaluation that finds an overdue entry reports.
reports_missed :
    (w : Watchdog) (s : State) (now : ℕ) (e : Entry)
    → (scan now s.entries).1 ≡ some e
    → ReportsOnce s (evaluate w s now).0 (evaluate w s now).1.event
unfolding evaluate
reports_missed w s now e missed = elim (Bool-cases (is_working s.mode)) [
  | inl was_ok ↦
      inl (ground arith, ground arith, ground arith, (e, ground arith, fault_event_accepted e))
  | inr faulty ↦ inr (ground arith)
]

-- A fault is reported once: the event and the fault count belong to the evaluation at which a
-- working service becomes faulted, and to no other; and the event is one that the ring accepts.
pub evaluate-ReportsOnce :
    (w : Watchdog) (s : State) (now : ℕ)
    → ReportsOnce s (evaluate w s now).0 (evaluate w s now).1.event
unfolding evaluate
evaluate-ReportsOnce w s now = elim (Option-cases (scan now s.entries).1) [
  | inl met ↦ ground arith
  | inr (e, missed) ↦ reports_missed w s now e missed
]

just_reported-met : (now : ℕ) (es : List Entry) → All (MeetsCut now) (map (just_reported now) es)
just_reported-met now [] = tt
just_reported-met now (e ∷ es) = (ground arith, just_reported-met now es)

-- A successful start counts every component as just reported: an evaluation at the same time feeds
-- the watchdog.
pub evaluate-start :
    (w : Watchdog) (s t : State) (now : ℕ)
    → start w s now ≡ (t, success)
    → (evaluate w t now).1.fed ≡ true
unfolding start evaluate
evaluate-start w s t now h =
    let met = scan_met now (map (just_reported now) s.entries) (just_reported-met now s.entries) in
    let table : t.entries ≡ map (just_reported now) s.entries = ground arith in
    let met' : (scan now t.entries).1 ≡ none = rw table met in ground arith

-- A component that was registered at `since` and stays silent for longer than its deadline, and
-- less than 2^32 ms, makes an evaluation withhold the feed.
pub evaluate-register_silent :
    (w : Watchdog) (s t : State) (name : List ℕ) (deadline_ms since now handle : ℕ)
    → register s name deadline_ms since ≡ (t, ok handle)
    → is_stopped s.mode ≡ false
    → since + deadline_ms < now
    → now < since + 0x1_0000_0000
    → now < 0x1_0000_0000_0000_0000
    → (evaluate w t now).1.fed ≡ false
unfolding register
evaluate-register_silent w s t name deadline_ms since now handle h runs a b c =
    elim (Option-cases (first_free s.entries)) [
      | inl full ↦ absurd (ground arith)
      | inr (i, free) ↦
          let at = first_free-get_elem? s.entries i free in
          let new = registered name deadline_ms since in
          let index : i ≡ handle = ground arith in
          let table : t.entries ≡ set s.entries i new = ground arith in
          let running : is_stopped t.mode ≡ false = ground arith in
          let there : get_elem? t.entries i ≡ some new =
            rw table (get_elem?-set-some s.entries i at.0 new at.1) in
          elim (Bool-cases (evaluate w t now).1.fed) [
            | inl fed ↦
                let all = (evaluate_cut w t now running).0.0 fed in
                let late = All-get_elem? (MeetsCut now) t.entries i new all there refl in
                absurd (omega (arith, late))
            | inr starved ↦ starved
          ]
    ]

-- An interval that is accepted, and by which a start succeeds, is one that the watchdog's feed
-- interval allows; a refused one changes nothing.
pub set_interval_ms_bounds :
    (w : Watchdog) (s : State) (interval_ms : ℕ)
    → let (t, code) = set_interval_ms w s interval_ms in
      ((code ≡ success)
        × (t.interval_ms ≡ interval_ms)
        × (0 < interval_ms)
        × ((timeout_in_force w ≡ 0) ⊎ (interval_ms ≤ w.feed_interval_ms (timeout_in_force w))))
      ⊎ ((code ≢ success) × (t ≡ s))
unfolding set_interval_ms
set_interval_ms_bounds w s interval_ms = ground arith
