-- ===== src/Gndwdt/Contact.antt =====
-- The contact with the ground and the reset of gndwdt.c.
use kfsw_services.Common.{
  ℕ, ◌+◌, ◌*◌, ◌/◌, ◌≤◌, ◌<◌, ◌≡◌, ◌↔◌, refl, ◌∙◌, Bool, true, false, not, ◌&&◌, some, List, [],
  ◌∷◌, if◌then◌else◌, arith, list_eq,
}
use kfsw_services.Common.Words.{sub_u64, u32_max}
use kfsw_services.Common.Codes.{etimedout}
use kfsw_services.Event
use kfsw_services.Gndwdt.{
  Config, State, start, stop, ground_wtd, evaluate, set_timeout_s, set_enabled, work_handler,
  get_word, feed_word, get_status, expiry_event,
}

-- The timeout stays in the range that Kconfig sets, and a decided reset belongs to a started
-- service.
pub record IsConsistent (c : Config) (s : State) : Type 0 where
  pub at_least : c.timeout_min_s ≤ s.timeout_s
  pub at_most : s.timeout_s ≤ c.timeout_max_s
  pub decided : s.resetting ≡ true → s.running ≡ true
  pub pending : s.reset_scheduled ≡ true → s.resetting ≡ true

-- What can happen to the service. A `commands` is any call of the ground_wtd command.
pub data Call : Type 0 where
  starts : Call
  stops : Call
  commands : List ℕ → Bool → ℕ → Call
  works : Call
  sets_timeout : ℕ → Call
  sets_enabled : Bool → Call

module _ (c : Config) where
  unfoldable pub step : State → ℕ → Call → State
  step s now starts = (start s now).0
  step s now stops = (stop s).0
  step s now (commands text via_csp node) = (ground_wtd s text via_csp node now).0
  step s now works = work_handler s now
  step s now (sets_timeout value) = (set_timeout_s c s value).0
  step s now (sets_enabled value) = set_enabled s value

  unfoldable pub run : State → List (ℕ × Call) → State
  run s [] = s
  run s ((now, call) ∷ cs) = run (step s now call) cs

  -- Every call keeps the timeout in its range, and a reset is only ever decided, or scheduled, while
  -- the service runs.
  pub step-IsConsistent :
      {s : State} (now : ℕ) (call : Call) → IsConsistent c s → IsConsistent c (step s now call)
  unfolding step start stop ground_wtd work_handler set_timeout_s set_enabled
  step-IsConsistent now starts v = ground arith
  step-IsConsistent now stops v = ground arith
  step-IsConsistent now (commands text via_csp node) v = ground arith
  step-IsConsistent now works v = ground arith
  step-IsConsistent now (sets_timeout value) v = ground arith
  step-IsConsistent now (sets_enabled value) v = ground arith

abbrev pub is_feed : Call → Bool
is_feed (commands text via_csp node) =
    via_csp && list_eq text feed_word && not (list_eq text get_word)
is_feed _ = false

-- The calls come in the order of their times, and each comes less than `minimum` seconds after the
-- last feed before it (or after `last`, where the trace begins).
abbrev pub IsFed : ℕ → ℕ → ℕ → List (ℕ × Call) → Type 0
IsFed minimum last previous [] = Unit {0}
IsFed minimum last previous ((now, call) ∷ cs) =
    (previous ≤ now)
    × (now < 0x1_0000_0000_0000_0000)
    × (now < last + minimum * 1000)
    × IsFed minimum (if is_feed call then now else last) now cs

-- The countdown of a running service began at the last feed or later, and no reset is decided.
pub record IsHeard (c : Config) (last previous : ℕ) (s : State) : Type 0 where
  pub at_least : c.timeout_min_s ≤ s.timeout_s
  pub since : s.running ≡ true → (last ≤ s.last_contact_ms) × (s.last_contact_ms ≤ previous)
  pub order : last ≤ previous
  pub not_decided : s.resetting ≡ false
  pub not_pending : s.reset_scheduled ≡ false

module _ (c : Config) where
  step-IsHeard :
      {s : State} {last previous : ℕ} (now : ℕ) (call : Call)
      → IsHeard c last previous s
      → previous ≤ now
      → now < 0x1_0000_0000_0000_0000
      → now < last + c.timeout_min_s * 1000
      → IsHeard c (if is_feed call then now else last) now (step c s now call)
        × ((step c s now call).expiries ≡ s.expiries)
  unfolding step start stop ground_wtd work_handler set_timeout_s set_enabled
  step-IsHeard now starts h p q r = ground arith
  step-IsHeard now stops h p q r = ground arith
  step-IsHeard now (commands text via_csp node) h p q r = ground arith
  step-IsHeard now works h p q r = ground arith
  step-IsHeard now (sets_timeout value) h p q r = ground arith
  step-IsHeard now (sets_enabled value) h p q r = ground arith

  -- A node that gets a valid feed (over CSP, with the feed word) before the shortest allowed timeout
  -- has passed since the last one decides no reset, schedules none and counts no expiry, whatever
  -- else is called, as long as the work handler runs undisturbed.
  pub run_never_resets :
      (cs : List (ℕ × Call)) {s : State} {last previous : ℕ}
      → IsHeard c last previous s
      → IsFed c.timeout_min_s last previous cs
      → ((run c s cs).resetting ≡ false)
        × ((run c s cs).reset_scheduled ≡ false)
        × ((run c s cs).expiries ≡ s.expiries)
  unfolding run
  run_never_resets [] h f = (h.not_decided, h.not_pending, refl)
  run_never_resets ((now, call) ∷ cs) h (p, q, r, f) =
      let kept = step-IsHeard now call h p q r in
      let rest = run_never_resets cs kept.0 f in (rest.0, rest.1, rest.2 ∙ kept.1)

-- The status and the check agree: for a running, enabled service with no reset decided and a
-- 32-bit timeout, `remaining_s` is zero exactly when a check at the same time expires.
pub status-evaluate :
    (s : State) (now : ℕ)
    → s.running ≡ true
    → s.enabled ≡ true
    → s.resetting ≡ false
    → s.timeout_s ≤ u32_max
    → ((get_status s now).remaining_s ≡ 0) ↔ ((evaluate s now).1 ≡ etimedout)
unfolding get_status evaluate
status-evaluate s now a b d t = ground arith

-- A silent node is reset: if the timeout has passed since the last contact of a running, enabled
-- service, the next run of the work handler, with no other thread between its sections, decides and
-- schedules the reset, and its event is one that the event ring accepts.
pub silence_resets :
    (s : State) (now : ℕ)
    → s.running ≡ true
    → s.enabled ≡ true
    → s.timeout_s ≤ sub_u64 now s.last_contact_ms / 1000
    → s.resetting ≡ false
    → ((work_handler s now).resetting ≡ true)
      × ((work_handler s now).reset_scheduled ≡ true)
      × ((evaluate s now).2 ≡ some (expiry_event s.timeout_s))
      × (Event.is_refused (expiry_event s.timeout_s) ≡ false)
unfolding work_handler evaluate Event.is_refused
silence_resets s now a b t d = ground arith
