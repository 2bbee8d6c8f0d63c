-- ===== src/Schedule/Sweep.antt =====
-- src/fbo/fbo_schedule.c: the release thread. The lock is not held between the choice of an entry and
-- the start of its release, nor while its command runs: the calls that other threads, or the command
-- itself, make there are lists of requests.
use kfsw_services.Common.{
  ℕ, zero, suc, ◌+◌, ◌-◌, ◌*◌, ◌/◌, Bool, true, false, not, ◌&&◌, ◌||◌, Option, none, some, List,
  [], ◌∷◌, ◌++◌, ltb, ◌==◌, if◌then◌else◌, get_elem?,
}
use kfsw_services.Common.Words.{u8, u16, sat_inc, put_be16}
use kfsw_services.Common.Codes.{Code, ok, err, success, etime, enotsup}
use kfsw_services.Event.{Emission}
use kfsw_services.Schedule.{
  Entry, entry_running, entry_completed, entry_failed, entry_overdue, Slot, State, Commands, Config,
  Clock, time_relative, build, waits, update,
}
use kfsw_services.Schedule.Queue.{Request, serve_all}

-- `kfsw_fbo_note`: the source is KFSW_EVENT_SOURCE_FBO.
abbrev pub fbo_note : ℕ → ℕ → ℕ → Emission
fbo_note id severity detail = record {
  source = 5;
  id = id;
  severity = severity;
  payload = some (put_be16 detail);
  payload_size = 2;
}

-- `due_now`: how late an entry is in seconds, if its time has come.
unfoldable pub due_now : Clock → Slot → Option ℕ
due_now clock sl =
    if sl.entry.kind == time_relative
    then if ltb clock.mono sl.due_uptime_ms
      then none
      else some ((clock.mono - sl.due_uptime_ms) / 1000)
    else elim clock.utc [
      | none ↦ none
      | some utc ↦ if ltb utc sl.entry.due_utc then none else some (utc - sl.entry.due_utc)
    ]

-- What the loop of `sweep` does with a slot: passes it by, marks it overdue, or has it as a candidate.
pub data Turn : Type 0 where
  passed : Turn
  too_late : Turn
  ready : ℕ → Turn

unfoldable pub turn : Clock → ℕ → Slot → Turn
turn clock latency_s sl = if not (waits sl) then passed else elim (due_now clock sl) [
  | none ↦ passed
  | some lateness ↦ if ltb latency_s lateness then too_late else ready lateness
]

abbrev pub overdue_slot : Slot → Slot
overdue_slot sl = record sl { entry = record (sl.entry) { status = entry_overdue; result = etime } }

-- What the loop leaves of the slots, its counter, its events, and the candidate: the index, and the
-- lateness of it.
unfoldable pub marked : Clock → ℕ → List Slot → List Slot
marked clock latency_s [] = []
marked clock latency_s (sl ∷ sls) =
    let rest = marked clock latency_s sls in
    elim (turn clock latency_s sl) [
      | passed ↦ sl ∷ rest
      | too_late ↦ overdue_slot sl ∷ rest
      | ready lateness ↦ sl ∷ rest
    ]

unfoldable pub count_overdue : Clock → ℕ → ℕ → List Slot → ℕ
count_overdue clock latency_s overdues [] = overdues
count_overdue clock latency_s overdues (sl ∷ sls) = elim (turn clock latency_s sl) [
  | passed ↦ count_overdue clock latency_s overdues sls
  | too_late ↦ count_overdue clock latency_s (sat_inc overdues) sls
  | ready lateness ↦ count_overdue clock latency_s overdues sls
]

unfoldable pub overdue_notes : Clock → ℕ → ℕ → List Slot → List Emission
overdue_notes clock latency_s i [] = []
overdue_notes clock latency_s i (sl ∷ sls) =
    let rest = overdue_notes clock latency_s (suc i) sls in
    elim (turn clock latency_s sl) [
      | passed ↦ rest
      | too_late ↦ fbo_note 5 2 (u16 i) ∷ rest
      | ready lateness ↦ rest
    ]

-- The candidate behind one more slot.
unfoldable pub better : ℕ → Turn → Option (ℕ × ℕ) → Option (ℕ × ℕ)
better i passed so_far = so_far
better i too_late so_far = so_far
better i (ready lateness) none = some (i, lateness)
better i (ready lateness) (some (j, earliest)) =
    if ltb earliest lateness then some (i, lateness) else some (j, earliest)

unfoldable pub candidate : Clock → ℕ → ℕ → Option (ℕ × ℕ) → List Slot → Option (ℕ × ℕ)
candidate clock latency_s i so_far [] = so_far
candidate clock latency_s i so_far (sl ∷ sls) =
    candidate clock latency_s (suc i) (better i (turn clock latency_s sl) so_far) sls

-- One pass of the loop of `sweep` under the lock: what it leaves, and its candidate.
unfoldable pub examine : Clock → State → State × Option ℕ
examine clock s = (
  record s {
    slots = marked clock s.latency_s s.slots;
    overdues = count_overdue clock s.latency_s s.overdues s.slots;
  },
  elim (candidate clock s.latency_s 0 none s.slots) [ none ↦ none | some found ↦ some found.0 ],
)

-- One release of a sweep: the command service at that time, the calls between the choice of the entry
-- and the start of the release, and those while the command runs.
pub record Surroundings : Type 0 where
  pub commands : Commands
  pub before : List Request
  pub meanwhile : List Request

-- `invoke`: the outcome, and the status in `*result`.
unfoldable pub invoke : Config → Commands → Entry → Code × ℕ
invoke cfg c e = elim (build c e.line) [
  | err code ↦ (code, 0)
  | ok found ↦
      if e.node == 0
      then c.invoke found.0.name found.1
      else if cfg.command_csp
      then c.invoke_remote e.node found.0.name found.1
      else (enotsup, 0)
]

abbrev pub started : Option ℕ → Slot → Slot
started utc sl = record sl {
  entry = record (sl.entry) {
    status = entry_running;
    released_utc = elim utc [ none ↦ 0 | some now ↦ now ];
  };
}

-- `release` up to the call of `invoke`.
unfoldable pub begin : Option ℕ → ℕ → State → State
begin utc i s = record s { slots = update (started utc) i s.slots; releases = sat_inc s.releases }

-- KFSW_COMMAND_OK is 0.
abbrev pub has_failed : Code × ℕ → Bool
has_failed (outcome, status) = not (outcome == success) || not (status == 0)

abbrev pub reported : Code × ℕ → Slot → Slot
reported answer sl = record sl {
  entry = record (sl.entry) {
    result = answer.0;
    command_status = u8 answer.1;
    status = if has_failed answer then entry_failed else entry_completed;
  };
}

-- `release` behind the call of `invoke`.
unfoldable pub finish : ℕ → Code × ℕ → State → State
finish i answer s = record s {
  slots = update (reported answer) i s.slots;
  last_error = if has_failed answer then answer.0 else s.last_error;
}

-- `entry = slots[index].entry`: the copy that is invoked. A candidate is an index of the slots.
abbrev pub copied : State → ℕ → List Entry
copied s i = elim (get_elem? s.slots i) [ none ↦ [] | some sl ↦ sl.entry ∷ [] ]

-- What a sweep leaves: the state, the events in order, and the entries that were invoked.
pub record Swept : Type 0 where
  pub state : State
  pub notes : List Emission
  pub invoked : List Entry

module _ (crc_update : ℕ → List ℕ → ℕ) (cfg : Config) where
  abbrev pub answer_of : Surroundings → List Entry → Code × ℕ
  answer_of env [] = (success, 0)
  answer_of env (e ∷ es) = invoke cfg env.commands e

  -- `release`.
  unfoldable pub release : Surroundings → Option ℕ → ℕ → State → Swept
  release env utc i s =
      let s1 = begin utc i s in
      let copy = copied s1 i in
      let s2 = serve_all crc_update cfg env.meanwhile s1 in
      record {
        state = finish i (answer_of env copy) s2;
        notes = fbo_note 4 0 (u16 i) ∷ [];
        invoked = copy;
      }

  -- The loop of `sweep`, with the releases that are left of the burst.
  unfoldable pub sweep_from : ℕ → (ℕ → Surroundings) → Clock → State → Swept
  sweep_from zero env clock s = record { state = s; notes = []; invoked = [] }
  sweep_from (suc left) env clock s =
      let seen = examine clock s in
      let notes = overdue_notes clock s.latency_s 0 s.slots in
      elim seen.1 [
        | none ↦ record { state = seen.0; notes = notes; invoked = [] }
        | some i ↦
            let s1 = serve_all crc_update cfg (env left).before seen.0 in
            let one = release (env left) clock.utc i s1 in
            let more = sweep_from left env clock one.state in
            record {
              state = more.state;
              notes = notes ++ (one.notes ++ more.notes);
              invoked = one.invoked ++ more.invoked;
            }
      ]

  -- `sweep`.
  abbrev pub sweep : (ℕ → Surroundings) → Clock → State → Swept
  sweep env clock s = sweep_from cfg.burst env clock s

-- `drift > CONFIG_KFSW_FBO_SCHEDULE_STEP_MS` or `drift < -CONFIG_KFSW_FBO_SCHEDULE_STEP_MS`, where
-- `drift` is the wall clock's advance less the monotonic clock's.
abbrev pub is_step : ℕ → ℕ → ℕ → State → Bool
is_step step_ms utc mono s =
    let gained = utc * 1000 + s.last_mono in
    let lost = s.last_utc * 1000 + mono in
    ltb (lost + step_ms) gained || ltb (gained + step_ms) lost

-- `check_step`, with its event.
unfoldable pub check_step : Config → Clock → State → State × List Emission
check_step cfg clock s = elim clock.utc [
  | none ↦ (record s { have_last = false }, [])
  | some utc ↦
      let after = record s { last_utc = utc; last_mono = clock.mono; have_last = true } in
      if s.have_last && is_step cfg.step_ms utc clock.mono s
      then (
        record after { clock_steps = sat_inc s.clock_steps },
        fbo_note 6 1 (u16 (sat_inc s.clock_steps)) ∷ [],
      )
      else (after, [])
]
