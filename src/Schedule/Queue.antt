-- ===== src/Schedule/Queue.antt =====
-- src/fbo/fbo_schedule.c: the calls of an operator on the queue. A call of these changes the slots under
-- one acquisition of `queue_lock`, so it is one step; the tests that an addition makes before it, of its
-- text and its time, count to that step.
use kfsw_services.Common.{
  ℕ, suc, ◌+◌, ◌*◌, ◌/◌, Bool, true, false, not, ◌&&◌, ◌||◌, Option, none, some, List, [], ◌∷◌, leb,
  ltb, ◌==◌, if◌then◌else◌, length, get_elem?,
}
use kfsw_services.Common.Words.{u16, u32}
use kfsw_services.Common.Int.{ℤ, pos_part}
use kfsw_services.Common.Codes.{
  Code, ok, err, success, enoent, einval, eexist, enospc, erange, etime, enodata, enotsup, ealready,
}
use kfsw_services.Event.{bytes_of}
use kfsw_services.Schedule.{
  Slot, State, Info, Commands, Config, Clock, line_max, time_relative, time_absolute,
  entry_scheduled, entry_cancelled, cleared_slot, content_hash, build, live, is_scheduled,
  is_running, update,
}

-- KFSW_FBO_SCHEDULE_DELAY_MAX_S and KFSW_FBO_SCHEDULE_LATENCY_MAX_S.
abbrev pub delay_max_s : ℕ
delay_max_s = 604800

abbrev pub latency_max_s : ℕ
latency_max_s = 3600

-- `latency_floor_s`.
abbrev pub latency_floor_s : Config → ℕ
latency_floor_s cfg = if cfg.command_csp then (cfg.timeout_ms + 999) / 1000 else 1

-- `kfsw_fbo_schedule_check_latency_s`.
abbrev pub check_latency_s : Config → ℕ → Code
check_latency_s cfg seconds =
    if ltb seconds (latency_floor_s cfg) || ltb latency_max_s seconds then erange else success

-- `kfsw_fbo_schedule_set_latency_s`.
unfoldable pub set_latency_s : Config → ℕ → State → State × Code
set_latency_s cfg seconds s =
    if check_latency_s cfg seconds == success
    then (record s { latency_s = seconds }, success)
    else (s, check_latency_s cfg seconds)

-- The arguments of `kfsw_fbo_schedule_add`. `has_index` is that `index` is not null.
pub record Addition : Type 0 where
  pub kind : ℕ
  pub when : ℤ
  pub node : ℕ
  pub line : Option (List ℕ)
  pub has_index : Bool

-- What a call of it leaves: `index` is what it stores in `*index`, if it stores anything.
pub record Added : Type 0 where
  pub state : State
  pub code : Code
  pub index : Option ℕ

abbrev pub refused : State → Code → Added
refused s code = record {
  state = record s { refusals = u32 (s.refusals + 1) };
  code = code;
  index = none;
}

abbrev pub unchanged : State → Code → Added
unchanged s code = record { state = s; code = code; index = none }

-- The tests of the line and of its pointers.
abbrev pub line_is_bad : Addition → Bool
line_is_bad a = elim a.line [
  | none ↦ true
  | some text ↦ not a.has_index || length text == 0 || leb line_max (length text)
]

-- The two loops of one pass over the slots: the first live entry with the hash, and the first slot
-- that is not used.
unfoldable pub find_live : ℕ → List Slot → Option ℕ
find_live hash [] = none
find_live hash (s ∷ ss) =
    let rest = find_live hash ss in
    if live s && (s.entry.content_hash == hash)
    then some 0
    else elim rest [ none ↦ none | some i ↦ some (suc i) ]

unfoldable pub find_free : List Slot → Option ℕ
find_free [] = none
find_free (s ∷ ss) =
    let rest = find_free ss in
    if not s.used then some 0 else elim rest [ none ↦ none | some i ↦ some (suc i) ]

-- The slot that an accepted addition fills in.
abbrev pub filled : Addition → Info → ℕ → ℕ → ℕ → Slot
filled a info hash mono i = record {
  entry = record {
    line = bytes_of a.line;
    due_utc = if a.kind == time_relative then 0 else pos_part a.when;
    released_utc = 0;
    delay_s = if a.kind == time_relative then u32 (pos_part a.when) else 0;
    remaining_s = 0;
    content_hash = hash;
    result = 0;
    node = a.node;
    index = u16 i;
    command_id = info.id;
    kind = a.kind;
    status = entry_scheduled;
    command_status = 0;
  };
  due_uptime_ms = if a.kind == time_relative then mono + pos_part a.when * 1000 else 0;
  used = true;
}

-- The end of `kfsw_fbo_schedule_add`, from its search on.
unfoldable pub place : Addition → Info → ℕ → ℕ → State → Added
place a info hash mono s = elim (find_live hash s.slots) [
  | some i ↦ record { state = s; code = eexist; index = some (u16 i) }
  | none ↦ elim (find_free s.slots) [
    | none ↦ refused s enospc
    | some i ↦ record {
      state = record s { slots = update (λ old. filled a info hash mono i) i s.slots };
      code = success;
      index = some (u16 i);
    }
  ]
]

-- `kfsw_fbo_schedule_add` from its lock on.
unfoldable pub admit : (ℕ → List ℕ → ℕ) → Commands → ℕ → Addition → State → Added
admit crc_update c mono a s = elim (build c (bytes_of a.line)) [
  | err code ↦ refused s code
  | ok found ↦
      let hash = content_hash crc_update a.kind (pos_part a.when) a.node (bytes_of a.line) in
      place a found.0 hash mono s
]

-- The test of the time: the error, and whether it is counted as a refusal.
unfoldable pub check_time : Clock → State → Addition → Code × Bool
check_time clock s a =
    if a.kind == time_relative
    then if pos_part a.when == 0 || ltb delay_max_s (pos_part a.when)
      then (einval, false)
      else (success, false)
    else if pos_part a.when == 0
    then (einval, false)
    else elim clock.utc [
      | none ↦ (enodata, true)
      | some now_utc ↦
          if ltb (pos_part a.when + s.latency_s) now_utc then (etime, true) else (success, false)
    ]

-- `kfsw_fbo_schedule_add`.
unfoldable pub add : (ℕ → List ℕ → ℕ) → Config → Commands → Clock → Addition → State → Added
add crc_update cfg c clock a s =
    if line_is_bad a
    then unchanged s einval
    else if not (a.kind == time_relative) && not (a.kind == time_absolute)
    then unchanged s einval
    else if not ((check_time clock s a).0 == success)
    then if (check_time clock s a).1
      then refused s (check_time clock s a).0
      else unchanged s (check_time clock s a).0
    else if not cfg.command_csp && not (a.node == 0)
    then unchanged s enotsup
    else admit crc_update c clock.mono a s

abbrev pub cancelled : Slot → Slot
cancelled sl = record sl { entry = record (sl.entry) { status = entry_cancelled } }

-- `kfsw_fbo_schedule_cancel`. An index that is not below the capacity is one that the list does not
-- have.
unfoldable pub cancel : ℕ → State → State × Code
cancel i s = elim (get_elem? s.slots i) [
  | none ↦ (s, enoent)
  | some sl ↦
      if not sl.used
      then (s, enoent)
      else if not (is_scheduled sl.entry.status)
      then (s, ealready)
      else (record s { slots = update cancelled i s.slots }, success)
]

-- An entry that `kfsw_fbo_schedule_clear` drops.
abbrev pub is_dropped : Slot → Bool
is_dropped sl = sl.used && not (is_running sl.entry.status)

unfoldable pub dropped : List Slot → ℕ
dropped [] = 0
dropped (sl ∷ sls) = let rest = dropped sls in if is_dropped sl then suc rest else rest

unfoldable pub cleared_slots : List Slot → List Slot
cleared_slots [] = []
cleared_slots (sl ∷ sls) =
    let rest = cleared_slots sls in (if is_dropped sl then cleared_slot else sl) ∷ rest

-- `kfsw_fbo_schedule_clear`, with the number that it returns.
unfoldable pub clear : State → State × ℕ
clear s = (record s { slots = cleared_slots s.slots }, dropped s.slots)

-- A call of any of these from another thread, or from a command that a release runs.
pub data Request : Type 0 where
  add_request : Commands → Clock → Addition → Request
  cancel_request : ℕ → Request
  clear_request : Request
  latency_request : ℕ → Request

unfoldable pub serve : (ℕ → List ℕ → ℕ) → Config → Request → State → State
serve crc_update cfg (add_request c clock a) s = (add crc_update cfg c clock a s).state
serve crc_update cfg (cancel_request i) s = (cancel i s).0
serve crc_update cfg clear_request s = (clear s).0
serve crc_update cfg (latency_request seconds) s = (set_latency_s cfg seconds s).0

unfoldable pub serve_all : (ℕ → List ℕ → ℕ) → Config → List Request → State → State
serve_all crc_update cfg [] s = s
serve_all crc_update cfg (r ∷ rs) s = serve_all crc_update cfg rs (serve crc_update cfg r s)
