-- ===== src/Limits.antt =====
-- src/limits/limits.c: the sweep over the rules. The parameter service, the scheduler and the clock
-- answer through `Surroundings`; floating point values are an interface of their own. The status
-- counters and the rules are two records, as the code has a lock for each. Reading the rule file is
-- not modelled.
pub mod Comparing
pub mod Firing
pub mod Events
pub mod Disabled
mod Tests
use kfsw_services.Common.{
  ℕ, zero, suc, ◌+◌, ◌-◌, ◌%◌, ◌^◌, ◌≤◌, ◌<◌, ◌≡◌, Bool, true, false, not, ◌&&◌, ◌||◌, Option, none,
  some, List, [], ◌∷◌, ◌++◌, map, ltb, leb, ◌==◌, if◌then◌else◌, length, min,
}
use kfsw_services.Common.Words.{u8, u16, u32, u32_max, sat_inc, put_be16}
use kfsw_services.Common.Codes.{Code, Result, ok, err, success, eacces, eexist, erange}
use kfsw_services.Common.Int.{ℤ, pos, negsuc, ltb_ℤ, signed}
use kfsw_services.Event.{Emission}

-- `enum kfsw_param_type`, as far as `widen` tells the types apart.
pub data ParamType : Type 0 where
  u8_type u16_type u32_type u64_type : ParamType
  i8_type i16_type i32_type i64_type : ParamType
  x8_type x16_type x32_type x64_type : ParamType
  float_type double_type : ParamType
  text_type : ParamType

-- `enum kfsw_limits_cmp`.
pub data Comparison : Type 0 where
  gt ge lt le eq ne : Comparison

-- Double precision values: what the code does with them.
pub record Floats : Type 1 where
  pub Double : Type 0
  pub is_nan : Double → Bool
  pub less : Double → Double → Bool
  pub of_f32 : ℕ → Double
  pub of_f64 : ℕ → Double

-- `struct kfsw_limits_rule`. A scalar is the bytes of the union as one little-endian number.
pub record Rule : Type 0 where
  pub index : ℕ
  pub parameter : List ℕ
  pub type : ParamType
  pub cmp : Comparison
  pub bound : ℕ
  pub bound_text : List ℕ
  pub dwell : ℕ
  pub streak : ℕ
  pub latched : Bool
  pub node : ℕ
  pub action : List ℕ

-- `struct kfsw_limits_status`, without the fields of a load.
pub record Status : Type 0 where
  pub sweeps : ℕ
  pub fires : ℕ
  pub failures : ℕ
  pub last_fired_index : ℕ
  pub last_fired_ms : ℕ

-- What one evaluation meets: kfsw_param_get for the rule's parameter, kfsw_fbo_schedule_add for its
-- action, and kfsw_time_monotonic_ms.
pub record Surroundings : Type 0 where
  pub param_get : Result ℕ
  pub schedule_add : Code
  pub now : ℕ

-- `note_failure`.
abbrev pub note_failure : Status → Status
note_failure st = record st { failures = sat_inc st.failures }

-- The result of `order`; `unordered` is ORDER_NONE.
pub data Order : Type 0 where
  less equal greater unordered : Order

abbrev by_tests : Bool → Bool → Order
by_tests above below = if above then greater else if below then less else equal

module _ (floats : Floats) where
  open floats use {Double, is_nan}

  -- `struct wide`.
  pub data Wide : Type 0 where
    unsigned : ℕ → Wide
    integer : ℤ → Wide
    real : Double → Wide

  -- `widen`.
  unfoldable pub widen : ParamType → ℕ → Wide
  widen u8_type scalar = unsigned (scalar % 2 ^ 8)
  widen x8_type scalar = unsigned (scalar % 2 ^ 8)
  widen u16_type scalar = unsigned (scalar % 2 ^ 16)
  widen x16_type scalar = unsigned (scalar % 2 ^ 16)
  widen u32_type scalar = unsigned (scalar % 2 ^ 32)
  widen x32_type scalar = unsigned (scalar % 2 ^ 32)
  widen u64_type scalar = unsigned (scalar % 2 ^ 64)
  widen x64_type scalar = unsigned (scalar % 2 ^ 64)
  widen i8_type scalar = integer (signed (2 ^ 7) (scalar % 2 ^ 8))
  widen i16_type scalar = integer (signed (2 ^ 15) (scalar % 2 ^ 16))
  widen i32_type scalar = integer (signed (2 ^ 31) (scalar % 2 ^ 32))
  widen i64_type scalar = integer (signed (2 ^ 63) (scalar % 2 ^ 64))
  widen float_type scalar = real (floats.of_f32 scalar)
  widen double_type scalar = real (floats.of_f64 scalar)
  widen text_type scalar = unsigned 0

  -- `order`, for two values of one kind, as `evaluate` calls it. The last clause is never reached.
  unfoldable pub order : Wide → Wide → Order
  order (integer a) (integer b) = by_tests (ltb_ℤ b a) (ltb_ℤ a b)
  order (real a) (real b) =
      if is_nan a || is_nan b then unordered else by_tests (floats.less b a) (floats.less a b)
  order (unsigned a) (unsigned b) = by_tests (ltb b a) (ltb a b)
  order _ _ = unordered

-- `holds`.
unfoldable pub holds : Comparison → Order → Bool
holds cmp unordered = false
holds gt ordering = elim ordering [ greater ↦ true | _ ↦ false ]
holds ge ordering = elim ordering [ less ↦ false | _ ↦ true ]
holds lt ordering = elim ordering [ less ↦ true | _ ↦ false ]
holds le ordering = elim ordering [ greater ↦ false | _ ↦ true ]
holds eq ordering = elim ordering [ equal ↦ true | _ ↦ false ]
holds ne ordering = elim ordering [ equal ↦ false | _ ↦ true ]

-- The event of a release: KFSW_EVENT_SOURCE_LIMITS, KFSW_EVENT_LIMITS_FIRED, warning; the payload is
-- the rule's index and its node.
abbrev pub fired_event : Rule → Emission
fired_event rule = record {
  source = 10;
  id = 1;
  severity = 1;
  payload = some (u8 rule.index ∷ put_be16 rule.node);
  payload_size = 3;
}

-- What `release` answers, with the status that it leaves and the event that it emits.
pub record Release : Type 0 where
  pub done : Bool
  pub status : Status
  pub event : Option Emission

-- `release`.
unfoldable pub release : Surroundings → Status → Rule → Release
release env st rule =
    if env.schedule_add == eexist
    then record { done = true; status = st; event = none }
    else if not (env.schedule_add == success)
    then record { done = false; status = note_failure st; event = none }
    else record {
      done = true;
      status = record st {
        fires = sat_inc st.fires;
        last_fired_index = rule.index;
        last_fired_ms = min env.now u32_max;
      };
      event = some (fired_event rule);
    }

-- What `evaluate` leaves: the rule, the status, and the event of a release.
pub record Evaluated : Type 0 where
  pub rule : Rule
  pub status : Status
  pub event : Option Emission

abbrev pub next_streak : ℕ → ℕ
next_streak n = if ltb n 255 then n + 1 else n

-- `evaluate`, behind the reading: whether the comparison holds is given.
unfoldable pub judge : Surroundings → Status → Rule → Bool → Evaluated
judge env st rule crossing =
    if not crossing
    then record { rule = record rule { streak = 0; latched = false }; status = st; event = none }
    else if not rule.latched && leb rule.dwell (next_streak rule.streak)
    then record {
      rule = record rule { streak = next_streak rule.streak; latched = (release env st rule).done };
      status = (release env st rule).status;
      event = (release env st rule).event;
    }
    else record {
      rule = record rule { streak = next_streak rule.streak };
      status = st;
      event = none;
    }

abbrev pub without_streak : Rule → Rule
without_streak rule = record rule { streak = 0 }

module _ (floats : Floats) where
  -- Whether the rule's comparison holds for a reading.
  unfoldable pub crosses : Rule → ℕ → Bool
  crosses rule scalar =
      holds rule.cmp
        (order floats (widen floats rule.type scalar) (widen floats rule.type rule.bound))

  -- `evaluate`.
  unfoldable pub evaluate : Surroundings → Status → Rule → Evaluated
  evaluate env st rule = elim env.param_get [
    | err code ↦ record { rule = rule; status = note_failure st; event = none }
    | ok scalar ↦ judge env st rule (crosses rule scalar)
  ]

  -- The loop of `kfsw_limits_sweep`; `env` is what the evaluation of each rule meets.
  unfoldable pub evaluate_all : (Rule → Surroundings) → Status → List Rule → List Rule × Status
  evaluate_all env st [] = ([], st)
  evaluate_all env st (rule ∷ rules) =
      let one = evaluate (env rule) st rule in
      let (rules', st') = evaluate_all env one.status rules in (one.rule ∷ rules', st')

  -- `kfsw_limits_sweep`: the number of rules evaluated, or -EACCES.
  unfoldable pub sweep :
      Bool → (Rule → Surroundings) → Status → List Rule → List Rule × Status × Result ℕ
  sweep enabled env st rules = if not enabled then (map without_streak rules, st, err eacces) else (
    (evaluate_all env st rules).0,
    record (evaluate_all env st rules).1 { sweeps = sat_inc (evaluate_all env st rules).1.sweeps },
    ok (length rules),
  )

-- The state that `kfsw_limits_set_interval_ms` changes, and whether the work item is scheduled.
pub record Timer : Type 0 where
  pub interval_ms : ℕ
  pub initialized : Bool
  pub running : Bool
  pub scheduled : Bool

-- `kfsw_limits_set_interval_ms`; the bounds are KFSW_LIMITS_INTERVAL_MIN_MS and _MAX_MS.
unfoldable pub set_interval_ms : Timer → ℕ → Timer × Code
set_interval_ms t interval_ms =
    if not (interval_ms == 0) && (ltb interval_ms 100 || ltb 3600000 interval_ms)
    then (t, erange)
    else if not t.initialized
    then (record t { interval_ms = interval_ms }, success)
    else (
      record t {
        interval_ms = interval_ms;
        running = not (interval_ms == 0);
        scheduled = not (interval_ms == 0);
      },
      success,
    )

-- The end of `work_handler`, behind the sweep; the kernel has taken the item off the schedule.
unfoldable pub rearm : Timer → Timer
rearm t = record t { scheduled = t.running }
