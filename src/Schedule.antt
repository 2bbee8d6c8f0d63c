-- ===== src/Schedule.antt =====
-- src/fbo/fbo_schedule.c: the queue of time-tagged releases, its entries' text, and their hash.
-- The operations are in the child `Queue`, the release thread in `Sweep`, the two reports in
-- `Status`. A text is the list of its bytes before the terminator. The three calls of the command
-- service are a record of functions, since what a handler does is not the queue's.
pub mod Queue
pub mod Sweep
pub mod Report
pub mod Updating
pub mod Waiting
pub mod Candidate
pub mod Once
pub mod Flight
pub mod Adding
pub mod Tally
pub mod Tokens
pub mod Relative
pub mod Local
mod Tests
use kfsw_services.Common.{
  ℕ, zero, suc, ◌+◌, Bool, true, false, not, ◌&&◌, ◌||◌, Option, List, [], ◌∷◌, ltb, ◌==◌,
  if◌then◌else◌, length, get_or, drop, ◌++◌,
}
use kfsw_services.Common.Words.{put_be16, put_be32, put_be64}
use kfsw_services.Common.Codes.{Code, Result, ok, err, ◌>>=◌, einval, e2big}
use kfsw_services.Command.{Arg, max_args, max_text_size}

-- KFSW_FBO_SCHEDULE_LINE_MAX.
abbrev pub line_max : ℕ
line_max = 80

-- `enum kfsw_fbo_time_kind`: a caller may pass any number.
abbrev pub time_relative : ℕ
time_relative = 0

abbrev pub time_absolute : ℕ
time_absolute = 1

-- `enum kfsw_fbo_entry_status`.
pub data EntryStatus : Type 0 where
  entry_scheduled : EntryStatus
  entry_running : EntryStatus
  entry_completed : EntryStatus
  entry_failed : EntryStatus
  entry_overdue : EntryStatus
  entry_cancelled : EntryStatus

-- `struct kfsw_fbo_schedule_entry`. The `result` is a return code, by its magnitude.
pub record Entry : Type 0 where
  pub line : List ℕ
  pub due_utc : ℕ
  pub released_utc : ℕ
  pub delay_s : ℕ
  pub remaining_s : ℕ
  pub content_hash : ℕ
  pub result : Code
  pub node : ℕ
  pub index : ℕ
  pub command_id : ℕ
  pub kind : ℕ
  pub status : EntryStatus
  pub command_status : ℕ

-- `struct slot`.
pub record Slot : Type 0 where
  pub entry : Entry
  pub due_uptime_ms : ℕ
  pub used : Bool

-- A slot behind `memset(.., 0, ..)`.
abbrev pub cleared_slot : Slot
cleared_slot = record {
  entry = record {
    line = [];
    due_utc = 0;
    released_utc = 0;
    delay_s = 0;
    remaining_s = 0;
    content_hash = 0;
    result = 0;
    node = 0;
    index = 0;
    command_id = 0;
    kind = 0;
    status = entry_scheduled;
    command_status = 0;
  };
  due_uptime_ms = 0;
  used = false;
}

-- The file's static variables, with those of `check_step`.
pub record State : Type 0 where
  pub slots : List Slot
  pub latency_s : ℕ
  pub releases : ℕ
  pub refusals : ℕ
  pub overdues : ℕ
  pub clock_steps : ℕ
  pub last_error : Code
  pub last_utc : ℕ
  pub last_mono : ℕ
  pub have_last : Bool

-- `struct kfsw_command_info`, as far as the queue reads it.
pub record Info : Type 0 where
  pub id : ℕ
  pub name : List ℕ
  pub arg_count : ℕ
  pub arg_types : List ℕ

-- The command service at one time: kfsw_command_find and kfsw_command_parse_arg, then
-- kfsw_command_invoke and the call that sends a command to another node, each with the return code and
-- the status that it stores in `*result`.
pub record Commands : Type 0 where
  pub find : List ℕ → Result Info
  pub parse_arg : List ℕ → ℕ → Result Arg
  pub invoke : List ℕ → List Arg → Code × ℕ
  pub invoke_remote : ℕ → List ℕ → List Arg → Code × ℕ

-- The options of the build, and the reply timeout of a remote command.
pub record Config : Type 0 where
  pub command_csp : Bool
  pub timeout_ms : ℕ
  pub burst : ℕ
  pub step_ms : ℕ

-- What the two clocks answer: kfsw_fbo_schedule_clock_seconds, with `none` for its error, and
-- kfsw_time_monotonic_ms.
pub record Clock : Type 0 where
  pub utc : Option ℕ
  pub mono : ℕ

-- A space or a tab.
abbrev pub is_blank : ℕ → Bool
is_blank c = (c == 32) || (c == 9)

-- The loops of `tokenise` over one text: past the blanks, over a token, and to what is behind it and
-- the blank that ends it.
unfoldable pub skip_blanks : List ℕ → List ℕ
skip_blanks [] = []
skip_blanks (c ∷ cs) = let rest = skip_blanks cs in if is_blank c then rest else c ∷ cs

unfoldable pub token : List ℕ → List ℕ
token [] = []
token (c ∷ cs) = let rest = token cs in if is_blank c then [] else c ∷ rest

unfoldable pub behind_token : List ℕ → List ℕ
behind_token [] = []
behind_token (c ∷ cs) = let rest = behind_token cs in if is_blank c then cs else rest

-- `tokenise`: at most `max` tokens.
unfoldable pub tokenise : ℕ → List ℕ → List (List ℕ)
tokenise zero text = []
tokenise (suc max) text =
    let start = skip_blanks text in
    let more = tokenise max (behind_token start) in
    if length start == 0 then [] else token start ∷ more

-- The loop of `build` over the arguments' tokens.
unfoldable pub parse_all : Commands → List (List ℕ) → List ℕ → Result (List Arg)
parse_all c [] types = ok []
parse_all c (t ∷ ts) types =
    let rest = parse_all c ts (drop 1 types) in
    if ltb max_text_size (length t)
    then err einval
    else c.parse_arg t (get_or types 0 0) >>= λ arg. rest >>= λ args. ok (arg ∷ args)

-- `build` from its tokens on.
unfoldable pub build_from : Commands → List (List ℕ) → Result (Info × List Arg)
build_from c [] = err einval
build_from c (name ∷ rest) =
    if ltb max_args (length rest)
    then err e2big
    else c.find name >>= λ info.
        if not (length rest == info.arg_count)
        then err einval
        else parse_all c rest info.arg_types >>= λ args. ok (info, args)

-- `build`: the command that a text names, and its arguments.
unfoldable pub build : Commands → List ℕ → Result (Info × List Arg)
build c text = build_from c (tokenise (max_args + 2) text)

-- `content_hash`, with crc32_ieee_update a parameter that starts at 0.
unfoldable pub content_hash : (ℕ → List ℕ → ℕ) → ℕ → ℕ → ℕ → List ℕ → ℕ
content_hash crc_update kind at node line =
    crc_update (crc_update 0 (kind ∷ (put_be64 at ++ (put_be16 node ++ put_be16 0)))) line

-- `queue_hash`, from the hash of the slots before.
unfoldable pub hash_from : (ℕ → List ℕ → ℕ) → ℕ → List Slot → ℕ
hash_from crc_update hash [] = hash
hash_from crc_update hash (s ∷ ss) =
    let word = put_be32 s.entry.content_hash in
    hash_from crc_update (if s.used then crc_update hash word else hash) ss

abbrev pub queue_hash : (ℕ → List ℕ → ℕ) → List Slot → ℕ
queue_hash crc_update slots = hash_from crc_update 0 slots

abbrev pub is_scheduled : EntryStatus → Bool
is_scheduled entry_scheduled = true
is_scheduled _ = false

abbrev pub is_running : EntryStatus → Bool
is_running entry_running = true
is_running _ = false

-- `live`.
abbrev pub live : Slot → Bool
live s = s.used && (is_scheduled s.entry.status || is_running s.entry.status)

-- A slot that waits for its time.
abbrev pub waits : Slot → Bool
waits s = s.used && is_scheduled s.entry.status

-- `slots[index]` replaced.
unfoldable pub update : (Slot → Slot) → ℕ → List Slot → List Slot
update f i [] = []
update f zero (s ∷ ss) = f s ∷ ss
update f (suc i) (s ∷ ss) = s ∷ update f i ss
