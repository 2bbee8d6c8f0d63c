-- ===== src/Registry.antt =====
-- src/command/command.c: the registry of commands, its start, its lookups, and the parsing of an
-- argument. The claim and the dispatch are in the child `Dispatch`. A name is a list of characters,
-- or a null pointer; strtoul and strtol are parameters.
pub mod Dispatch
pub mod Unique
pub mod Running
pub mod Steps
pub mod Claims
mod Tests
use kfsw_services.Common.{
  ℕ, suc, ◌+◌, ◌-◌, ◌≤◌, Bool, true, false, not, ◌&&◌, ◌||◌, Option, none, some, List, [], ◌∷◌,
  ◌++◌, ltb, leb, ◌==◌, if◌then◌else◌, length, list_eq,
}
use kfsw_services.Common.Words.{u32, u32_max}
use kfsw_services.Common.Int.{ℤ, pos, negsuc, ltb_ℤ}
use kfsw_services.Common.Codes.{
  Code, Result, ok, err, success, einval, e2big, enametoolong, eexist, enospc, eacces, enoent,
  enotsup,
}
use kfsw_services.Event.{is_null, bytes_of}
use kfsw_services.Command.{Arg, u32_arg, i32_arg, text_arg, max_args, max_text_size}
use kfsw_services.Command.Retry.{Outcome}

-- `struct kfsw_command_source`.
pub record Source : Type 0 where
  pub node : ℕ
  pub authenticated : Bool
  pub via_csp : Bool

-- `struct kfsw_command_definition`: a handler is what it returns, and what it stores in a result that
-- was zeroed.
pub record Definition : Type 0 where
  pub id : ℕ
  pub name : Option (List ℕ)
  pub help : Option (List ℕ)
  pub flags : ℕ
  pub arg_count : ℕ
  pub arg_types : Option (List ℕ)
  pub handler : Option (List Arg → Source → Code × Outcome)

-- `struct kfsw_command_definition_set`, whose count is the length of a list that is given.
pub record DefinitionSet : Type 0 where
  pub commands : Option (List Definition)
  pub count : ℕ

abbrev pub name_of : Definition → List ℕ
name_of d = bytes_of d.name

-- `find_by_id`.
unfoldable pub find_by_id : ℕ → List Definition → Option Definition
find_by_id id [] = none
find_by_id id (d ∷ ds) = let rest = find_by_id id ds in if d.id == id then some d else rest

-- `find_by_name`.
unfoldable pub find_by_name : List ℕ → List Definition → Option Definition
find_by_name name [] = none
find_by_name name (d ∷ ds) =
    let rest = find_by_name name ds in if list_eq (name_of d) name then some d else rest

-- The tests of `validate_definition` that are of the definition alone.
unfoldable pub check_definition : Definition → Code
check_definition d =
    if is_null d.name || (length (name_of d) == 0) || is_null d.handler
    then einval
    else if ltb max_args d.arg_count
    then e2big
    else if not (d.arg_count == 0) && is_null d.arg_types
    then einval
    else if leb max_text_size (length (name_of d))
    then enametoolong
    else success

-- `validate_definition`.
unfoldable pub validate_definition : List Definition → Definition → Code
validate_definition registry d =
    if not (check_definition d == success)
    then check_definition d
    else if not (is_null (find_by_id d.id registry))
        || not (is_null (find_by_name (name_of d) registry))
    then eexist
    else success

-- One definition in the loop of `kfsw_command_init`.
unfoldable pub register : ℕ → List Definition → Definition → Result (List Definition)
register capacity registry d =
    if not (validate_definition registry d == success)
    then err (validate_definition registry d)
    else if length registry == capacity
    then err enospc
    else ok (registry ++ (d ∷ []))

-- The inner loop. A failure there empties the registry.
unfoldable pub register_all : ℕ → List Definition → List Definition → List Definition × Code
register_all capacity registry [] = (registry, success)
register_all capacity registry (d ∷ ds) = elim (register capacity registry d) [
  | err code ↦ ([], code)
  | ok more ↦ register_all capacity more ds
]

-- The outer loop: what it leaves of the registry, and what it returns. A set that is refused leaves
-- what was registered before.
unfoldable pub register_sets :
    ℕ → List Definition → List (Option DefinitionSet) → List Definition × Code
register_sets capacity registry [] = (registry, success)
register_sets capacity registry (none ∷ sets) = (registry, einval)
register_sets capacity registry (some set ∷ sets) = elim set.commands [
  | none ↦ if not (set.count == 0) then (registry, einval) else register_sets capacity registry sets
  | some commands ↦
      let (more, code) = register_all capacity registry commands in
      if code == success then register_sets capacity more sets else (more, code)
]

-- The static variables of the registry, without the claim and the counters.
pub record Registry : Type 0 where
  pub registry : List Definition
  pub ready : Bool

-- `kfsw_command_init` on a given list of sets. On a null list and a count that is not zero it returns
-- before it changes anything.
unfoldable pub init : ℕ → Option (List (Option DefinitionSet)) → ℕ → Registry → Registry × Code
init capacity none set_count r =
    if not (set_count == 0) then (r, einval) else (record { registry = []; ready = true }, success)
init capacity (some sets) set_count r =
    let (registry, code) = register_sets capacity [] sets in
    (record { registry = registry; ready = code == success }, code)

-- `kfsw_command_find`: the definition that `describe` copies from.
unfoldable pub find : Registry → Option (List ℕ) → Bool → Result Definition
find r none has_info = err einval
find r (some name) has_info =
    if not has_info
    then err einval
    else if not r.ready
    then err eacces
    else elim (find_by_name name r.registry) [ none ↦ err enoent | some d ↦ ok d ]

-- `kfsw_command_lookup_id`.
unfoldable pub lookup_id : Registry → Option (List ℕ) → Bool → Result ℕ
lookup_id r none has_id = err einval
lookup_id r (some name) has_id =
    if not has_id
    then err einval
    else if not r.ready
    then err eacces
    else elim (find_by_name name r.registry) [ none ↦ err enoent | some d ↦ ok d.id ]

-- What strtoul and strtol tell: the value, how many characters they have read, and whether `errno`
-- is ERANGE.
pub record Strtoul : Type 0 where
  pub value : ℕ
  pub consumed : ℕ
  pub out_of_range : Bool

pub record Strtol : Type 0 where
  pub value : ℤ
  pub consumed : ℕ
  pub out_of_range : Bool

pub record Numbers : Type 0 where
  pub strtoul : List ℕ → Strtoul
  pub strtol : List ℕ → Strtol

-- `isspace`.
abbrev is_space : ℕ → Bool
is_space c = (c == 32) || (leb 9 c && leb c 13)

unfoldable pub skip_spaces : List ℕ → List ℕ
skip_spaces [] = []
skip_spaces (c ∷ cs) = let rest = skip_spaces cs in if is_space c then rest else c ∷ cs

abbrev pub is_minus : List ℕ → Bool
is_minus [] = false
is_minus (c ∷ cs) = c == 45

-- The 32-bit pattern of a number that is in range.
abbrev pub pattern_of : ℤ → ℕ
pattern_of (pos n) = u32 n
pattern_of (negsuc n) = 0xffff_ffff - n

module _ (numbers : Numbers) where
  unfoldable pub parse_u32 : List ℕ → Result Arg
  parse_u32 text =
      let number = skip_spaces text in
      let parsed = numbers.strtoul number in
      if is_minus number
      then err einval
      else if parsed.out_of_range
          || (parsed.consumed == 0)
          || not (parsed.consumed == length number)
          || ltb u32_max parsed.value
      then err einval
      else ok (u32_arg (u32 parsed.value))

  unfoldable pub parse_i32 : List ℕ → Result Arg
  parse_i32 text =
      let parsed = numbers.strtol text in
      if parsed.out_of_range
        || (parsed.consumed == 0)
        || not (parsed.consumed == length text)
        || ltb_ℤ (pos 0x7fff_ffff) parsed.value
        || ltb_ℤ parsed.value (negsuc 0x7fff_ffff)
      then err einval
      else ok (i32_arg (pattern_of parsed.value))

  -- `kfsw_command_parse_arg` on a text and a destination that are given.
  unfoldable pub parse_arg : List ℕ → ℕ → Result Arg
  parse_arg text type =
      if type == 1
      then parse_u32 text
      else if type == 2
      then parse_i32 text
      else if type == 3
      then if ltb max_text_size (length text) then err enametoolong else ok (text_arg (some text))
      else err enotsup
