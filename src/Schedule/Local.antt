-- ===== src/Schedule/Local.antt =====
-- The queue of fbo_schedule.c over the registry of command.c: what an accepted text does on this node.
use kfsw_services.Common.{
  ℕ, zero, suc, ◌+◌, ◌≡◌, ◌≢◌, refl, sym, ap, subst, ==_iff, ◌∙◌, inl, inr, true, false, none, some,
  List, [], ◌∷◌, arith, length, get_or, drop, ltb, ◌==◌, not, Option-cases, Bool-cases,
  if◌then◌else◌,
}
use kfsw_services.Common.Codes.{Code, ok, err, ◌>>=◌, success, bind-ok, einval}
use kfsw_services.Event.{bytes_of}
use kfsw_services.Command.{Arg, text_arg, type_byte, max_args, max_text_size}
use kfsw_services.Command.Retry.{Outcome}
use kfsw_services.Schedule.{Info, Commands, build, build_from, parse_all, tokenise}
use kfsw_services.Registry
use kfsw_services.Registry.{
  Definition, Numbers, name_of, find_by_name, check_definition, parse_arg, parse_u32, parse_i32,
}
use kfsw_services.Registry.Dispatch
use kfsw_services.Registry.Unique.{IsRegistry, find_by_name-found}
use kfsw_services.Registry.Running.{get_or-drop, AreTyped, Conforms, Ran, is_excluded, dispatch-Ran}

-- What `describe` copies of a definition.
abbrev pub info_of : Definition → Info
info_of d = record {
  id = d.id;
  name = name_of d;
  arg_count = d.arg_count;
  arg_types = bytes_of d.arg_types;
}

-- The command service of a node, for a thread, at one time.
abbrev pub commands_of :
    Numbers → (ℕ → List ℕ → List Arg → Code × ℕ) → ℕ → Dispatch.State → Commands
commands_of numbers remote thread s = record {
  find = λ name. Registry.find s.registry (some name) true >>= λ d. ok (info_of d);
  parse_arg = parse_arg numbers;
  invoke = λ name args. let r = Dispatch.invoke thread name args s in (r.code, r.result.status);
  invoke_remote = remote;
}

parse_u32-type :
    (numbers : Numbers) (text : List ℕ) (a : Arg)
    → parse_u32 numbers text ≡ ok a
    → (type_byte a ≡ 1) × (a ≢ text_arg none)
unfolding parse_u32
parse_u32-type numbers text a h = (ground (arith, h), λ e. ground (arith, h, e))

parse_i32-type :
    (numbers : Numbers) (text : List ℕ) (a : Arg)
    → parse_i32 numbers text ≡ ok a
    → (type_byte a ≡ 2) × (a ≢ text_arg none)
unfolding parse_i32
parse_i32-type numbers text a h = (ground (arith, h), λ e. ground (arith, h, e))

-- An argument that is parsed has the type that was asked for.
parse_arg-type :
    (numbers : Numbers) (text : List ℕ) (type : ℕ) (a : Arg)
    → parse_arg numbers text type ≡ ok a
    → (type_byte a ≡ type) × (a ≢ text_arg none)
unfolding parse_arg
parse_arg-type numbers text type a h = elim (Bool-cases (type == 1)) [
  | inl one ↦
      let (typed, given) = parse_u32-type numbers text a (ground (arith, h, one)) in
      (ground (arith, one, typed), given)
  | inr not_one ↦ elim (Bool-cases (type == 2)) [
    | inl two ↦
        let (typed, given) = parse_i32-type numbers text a (ground (arith, h, not_one, two)) in
        (ground (arith, two, typed), given)
    | inr not_two ↦
        (ground (arith, h, not_one, not_two), λ e. ground (arith, h, not_one, not_two, e))
  ]
]

AreTyped-cons :
    (arg : Arg) (rest : List Arg) (types : List ℕ)
    → (type_byte arg ≡ get_or types 0 0) × (arg ≢ text_arg none)
    → AreTyped rest (drop 1 types)
    → AreTyped (arg ∷ rest) types
AreTyped-cons arg rest types first later zero a at = let same : arg ≡ a = cc in rw (sym same) first
AreTyped-cons arg rest types first later (suc i) a at =
    let (typed, given) = later i a at in (typed ∙ get_or-drop types i, given)

-- A definition that passes the checks has a handler.
handler-some :
    (d : Definition)
    → check_definition d ≡ success
    → (handler : List Arg → Registry.Source → Code × Outcome) × (d.handler ≡ some handler)
unfolding check_definition
handler-some d h = elim (Option-cases d.handler) [
  | inl e ↦ absurd (ground (arith, h, e))
  | inr found ↦ found
]

find-ok :
    (r : Registry.Registry) (name : List ℕ) (d : Definition)
    → Registry.find r (some name) true ≡ ok d
    → (r.ready ≡ true) × (find_by_name name r.registry ≡ some d)
unfolding Registry.find
find-ok r name d h = elim (Bool-cases r.ready) [
  | inr down ↦ absurd (ground (arith, rw (Registry.find, down) at h))
  | inl ready ↦ elim (Option-cases (find_by_name name r.registry)) [
    | inl e ↦ absurd (ground (arith, rw (Registry.find, ready, e) at h))
    | inr (x, e) ↦
        let same : x ≡ d = ground (arith, rw (Registry.find, ready, e) at h) in
        (ready, e ∙ ap some same)
  ]
]

module _ (numbers : Numbers) (remote : ℕ → List ℕ → List Arg → Code × ℕ) (thread : ℕ)
    (s : Dispatch.State) where
  abbrev commands : Commands
  commands = commands_of numbers remote thread s

  parse_all-AreTyped :
      (tokens : List (List ℕ)) (types : List ℕ) (args : List Arg)
      → parse_all commands tokens types ≡ ok args
      → (length args ≡ length tokens) × AreTyped args types
  unfolding parse_all
  parse_all-AreTyped [] types args h =
      let same : [] ≡ args = ground (arith, h) in
      rw (sym same) (refl, λ i a at. absurd (ground (arith, at)))
  parse_all-AreTyped (t ∷ ts) types args h = elim (Bool-cases (ltb max_text_size (length t))) [
    | inl long ↦ absurd (ground (arith, h, long))
    | inr short ↦
        let parsed = rw (parse_all, short) at h in
        let (arg, e, more) =
          bind-ok (parse_arg numbers t (get_or types 0 0))
            (λ arg. parse_all commands ts (drop 1 types) >>= λ rest. ok (arg ∷ rest)) args parsed in
        let (rest, f, made) =
          bind-ok (parse_all commands ts (drop 1 types)) (λ rest. ok (arg ∷ rest)) args more in
        let whole : arg ∷ rest ≡ args = ground (arith, made) in
        let (counted, typed) = parse_all-AreTyped ts (drop 1 types) rest f in
        rw (sym whole) (
          omega (arith, counted),
          AreTyped-cons arg rest types (parse_arg-type numbers t (get_or types 0 0) arg e) typed,
        )
  ]

  -- What the parser of a text has found.
  pub record Resolved (info : Info) (args : List Arg) : Type 0 where
    pub definition : Definition
    pub ready : s.registry.ready ≡ true
    pub found : find_by_name info.name s.registry.registry ≡ some definition
    pub conforms : Conforms definition args

  resolved :
      (name : List ℕ) (tokens : List (List ℕ)) (d : Definition) (args : List Arg)
      → Registry.find s.registry (some name) true ≡ ok d
      → length tokens ≡ d.arg_count
      → parse_all commands tokens (bytes_of d.arg_types) ≡ ok args
      → Resolved (info_of d) args
  resolved name tokens d args h counted parsed =
      let (ready, found) = find-ok s.registry name d h in
      let (i, at, same) = find_by_name-found name s.registry.registry d found in
      let (as_many, typed) = parse_all-AreTyped tokens (bytes_of d.arg_types) args parsed in
      record {
        definition = d;
        ready = ready;
        found = rw same found;
        conforms = (as_many ∙ counted, typed);
      }

  build_from-Resolved :
      (tokens : List (List ℕ)) (info : Info) (args : List Arg)
      → build_from commands tokens ≡ ok (info, args)
      → Resolved info args
  unfolding build_from
  build_from-Resolved [] info args h = absurd (ground (arith, h))
  build_from-Resolved (name ∷ tokens) info args h =
      elim (Bool-cases (ltb max_args (length tokens))) [
        | inl many ↦ absurd (ground (arith, h, many))
        | inr few ↦
            let searched = rw (build_from, few) at h in
            let (given, e, more) =
              bind-ok (commands.find name)
                (λ i.
                  if not (length tokens == i.arg_count)
                  then err einval
                  else parse_all commands tokens i.arg_types >>= λ as_parsed. ok (i, as_parsed))
                (info, args) searched in
            let (d, found, described) =
              bind-ok (Registry.find s.registry (some name) true) (λ x. ok (info_of x)) given e in
            let same : info_of d ≡ given = ground (arith, described) in
            elim (Bool-cases (length tokens == given.arg_count)) [
              | inr differs ↦ absurd (ground (arith, more, differs))
              | inl counted ↦
                  let parsed = rw counted at more in
                  let (as_parsed, p, made) =
                    bind-ok (parse_all commands tokens given.arg_types) (λ x. ok (given, x))
                      (info, args) parsed in
                  let info_same : given ≡ info = ground (arith, made) in
                  let args_same : as_parsed ≡ args = ground (arith, made) in
                  let as_declared : length tokens ≡ d.arg_count =
                    (==_iff (length tokens) given.arg_count).0 counted
                    ∙ ap (λ i. i.arg_count) (sym same) in
                  let from_types =
                    subst (λ types. parse_all commands tokens types ≡ ok as_parsed)
                      (ap (λ i. i.arg_types) (sym same)) p in
                  rw (sym (same ∙ info_same), sym args_same)
                    (resolved name tokens d as_parsed found as_declared from_types)
            ]
      ]

  -- An entry's text that resolves, as it does when the entry is accepted, runs: while the registry is one
  -- that the start leaves, and no other thread holds the claim exclusively, the text names a
  -- registered command with a handler, and the invocation that the text makes on this node, with no
  -- other thread between its two parts, calls that handler with the arguments parsed; the code and the
  -- detail are the handler's, and so is the status, but that an error without one is made FAILED.
  pub build-runs :
      (capacity : ℕ) (text : List ℕ) (info : Info) (args : List Arg)
      → IsRegistry capacity s.registry.registry
      → build commands text ≡ ok (info, args)
      → is_excluded thread s ≡ false
      → (d : Definition) × (handler : List Arg → Registry.Source → Code × Outcome) × (find_by_name
            info.name s.registry.registry
          ≡ some d)
        × (d.handler ≡ some handler)
        × Ran handler args Dispatch.local (Dispatch.invoke thread info.name args s)
  unfolding build Dispatch.invoke
  build-runs capacity text info args valid h allowed =
      let r = build_from-Resolved (tokenise (max_args + 2) text) info args h in
      let d = r.definition in
      let (i, at, same) = find_by_name-found info.name s.registry.registry d r.found in
      let (handler, e) = handler-some d (valid.checked i d at) in
      (
        d,
        handler,
        r.found,
        e,
        rw r.found
            (dispatch-Ran thread d args Dispatch.local s handler r.ready e r.conforms allowed),
      )
