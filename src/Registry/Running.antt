-- ===== src/Registry/Running.antt =====
-- When command.c runs a handler, and what it counts.
use kfsw_services.Common.{
  ℕ, zero, suc, ◌+◌, ◌≡◌, ◌≢◌, refl, sym, ap, subst, ◌∙◌, inl, inr, Bool, true, false, ◌&&◌, ◌↔◌,
  Option, none, some, List, [], ◌∷◌, arith, length, get_elem?, get_or, drop, Option-cases,
  Bool-cases, ◌==◌,
}
use kfsw_services.Common.Words.{u32}
use kfsw_services.Common.Codes.{Code}
use kfsw_services.Event.{bytes_of}
use kfsw_services.Command.{Arg, text_arg, type_byte}
use kfsw_services.Command.Retry.{Outcome, status_ok}
use kfsw_services.Registry.{Source, Definition}
use kfsw_services.Registry.Dispatch.{
  Claim, State, Stats, Dispatched, check_types, check_arguments, check_claim, is_held_against,
  is_exclusive, count_outcome, run_handler, admitted, admit_to, admit, complete, dispatch,
  final_status, status_denied,
}

-- The arguments have the types that are declared, and no text of them is a null pointer.
abbrev pub AreTyped : List Arg → List ℕ → Type 0
AreTyped args types =
    (i : ℕ) (a : Arg)
    → get_elem? args i ≡ some a
    → (type_byte a ≡ get_or types i 0) × (a ≢ text_arg none)

pub get_or-drop : (types : List ℕ) (i : ℕ) → get_or (drop 1 types) i 0 ≡ get_or types (suc i) 0
get_or-drop [] i = refl
get_or-drop (t ∷ ts) i = refl

check_types-head :
    (x : Arg) (xs : List Arg) (types : List ℕ)
    → check_types (x ∷ xs) types ≡ status_ok
    → (type_byte x ≡ get_or types 0 0)
      × (x ≢ text_arg none)
      × (check_types xs (drop 1 types) ≡ status_ok)
unfolding check_types
check_types-head x xs types h =
    (ground (arith, h), λ e. absurd (ground (arith, h, e)), ground (arith, h))

check_types-cons :
    (x : Arg) (xs : List Arg) (types : List ℕ)
    → type_byte x ≡ get_or types 0 0
    → x ≢ text_arg none
    → check_types xs (drop 1 types) ≡ status_ok
    → check_types (x ∷ xs) types ≡ status_ok
unfolding check_types
check_types-cons x xs types h given rest = ground (arith, h, given, rest)

check_types-AreTyped :
    (args : List Arg) (types : List ℕ) → check_types args types ≡ status_ok → AreTyped args types
check_types-AreTyped [] types h i a at = absurd (ground (arith, at))
check_types-AreTyped (x ∷ xs) types h zero a at =
    let same : x ≡ a = cc in
    let (typed, given, rest) = check_types-head x xs types h in rw (sym same) (typed, given)
check_types-AreTyped (x ∷ xs) types h (suc i) a at =
    let (typed, given, rest) = check_types-head x xs types h in
    let (later, there) = check_types-AreTyped xs (drop 1 types) rest i a at in
    (later ∙ get_or-drop types i, there)

AreTyped-check_types :
    (args : List Arg) (types : List ℕ) → AreTyped args types → check_types args types ≡ status_ok
unfolding check_types
AreTyped-check_types [] types h = refl
AreTyped-check_types (x ∷ xs) types h =
    let (typed, given) = h 0 x refl in
    let rest = AreTyped-check_types xs (drop 1 types) (λ i a at.
      let (later, there) = h (suc i) a at in (later ∙ sym (get_or-drop types i), there)) in
    check_types-cons x xs types typed given rest

-- The arguments that a definition declares.
abbrev pub Conforms : Definition → List Arg → Type 0
Conforms d args = (length args ≡ d.arg_count) × AreTyped args (bytes_of d.arg_types)

-- The test of the arguments passes exactly those that the definition declares: as many, each of the
-- declared type, and no text a null pointer.
pub check_arguments-Conforms :
    (d : Definition) (args : List Arg) → (check_arguments d args ≡ status_ok) ↔ Conforms d args
unfolding check_arguments
check_arguments-Conforms d args = (
  λ h. (ground (arith, h), check_types-AreTyped args (bytes_of d.arg_types) (ground (arith, h))),
  λ h.
      let counted = h.0 in
      let typed = AreTyped-check_types args (bytes_of d.arg_types) h.1 in
      ground (arith, counted, typed),
)

-- An exclusive claim of another thread.
abbrev pub is_excluded : ℕ → State → Bool
is_excluded thread s = is_held_against thread s.claim && is_exclusive s.claim.mode

pub check_claim-refuses :
    (thread : ℕ) (c : Claim)
    → (check_claim thread c).1 ≡ (is_held_against thread c && is_exclusive c.mode)
unfolding check_claim
check_claim-refuses thread c = ground arith

run_handler-ran :
    (d : Definition) (args given : List Arg) (source : Source) (s : State)
    → (run_handler d args source s).ran ≡ some given
    → args ≡ given
unfolding run_handler
run_handler-ran d args given source s h = ground (arith, h)

admit_to-admitted :
    (thread : ℕ) (d e : Definition) (args : List Arg) (source : Source) (s s1 : State)
    → admit_to thread d args source s ≡ admitted e s1
    → (check_arguments d args ≡ status_ok) × (is_excluded thread s ≡ false) × (d ≡ e)
unfolding admit_to
admit_to-admitted thread d e args source s s1 h =
    let refuses = check_claim-refuses thread s.claim in
    (ground (arith, h), ground (arith, h, refuses), ground (arith, h))

-- What is known when a dispatch is about to call the handler of a definition.
pub record MayRun (thread : ℕ) (found : Option Definition) (d : Definition) (args : List Arg)
    (s : State) : Type 0 where
  pub known : found ≡ some d
  pub ready : s.registry.ready ≡ true
  pub conforms : Conforms d args
  pub allowed : is_excluded thread s ≡ false

-- A dispatch goes on to the handler of a definition only if that is the command asked for, the
-- registry is ready, the arguments have the declared number and types, and no other thread holds
-- the claim exclusively at the time of the test.
pub admit-MayRun :
    (thread : ℕ) (found : Option Definition) (args : List Arg) (source : Source) (s s1 : State)
    (d : Definition)
    → admit thread found args source s ≡ admitted d s1
    → MayRun thread found d args s
unfolding admit
admit-MayRun thread found args source s s1 d h = elim (Option-cases found) [
  | inl e ↦ absurd (ground (arith, h, e))
  | inr (x, e) ↦
      let inner = admit_to-admitted thread x d args source s s1 (ground (arith, h, e)) in
      let (checked, allowed, same) = inner in
      record {
        known = e ∙ ap some same;
        ready = ground (arith, h);
        conforms = subst (λ y. Conforms y args) same ((check_arguments-Conforms x args).0 checked);
        allowed = allowed;
      }
]

-- What a handler that is called leaves behind.
pub record Ran (handler : List Arg → Source → Code × Outcome) (args : List Arg) (source : Source)
    (r : Dispatched) : Type 0 where
  pub ran : r.ran ≡ some args
  pub code : r.code ≡ (handler args source).0
  pub status : r.result.status ≡ final_status (handler args source).0 (handler args source).1.status
  pub detail : r.result.detail ≡ (handler args source).1.detail

pub run_handler-Ran :
    (d : Definition) (args : List Arg) (source : Source) (s : State)
    (handler : List Arg → Source → Code × Outcome)
    → d.handler ≡ some handler
    → Ran handler args source (run_handler d args source s)
unfolding run_handler
run_handler-Ran d args source s handler h =
    rw (run_handler, h) (record { ran = refl; code = refl; status = refl; detail = refl })

complete-Ran :
    (thread : ℕ) (d : Definition) (args : List Arg) (source : Source) (s : State)
    (handler : List Arg → Source → Code × Outcome)
    → d.handler ≡ some handler
    → check_arguments d args ≡ status_ok
    → is_excluded thread s ≡ false
    → Ran handler args source (complete args source (admit_to thread d args source s))
unfolding admit_to complete
complete-Ran thread d args source s handler h checked allowed =
    let s1 = record s { claim = (check_claim thread s.claim).0 } in
    let free : (check_claim thread s.claim).1 ≡ false =
      check_claim-refuses thread s.claim ∙ allowed in
    rw (admit_to, complete, checked, free) (run_handler-Ran d args source s1 handler h)

-- A handler does run on a registered command with conforming arguments, once the registry is ready and
-- no other thread holds the claim exclusively or comes between the two parts; the code and the detail are the handler's, and so is
-- the status, but that an error without one is made FAILED.
pub dispatch-Ran :
    (thread : ℕ) (d : Definition) (args : List Arg) (source : Source) (s : State)
    (handler : List Arg → Source → Code × Outcome)
    → s.registry.ready ≡ true
    → d.handler ≡ some handler
    → Conforms d args
    → is_excluded thread s ≡ false
    → Ran handler args source (dispatch thread (some d) args source s)
unfolding dispatch admit complete
dispatch-Ran thread d args source s handler ready h conforms allowed =
    let checked = (check_arguments-Conforms d args).1 conforms in
    let inner = complete-Ran thread d args source s handler h checked allowed in
    simp (dispatch, admit, ready) inner

count_outcome-invoked :
    (status : ℕ) (t : Stats) → (count_outcome status t).invoked ≡ u32 (t.invoked + 1)
unfolding count_outcome
count_outcome-invoked status t = ground arith

count_outcome-rejected :
    (status : ℕ) (t : Stats)
    → status ≢ status_denied
    → (count_outcome status t).rejected ≡ t.rejected
unfolding count_outcome
count_outcome-rejected status t h = ground (arith, h)

check_types-status : (args : List Arg) (types : List ℕ) → check_types args types ≢ status_denied
unfolding check_types
check_types-status [] types h = ground (arith, h)
check_types-status (x ∷ xs) types h = ground (arith, h, check_types-status xs (drop 1 types))

check_arguments-status : (d : Definition) (args : List Arg) → check_arguments d args ≢ status_denied
unfolding check_arguments
check_arguments-status d args h = ground (arith, h, check_types-status args (bytes_of d.arg_types))

-- A result that is counted: by its status, and a status of a handler that has not run is never DENIED.
pub record Counted (s : State) (r : Dispatched) : Type 0 where
  pub stats : r.state.stats ≡ count_outcome r.result.status s.stats
  pub status : r.ran ≡ none → r.result.status ≢ status_denied

run_handler-Counted :
    (d : Definition) (args : List Arg) (source : Source) (s : State)
    → Counted s (run_handler d args source s)
unfolding run_handler
run_handler-Counted d args source s = elim (Option-cases d.handler) [
  | inl e ↦ rw (run_handler, e) (record { stats = refl; status = λ ran h. ground (arith, h) })
  | inr (handler, e) ↦
      rw (run_handler, e) (record { stats = refl; status = λ ran h. ground (arith, ran) })
]

complete-Counted :
    (thread : ℕ) (d : Definition) (args : List Arg) (source : Source) (s : State)
    → Counted s (complete args source (admit_to thread d args source s))
unfolding admit_to complete
complete-Counted thread d args source s =
    let claim = (check_claim thread s.claim).0 in
    let inner = run_handler-Counted d args source (record s { claim = claim }) in
    elim (Bool-cases (check_arguments d args == status_ok)) [
      | inr bad ↦
          rw (admit_to, complete, bad)
            (record { stats = refl; status = λ ran. check_arguments-status d args })
      | inl good ↦ elim (Bool-cases (check_claim thread s.claim).1) [
        | inl refuses ↦
            rw (admit_to, complete, good, refuses)
              (record { stats = refl; status = λ ran h. ground (arith, h) })
        | inr free ↦
            rw (admit_to, complete, good, free)
              (record { stats = inner.stats; status = inner.status })
      ]
    ]

dispatch-Counted :
    (thread : ℕ) (found : Option Definition) (args : List Arg) (source : Source) (s : State)
    → s.registry.ready ≡ true
    → Counted s (dispatch thread found args source s)
unfolding dispatch admit complete
dispatch-Counted thread found args source s ready = elim (Option-cases found) [
  | inl e ↦
      simp (dispatch, admit, ready, e)
        (record { stats = refl; status = λ ran h. ground (arith, h) })
  | inr (d, e) ↦ simp (dispatch, admit, ready, e) (complete-Counted thread d args source s)
]

-- Every dispatch while the registry is ready, with no other thread between its two parts, adds one to
-- the `invoked` counter, whatever becomes of it, and the counter wraps from 2^32 - 1 to 0; a dispatch
-- that is refused before its handler does not move the `rejected` counter.
pub dispatch-counters :
    (thread : ℕ) (found : Option Definition) (args : List Arg) (source : Source) (s : State)
    → s.registry.ready ≡ true
    → let r = dispatch thread found args source s in
      (r.state.stats.invoked ≡ u32 (s.stats.invoked + 1))
      × (r.ran ≡ none → r.state.stats.rejected ≡ s.stats.rejected)
dispatch-counters thread found args source s ready =
    let c = dispatch-Counted thread found args source s ready in
    let r = dispatch thread found args source s in
    (
      ap (λ t. t.invoked) c.stats ∙ count_outcome-invoked r.result.status s.stats,
      λ ran.
          ap (λ t. t.rejected) c.stats
          ∙ count_outcome-rejected r.result.status s.stats (c.status ran),
    )
