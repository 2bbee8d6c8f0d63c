-- ===== src/Registry/Claims.antt =====
-- The exclusive claim of command.c over any sequence of steps of several threads.
use kfsw_services.Common.{
  ℕ, zero, suc, ◌+◌, ◌≡◌, ◌≢◌, refl, sym, ap, subst, ◌∙◌, inl, inr, ◌⊎◌, Bool, true, Option, none,
  some, List, [], ◌∷◌, ◌++◌, arith, Option-cases, Bool-cases, ◌==◌, All, get_elem?, if◌then◌else◌,
}
use kfsw_services.Common.Codes.{einval, eacces, ebusy}
use kfsw_services.Command.{Arg}
use kfsw_services.Command.Retry.{status_ok, status_busy, status_unavailable}
use kfsw_services.Registry.{Source, Definition, find_by_name, find_by_id}
use kfsw_services.Registry.Dispatch.{
  Claim, ClaimMode, exclusive, State, Dispatched, stopped, admit_to, admit, check_claim,
  check_arguments, is_held_against, is_exclusive, claim_acquire, claim_release, run_handler, local,
  not_found, rejected_with, refusal_detail,
}
use kfsw_services.Registry.Running.{is_excluded, check_claim-refuses}
use kfsw_services.Registry.Steps.{
  Pending, World, Step, acquiring, releasing, invoking, invoking_id, handling, IsOfOthers, remove,
  enter, step, handled, run, run_handled,
}

-- The thread holds the claim exclusively.
pub record Holds (thread : ℕ) (c : Claim) : Type 0 where
  pub held : c.held ≡ true
  pub owner : c.owner ≡ thread
  pub mode : c.mode ≡ exclusive

held_against :
    (holder thread : ℕ) (c : Claim)
    → Holds holder c
    → thread ≢ holder
    → is_held_against thread c ≡ true
held_against holder thread c h other =
    let held = h.held in let owner = h.owner in ground (arith, held, owner, other)

excluded :
    (holder thread : ℕ) (s : State)
    → Holds holder s.claim
    → thread ≢ holder
    → is_excluded thread s ≡ true
excluded holder thread s h other =
    let against = held_against holder thread s.claim h other in
    let mode : is_exclusive s.claim.mode ≡ true = ap is_exclusive h.mode in
    ground (arith, against, mode)

check_claim-Holds :
    (holder thread : ℕ) (c : Claim) → Holds holder c → Holds holder (check_claim thread c).0
unfolding check_claim
check_claim-Holds holder thread c h =
    let held = h.held in
    let owner = h.owner in
    let mode = h.mode in
    record {
      held = ground (arith, held);
      owner = ground (arith, owner);
      mode = ground (arith, mode);
    }

run_handler-claim :
    (d : Definition) (args : List Arg) (source : Source) (s : State)
    → (run_handler d args source s).state.claim ≡ s.claim
unfolding run_handler
run_handler-claim d args source s = ground arith

-- While another thread has the claim exclusively, a dispatch is refused, and leaves the claim but for
-- its counters.
admit_to-stopped :
    (thread : ℕ) (d : Definition) (args : List Arg) (source : Source) (s : State)
    → is_excluded thread s ≡ true
    → (r : Dispatched) × (admit_to thread d args source s ≡ stopped r)
      × ((r.state.claim ≡ s.claim) ⊎ (r.state.claim ≡ (check_claim thread s.claim).0))
unfolding admit_to
admit_to-stopped thread d args source s h =
    let claim = (check_claim thread s.claim).0 in
    let refuses : (check_claim thread s.claim).1 ≡ true = check_claim-refuses thread s.claim ∙ h in
    let bad_args = rejected_with d source s (check_arguments d args) einval [] in
    let busy =
      rejected_with d source (record s { claim = claim }) status_busy ebusy
        (refusal_detail d s.claim) in
    elim (Bool-cases (check_arguments d args == status_ok)) [
      | inr bad ↦
          let goes : admit_to thread d args source s ≡ stopped bad_args = ground (arith, bad) in
          (bad_args, goes, inl refl)
      | inl good ↦
          let goes : admit_to thread d args source s ≡ stopped busy =
            ground (arith, good, refuses) in
          (busy, goes, inr refl)
    ]

admit-stopped :
    (thread : ℕ) (found : Option Definition) (args : List Arg) (source : Source) (s : State)
    → is_excluded thread s ≡ true
    → (r : Dispatched) × (admit thread found args source s ≡ stopped r)
      × ((r.state.claim ≡ s.claim) ⊎ (r.state.claim ≡ (check_claim thread s.claim).0))
unfolding admit
admit-stopped thread found args source s h = elim (Bool-cases s.registry.ready) [
  | inr down ↦
      simp (admit, down)
        (
          record {
            state = s;
            code = eacces;
            result = record { status = status_unavailable; detail = [] };
            event = none;
            ran = none;
          },
          refl,
          inl refl,
        )
  | inl ready ↦ elim (Option-cases found) [
    | inl e ↦ simp (admit, ready, e) (not_found source s, refl, inl refl)
    | inr (d, e) ↦ simp (admit, ready, e) (admit_to-stopped thread d args source s h)
  ]
]

enter-Holds :
    (holder thread : ℕ) (found : Option Definition) (args : List Arg) (source : Source) (w : World)
    → Holds holder w.state.claim
    → thread ≢ holder
    → let after = enter thread found args source w in
      Holds holder after.state.claim × (after.pending ≡ w.pending)
unfolding enter
enter-Holds holder thread found args source w h other =
    let shut = excluded holder thread w.state h other in
    let (r, stops, claim) = admit-stopped thread found args source w.state shut in
    let kept : Holds holder r.state.claim = elim claim [
      | inl e ↦ subst (Holds holder) (sym e) h
      | inr e ↦ subst (Holds holder) (sym e) (check_claim-Holds holder thread w.state.claim h)
    ] in
    rw (enter, stops) (kept, refl)

acquire_refused :
    (thread : ℕ) (mode : ClaimMode) (owner : Option (List ℕ)) (c : Claim)
    → is_held_against thread c ≡ true
    → (claim_acquire thread mode owner c).0 ≡ c
unfolding claim_acquire
acquire_refused thread mode owner c h = ground (arith, h)

release_refused :
    (thread : ℕ) (c : Claim) → is_held_against thread c ≡ true → (claim_release thread c).0 ≡ c
unfolding claim_release
release_refused thread c h = ground (arith, h)

-- The dispatches of a list that pass a test.
unfoldable pub count : (Pending → Bool) → List Pending → ℕ
count test [] = 0
count test (p ∷ ps) = let rest = count test ps in (if test p then 1 else 0) + rest

count-append :
    (test : Pending → Bool) (ps qs : List Pending)
    → count test (ps ++ qs) ≡ count test ps + count test qs
unfolding count
count-append test [] qs = omega arith
count-append test (p ∷ ps) qs = omega (arith, count-append test ps qs)

count-remove :
    (test : Pending → Bool) (i : ℕ) (ps : List Pending) (p : Pending)
    → get_elem? ps i ≡ some p
    → count test (p ∷ []) + count test (remove i ps) ≡ count test ps
unfolding count remove
count-remove test i [] p at = absurd (ground (arith, at))
count-remove test zero (q ∷ ps) p at = let same : q ≡ p = cc in rw same (omega arith)
count-remove test (suc i) (q ∷ ps) p at = omega (arith, count-remove test i ps p at)

-- What a step, or a sequence of steps, leaves while the thread holds the claim.
pub record Shuts (holder : ℕ) (before after : World) (ran : List Pending) : Type 0 where
  pub holds : Holds holder after.state.claim
  pub only_pending :
      (test : Pending → Bool)
      → count test ran + count test after.pending ≡ count test before.pending

entered-Shuts :
    (holder : ℕ) (w after : World)
    → Holds holder after.state.claim × (after.pending ≡ w.pending)
    → Shuts holder w after []
unfolding count
entered-Shuts holder w after h = record {
  holds = h.0;
  only_pending = λ test. let same = ap (count test) h.1 in omega (arith, same);
}

step-Shuts :
    (holder : ℕ) (t : Step) (w : World)
    → Holds holder w.state.claim
    → IsOfOthers holder t
    → Shuts holder w (step t w) (handled t w)
unfolding step handled
step-Shuts holder (acquiring thread mode owner) w h other =
    let against = held_against holder thread w.state.claim h other in
    let kept = acquire_refused thread mode owner w.state.claim against in
    entered-Shuts holder w (step (acquiring thread mode owner) w)
      (subst (Holds holder) (sym kept) h, refl)
step-Shuts holder (releasing thread) w h other =
    let against = held_against holder thread w.state.claim h other in
    let kept = release_refused thread w.state.claim against in
    entered-Shuts holder w (step (releasing thread) w) (subst (Holds holder) (sym kept) h, refl)
step-Shuts holder (invoking thread name args) w h other =
    let found = find_by_name name w.state.registry.registry in
    entered-Shuts holder w (step (invoking thread name args) w)
      (enter-Holds holder thread found args local w h other)
step-Shuts holder (invoking_id thread id args source) w h other =
    let found = find_by_id id w.state.registry.registry in
    let from : Source = elim source [ none ↦ local | some given ↦ given ] in
    entered-Shuts holder w (step (invoking_id thread id args source) w)
      (enter-Holds holder thread found args from w h other)
step-Shuts holder (handling i) w h other = elim (Option-cases (get_elem? w.pending i)) [
  | inl e ↦ rw (step, handled, e) (entered-Shuts holder w w (h, refl))
  | inr (p, e) ↦
      let kept = run_handler-claim p.definition p.args p.source w.state in
      rw (step, handled, e)
        (record {
          holds = subst (Holds holder) (sym kept) h;
          only_pending = λ test. count-remove test i w.pending p e;
        })
]

-- An exclusive claim lets no further dispatch of another thread through: while a thread holds it, over
-- any sequence of the other threads' calls, to acquire it, to release it or to invoke a command by name
-- or by identifier, and of handlers that run, the thread keeps the claim, and the handlers that run
-- are those of dispatches that had passed the test of the claim before: of these, counted by any
-- test, those that have run and those that still wait are together as many as at the start.
pub run-Shuts :
    (holder : ℕ) (ts : List Step) (w : World)
    → Holds holder w.state.claim
    → All (IsOfOthers holder) ts
    → Shuts holder w (run ts w) (run_handled ts w)
unfolding run run_handled
run-Shuts holder [] w h others = entered-Shuts holder w w (h, refl)
run-Shuts holder (t ∷ ts) w h others =
    let first = step-Shuts holder t w h others.0 in
    let rest = run-Shuts holder ts (step t w) first.holds others.1 in
    record {
      holds = rest.holds;
      only_pending = λ test.
          let one = first.only_pending test in
          let more = rest.only_pending test in
          let both = count-append test (handled t w) (run_handled ts (step t w)) in
          omega (arith, one, more, both);
    }
