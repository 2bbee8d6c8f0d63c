-- ===== src/Command/Again.antt =====
-- What command_retry.c answers to an execute request that is repeated.
use kfsw_services.Common.{
  ℕ, ◌≤◌, ◌<◌, ◌≡◌, refl, ◌∙◌, true, false, some, List, [], ◌∷◌, arith, ◌==◌, get_elem?, set, inl,
  inr, Bool-cases,
}
use kfsw_services.Command.{Message, Arg, op_prepare, op_execute}
use kfsw_services.Command.Retry
use kfsw_services.Command.Retry.{
  Outcome, Ticket, Reply, matches, is_malformed, is_free, is_named, find_entry, execute, answer,
  dispatch,
}
use kfsw_services.Command.Pending.{dispatch-answer}
use kfsw_services.Command.Once.{Call, serve}
use kfsw_services.Command.Effect.{done, same_cache, dispatch-Effect}
use kfsw_services.Command.Kept.{IsLast, find_entry-IsLast, IsLast-find_entry, kept, IsLast-done}

-- The cache behind a sequence of requests, and their order in time.
unfoldable pub run_cache : ℕ → List Ticket → List Call → List Ticket
run_cache window_ms cache [] = cache
run_cache window_ms cache (c ∷ cs) = run_cache window_ms (serve window_ms cache c).cache cs

abbrev pub InOrder : ℕ → List Call → ℕ → Type 0
InOrder now [] later = now ≤ later
InOrder now (c ∷ cs) later = (now ≤ c.now) × InOrder c.now cs later

InOrder-le : (now : ℕ) (cs : List Call) (later : ℕ) → InOrder now cs later → now ≤ later
InOrder-le now [] later h = h
InOrder-le now (c ∷ cs) later h = omega (arith, h.0, InOrder-le c.now cs later h.1)

run_cache-IsLast :
    (window_ms : ℕ) (cs : List Call) (now later source : ℕ) (m : Message) (cache : List Ticket)
    (i : ℕ) (e : Ticket)
    → m.opcode ≡ op_execute
    → e.complete ≡ true
    → InOrder now cs later
    → later < e.expires
    → IsLast now source m cache i e
    → IsLast later source m (run_cache window_ms cache cs) i e
unfolding run_cache
run_cache-IsLast window_ms [] now later source m cache i e op complete order u l =
    kept now later source m cache cache i e op complete order u l (same_cache refl)
run_cache-IsLast window_ms (c ∷ cs) now later source m cache i e op complete order u l =
    let after = (serve window_ms cache c).cache in
    let soon = InOrder-le c.now cs later order.1 in
    let effect = dispatch-Effect c.invoke window_ms cache c.source c.message c.new_ticket c.now in
    let one =
      kept now c.now source m cache after i e op complete order.0 (omega (arith, soon, u)) l
        effect in
    run_cache-IsLast window_ms cs c.now later source m after i e op complete order.1 u one

op_execute_of :
    (m : Message)
    → is_malformed m ≡ false
    → (m.opcode == op_prepare) ≡ false
    → m.opcode ≡ op_execute
unfolding is_malformed
op_execute_of m a b = ground (arith, a, b)

module _ (invoke again : ℕ → List Arg → ℕ → Outcome) where
  -- The dispatch of an entry that has run, with the same request.
  answer-done :
      (cache : List Ticket) (source i : ℕ) (e : Ticket) (m : Message) (result : Outcome)
      → matches e m ≡ true
      → (m.opcode == op_prepare) ≡ false
      → answer again cache source i (done e result) m
        ≡ record { cache = cache; ticket = e.ticket; result = result; invocations = 0 }
  unfolding answer matches
  answer-done cache source i e m result h b = rw (h, b) refl

  answer-invoked :
      (cache : List Ticket) (source i : ℕ) (e : Ticket) (m : Message)
      → (answer invoke cache source i e m).invocations ≡ 1
      → (matches e m ≡ true)
        × ((m.opcode == op_prepare) ≡ false)
        × (answer invoke cache source i e m ≡ execute invoke cache source i e m)
  unfolding answer
  answer-invoked cache source i e m h = elim (Bool-cases (matches e m)) [
    | inl a ↦ elim (Bool-cases (m.opcode == op_prepare)) [
      | inl b ↦ absurd (ground (arith, a, b, h))
      | inr b ↦ elim (Bool-cases e.complete) [
        | inl c ↦ absurd (ground (arith, a, b, c, h))
        | inr c ↦ (a, b, rw (a, b, c) refl)
      ]
    ]
    | inr a ↦ absurd (ground (arith, a, h))
  ]

  -- An execute request that has run its command, and comes again from the same node before its entry
  -- expires, after any requests of any nodes in the order of their times, and however the registry has
  -- changed: the command does not run again, the answer is the ticket and the result of the first
  -- time, and the cache stays as it is.
  pub dispatch_again :
      (window_ms : ℕ) (cache : List Ticket) (source : ℕ) (m : Message) (i : ℕ) (e : Ticket)
      (new_ticket now : ℕ) (cs : List Call) (new_ticket' later : ℕ)
      → is_malformed m ≡ false
      → find_entry now source m cache ≡ some i
      → get_elem? cache i ≡ some e
      → (dispatch invoke window_ms cache source m new_ticket now).invocations ≡ 1
      → InOrder now cs later
      → later < e.expires
      → let r = dispatch invoke window_ms cache source m new_ticket now in
        let between = run_cache window_ms r.cache cs in
        dispatch again window_ms between source m new_ticket' later
        ≡ record r { cache = between; invocations = 0 }
  unfolding execute
  dispatch_again window_ms cache source m i e new_ticket now cs new_ticket' later a p here ran order
        u =
      let goes = dispatch-answer invoke window_ms cache source m new_ticket now i e a p here in
      let ran' : (answer invoke cache source i e m).invocations ≡ 1 = rw goes at ran in
      let (same, b, runs) = answer-invoked cache source i e m ran' in
      let result = (Retry.outcome invoke source m).0 in
      let soon = InOrder-le now cs later order in
      let first = find_entry-IsLast cache now source m i e p here in
      let ran_entry = IsLast-done now source m cache i e result (omega (arith, soon, u)) first in
      let filled = set cache i (done e result) in
      let l =
        run_cache-IsLast window_ms cs now later source m filled i (done e result)
          (op_execute_of m a b) refl order u ran_entry in
      let between = run_cache window_ms filled cs in
      let second =
        dispatch-answer again window_ms between source m new_ticket' later i (done e result) a
          (IsLast-find_entry between later source m i (done e result) l) l.here in
      rw (goes, runs) (second ∙ answer-done between source i e m result same b)
