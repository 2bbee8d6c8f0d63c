-- ===== src/Command/Once.antt =====
-- How often a command runs under a ticket.
use kfsw_services.Common.{ℕ, ◌+◌, ◌≤◌, List, [], ◌∷◌, arith}
use kfsw_services.Command.{Message, Arg}
use kfsw_services.Command.Retry.{Outcome, Ticket, Reply, dispatch}
use kfsw_services.Command.Pending.{pending, granted, runs_under, dispatch-pending}

-- One call of the dispatch, with the registry as it is at that time.
pub record Call : Type 1 where
  pub invoke : ℕ → List Arg → ℕ → Outcome
  pub source : ℕ
  pub message : Message
  pub new_ticket : ℕ
  pub now : ℕ

abbrev pub serve : ℕ → List Ticket → Call → Reply
serve window_ms cache c = dispatch c.invoke window_ms cache c.source c.message c.new_ticket c.now

-- How often a sequence of calls runs a command under the ticket `x`, and how often it grants that
-- ticket.
unfoldable pub run_invocations : ℕ → ℕ → List Ticket → List Call → ℕ
run_invocations x window_ms cache [] = 0
run_invocations x window_ms cache (c ∷ cs) =
    let r = serve window_ms cache c in
    let rest = run_invocations x window_ms r.cache cs in runs_under x r + rest

unfoldable pub run_granted : ℕ → ℕ → List Ticket → List Call → ℕ
run_granted x window_ms cache [] = 0
run_granted x window_ms cache (c ∷ cs) =
    let r = serve window_ms cache c in
    let rest = run_granted x window_ms r.cache cs in
    granted c.invoke x window_ms cache c.source c.message c.new_ticket c.now + rest

-- A grant of a ticket lets a command run at most once: over any sequence of requests from any
-- sources, in any order and with any repetitions, at any times, the commands that run under a ticket
-- number are at most as many as the prepares that were granted that number, and the entries under it
-- that had not run at the start.
pub run_invocations_lem :
    (x window_ms : ℕ) (cache : List Ticket) (cs : List Call)
    → run_invocations x window_ms cache cs ≤ pending x cache + run_granted x window_ms cache cs
unfolding run_invocations run_granted
run_invocations_lem x window_ms cache [] = omega arith
run_invocations_lem x window_ms cache (c ∷ cs) =
    let one = dispatch-pending c.invoke x window_ms cache c.source c.message c.new_ticket c.now in
    let rest = run_invocations_lem x window_ms (serve window_ms cache c).cache cs in
    omega (arith, one, rest)
