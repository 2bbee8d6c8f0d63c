-- ===== src/Command/Pending.antt =====
-- How one request changes the number of tickets that are out and have not run.
use kfsw_services.Common.{
  ℕ, zero, suc, ◌+◌, ◌≤◌, ◌≡◌, refl, ap, true, false, not, ◌&&◌, ◌||◌, none, some, List, [], ◌∷◌,
  arith, ◌==◌, if◌then◌else◌, get_elem?, set, inl, inr, ◌⊎◌, Option-cases, Bool-cases,
}
use kfsw_services.Common.Codes.{Result-cases}
use kfsw_services.Command.{Message, Arg, op_prepare}
use kfsw_services.Command.Retry
use kfsw_services.Command.Retry.{
  prepared, arguments, Outcome, Ticket, Reply, matches, is_malformed, is_free, is_named, free_entry,
  find_entry, collides, prepare, execute, answer, dispatch, status_ok,
}

-- An entry that is out under the ticket `x` and has not run.
abbrev one_pending : ℕ → Ticket → ℕ
one_pending x t = if (t.ticket == x) && not (t.ticket == 0) && not t.complete then 1 else 0

-- The entries of those.
unfoldable pub pending : ℕ → List Ticket → ℕ
pending x [] = 0
pending x (t ∷ ts) = let rest = pending x ts in one_pending x t + rest

-- How often a reply has run a command under the ticket `x`.
abbrev pub runs_under : ℕ → Reply → ℕ
runs_under x r = if r.ticket == x then r.invocations else 0

pending-set :
    (x : ℕ) (cache : List Ticket) (i : ℕ) (e e' : Ticket)
    → get_elem? cache i ≡ some e
    → pending x (set cache i e') + one_pending x e ≡ pending x cache + one_pending x e'
unfolding pending
pending-set x [] i e e' h = ground arith
pending-set x (t ∷ ts) zero e e' h = let same : t ≡ e = ground arith in rw same (omega arith)
pending-set x (t ∷ ts) (suc i) e e' h = omega (arith, pending-set x ts i e e' h)

-- The entry that `find_entry` finds.
pub find_entry-some :
    (cache : List Ticket) (now source : ℕ) (m : Message) (i : ℕ)
    → find_entry now source m cache ≡ some i
    → (e : Ticket) × (get_elem? cache i ≡ some e) × (is_free now e ≡ false)
unfolding find_entry
find_entry-some [] now source m i h = absurd (ground (arith, h))
find_entry-some (t ∷ ts) now source m i h = elim (Option-cases (find_entry now source m ts)) [
  | inl p ↦ let first : i ≡ 0 = ground (arith, p, h) in (t, rw first refl, ground (arith, p, h))
  | inr (j, p) ↦
      let later : i ≡ suc j = ground (arith, p, h) in rw later (find_entry-some ts now source m j p)
]

free_entry-some :
    (cache : List Ticket) (now i : ℕ)
    → free_entry now cache ≡ some i
    → (e : Ticket) × (get_elem? cache i ≡ some e)
unfolding free_entry
free_entry-some [] now i h = absurd (ground (arith, h))
free_entry-some (t ∷ ts) now i h = elim (Option-cases (free_entry now ts)) [
  | inl p ↦ let first : i ≡ 0 = ground (arith, p, h) in (t, rw first refl)
  | inr (j, p) ↦ elim (Bool-cases (is_free now t)) [
    | inl b ↦ let first : i ≡ 0 = ground (arith, p, h, b) in (t, rw first refl)
    | inr b ↦
        let later : i ≡ suc j = ground (arith, p, h, b) in rw later (free_entry-some ts now j p)
  ]
]

prepare-pending :
    (x window_ms : ℕ) (cache : List Ticket) (source : ℕ) (m : Message) (new_ticket now : ℕ)
    → let r = prepare window_ms cache source m new_ticket now in
      (r.invocations ≡ 0)
      × (pending x r.cache
          ≤ pending x cache + (if (r.result.status == status_ok) && (r.ticket == x) then 1 else 0))
unfolding prepare
prepare-pending x window_ms cache source m new_ticket now =
    elim (Option-cases (free_entry now cache)) [
      | inl p ↦ rw (prepare, p) (refl, omega arith)
      | inr (i, p) ↦
          let (e, here) = free_entry-some cache now i p in
          let filled = prepared window_ms source m new_ticket now in
          let counted = pending-set x cache i e filled here in
          elim (Bool-cases ((new_ticket == 0) || collides now new_ticket cache)) [
            | inl b ↦ rw (prepare, p, b) (refl, omega arith)
            | inr b ↦ elim (Result-cases (arguments m)) [
              | inl (code, q) ↦ rw (prepare, p, b, q) (refl, omega arith)
              | inr (args, q) ↦ rw (prepare, p, b, q) (refl, ground (arith, counted))
            ]
          ]
    ]

module _ (invoke : ℕ → List Arg → ℕ → Outcome) where
  invocations-one : (source : ℕ) (m : Message) → (Retry.outcome invoke source m).1 ≤ 1
  invocations-one source m = elim (Result-cases (arguments m)) [
    | inl (code, p) ↦ rw (Retry.outcome, p) (omega arith)
    | inr (args, p) ↦ rw (Retry.outcome, p) (omega arith)
  ]

  answer-pending :
      (x : ℕ) (cache : List Ticket) (source i : ℕ) (e : Ticket) (m : Message) (now : ℕ)
      → get_elem? cache i ≡ some e
      → is_free now e ≡ false
      → let r = answer invoke cache source i e m in
        runs_under x r + pending x r.cache ≤ pending x cache
  unfolding answer execute
  answer-pending x cache source i e m now here live = elim (Bool-cases (matches e m)) [
    | inl a ↦ elim (Bool-cases (m.opcode == op_prepare)) [
      | inl b ↦ rw (a, b) (ground arith)
      | inr b ↦ elim (Bool-cases e.complete) [
        | inl c ↦ rw (a, b, c) (ground arith)
        | inr c ↦
            let done = record e { complete = true; result = (Retry.outcome invoke source m).0 } in
            let counted = pending-set x cache i e done here in
            let once = invocations-one source m in
            let was : one_pending x e ≡ (if e.ticket == x then 1 else 0) =
              ground (arith, live, c) in
            let is : one_pending x done ≡ 0 = ground arith in
            rw (a, b, c) (ground (arith, counted, once, was, is))
      ]
    ]
    | inr a ↦ rw a (ground arith)
  ]

  -- A prepare that is granted the ticket `x`.
  abbrev pub granted : ℕ → ℕ → List Ticket → ℕ → Message → ℕ → ℕ → ℕ
  granted x window_ms cache source m new_ticket now =
      let r = dispatch invoke window_ms cache source m new_ticket now in
      elim (find_entry now source m cache) [
        | none ↦
            if (m.opcode == op_prepare) && (r.result.status == status_ok) && (r.ticket == x)
            then 1
            else 0
        | some i ↦ 0
      ]

  pub dispatch-prepare :
      (window_ms : ℕ) (cache : List Ticket) (source : ℕ) (m : Message) (new_ticket now : ℕ)
      → is_malformed m ≡ false
      → find_entry now source m cache ≡ none
      → (m.opcode == op_prepare) ≡ true
      → dispatch invoke window_ms cache source m new_ticket now
        ≡ prepare window_ms cache source m new_ticket now
  unfolding dispatch
  dispatch-prepare window_ms cache source m new_ticket now a p b = rw (a, p, b) refl

  pub dispatch-answer :
      (window_ms : ℕ) (cache : List Ticket) (source : ℕ) (m : Message) (new_ticket now i : ℕ)
      (e : Ticket)
      → is_malformed m ≡ false
      → find_entry now source m cache ≡ some i
      → get_elem? cache i ≡ some e
      → dispatch invoke window_ms cache source m new_ticket now ≡ answer invoke cache source i e m
  unfolding dispatch
  dispatch-answer window_ms cache source m new_ticket now i e a p here = rw (a, p, here) refl

  -- A call that neither prepares anew nor has an entry changes nothing.
  pub dispatch_idle :
      (window_ms : ℕ) (cache : List Ticket) (source : ℕ) (m : Message) (new_ticket now : ℕ)
      → (is_malformed m ≡ true)
        ⊎ ((find_entry now source m cache ≡ none) × ((m.opcode == op_prepare) ≡ false))
      → let r = dispatch invoke window_ms cache source m new_ticket now in
        (r.invocations ≡ 0) × (r.cache ≡ cache)
  unfolding dispatch
  dispatch_idle window_ms cache source m new_ticket now h = elim h [
    | inl a ↦ rw a (refl, refl)
    | inr (p, b) ↦ elim (Bool-cases (is_malformed m)) [
      | inl a ↦ rw a (refl, refl)
      | inr a ↦ rw (a, p, b) (refl, refl)
    ]
  ]

  idle-pending :
      (x window_ms : ℕ) (cache : List Ticket) (source : ℕ) (m : Message) (new_ticket now : ℕ)
      → (is_malformed m ≡ true)
        ⊎ ((find_entry now source m cache ≡ none) × ((m.opcode == op_prepare) ≡ false))
      → let r = dispatch invoke window_ms cache source m new_ticket now in
        runs_under x r + pending x r.cache
        ≤ pending x cache + granted x window_ms cache source m new_ticket now
  idle-pending x window_ms cache source m new_ticket now h =
      let (none_run, kept) = dispatch_idle window_ms cache source m new_ticket now h in
      let same = ap (pending x) kept in ground (arith, none_run, same)

  pub dispatch-pending :
      (x window_ms : ℕ) (cache : List Ticket) (source : ℕ) (m : Message) (new_ticket now : ℕ)
      → let r = dispatch invoke window_ms cache source m new_ticket now in
        runs_under x r + pending x r.cache
        ≤ pending x cache + granted x window_ms cache source m new_ticket now
  dispatch-pending x window_ms cache source m new_ticket now = elim (Bool-cases (is_malformed m)) [
    | inl a ↦ idle-pending x window_ms cache source m new_ticket now (inl a)
    | inr a ↦ elim (Option-cases (find_entry now source m cache)) [
      | inl p ↦ elim (Bool-cases (m.opcode == op_prepare)) [
        | inl b ↦
            let (none_run, counted) = prepare-pending x window_ms cache source m new_ticket now in
            let goes = dispatch-prepare window_ms cache source m new_ticket now a p b in
            rw (granted, p, b, goes) (ground (arith, none_run, counted))
        | inr b ↦ idle-pending x window_ms cache source m new_ticket now (inr (p, b))
      ]
      | inr (i, p) ↦
          let (e, here, live) = find_entry-some cache now source m i p in
          let counted = answer-pending x cache source i e m now here live in
          let goes = dispatch-answer window_ms cache source m new_ticket now i e a p here in
          rw (granted, p, goes) (omega (arith, counted))
    ]
  ]
