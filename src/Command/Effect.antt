-- ===== src/Command/Effect.antt =====
-- What one request does to command_retry.c's cache.
use kfsw_services.Common.{
  ℕ, zero, suc, ◌≡◌, ◌≢◌, refl, true, false, ◌||◌, some, List, [], ◌∷◌, arith, ◌==◌, get_elem?, set,
  inl, inr, Option-cases, Bool-cases,
}
use kfsw_services.Common.Codes.{Result-cases}
use kfsw_services.Command.{Message, Arg, op_prepare}
use kfsw_services.Command.Retry
use kfsw_services.Command.Retry.{
  Outcome, Ticket, Reply, matches, is_malformed, is_free, is_named, free_entry, find_entry,
  collides, prepared, arguments, prepare, execute, answer, dispatch,
}
use kfsw_services.Command.Pending.{
  find_entry-some, dispatch-prepare, dispatch-answer, dispatch_idle,
}

free_entry-free :
    (cache : List Ticket) (now i : ℕ)
    → free_entry now cache ≡ some i
    → (e : Ticket) × (get_elem? cache i ≡ some e) × (is_free now e ≡ true)
unfolding free_entry
free_entry-free [] now i h = absurd (ground (arith, h))
free_entry-free (t ∷ ts) now i h = elim (Bool-cases (is_free now t)) [
  | inl b ↦
      let first : i ≡ 0 = elim (Option-cases (free_entry now ts)) [
        | inl p ↦ ground (arith, p, h, b)
        | inr (j, p) ↦ ground (arith, p, h, b)
      ] in
      (t, rw first refl, b)
  | inr b ↦ elim (Option-cases (free_entry now ts)) [
    | inl p ↦ absurd (ground (arith, p, h, b))
    | inr (j, p) ↦
        let later : i ≡ suc j = ground (arith, p, h, b) in rw later (free_entry-free ts now j p)
  ]
]

collides-fresh :
    (cache : List Ticket) (now new_ticket i : ℕ) (e : Ticket)
    → collides now new_ticket cache ≡ false
    → get_elem? cache i ≡ some e
    → is_free now e ≡ false
    → new_ticket ≢ e.ticket
unfolding collides
collides-fresh [] now new_ticket i e h at live = absurd (ground (arith, at))
collides-fresh (t ∷ ts) now new_ticket zero e h at live =
    let same : t ≡ e = cc in
    let still : is_free now t ≡ false = rw same live in
    let other : (t.ticket == new_ticket) ≡ false = ground (arith, h, still) in
    λ f. let g : new_ticket ≡ t.ticket = rw same f in ground (arith, other, g)
collides-fresh (t ∷ ts) now new_ticket (suc i) e h at live =
    collides-fresh ts now new_ticket i e (ground (arith, h)) at live

abbrev pub done : Ticket → Outcome → Ticket
done e result = record e { complete = true; result = result }

-- What a request does to the cache.
pub data Effect (now : ℕ) (cache after : List Ticket) : Type 0 where
  same_cache : after ≡ cache → Effect now cache after
  granted_at :
      (k : ℕ) (old new : Ticket)
      → get_elem? cache k ≡ some old
      → is_free now old ≡ true
      → ((i : ℕ) (e : Ticket)
          → get_elem? cache i ≡ some e
          → is_free now e ≡ false
          → new.ticket ≢ e.ticket)
      → after ≡ set cache k new
      → Effect now cache after
  run_at :
      (k : ℕ) (old : Ticket) (result : Outcome)
      → get_elem? cache k ≡ some old
      → old.complete ≡ false
      → after ≡ set cache k (done old result)
      → Effect now cache after

prepare-Effect :
    (window_ms : ℕ) (cache : List Ticket) (source : ℕ) (m : Message) (new_ticket now : ℕ)
    → Effect now cache (prepare window_ms cache source m new_ticket now).cache
unfolding prepare
prepare-Effect window_ms cache source m new_ticket now =
    elim (Option-cases (free_entry now cache)) [
      | inl p ↦ same_cache (rw (prepare, p) refl)
      | inr (i, p) ↦ elim (Bool-cases ((new_ticket == 0) || collides now new_ticket cache)) [
        | inl b ↦ same_cache (rw (prepare, p, b) refl)
        | inr b ↦ elim (Result-cases (arguments m)) [
          | inl (code, q) ↦ same_cache (rw (prepare, p, b, q) refl)
          | inr (args, q) ↦
              let (old, at, free) = free_entry-free cache now i p in
              let fresh : collides now new_ticket cache ≡ false = ground (arith, b) in
              granted_at i old (prepared window_ms source m new_ticket now) at free
                (λ j e. collides-fresh cache now new_ticket j e fresh) (rw (prepare, p, b, q) refl)
        ]
      ]
    ]

module _ (invoke : ℕ → List Arg → ℕ → Outcome) where
  answer-Effect :
      (cache : List Ticket) (source i : ℕ) (e : Ticket) (m : Message) (now : ℕ)
      → get_elem? cache i ≡ some e
      → Effect now cache (answer invoke cache source i e m).cache
  unfolding answer execute
  answer-Effect cache source i e m now here = elim (Bool-cases (matches e m)) [
    | inr a ↦ same_cache (rw a refl)
    | inl a ↦ elim (Bool-cases (m.opcode == op_prepare)) [
      | inl b ↦ same_cache (rw (a, b) refl)
      | inr b ↦ elim (Bool-cases e.complete) [
        | inl c ↦ same_cache (rw (a, b, c) refl)
        | inr c ↦ run_at i e (Retry.outcome invoke source m).0 here c (rw (a, b, c) refl)
      ]
    ]
  ]

  pub dispatch-Effect :
      (window_ms : ℕ) (cache : List Ticket) (source : ℕ) (m : Message) (new_ticket now : ℕ)
      → Effect now cache (dispatch invoke window_ms cache source m new_ticket now).cache
  dispatch-Effect window_ms cache source m new_ticket now = elim (Bool-cases (is_malformed m)) [
    | inl a ↦ same_cache (dispatch_idle invoke window_ms cache source m new_ticket now (inl a)).1
    | inr a ↦ elim (Option-cases (find_entry now source m cache)) [
      | inl p ↦ elim (Bool-cases (m.opcode == op_prepare)) [
        | inl b ↦
            let goes = dispatch-prepare invoke window_ms cache source m new_ticket now a p b in
            rw goes (prepare-Effect window_ms cache source m new_ticket now)
        | inr b ↦
            same_cache (dispatch_idle invoke window_ms cache source m new_ticket now (inr (p, b))).1
      ]
      | inr (i, p) ↦
          let (e, here, live) = find_entry-some cache now source m i p in
          let goes = dispatch-answer invoke window_ms cache source m new_ticket now i e a p here in
          rw goes (answer-Effect cache source i e m now here)
    ]
  ]
