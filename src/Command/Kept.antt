-- ===== src/Command/Kept.antt =====
-- An entry of command_retry.c's cache that has run, over the requests that come after it.
use kfsw_services.Common.{
  ℕ, zero, suc, ◌≤◌, ◌<◌, ◌≡◌, ◌≢◌, refl, sym, ap, ◌∙◌, Bool, true, false, not, ◌&&◌, none, some,
  List, [], ◌∷◌, arith, ◌==◌, get_elem?, set, inl, inr, Option-cases, Bool-cases,
  get_elem?-set-some, ==_iff, subst,
}
use kfsw_services.Command.{Message, op_execute}
use kfsw_services.Command.Retry.{Outcome, Ticket, is_free, is_named, find_entry}
use kfsw_services.Command.Effect.{done, Effect, same_cache, granted_at, run_at}

abbrev pub hits : ℕ → ℕ → Message → Ticket → Bool
hits now source m t = not (is_free now t) && is_named source m t

none-misses :
    (ts : List Ticket) (now source : ℕ) (m : Message) (k : ℕ) (e : Ticket)
    → find_entry now source m ts ≡ none
    → get_elem? ts k ≡ some e
    → hits now source m e ≡ false
unfolding find_entry
none-misses [] now source m k e h at = absurd (ground (arith, at))
none-misses (t ∷ ts) now source m zero e h at = elim (Option-cases (find_entry now source m ts)) [
  | inr (j, p) ↦ absurd (ground (arith, p, h))
  | inl p ↦ let same : t ≡ e = cc in rw (sym same) (ground (arith, p, h))
]
none-misses (t ∷ ts) now source m (suc k) e h at =
    elim (Option-cases (find_entry now source m ts)) [
      | inr (j, p) ↦ absurd (ground (arith, p, h))
      | inl p ↦ none-misses ts now source m k e p at
    ]

misses-none :
    (ts : List Ticket) (now source : ℕ) (m : Message)
    → ((k : ℕ) (e : Ticket) → get_elem? ts k ≡ some e → hits now source m e ≡ false)
    → find_entry now source m ts ≡ none
unfolding find_entry
misses-none [] now source m h = refl
misses-none (t ∷ ts) now source m h =
    let rest = misses-none ts now source m (λ k e at. h (suc k) e at) in
    let first = h 0 t refl in rw (rest, first) refl

-- The entry of the index `i` is the last that the request names.
pub record IsLast (now source : ℕ) (m : Message) (cache : List Ticket) (i : ℕ) (e : Ticket)
    : Type 0 where
  pub here : get_elem? cache i ≡ some e
  pub hit : hits now source m e ≡ true
  pub alone :
      (k : ℕ) (x : Ticket) → i < k → get_elem? cache k ≡ some x → hits now source m x ≡ false

pub find_entry-IsLast :
    (cache : List Ticket) (now source : ℕ) (m : Message) (i : ℕ) (e : Ticket)
    → find_entry now source m cache ≡ some i
    → get_elem? cache i ≡ some e
    → IsLast now source m cache i e
unfolding find_entry
find_entry-IsLast [] now source m i e h at = absurd (ground (arith, h))
find_entry-IsLast (t ∷ ts) now source m zero e h at =
    elim (Option-cases (find_entry now source m ts)) [
      | inl p ↦
          let same : t ≡ e = cc in
          record {
            here = at;
            hit = rw (sym same) (ground (arith, p, h));
            alone = λ k x later there.
                let (j, f) = pred_of k later in
                none-misses ts now source m j x p (ap (get_elem? (t ∷ ts)) (sym f) ∙ there);
          }
      | inr (j, p) ↦ absurd (ground (arith, p, h))
    ]
  where
    pred_of : (k : ℕ) → 0 < k → (j : ℕ) × (k ≡ suc j)
    pred_of zero later = absurd (omega (arith, later))
    pred_of (suc j) later = (j, refl)
find_entry-IsLast (t ∷ ts) now source m (suc i) e h at =
    elim (Option-cases (find_entry now source m ts)) [
      | inl p ↦ absurd (ground (arith, p, h))
      | inr (j, p) ↦
          let same : j ≡ i = ground (arith, p, h) in
          let rest = find_entry-IsLast ts now source m i e (p ∙ ap some same) at in
          record { here = at; hit = rest.hit; alone = alone_of rest }
    ]
  where
    alone_of :
        IsLast now source m ts i e
        → (k : ℕ) (x : Ticket) → suc i < k
        → get_elem? (t ∷ ts) k ≡ some x
        → hits now source m x ≡ false
    alone_of rest zero x later there = absurd (omega (arith, later))
    alone_of rest (suc k) x later there = rest.alone k x (omega (arith, later)) there

pub IsLast-find_entry :
    (cache : List Ticket) (now source : ℕ) (m : Message) (i : ℕ) (e : Ticket)
    → IsLast now source m cache i e
    → find_entry now source m cache ≡ some i
unfolding find_entry
IsLast-find_entry [] now source m i e l = absurd (let at = l.here in ground (arith, at))
IsLast-find_entry (t ∷ ts) now source m zero e l =
    let rest = misses-none ts now source m (λ k x at. l.alone (suc k) x (omega arith) at) in
    let at = l.here in
    let same : t ≡ e = cc in
    let hit : hits now source m t ≡ true = rw same l.hit in rw (rest, hit) refl
IsLast-find_entry (t ∷ ts) now source m (suc i) e l =
    let rest = IsLast-find_entry ts now source m i e (record {
      here = l.here;
      hit = l.hit;
      alone = λ k x later at. l.alone (suc k) x (omega (arith, later)) at;
    }) in
    rw rest refl

pub get_elem?-set_ne :
    (cache : List Ticket) (k j : ℕ) (v : Ticket)
    → k ≢ j
    → get_elem? (set cache k v) j ≡ get_elem? cache j
get_elem?-set_ne [] k j v h = refl
get_elem?-set_ne (t ∷ ts) zero zero v h = absurd (h refl)
get_elem?-set_ne (t ∷ ts) zero (suc j) v h = refl
get_elem?-set_ne (t ∷ ts) (suc k) zero v h = refl
get_elem?-set_ne (t ∷ ts) (suc k) (suc j) v h = get_elem?-set_ne ts k j v (λ e. h (ap suc e))

hits-later :
    (t : Ticket) (now later source : ℕ) (m : Message)
    → now ≤ later
    → hits now source m t ≡ false
    → hits later source m t ≡ false
hits-later t now later source m le h = elim (Bool-cases (is_named source m t)) [
  | inl n ↦
      let free : is_free now t ≡ true = ground (arith, n, h) in
      let still : is_free later t ≡ true = ground (arith, free, le) in rw still refl
  | inr n ↦ rw n (ground arith)
]

hits-done :
    (e : Ticket) (now later source : ℕ) (m : Message) (result : Outcome)
    → later < e.expires
    → hits now source m e ≡ true
    → hits later source m (done e result) ≡ true
hits-done e now later source m result u h =
    let named : is_named source m e ≡ true = ground (arith, h) in
    let live : is_free now e ≡ false = ground (arith, h) in
    let still : is_free later (done e result) ≡ false = ground (arith, live, u) in
    rw (still, named) refl

-- An entry of another ticket is not the one that an execute request names.
hits-other :
    (now source : ℕ) (m : Message) (e x : Ticket)
    → m.opcode ≡ op_execute
    → hits now source m e ≡ true
    → x.ticket ≢ e.ticket
    → hits now source m x ≡ false
hits-other now source m e x op h other =
    let token : e.ticket ≡ m.token = ground (arith, h, op) in
    let differs : (x.ticket == m.token) ≡ false = ground (arith, token, other) in
    ground (arith, op, differs)

-- A complete entry of the cache stays the last that an execute request names over one request.
module _ (now later source : ℕ) (m : Message) (cache after : List Ticket) (i : ℕ) (e : Ticket)
    (op : m.opcode ≡ op_execute) (complete : e.complete ≡ true) (le : now ≤ later)
    (u : later < e.expires) (l : IsLast now source m cache i e) where
  live : is_free later e ≡ false
  live = let hit = l.hit in ground (arith, hit, u)

  still_hit : hits later source m e ≡ true
  still_hit =
      let hit = l.hit in
      let named : is_named source m e ≡ true = ground (arith, hit) in
      let lives = live in rw (lives, named) refl

  written :
      (k : ℕ) (new : Ticket)
      → k ≢ i
      → (i < k → hits later source m new ≡ false)
      → (old : Ticket) → get_elem? cache k ≡ some old
      → IsLast later source m (set cache k new) i e
  written k new other none_new old at = record {
    here = get_elem?-set_ne cache k i new other ∙ l.here;
    hit = still_hit;
    alone = λ j x beyond there. elim (Bool-cases (k == j)) [
      | inl b ↦
          let same : k ≡ j = (==_iff k j).0 b in
          let put = get_elem?-set-some cache k old new at in
          let there_k = ap (get_elem? (set cache k new)) same ∙ there in
          let is : new ≡ x = cc in rw (sym is) (none_new (omega (arith, same, beyond)))
      | inr b ↦
          let differs : k ≢ j = λ f. ground (arith, f, b) in
          let there_j = sym (get_elem?-set_ne cache k j new differs) ∙ there in
          hits-later x now later source m le (l.alone j x beyond there_j)
    ];
  }

  pub kept : Effect later cache after → IsLast later source m after i e
  kept (same_cache same) = record {
    here = ap (λ c. get_elem? c i) same ∙ l.here;
    hit = still_hit;
    alone = λ j x beyond there.
        let before = sym (ap (λ c. get_elem? c j) same) ∙ there in
        hits-later x now later source m le (l.alone j x beyond before);
  }
  kept (granted_at k old new at free fresh same) =
      let other : k ≢ i = λ f.
        let at_i : get_elem? cache i ≡ some old = rw (sym f) at in
        let here = l.here in
        let is : old ≡ e = cc in
        let lives = live in
        let contrary : is_free later e ≡ true = rw (sym is) free in
        absurd (ground (arith, lives, contrary)) in
      let misses = hits-other later source m e new op still_hit (fresh i e l.here live) in
      subst (λ c. IsLast later source m c i e) (sym same) (written k new other (λ _. misses) old at)
  kept (run_at k old result at incomplete same) =
      let other : k ≢ i = λ f.
        let at_i : get_elem? cache i ≡ some old = rw (sym f) at in
        let here = l.here in
        let is : old ≡ e = cc in
        let contrary : e.complete ≡ false = rw (sym is) incomplete in
        absurd (ground (arith, complete, contrary)) in
      let misses = λ (beyond : i < k).
        hits-later (done old result) now later source m le (l.alone k old beyond at) in
      subst (λ c. IsLast later source m c i e) (sym same)
        (written k (done old result) other misses old at)

-- The entry that has just run.
pub IsLast-done :
    (now source : ℕ) (m : Message) (cache : List Ticket) (i : ℕ) (e : Ticket) (result : Outcome)
    → now < e.expires
    → IsLast now source m cache i e
    → IsLast now source m (set cache i (done e result)) i (done e result)
IsLast-done now source m cache i e result u l = record {
  here = get_elem?-set-some cache i e (done e result) l.here;
  hit = hits-done e now now source m result u l.hit;
  alone = λ k x beyond there.
      let differs : i ≢ k = λ f. absurd (omega (arith, f, beyond)) in
      l.alone k x beyond (sym (get_elem?-set_ne cache i k (done e result) differs) ∙ there);
}
