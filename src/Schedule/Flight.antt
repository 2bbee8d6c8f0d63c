-- ===== src/Schedule/Flight.antt =====
-- A release of fbo_schedule.c while its command runs, and the moment before it starts.
use kfsw_services.Common.{
  ℕ, zero, suc, ◌≡◌, ◌≢◌, refl, sym, ap, ◌∙◌, inl, inr, true, false, Option, some, List, [], ◌∷◌,
  arith, get_elem?, Option-cases, Bool-cases, ◌==◌, ==_false→ne,
}
use kfsw_services.Common.Codes.{success, ealready, Result-cases}
use kfsw_services.Common.Int.{pos_part}
use kfsw_services.Event.{bytes_of}
use kfsw_services.Schedule.{
  Slot, State, Info, Commands, Config, Clock, content_hash, build, update, is_running, waits,
}
use kfsw_services.Schedule.Queue.{
  Addition, add, admit, place, cancel, cancelled, clear, cleared_slots, is_dropped, set_latency_s,
  Request, add_request, cancel_request, clear_request, latency_request, serve, serve_all, find_live,
  find_free, filled,
}
use kfsw_services.Schedule.Sweep.{
  Surroundings, examine, invoke, started, reported, begin, finish, copied, release,
}
use kfsw_services.Schedule.Updating.{find_free-unused, get_elem?-update_self, get_elem?-update_ne}
use kfsw_services.Schedule.Candidate.{examine-Choice, examine-at}

-- Slot `i` holds `sl`, whose command runs.
pub record InFlight (i : ℕ) (sl : Slot) (s : State) : Type 0 where
  pub at : get_elem? s.slots i ≡ some sl
  pub used : sl.used ≡ true
  pub running : is_running sl.entry.status ≡ true

place-InFlight :
    (a : Addition) (info : Info) (hash mono i : ℕ) (sl : Slot) (s : State)
    → InFlight i sl s
    → InFlight i sl (place a info hash mono s).state
unfolding place
place-InFlight a info hash mono i sl s f = elim (Option-cases (find_live hash s.slots)) [
  | inr (j, e) ↦ rw (place, e) f
  | inl e ↦ elim (Option-cases (find_free s.slots)) [
    | inl g ↦ rw (place, e, g) (record { at = f.at; used = f.used; running = f.running })
    | inr (j, g) ↦
        let (old, there, unused) = find_free-unused s.slots j g in
        let differ : j ≢ i = λ same.
          let both : some old ≡ some sl = sym there ∙ ap (get_elem? s.slots) same ∙ f.at in
          let alike : old ≡ sl = cc in
          let contrary : false ≡ true = sym unused ∙ ap (λ x. x.used) alike ∙ f.used in
          ground (arith, contrary) in
        rw (place, e, g)
          (record {
            at = get_elem?-update_ne (λ o. filled a info hash mono j) j i s.slots differ ∙ f.at;
            used = f.used;
            running = f.running;
          })
  ]
]

admit-InFlight :
    (crc_update : ℕ → List ℕ → ℕ) (c : Commands) (mono : ℕ) (a : Addition) (i : ℕ) (sl : Slot)
    (s : State)
    → InFlight i sl s
    → InFlight i sl (admit crc_update c mono a s).state
unfolding admit
admit-InFlight crc_update c mono a i sl s f = elim (Result-cases (build c (bytes_of a.line))) [
  | inl (code, e) ↦ rw (admit, e) (record { at = f.at; used = f.used; running = f.running })
  | inr (found, e) ↦
      let hash = content_hash crc_update a.kind (pos_part a.when) a.node (bytes_of a.line) in
      rw (admit, e) (place-InFlight a found.0 hash mono i sl s f)
]

add-at :
    (crc_update : ℕ → List ℕ → ℕ) (cfg : Config) (c : Commands) (clock : Clock) (a : Addition)
    (i : ℕ) (sl : Slot) (s : State)
    → InFlight i sl s
    → get_elem? (add crc_update cfg c clock a s).state.slots i ≡ some sl
unfolding add
add-at crc_update cfg c clock a i sl s f =
    let admitted = (admit-InFlight crc_update c clock.mono a i sl s f).at in
    let kept = f.at in ground (arith, admitted, kept)

cancel-InFlight : (i : ℕ) (sl : Slot) (s : State) → InFlight i sl s → cancel i s ≡ (s, ealready)
unfolding cancel
cancel-InFlight i sl s f =
    let used = f.used in
    let running = f.running in rw (cancel, f.at) (ground (arith, used, running))

cancel-at :
    (k i : ℕ) (sl : Slot) (s : State) → InFlight i sl s → get_elem? (cancel k s).0.slots i ≡ some sl
unfolding cancel
cancel-at k i sl s f = elim (Bool-cases (k == i)) [
  | inl same ↦ let here : k ≡ i = ground (arith, same) in rw (here, cancel-InFlight i sl s f) f.at
  | inr differ ↦
      let other = get_elem?-update_ne cancelled k i s.slots (==_false→ne k i differ) in
      let kept = f.at in ground (arith, other, kept)
]

cleared-at :
    (i : ℕ) (sl : Slot) (slots : List Slot)
    → get_elem? slots i ≡ some sl
    → is_dropped sl ≡ false
    → get_elem? (cleared_slots slots) i ≡ some sl
unfolding cleared_slots
cleared-at i sl [] h d = cc
cleared-at zero sl (s ∷ ss) h d =
    let same : s ≡ sl = cc in
    let kept : is_dropped s ≡ false = rw same d in rw (cleared_slots, kept) h
cleared-at (suc i) sl (s ∷ ss) h d = cleared-at i sl ss h d

serve-InFlight :
    (crc_update : ℕ → List ℕ → ℕ) (cfg : Config) (r : Request) (i : ℕ) (sl : Slot) (s : State)
    → InFlight i sl s
    → InFlight i sl (serve crc_update cfg r s)
unfolding serve clear set_latency_s
serve-InFlight crc_update cfg (add_request c clock a) i sl s f = record {
  at = add-at crc_update cfg c clock a i sl s f;
  used = f.used;
  running = f.running;
}
serve-InFlight crc_update cfg (cancel_request k) i sl s f = record {
  at = cancel-at k i sl s f;
  used = f.used;
  running = f.running;
}
serve-InFlight crc_update cfg clear_request i sl s f = record {
  at = cleared-at i sl s.slots f.at (ground (arith, f.running, f.used));
  used = f.used;
  running = f.running;
}
serve-InFlight crc_update cfg (latency_request seconds) i sl s f = record {
  at = let kept = f.at in ground (arith, kept);
  used = f.used;
  running = f.running;
}

-- Whatever other threads or the command itself ask of the queue while the command runs, additions,
-- cancellations and clearing included, its slot keeps its entry.
pub serve_all-InFlight :
    (crc_update : ℕ → List ℕ → ℕ) (cfg : Config) (rs : List Request) (i : ℕ) (sl : Slot) (s : State)
    → InFlight i sl s
    → InFlight i sl (serve_all crc_update cfg rs s)
unfolding serve_all
serve_all-InFlight crc_update cfg [] i sl s f = f
serve_all-InFlight crc_update cfg (r ∷ rs) i sl s f =
    serve_all-InFlight crc_update cfg rs i sl (serve crc_update cfg r s)
      (serve-InFlight crc_update cfg r i sl s f)

-- `begin` on the entry that a release starts with.
begin-InFlight :
    (utc : Option ℕ) (i : ℕ) (s : State) (sl : Slot)
    → get_elem? s.slots i ≡ some sl
    → sl.used ≡ true
    → InFlight i (started utc sl) (begin utc i s)
unfolding begin
begin-InFlight utc i s sl at used = record {
  at = get_elem?-update_self (started utc) i s.slots sl at;
  used = used;
  running = refl;
}

copied-at :
    (i : ℕ) (s : State) (sl : Slot) → get_elem? s.slots i ≡ some sl → copied s i ≡ sl.entry ∷ []
copied-at i s sl at = rw (copied, at) refl

-- A release reports on the entry that it has invoked: whatever calls reach the queue while the command
-- runs, its slot then holds that entry, with the outcome and the status of the command, completed when
-- both are success and failed otherwise.
pub release-reported :
    (crc_update : ℕ → List ℕ → ℕ) (cfg : Config) (env : Surroundings) (utc : Option ℕ) (i : ℕ)
    (s : State) (sl : Slot)
    → get_elem? s.slots i ≡ some sl
    → sl.used ≡ true
    → get_elem? (release crc_update cfg env utc i s).state.slots i
      ≡ some (reported (invoke cfg env.commands (started utc sl).entry) (started utc sl))
unfolding release finish
release-reported crc_update cfg env utc i s sl at used =
    let s1 = begin utc i s in
    let before = begin-InFlight utc i s sl at used in
    let after = serve_all-InFlight crc_update cfg env.meanwhile i (started utc sl) s1 before in
    let s2 = serve_all crc_update cfg env.meanwhile s1 in
    let answer = invoke cfg env.commands (started utc sl).entry in
    let copy : copied s1 i ≡ (started utc sl).entry ∷ [] =
      copied-at i s1 (started utc sl) before.at in
    rw copy (get_elem?-update_self (reported answer) i s2.slots (started utc sl) after.at)

cancel-chosen :
    (i : ℕ) (s : State) (sl : Slot)
    → get_elem? s.slots i ≡ some sl
    → waits sl ≡ true
    → cancel i s ≡ (record s { slots = update cancelled i s.slots }, success)
unfolding cancel
cancel-chosen i s sl at w = rw (cancel, at) (ground (arith, w))

-- A cancellation that comes between the choice of an entry and the start of its release reports
-- success, and the release invokes that entry all the same, exactly as it would have done without
-- the cancellation.
pub cancel-release :
    (crc_update : ℕ → List ℕ → ℕ) (cfg : Config) (env : Surroundings) (clock : Clock) (s : State)
    (i : ℕ)
    → (examine clock s).1 ≡ some i
    → let seen = (examine clock s).0 in
      ((cancel i seen).1 ≡ success)
      × ((sl : Slot) × (get_elem? seen.slots i ≡ some sl)
          × ((release crc_update cfg env clock.utc i (cancel i seen).0).invoked
              ≡ (started clock.utc sl).entry ∷ []))
unfolding release begin
cancel-release crc_update cfg env clock s i h =
    let c = examine-Choice clock s i h in
    let seen = (examine clock s).0 in
    let at = examine-at clock s i c in
    let one = cancel-chosen i seen c.slot at c.is_due.waiting in
    let gone = get_elem?-update_self cancelled i seen.slots c.slot at in
    let back =
      get_elem?-update_self (started clock.utc) i (update cancelled i seen.slots) (cancelled c.slot)
        gone in
    (
      ap (λ x. x.1) one,
      (
        c.slot,
        at,
        rw one (
            copied-at i (begin clock.utc i (record seen { slots = update cancelled i seen.slots }))
              (started clock.utc (cancelled c.slot)) back),
      ),
    )
