-- ===== src/Schedule/Waiting.antt =====
-- How many entries of a content hash wait for their time in the queue, and what each step of
-- fbo_schedule.c does to that number.
use kfsw_services.Common.{
  ℕ, zero, suc, ◌==◌, ◌&&◌, ◌+◌, ◌≤◌, ◌≡◌, refl, sym, inl, inr, Bool, false, some, List, [], ◌∷◌,
  arith, get_elem?, if◌then◌else◌, Option-cases,
}
use kfsw_services.Common.Codes.{success, Result-cases}
use kfsw_services.Event.{bytes_of}
use kfsw_services.Common.Int.{pos_part}
use kfsw_services.Schedule.{
  content_hash, Slot, State, Info, Commands, Config, Clock, update, waits, build,
}
use kfsw_services.Schedule.Queue.{
  Addition, find_live, find_free, place, admit, add, cancel, cancelled, cleared_slots, clear,
  set_latency_s, serve, Request, add_request, cancel_request, clear_request, latency_request,
  filled, serve_all,
}
use kfsw_services.Schedule.Updating.{find_free-unused}
use kfsw_services.Schedule.Sweep.{turn, marked}

abbrev pub one_if : Bool → ℕ
one_if b = if b then 1 else 0

-- A slot whose entry waits, and has the hash `h`.
abbrev pub waits_as : ℕ → Slot → Bool
waits_as h sl = waits sl && (sl.entry.content_hash == h)

-- The entries that wait, of those with the hash `h`.
unfoldable pub waiting : ℕ → List Slot → ℕ
waiting h [] = 0
waiting h (sl ∷ sls) = let rest = waiting h sls in one_if (waits_as h sl) + rest

-- The hash of an addition, and whether the addition was accepted and has the hash `h`.
abbrev pub hash_of : (ℕ → List ℕ → ℕ) → Addition → ℕ
hash_of crc_update a = content_hash crc_update a.kind (pos_part a.when) a.node (bytes_of a.line)

-- A write to one slot.
pub waiting-update :
    (h : ℕ) (f : Slot → Slot) (i : ℕ) (slots : List Slot) (sl : Slot)
    → get_elem? slots i ≡ some sl
    → waiting h (update f i slots) + one_if (waits_as h sl)
      ≡ waiting h slots + one_if (waits_as h (f sl))
unfolding waiting update
waiting-update h f i [] sl at = cc
waiting-update h f zero (s ∷ ss) sl at = let same : s ≡ sl = cc in rw (sym same) (omega arith)
waiting-update h f (suc i) (s ∷ ss) sl at = omega (arith, waiting-update h f i ss sl at)

-- A write that leaves no slot waiting.
pub waiting-update_done :
    (h : ℕ) (f : Slot → Slot)
    → ((sl : Slot) → waits (f sl) ≡ false)
    → (i : ℕ) (slots : List Slot) → waiting h (update f i slots) ≤ waiting h slots
unfolding waiting update
waiting-update_done h f none_waits i [] = omega arith
waiting-update_done h f none_waits zero (s ∷ ss) = rw (none_waits s) (omega arith)
waiting-update_done h f none_waits (suc i) (s ∷ ss) =
    omega (arith, waiting-update_done h f none_waits i ss)

pub waiting-cleared :
    (h : ℕ) (slots : List Slot) → waiting h (cleared_slots slots) ≤ waiting h slots
unfolding waiting cleared_slots
waiting-cleared h [] = omega arith
waiting-cleared h (s ∷ ss) = ground (arith, waiting-cleared h ss)

pub waiting-marked :
    (h : ℕ) (clock : Clock) (latency_s : ℕ) (slots : List Slot)
    → waiting h (marked clock latency_s slots) ≤ waiting h slots
unfolding waiting marked
waiting-marked h clock latency_s [] = omega arith
waiting-marked h clock latency_s (s ∷ ss) =
    ground (arith, waiting-marked h clock latency_s ss, turn clock latency_s s)

-- A slot that is not used does not wait; a new entry does.
pub waiting-place :
    (h : ℕ) (a : Addition) (info : Info) (hash mono : ℕ) (s : State)
    → let r = place a info hash mono s in
      waiting h r.state.slots ≤ waiting h s.slots + one_if ((r.code == success) && (hash == h))
unfolding place
waiting-place h a info hash mono s = elim (Option-cases (find_live hash s.slots)) [
  | inr (i, e) ↦ rw (place, e) (omega arith)
  | inl e ↦ elim (Option-cases (find_free s.slots)) [
    | inl f ↦ rw (place, e, f) (omega arith)
    | inr (i, f) ↦
        let (sl, at, unused) = find_free-unused s.slots i f in
        let still : waits_as h sl ≡ false = rw unused refl in
        let grown = waiting-update h (λ old. filled a info hash mono i) i s.slots sl at in
        rw (place, e, f) (ground (arith, grown, still))
  ]
]

pub waiting-admit :
    (h : ℕ) (crc_update : ℕ → List ℕ → ℕ) (c : Commands) (mono : ℕ) (a : Addition) (s : State)
    → let r = admit crc_update c mono a s in
      waiting h r.state.slots
      ≤ waiting h s.slots + one_if ((r.code == success) && (hash_of crc_update a == h))
unfolding admit
waiting-admit h crc_update c mono a s = elim (Result-cases (build c (bytes_of a.line))) [
  | inl (code, e) ↦ rw (admit, e) (omega arith)
  | inr (found, e) ↦ rw (admit, e) (waiting-place h a found.0 (hash_of crc_update a) mono s)
]

pub waiting-cancel : (h i : ℕ) (s : State) → waiting h (cancel i s).0.slots ≤ waiting h s.slots
unfolding cancel
waiting-cancel h i s = elim (Option-cases (get_elem? s.slots i)) [
  | inl e ↦ rw (cancel, e) (omega arith)
  | inr (sl, e) ↦
      let one = waiting-update h cancelled i s.slots sl e in rw (cancel, e) (ground (arith, one))
]

pub waiting-add :
    (h : ℕ) (crc_update : ℕ → List ℕ → ℕ) (cfg : Config) (c : Commands) (clock : Clock)
    (a : Addition) (s : State)
    → let r = add crc_update cfg c clock a s in
      waiting h r.state.slots
      ≤ waiting h s.slots + one_if ((r.code == success) && (hash_of crc_update a == h))
unfolding add
waiting-add h crc_update cfg c clock a s =
    ground (arith, waiting-admit h crc_update c clock.mono a s)

-- The additions with the hash `h` that a request, or a list of them, has accepted.
unfoldable pub accepted : ℕ → (ℕ → List ℕ → ℕ) → Config → Request → State → ℕ
accepted h crc_update cfg (add_request c clock a) s =
    one_if (((add crc_update cfg c clock a s).code == success) && (hash_of crc_update a == h))
accepted h crc_update cfg (cancel_request i) s = 0
accepted h crc_update cfg clear_request s = 0
accepted h crc_update cfg (latency_request seconds) s = 0

unfoldable pub accepted_all : ℕ → (ℕ → List ℕ → ℕ) → Config → List Request → State → ℕ
accepted_all h crc_update cfg [] s = 0
accepted_all h crc_update cfg (r ∷ rs) s =
    let rest = accepted_all h crc_update cfg rs (serve crc_update cfg r s) in
    accepted h crc_update cfg r s + rest

pub waiting-serve :
    (h : ℕ) (crc_update : ℕ → List ℕ → ℕ) (cfg : Config) (r : Request) (s : State)
    → waiting h (serve crc_update cfg r s).slots ≤ waiting h s.slots + accepted h crc_update cfg r s
unfolding serve accepted clear set_latency_s
waiting-serve h crc_update cfg (add_request c clock a) s = waiting-add h crc_update cfg c clock a s
waiting-serve h crc_update cfg (cancel_request i) s = omega (arith, waiting-cancel h i s)
waiting-serve h crc_update cfg clear_request s = omega (arith, waiting-cleared h s.slots)
waiting-serve h crc_update cfg (latency_request seconds) s = ground arith

pub waiting-serve_all :
    (h : ℕ) (crc_update : ℕ → List ℕ → ℕ) (cfg : Config) (rs : List Request) (s : State)
    → waiting h (serve_all crc_update cfg rs s).slots
      ≤ waiting h s.slots + accepted_all h crc_update cfg rs s
unfolding serve_all accepted_all
waiting-serve_all h crc_update cfg [] s = omega arith
waiting-serve_all h crc_update cfg (r ∷ rs) s =
    let after = serve crc_update cfg r s in
    omega (arith, waiting-serve h crc_update cfg r s, waiting-serve_all h crc_update cfg rs after)
