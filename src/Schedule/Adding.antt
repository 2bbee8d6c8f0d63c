-- ===== src/Schedule/Adding.antt =====
-- What an addition of fbo_schedule.c leaves.
use kfsw_services.Common.{
  ℕ, ◌≡◌, ◌≢◌, refl, sym, ap, subst, ◌∙◌, inl, inr, false, none, some, List, arith, get_elem?,
  Option-cases,
}
use kfsw_services.Common.Words.{u16}
use kfsw_services.Common.Int.{pos_part}
use kfsw_services.Common.Codes.{ok, success, eexist}
use kfsw_services.Command.{Arg}
use kfsw_services.Event.{bytes_of}
use kfsw_services.Schedule.{Slot, State, Info, Commands, Config, Clock, content_hash, build}
use kfsw_services.Schedule.Queue.{
  Addition, Added, add, admit, place, filled, check_time, find_live, find_free,
}
use kfsw_services.Schedule.Updating.{
  holds, find_free-unused, find_live-none, find_live-update, get_elem?-update_self,
  get_elem?-update_ne,
}

-- The slot that an accepted addition has taken, in the state before and behind it.
pub record Took (a : Addition) (info : Info) (hash mono : ℕ) (s : State) (r : Added) : Type 0 where
  pub slot : ℕ
  pub old : Slot
  pub index : r.index ≡ some (u16 slot)
  pub was_there : get_elem? s.slots slot ≡ some old
  pub was_free : old.used ≡ false
  pub entry : get_elem? r.state.slots slot ≡ some (filled a info hash mono slot)
  pub others : (k : ℕ) → slot ≢ k → get_elem? r.state.slots k ≡ get_elem? s.slots k
  pub unique : (k : ℕ) (sl : Slot) → get_elem? s.slots k ≡ some sl → holds hash sl ≡ false
  pub repeated : find_live hash r.state.slots ≡ some slot
  pub latency : r.state.latency_s ≡ s.latency_s

taken :
    (a : Addition) (info : Info) (hash mono i : ℕ) (s : State)
    → find_live hash s.slots ≡ none
    → find_free s.slots ≡ some i
    → Took a info hash mono s (place a info hash mono s)
unfolding place
taken a info hash mono i s none_live free =
    let (old, at, unused) = find_free-unused s.slots i free in
    let new = filled a info hash mono i in
    rw (place, none_live, free)
      (record {
        slot = i;
        old = old;
        index = refl;
        was_there = at;
        was_free = unused;
        entry = get_elem?-update_self (λ sl. new) i s.slots old at;
        others = λ k ne. get_elem?-update_ne (λ sl. new) i k s.slots ne;
        unique = λ k sl there. find_live-none hash s.slots k sl none_live there;
        repeated = find_live-update hash i s.slots new old none_live at (ground arith);
        latency = refl;
      })

place-Took :
    (a : Addition) (info : Info) (hash mono : ℕ) (s : State)
    → (place a info hash mono s).code ≡ success
    → Took a info hash mono s (place a info hash mono s)
unfolding place
place-Took a info hash mono s h = elim (Option-cases (find_live hash s.slots)) [
  | inr (i, e) ↦ absurd (ground (arith, h, e))
  | inl e ↦ elim (Option-cases (find_free s.slots)) [
    | inl f ↦ absurd (ground (arith, h, e, f))
    | inr (i, f) ↦ taken a info hash mono i s e f
  ]
]

place-eexist :
    (a : Addition) (info : Info) (hash mono i : ℕ) (s : State)
    → find_live hash s.slots ≡ some i
    → place a info hash mono s ≡ record { state = s; code = eexist; index = some (u16 i) }
unfolding place
place-eexist a info hash mono i s h = rw (place, h) refl

module _ (crc_update : ℕ → List ℕ → ℕ) (cfg : Config) (c : Commands) (a : Addition) where
  abbrev hash_of : ℕ
  hash_of = content_hash crc_update a.kind (pos_part a.when) a.node (bytes_of a.line)

  -- An addition that is accepted has passed every test, and passes them again while the wall clock
  -- and the latency buffer are what they were.
  add-admit :
      (clock : Clock) (mono : ℕ) (s t : State)
      → (add crc_update cfg c clock a s).code ≡ success
      → t.latency_s ≡ s.latency_s
      → add crc_update cfg c (record clock { mono = mono }) a t ≡ admit crc_update c mono a t
  unfolding add check_time
  add-admit clock mono s t h e = ground (arith, h, e)

  admit-place :
      (found : Info × List Arg) (mono : ℕ) (s : State)
      → build c (bytes_of a.line) ≡ ok found
      → admit crc_update c mono a s ≡ place a found.0 hash_of mono s
  unfolding admit
  admit-place found mono s e = rw (admit, e) refl

  -- An addition that is accepted takes a slot that was free, in which the entry is then scheduled as
  -- asked; no live entry had its content hash, and the other slots are as they were.
  pub add-Took :
      (clock : Clock) (s : State) (found : Info × List Arg)
      → build c (bytes_of a.line) ≡ ok found
      → (add crc_update cfg c clock a s).code ≡ success
      → Took a found.0 hash_of clock.mono s (add crc_update cfg c clock a s)
  add-Took clock s found e h =
      let admitted = add-admit clock clock.mono s s h refl in
      let placed = admit-place found clock.mono s e in
      let same = admitted ∙ placed in
      let accepted : (place a found.0 hash_of clock.mono s).code ≡ success =
        ap (λ r. r.code) (sym same) ∙ h in
      subst (λ r. Took a found.0 hash_of clock.mono s r) (sym same)
        (place-Took a found.0 hash_of clock.mono s accepted)

  -- An addition that was accepted changes nothing when it is made again, at whatever monotonic time,
  -- while the wall clock reads the same: it is refused with -EEXIST, and names the same slot.
  pub add-repeated :
      (clock : Clock) (mono : ℕ) (s : State) (found : Info × List Arg)
      → build c (bytes_of a.line) ≡ ok found
      → (add crc_update cfg c clock a s).code ≡ success
      → let r = add crc_update cfg c clock a s in
        add crc_update cfg c (record clock { mono = mono }) a r.state
        ≡ record { state = r.state; code = eexist; index = r.index }
  add-repeated clock mono s found e h =
      let took = add-Took clock s found e h in
      let r = add crc_update cfg c clock a s in
      let admitted = add-admit clock mono s r.state h took.latency in
      let placed = admit-place found mono r.state e in
      admitted
      ∙ placed
      ∙ place-eexist a found.0 hash_of mono took.slot r.state took.repeated
      ∙ ap (λ i. record { state = r.state; code = eexist; index = i }) (sym took.index)
