-- ===== src/Event/Reading.antt =====
-- What the readers of the ring see: `kfsw_event_get`, `kfsw_event_visit`, the counters and the
-- sequence numbers.
use native.Mathlib.Nat.{mod-add-mod, mod-eq_of_lt, add-zero}
use kfsw_services.Common.{
  ℕ, zero, suc, ◌+◌, ◌-◌, ◌%◌, ◌≤◌, ◌<◌, ◌≡◌, ◌≢◌, ap, ◌∙◌, List, [], ◌∷◌, arith, Bool,
  if◌then◌else◌, Option, none, some, get_elem?, get_or,
}
use kfsw_services.Common.Words.{u16}
use kfsw_services.Common.Codes.{Result, ok, err, enoent}
use kfsw_services.Event.{Record, State, depth, zero_record, get, visit_copy, visit_from, visit}
use kfsw_services.Event.Window.{window, contents, get_elem?-window}
use kfsw_services.Event.Invariant.{IsValid}

abbrev pub from_option : Option Record → Result Record
from_option none = err enoent
from_option (some r) = ok r

-- `kfsw_event_get` with age 0 is the newest record, with age `held_count - 1` the oldest; an age of
-- `held_count` or more is -ENOENT.
pub get-contents :
    {s : State} (age : ℕ)
    → IsValid s
    → (s.held_count ≤ age → get s age ≡ err enoent)
      × (age < s.held_count
          → get s age ≡ from_option (get_elem? (contents s) (s.held_count - 1 - age)))
unfolding get
get-contents {s} age v = (
  λ h. ground arith,
  λ h.
      let at : s.oldest_index + s.held_count - 1 - age ≡ s.oldest_index + (s.held_count - 1 - age) =
        omega arith in
      ground (
        arith,
        get_elem?-window s.ring (depth s) s.oldest_index s.held_count (s.held_count - 1 - age),
      ),
)

-- What a visitor makes of a list of records: it stops the walk by answering false.
module _ {ℓ} {Context : Type ℓ} (visitor : Record → Context → Context × Bool) where
  pub walk : List Record → Context → Context
  walk [] c = c
  walk (r ∷ rs) c =
      let (c', more) = visitor r c in let rest = walk rs c' in if more then rest else c'

  visit_from_total :
      (fuel : ℕ) (states : ℕ → State) (limit index : ℕ) (c : Context)
      → ((k : ℕ) → (states k).held_count ≤ limit)
      → limit < 0x1_0000
      → index ≤ limit
      → limit < index + fuel
      → visit_from visitor fuel states index c ≢ none
  unfolding visit_from visit_copy
  visit_from_total zero states limit index c bound small inside enough = absurd (omega arith)
  visit_from_total (suc fuel) states limit index c bound small inside enough =
      let s = states index in
      let found = get_or s.ring ((s.oldest_index + index) % depth s) zero_record in
      let again = λ (h : index < limit).
        visit_from_total fuel states limit (u16 (index + 1)) (visitor found c).0 bound small
          (omega arith) (omega arith) in
      ground (arith, bound index, again)

  -- `kfsw_event_visit` ends: whatever other contexts do to the ring between its rounds, it makes at
  -- most one round more than `limit`, if the ring never holds more than `limit` records.
  pub visit_total :
      (states : ℕ → State) (limit : ℕ) (c : Context)
      → ((k : ℕ) → (states k).held_count ≤ limit)
      → limit < 0x1_0000
      → visit visitor (limit + 1) states c ≢ none
  unfolding visit
  visit_total states limit c bound small =
      visit_from_total (limit + 1) states limit 0 c bound small (omega arith) (omega arith)

  visit_from-walk :
      (fuel : ℕ) (s : State) (index n : ℕ) (c : Context)
      → IsValid s
      → index + n ≡ s.held_count
      → n < fuel
      → visit_from visitor fuel (λ _. s) index c
        ≡ some (walk (window s.ring (depth s) ((s.oldest_index + index) % depth s) n) c)
  unfolding visit_from visit_copy walk
  visit_from-walk zero s index n c v e h = absurd (omega arith)
  visit_from-walk (suc fuel) s index zero c v e h = ground arith
  visit_from-walk (suc fuel) s index (suc n) c v e h =
      let here = (s.oldest_index + index) % depth s in
      let next = (visitor (get_or s.ring here zero_record) c).0 in
      let plain : u16 (index + 1) ≡ index + 1 = omega arith in
      let shift : (s.oldest_index + u16 (index + 1)) % depth s ≡ (here + 1) % depth s =
        rw (plain, mod-add-mod) (ap (λ k. k % depth s) (omega arith)) in
      let again =
        visit_from-walk fuel s (u16 (index + 1)) n next v (omega arith) (omega arith)
        ∙ ap (λ k. some (walk (window s.ring (depth s) k n) next)) shift in
      ground (arith, again)

  -- While nobody writes, `kfsw_event_visit` shows the held records to the visitor oldest first,
  -- each once, until the visitor answers false.
  pub visit-contents :
      {s : State} (c : Context)
      → IsValid s
      → visit visitor (s.held_count + 1) (λ _. s) c ≡ some (walk (contents s) c)
  unfolding visit
  visit-contents {s} c v =
      visit_from-walk (s.held_count + 1) s 0 s.held_count c v (omega arith) (omega arith)
      ∙ ap (λ k. some (walk (window s.ring (depth s) k s.held_count) c)) start
    where
      start : (s.oldest_index + 0) % depth s ≡ s.oldest_index
      start = ap (λ k. k % depth s) (add-zero s.oldest_index) ∙ mod-eq_of_lt v.oldest_in
