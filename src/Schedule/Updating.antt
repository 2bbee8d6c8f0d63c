-- ===== src/Schedule/Updating.antt =====
-- Writes to one slot of fbo_schedule.c's queue, and the searches of an addition.
use kfsw_services.Common.{
  ℕ, zero, suc, ◌≡◌, ◌≢◌, refl, sym, ap, inl, inr, Bool, true, false, none, some, List, [], ◌∷◌,
  arith, get_elem?, Option-cases, Bool-cases, ◌&&◌, ◌==◌,
}
use kfsw_services.Schedule.{Slot, update, live}
use kfsw_services.Schedule.Queue.{find_free, find_live}

pub get_elem?-update_self :
    (f : Slot → Slot) (i : ℕ) (slots : List Slot) (sl : Slot)
    → get_elem? slots i ≡ some sl
    → get_elem? (update f i slots) i ≡ some (f sl)
unfolding update
get_elem?-update_self f i [] sl h = cc
get_elem?-update_self f zero (s ∷ ss) sl h = let same : s ≡ sl = cc in rw same refl
get_elem?-update_self f (suc i) (s ∷ ss) sl h = get_elem?-update_self f i ss sl h

pub get_elem?-update_ne :
    (f : Slot → Slot) (i k : ℕ) (slots : List Slot)
    → i ≢ k
    → get_elem? (update f i slots) k ≡ get_elem? slots k
unfolding update
get_elem?-update_ne f i k [] h = refl
get_elem?-update_ne f zero zero (s ∷ ss) h = absurd (h refl)
get_elem?-update_ne f zero (suc k) (s ∷ ss) h = refl
get_elem?-update_ne f (suc i) zero (s ∷ ss) h = refl
get_elem?-update_ne f (suc i) (suc k) (s ∷ ss) h = get_elem?-update_ne f i k ss (λ e. h (ap suc e))

-- The free slot is one that is not used.
pub find_free-unused :
    (slots : List Slot) (i : ℕ)
    → find_free slots ≡ some i
    → (sl : Slot) × (get_elem? slots i ≡ some sl) × (sl.used ≡ false)
unfolding find_free
find_free-unused [] i h = cc
find_free-unused (s ∷ ss) i h = elim (Bool-cases s.used) [
  | inl used ↦ elim (Option-cases (find_free ss)) [
    | inl e ↦ absurd (ground (arith, h, used, e))
    | inr (j, e) ↦
        let (sl, at, unused) = find_free-unused ss j e in
        let here : suc j ≡ i = ground (arith, h, used, e) in rw (sym here) (sl, at, unused)
  ]
  | inr unused ↦ let here : 0 ≡ i = ground (arith, h, unused) in rw (sym here) (s, refl, unused)
]

abbrev pub holds : ℕ → Slot → Bool
holds hash sl = live sl && (sl.entry.content_hash == hash)

-- The entry that an addition finds is live and has the hash.
pub find_live-holds :
    (hash : ℕ) (slots : List Slot) (i : ℕ)
    → find_live hash slots ≡ some i
    → (sl : Slot) × (get_elem? slots i ≡ some sl) × (holds hash sl ≡ true)
unfolding find_live
find_live-holds hash [] i h = cc
find_live-holds hash (s ∷ ss) i h = elim (Bool-cases (holds hash s)) [
  | inr lacks ↦ elim (Option-cases (find_live hash ss)) [
    | inl e ↦ absurd (ground (arith, h, lacks, e))
    | inr (j, e) ↦
        let (sl, at, has) = find_live-holds hash ss j e in
        let here : suc j ≡ i = ground (arith, h, lacks, e) in rw (sym here) (sl, at, has)
  ]
  | inl has ↦ let here : 0 ≡ i = ground (arith, h, has) in rw (sym here) (s, refl, has)
]

-- An addition that finds none has looked at every entry.
pub find_live-none :
    (hash : ℕ) (slots : List Slot) (k : ℕ) (sl : Slot)
    → find_live hash slots ≡ none
    → get_elem? slots k ≡ some sl
    → holds hash sl ≡ false
unfolding find_live
find_live-none hash [] k sl h at = cc
find_live-none hash (s ∷ ss) zero sl h at = elim (Bool-cases (holds hash s)) [
  | inl has ↦ absurd (ground (arith, h, has))
  | inr lacks ↦ let same : s ≡ sl = cc in rw (sym same) lacks
]
find_live-none hash (s ∷ ss) (suc k) sl h at = elim (Bool-cases (holds hash s)) [
  | inl has ↦ absurd (ground (arith, h, has))
  | inr lacks ↦ find_live-none hash ss k sl (ground (arith, h, lacks)) at
]

-- A new entry is the one that a search for its hash finds, when no other has the hash.
pub find_live-update :
    (hash i : ℕ) (slots : List Slot) (new old : Slot)
    → find_live hash slots ≡ none
    → get_elem? slots i ≡ some old
    → holds hash new ≡ true
    → find_live hash (update (λ sl. new) i slots) ≡ some i
unfolding find_live update
find_live-update hash i [] new old h at has = cc
find_live-update hash zero (s ∷ ss) new old h at has = ground (arith, has)
find_live-update hash (suc i) (s ∷ ss) new old h at has = elim (Bool-cases (holds hash s)) [
  | inl here ↦ absurd (ground (arith, h, here))
  | inr lacks ↦
      let rest_none : find_live hash ss ≡ none = ground (arith, h, lacks) in
      let rest = find_live-update hash i ss new old rest_none at has in ground (arith, rest, lacks)
]
