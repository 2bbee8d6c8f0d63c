-- ===== src/Health/Names.antt =====
-- When `kfsw_health_register` recognises a name that it has already.
use kfsw_services.Common.{
  ℕ, zero, suc, ◌≤◌, ◌<◌, ◌≡◌, ◌≢◌, refl, ap, true, false, some, List, [], ◌∷◌, arith, length, take,
  take_all, length-take, get_elem?, set, All, Option-cases, Bool-cases, inl, inr, list_eq_refl,
  list_eq_sound,
}
use kfsw_services.Common.Codes.{ok, err, eexist}
use kfsw_services.Health.{
  Entry, State, registered, first_free, register, has_name, same_prefix, name_size,
}
use kfsw_services.Health.Table.{
  IsWellFormed, HasShortName, first_free-get_elem?, register-IsWellFormed,
}

-- A stored name that fills its field is never taken for a longer one.
short-ne-long :
    (stored name : List ℕ)
    → length stored ≤ 15
    → 16 ≤ length name
    → same_prefix name_size stored name ≡ false
unfolding same_prefix
short-ne-long stored name h k = elim (Bool-cases (same_prefix name_size stored name)) [
  | inl same ↦
      let equal = ap length (list_eq_sound (take 16 stored) (take 16 name) same) in
      absurd (omega (arith, equal, length-take 16 stored, length-take 16 name))
  | inr other ↦ other
]

has_name_long :
    (name : List ℕ) (es : List Entry)
    → All HasShortName es
    → 16 ≤ length name
    → has_name name es ≡ false
unfolding has_name
has_name_long name [] h k = refl
has_name_long name (e ∷ es) h k =
    ground (arith, has_name_long name es h.1 k, short-ne-long e.name name h.0 k)

has_name-set :
    (name : List ℕ) (es : List Entry) (i : ℕ) (old new : Entry)
    → get_elem? es i ≡ some old
    → new.used ≡ true
    → same_prefix name_size new.name name ≡ true
    → has_name name (set es i new) ≡ true
unfolding has_name
has_name-set name [] i old new h u p = cc
has_name-set name (e ∷ es) zero old new h u p = ground arith
has_name-set name (e ∷ es) (suc i) old new h u p =
    ground (arith, has_name-set name es i old new h u p)

same_stored : (name : List ℕ) → length name ≤ 15 → same_prefix name_size (take 15 name) name ≡ true
unfolding same_prefix
same_stored name h = rw (take_all name 15 h) (list_eq_refl (take 16 name))

-- A second registration under a name that was just registered is refused with -EEXIST if the name
-- has at most 15 bytes. The code truncates a longer name when it stores it and compares it whole:
-- such a name is never refused with -EEXIST, however often it is registered.
pub register_again :
    (s t : State) (name : List ℕ) (deadline_ms now again later handle : ℕ)
    → IsWellFormed s
    → register s name deadline_ms now ≡ (t, ok handle)
    → 0 < again
    → (length name ≤ 15 → (register t name again later).1 ≡ err eexist)
      × (16 ≤ length name → (register t name again later).1 ≢ err eexist)
unfolding register
register_again s t name deadline_ms now again later handle v h p =
    elim (Option-cases (first_free s.entries)) [
      | inl full ↦ absurd (ground arith)
      | inr (i, free) ↦
          let at = first_free-get_elem? s.entries i free in
          let new = registered name deadline_ms now in
          let table : t.entries ≡ set s.entries i new = ground arith in
          (
            λ short.
                let known : has_name name t.entries ≡ true =
                  rw table
                    (has_name-set name s.entries i at.0 new at.1 refl (same_stored name short)) in
                ground arith,
            λ long.
                let kept = register-IsWellFormed s name deadline_ms now v in
                let named : All HasShortName t.entries = ground (arith, kept) in
                let fresh = has_name_long name t.entries named long in
                let found = Option-cases (first_free t.entries) in ground (arith, found),
          )
    ]
