-- ===== src/Registry/Unique.antt =====
-- The registry that command.c's start leaves, and its lookups.
use kfsw_services.Common.{
  ℕ, zero, suc, ◌≤◌, ◌≡◌, ◌≢◌, refl, sym, ap, ◌∙◌, inl, inr, ◌⊎◌, true, Option, none, some, List,
  [], ◌∷◌, ◌++◌, append_assoc, arith, length, length-append, get_elem?, list_eq, list_eq_refl,
  list_eq_sound, Option-cases, Bool-cases, ◌==◌, ==_iff, ◌↔◌, append-nil,
}
use kfsw_services.Common.Codes.{Code, ok, err, success, Result-cases}
use kfsw_services.Registry.{
  Definition, DefinitionSet, name_of, find_by_id, find_by_name, check_definition,
  validate_definition, register, register_all, register_sets, Registry, init,
}

-- Two places of a registry with the same identifier or the same name are one.
abbrev pub Unique : List Definition → Type 0
Unique ds =
    (i j : ℕ) (d e : Definition)
    → get_elem? ds i ≡ some d
    → get_elem? ds j ≡ some e
    → (d.id ≡ e.id) ⊎ (name_of d ≡ name_of e)
    → i ≡ j

pub record IsRegistry (capacity : ℕ) (ds : List Definition) : Type 0 where
  pub unique : Unique ds
  pub checked : (i : ℕ) (d : Definition) → get_elem? ds i ≡ some d → check_definition d ≡ success
  pub fits : length ds ≤ capacity

empty-IsRegistry : (capacity : ℕ) → IsRegistry capacity []
empty-IsRegistry capacity = record {
  unique = λ i j d e at there same. absurd (ground (arith, at));
  checked = λ i d at. absurd (ground (arith, at));
  fits = omega arith;
}

get_elem?-snoc :
    (ds : List Definition) (new : Definition) (i : ℕ) (d : Definition)
    → get_elem? (ds ++ (new ∷ [])) i ≡ some d
    → (get_elem? ds i ≡ some d) ⊎ ((i ≡ length ds) × (new ≡ d))
get_elem?-snoc [] new zero d h = inr (refl, cc)
get_elem?-snoc [] new (suc i) d h = absurd (ground (arith, h))
get_elem?-snoc (x ∷ xs) new zero d h = inl h
get_elem?-snoc (x ∷ xs) new (suc i) d h = elim (get_elem?-snoc xs new i d h) [
  | inl before ↦ inl before
  | inr (at_end, same) ↦ inr (ap suc at_end, same)
]

get_elem?-bound :
    (ds : List Definition) (i : ℕ) (d : Definition) → get_elem? ds i ≡ some d → suc i ≤ length ds
get_elem?-bound [] i d h = absurd (ground (arith, h))
get_elem?-bound (x ∷ xs) zero d h = omega arith
get_elem?-bound (x ∷ xs) (suc i) d h = omega (arith, get_elem?-bound xs i d h)

find_by_id-none :
    (id : ℕ) (ds : List Definition) (i : ℕ) (d : Definition)
    → find_by_id id ds ≡ none
    → get_elem? ds i ≡ some d
    → d.id ≢ id
unfolding find_by_id
find_by_id-none id [] i d h at = absurd (ground (arith, at))
find_by_id-none id (x ∷ xs) zero d h at = let same : x ≡ d = cc in rw (sym same) (ground (arith, h))
find_by_id-none id (x ∷ xs) (suc i) d h at = find_by_id-none id xs i d (ground (arith, h)) at

find_by_name-none :
    (name : List ℕ) (ds : List Definition) (i : ℕ) (d : Definition)
    → find_by_name name ds ≡ none
    → get_elem? ds i ≡ some d
    → name_of d ≢ name
unfolding find_by_name
find_by_name-none name [] i d h at = absurd (ground (arith, at))
find_by_name-none name (x ∷ xs) zero d h at =
    let same : x ≡ d = cc in
    rw (sym same) (λ e.
      let alike : list_eq (name_of x) name ≡ true = rw e (list_eq_refl name) in
      ground (arith, h, alike))
find_by_name-none name (x ∷ xs) (suc i) d h at =
    find_by_name-none name xs i d (ground (arith, h)) at

-- What a definition that passes is, against the registry.
pub record Passes (ds : List Definition) (d : Definition) : Type 0 where
  pub checked : check_definition d ≡ success
  pub new_id : find_by_id d.id ds ≡ none
  pub new_name : find_by_name (name_of d) ds ≡ none

validate-Passes :
    (ds : List Definition) (d : Definition) → validate_definition ds d ≡ success → Passes ds d
unfolding validate_definition
validate-Passes ds d h = record {
  checked = ground (arith, h);
  new_id = ground (arith, h);
  new_name = ground (arith, h);
}

clash :
    (ds : List Definition) (d : Definition) (i : ℕ) (x y : Definition)
    → Passes ds d
    → get_elem? ds i ≡ some x
    → d ≡ y
    → (x.id ≡ y.id) ⊎ (name_of x ≡ name_of y)
    → ⊥
clash ds d i x y p at e (inl same) =
    find_by_id-none d.id ds i x p.new_id at (same ∙ ap (λ z. z.id) (sym e))
clash ds d i x y p at e (inr same) =
    find_by_name-none (name_of d) ds i x p.new_name at (same ∙ ap name_of (sym e))

turned_round :
    (x y : Definition)
    → (x.id ≡ y.id) ⊎ (name_of x ≡ name_of y)
    → (y.id ≡ x.id) ⊎ (name_of y ≡ name_of x)
turned_round x y (inl same) = inl (sym same)
turned_round x y (inr same) = inr (sym same)

snoc-Unique :
    (ds : List Definition) (d : Definition) → Unique ds → Passes ds d → Unique (ds ++ (d ∷ []))
snoc-Unique ds d u p i j x y at there same = elim (get_elem?-snoc ds d i x at) [
  | inl first ↦ elim (get_elem?-snoc ds d j y there) [
    | inl second ↦ u i j x y first second same
    | inr (last, e) ↦ absurd (clash ds d i x y p first e same)
  ]
  | inr (last_i, e) ↦ elim (get_elem?-snoc ds d j y there) [
    | inl second ↦ absurd (clash ds d j y x p second e (turned_round x y same))
    | inr (last_j, f) ↦ last_i ∙ sym last_j
  ]
]

snoc-IsRegistry :
    (capacity : ℕ) (ds : List Definition) (d : Definition)
    → IsRegistry capacity ds
    → Passes ds d
    → length ds ≢ capacity
    → IsRegistry capacity (ds ++ (d ∷ []))
snoc-IsRegistry capacity ds d r p room = record {
  unique = snoc-Unique ds d r.unique p;
  checked = λ i x at. elim (get_elem?-snoc ds d i x at) [
    | inl before ↦ r.checked i x before
    | inr (at_end, e) ↦ rw (sym e) p.checked
  ];
  fits = let fits = r.fits in omega (arith, fits, room, length-append ds (d ∷ []));
}

register-IsRegistry :
    (capacity : ℕ) (ds more : List Definition) (d : Definition)
    → IsRegistry capacity ds
    → register capacity ds d ≡ ok more
    → IsRegistry capacity more × (more ≡ ds ++ (d ∷ []))
unfolding register
register-IsRegistry capacity ds more d r h =
    let valid : validate_definition ds d ≡ success = ground (arith, h) in
    let room : length ds ≢ capacity = ground (arith, h) in
    let made : ds ++ (d ∷ []) ≡ more = ground (arith, h) in
    rw (sym made) (snoc-IsRegistry capacity ds d r (validate-Passes ds d valid) room, refl)

-- The error of a registration is one.
register-err :
    (capacity : ℕ) (ds : List Definition) (d : Definition) (code : Code)
    → register capacity ds d ≡ err code
    → code ≢ success
unfolding register
register-err capacity ds d code h = ground (arith, h)

-- What a loop of the start leaves: a registry, and when it returns success the definitions that were
-- there with the new ones behind them.
pub record Loaded (capacity : ℕ) (old new : List Definition) (r : List Definition × Code)
    : Type 0 where
  pub registry : IsRegistry capacity r.0
  pub complete : r.1 ≡ success → r.0 ≡ old ++ new

register_all-Loaded :
    (capacity : ℕ) (ds new : List Definition)
    → IsRegistry capacity ds
    → Loaded capacity ds new (register_all capacity ds new)
unfolding register_all
register_all-Loaded capacity ds [] r = record { registry = r; complete = λ e. sym (append-nil ds) }
register_all-Loaded capacity ds (d ∷ new) r = elim (Result-cases (register capacity ds d)) [
  | inl (code, e) ↦
      rw (register_all, e)
        (record {
          registry = empty-IsRegistry capacity;
          complete = λ same. absurd (register-err capacity ds d code e same);
        })
  | inr (more, e) ↦
      let (valid, made) = register-IsRegistry capacity ds more d r e in
      let rest = register_all-Loaded capacity more new valid in
      rw (register_all, e)
        (record {
          registry = rest.registry;
          complete =
              λ same. rest.complete same ∙ ap (λ l. l ++ new) made ∙ append_assoc ds (d ∷ []) new;
        })
]

-- The definitions of all sets, in order.
unfoldable pub definitions_of : List (Option DefinitionSet) → List Definition
definitions_of [] = []
definitions_of (none ∷ sets) = definitions_of sets
definitions_of (some set ∷ sets) =
    let rest = definitions_of sets in elim set.commands [ none ↦ rest | some ds ↦ ds ++ rest ]

register_sets-Loaded :
    (capacity : ℕ) (ds : List Definition) (sets : List (Option DefinitionSet))
    → IsRegistry capacity ds
    → Loaded capacity ds (definitions_of sets) (register_sets capacity ds sets)
unfolding register_sets definitions_of
register_sets-Loaded capacity ds [] r = record { registry = r; complete = λ e. sym (append-nil ds) }
register_sets-Loaded capacity ds (none ∷ sets) r = record {
  registry = r;
  complete = λ e. absurd (ground (arith, e));
}
register_sets-Loaded capacity ds (some set ∷ sets) r = elim (Option-cases set.commands) [
  | inl e ↦ elim (Bool-cases (set.count == 0)) [
    | inl zero_count ↦
        rw (register_sets, definitions_of, e, zero_count) (register_sets-Loaded capacity ds sets r)
    | inr some_count ↦
        rw (register_sets, definitions_of, e, some_count)
          (record { registry = r; complete = λ same. absurd (ground (arith, same)) })
  ]
  | inr (new, e) ↦
      let first = register_all-Loaded capacity ds new r in
      let loaded = register_all capacity ds new in
      elim (Bool-cases (loaded.1 == success)) [
        | inl done ↦
            let rest = register_sets-Loaded capacity loaded.0 sets first.registry in
            let all_there : loaded.0 ≡ ds ++ new = first.complete (ground (arith, done)) in
            rw (register_sets, definitions_of, e, done)
              (record {
                registry = rest.registry;
                complete = λ same.
                    rest.complete same
                    ∙ ap (λ l. l ++ definitions_of sets) all_there
                    ∙ append_assoc ds new (definitions_of sets);
              })
        | inr stopped ↦
            rw (register_sets, definitions_of, e, stopped)
              (record {
                registry = first.registry;
                complete = λ same. absurd (ground (arith, same, stopped));
              })
      ]
]

-- The start never leaves an ambiguous registry: whatever the sets, the registry behind it has no two
-- commands with the same identifier or the same name, every command in it has passed the checks of a
-- definition, and they fit the capacity; it is ready exactly when the start returned success, and then
-- it holds the definitions of all the sets in order.
pub init-IsRegistry :
    (capacity : ℕ) (sets : List (Option DefinitionSet)) (set_count : ℕ) (r : Registry)
    → let after = init capacity (some sets) set_count r in
      IsRegistry capacity after.0.registry
      × ((after.0.ready ≡ true) ↔ (after.1 ≡ success))
      × (after.1 ≡ success → after.0.registry ≡ definitions_of sets)
unfolding init
init-IsRegistry capacity sets set_count r =
    let loaded = register_sets-Loaded capacity [] sets (empty-IsRegistry capacity) in
    (loaded.registry, ==_iff (register_sets capacity [] sets).1 success, loaded.complete)

find_by_id-found :
    (id : ℕ) (ds : List Definition) (d : Definition)
    → find_by_id id ds ≡ some d
    → (i : ℕ) × (get_elem? ds i ≡ some d) × (d.id ≡ id)
unfolding find_by_id
find_by_id-found id [] d h = absurd (ground (arith, h))
find_by_id-found id (x ∷ xs) d h = elim (Bool-cases (x.id == id)) [
  | inl here ↦
      let same : x ≡ d = ground (arith, h, here) in rw (sym same) (0, refl, ground (arith, here))
  | inr elsewhere ↦
      let (i, at, e) = find_by_id-found id xs d (ground (arith, h, elsewhere)) in (suc i, at, e)
]

pub find_by_name-found :
    (name : List ℕ) (ds : List Definition) (d : Definition)
    → find_by_name name ds ≡ some d
    → (i : ℕ) × (get_elem? ds i ≡ some d) × (name_of d ≡ name)
unfolding find_by_name
find_by_name-found name [] d h = absurd (ground (arith, h))
find_by_name-found name (x ∷ xs) d h = elim (Bool-cases (list_eq (name_of x) name)) [
  | inl here ↦
      let same : x ≡ d = ground (arith, h, here) in
      rw (sym same) (0, refl, list_eq_sound (name_of x) name here)
  | inr elsewhere ↦
      let (i, at, e) = find_by_name-found name xs d (ground (arith, h, elsewhere)) in (suc i, at, e)
]

-- Every registered command is the one that its identifier and its name find.
pub find-registered :
    (capacity : ℕ) (ds : List Definition) (i : ℕ) (d : Definition)
    → IsRegistry capacity ds
    → get_elem? ds i ≡ some d
    → (find_by_id d.id ds ≡ some d) × (find_by_name (name_of d) ds ≡ some d)
find-registered capacity ds i d r at = (
  elim (Option-cases (find_by_id d.id ds)) [
    | inl e ↦ absurd (find_by_id-none d.id ds i d e at refl)
    | inr (x, e) ↦
        let (j, there, same) = find_by_id-found d.id ds x e in
        let place : j ≡ i = r.unique j i x d there at (inl same) in
        e ∙ sym there ∙ ap (get_elem? ds) place ∙ at
  ],
  elim (Option-cases (find_by_name (name_of d) ds)) [
    | inl e ↦ absurd (find_by_name-none (name_of d) ds i d e at refl)
    | inr (x, e) ↦
        let (j, there, same) = find_by_name-found (name_of d) ds x e in
        let place : j ≡ i = r.unique j i x d there at (inr same) in
        e ∙ sym there ∙ ap (get_elem? ds) place ∙ at
  ],
)
