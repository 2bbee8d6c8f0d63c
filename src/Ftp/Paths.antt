-- ===== src/Ftp/Paths.antt =====
-- The paths that ftp_protocol.c resolves.
use kfsw_services.Common.{
  ℕ, ◌+◌, ◌<◌, ◌≤◌, ◌≡◌, ◌≢◌, refl, sym, ap, subst, ◌∙◌, inl, inr, ◌⊎◌, Bool, true, false, none,
  some, List, [], ◌∷◌, ◌++◌, append-nil, append_assoc, arith, length, length-append, ltb, ◌==◌,
  drop, All, Option-cases, Bool-cases,
}
use kfsw_services.Common.Codes.{ok}
use kfsw_services.Ftp.{
  ExtraRoot, without_slash, extra_root, path_is_read_only, component_is_bad, check_components,
  max_path_size, resolve_below, resolve_path, resolve_write_path,
}

-- A character of a component: no slash, no backslash and no control character.
abbrev pub IsPlain : ℕ → Type 0
IsPlain c = (c ≢ 47) × (c ≢ 92) × (32 ≤ c) × (c ≢ 127)

-- A component of a path below a root: not empty, and neither "." nor "..".
pub record IsComponent (w : List ℕ) : Type 0 where
  pub plain : All IsPlain w
  pub nonempty : w ≢ []
  pub not_dot : w ≢ 46 ∷ []
  pub not_dots : w ≢ 46 ∷ 46 ∷ []

-- The components with a slash between them.
unfoldable pub join : List ℕ → List (List ℕ) → List ℕ
join first [] = first
join first (w ∷ ws) = let rest = join w ws in first ++ (47 ∷ rest)

component_is_bad-IsComponent :
    (w : List ℕ) → All IsPlain w → component_is_bad w ≡ false → IsComponent w
unfolding component_is_bad
component_is_bad-IsComponent w plain good = record {
  plain = plain;
  nonempty = λ e. ground (arith, good, e);
  not_dot = λ e. ground (arith, good, e);
  not_dots = λ e. ground (arith, good, e);
}

All-snoc : (w : List ℕ) (c : ℕ) → All IsPlain w → IsPlain c → All IsPlain (w ++ (c ∷ []))
All-snoc [] c h p = (p, tt)
All-snoc (x ∷ xs) c h p = (h.0, All-snoc xs c h.1 p)

-- What the loop has read is a list of components.
pub record Components (text : List ℕ) : Type 0 where
  pub first : List ℕ
  pub others : List (List ℕ)
  pub components : All IsComponent (first ∷ others)
  pub joined : text ≡ join first others

check-Components :
    (component relative : List ℕ)
    → All IsPlain component
    → check_components component relative ≡ true
    → Components (component ++ relative)
unfolding check_components join
check-Components component [] plain h = record {
  first = component;
  others = [];
  components = (component_is_bad-IsComponent component plain (ground (arith, h)), tt);
  joined = append-nil component;
}
check-Components component (c ∷ cs) plain h = elim (Bool-cases (c == 47)) [
  | inl slash ↦
      let below : check_components [] cs ≡ true = ground (arith, h, slash) in
      let good : component_is_bad component ≡ false = ground (arith, h, slash) in
      let rest = check-Components [] cs tt below in
      let is_slash : c ≡ 47 = ground (arith, slash) in
      record {
        first = component;
        others = rest.first ∷ rest.others;
        components = (component_is_bad-IsComponent component plain good, rest.components);
        joined = ap (◌++◌ component) (ap (λ d. d ∷ cs) is_slash ∙ ap (◌∷◌ 47) rest.joined);
      }
  | inr other ↦
      let below : check_components (component ++ (c ∷ [])) cs ≡ true = ground (arith, h, other) in
      let allowed : IsPlain c = (
        ground (arith, other),
        ground (arith, h, other),
        ground (arith, h, other),
        ground (arith, h, other),
      ) in
      let rest =
        check-Components (component ++ (c ∷ [])) cs (All-snoc component c plain allowed) below in
      subst Components (append_assoc component (c ∷ []) cs) rest
]

-- What a path is resolved to, below a root: the root itself, if that is allowed, or the root, a slash
-- and components.
pub data IsBelow (root : List ℕ) (allow_root : Bool) : List ℕ → Type 0 where
  at_root : allow_root ≡ true → IsBelow root allow_root root
  inside :
      (first : List ℕ) (others : List (List ℕ))
      → All IsComponent (first ∷ others)
      → IsBelow root allow_root (root ++ (47 ∷ join first others))

resolve_below-IsBelow :
    (root relative : List ℕ) (allow_root : Bool) (capacity : ℕ) (r : List ℕ)
    → resolve_below root relative allow_root capacity ≡ ok r
    → IsBelow root allow_root r × (length r < capacity)
unfolding resolve_below
resolve_below-IsBelow root relative allow_root capacity r h =
    elim (Bool-cases (length relative == 0)) [
      | inl empty ↦
          let allowed : allow_root ≡ true = ground (arith, h, empty) in
          let same : root ≡ r = ground (arith, h, empty) in
          rw (sym same) (at_root allowed, ground (arith, h, empty))
      | inr some_left ↦
          let checked : check_components [] relative ≡ true = ground (arith, h, some_left) in
          let made : root ++ (47 ∷ relative) ≡ r = ground (arith, h, some_left) in
          let fits : length root + 1 + length relative < capacity = ground (arith, h, some_left) in
          let parts = check-Components [] relative tt checked in
          let whole : root ++ (47 ∷ join parts.first parts.others) ≡ r =
            ap (λ t. root ++ (47 ∷ t)) (sym parts.joined) ∙ made in
          (
            subst (IsBelow root allow_root) whole
                (inside parts.first parts.others parts.components),
            rw (sym made) (omega (arith, fits, length-append root (47 ∷ relative))),
          )
    ]

-- The roots that a path may be resolved below: the storage root, or that of an extra root that the
-- path names.
pub record Resolved (storage_root : List ℕ) (roots : List ExtraRoot) (path : List ℕ)
    (allow_root : Bool) (capacity : ℕ) (r : List ℕ) : Type 0 where
  pub root : List ℕ
  pub of_root :
      ((extra_root roots (some path) ≡ none) × (root ≡ storage_root))
      ⊎ ((e : ExtraRoot) × (extra_root roots (some path) ≡ some e) × (root ≡ e.root))
  pub below : IsBelow root allow_root r
  pub fits : length r < capacity

module _ (storage_root : List ℕ) (roots : List ExtraRoot) where
  -- A path that is resolved stays below its root: it is the storage root or that of the extra root that
  -- the path names, with nothing or one slash and components behind it, none of them empty, "." or
  -- ".." and none with a slash, a backslash or a control character; and with its terminator it fits
  -- the buffer.
  pub resolve_path-Resolved :
      (path : List ℕ) (allow_root : Bool) (capacity : ℕ) (r : List ℕ)
      → resolve_path storage_root roots (some path) allow_root capacity ≡ ok r
      → Resolved storage_root roots path allow_root capacity r
  unfolding resolve_path
  resolve_path-Resolved path allow_root capacity r h =
      elim (Bool-cases (ltb max_path_size (length path))) [
        | inl long ↦ absurd (ground (arith, h, long))
        | inr short ↦ elim (Option-cases (extra_root roots (some path))) [
          | inl e ↦
              let inner = rw (resolve_path, short, e) at h in
              let (below, fits) =
                resolve_below-IsBelow storage_root (without_slash path) allow_root capacity r
                  inner in
              record { root = storage_root; of_root = inl (e, refl); below = below; fits = fits }
          | inr (x, e) ↦
              let relative = without_slash (drop (length x.prefix) (without_slash path)) in
              let inner = rw (resolve_path, short, e) at h in
              let (below, fits) =
                resolve_below-IsBelow x.root relative allow_root capacity r inner in
              record { root = x.root; of_root = inr (x, e, refl); below = below; fits = fits }
        ]
      ]

  -- A path that is resolved for writing stays inside the storage root or a root that is writable, is
  -- never the root itself, and fits the buffer.
  pub resolve_write_path-Resolved :
      (path : List ℕ) (capacity : ℕ) (r : List ℕ)
      → resolve_write_path storage_root roots (some path) capacity ≡ ok r
      → Resolved storage_root roots path false capacity r
        × ((e : ExtraRoot) → extra_root roots (some path) ≡ some e → e.writable ≡ true)
  unfolding resolve_write_path path_is_read_only
  resolve_write_path-Resolved path capacity r h = (
    resolve_path-Resolved path false capacity r (ground (arith, h)),
    λ e found.
        let read = rw (resolve_write_path, path_is_read_only, found) at h in ground (arith, read),
  )
