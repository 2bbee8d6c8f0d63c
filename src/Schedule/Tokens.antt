-- ===== src/Schedule/Tokens.antt =====
-- The tokens of a text, `tokenise` of src/fbo/fbo_schedule.c and of src/fbo/fbo.c.
use kfsw_services.Common.{
  ℕ, zero, suc, ◌≤◌, ◌≡◌, ◌≢◌, refl, sym, ap, inl, inr, false, List, [], ◌∷◌, ◌++◌, arith,
  append-nil, ◌∙◌, ◌==◌, length, take, take_all, All, Bool-cases,
}
use kfsw_services.Schedule.{is_blank, skip_blanks, token, behind_token, tokenise}

-- A word has a character, and none of them is a blank.
abbrev pub IsPlain : ℕ → Type 0
IsPlain c = is_blank c ≡ false

pub record IsWord (w : List ℕ) : Type 0 where
  pub plain : All IsPlain w
  pub nonempty : w ≢ []

-- Words with one blank between them.
unfoldable pub join : List (List ℕ) → List ℕ
join [] = []
join (w ∷ ws) = let rest = join ws in elim ws [ [] ↦ w | v ∷ vs ↦ w ++ (32 ∷ rest) ]

-- A separator with what follows, or the end of the text.
pub data Ending : List ℕ → List ℕ → Type 0 where
  at_end : Ending [] []
  at_blank : (rest : List ℕ) → Ending (32 ∷ rest) rest

skip_blanks-word : (w rest : List ℕ) → IsWord w → skip_blanks (w ++ rest) ≡ w ++ rest
unfolding skip_blanks
skip_blanks-word [] rest h = absurd (h.nonempty refl)
skip_blanks-word (c ∷ cs) rest h = rw (h.plain.0) refl

token-word : (w tail rest : List ℕ) → All IsPlain w → Ending tail rest → token (w ++ tail) ≡ w
unfolding token
token-word [] tail rest h at_end = refl
token-word [] tail rest h (at_blank r) = refl
token-word (c ∷ cs) tail rest h e = rw (h.0, token-word cs tail rest h.1 e) refl

behind_token-word :
    (w tail rest : List ℕ) → All IsPlain w → Ending tail rest → behind_token (w ++ tail) ≡ rest
unfolding behind_token
behind_token-word [] tail rest h at_end = refl
behind_token-word [] tail rest h (at_blank r) = refl
behind_token-word (c ∷ cs) tail rest h e = rw (h.0) (behind_token-word cs tail rest h.1 e)

-- The first token of a text that starts with a word.
tokenise-word :
    (max : ℕ) (w tail rest : List ℕ)
    → IsWord w
    → Ending tail rest
    → tokenise (suc max) (w ++ tail) ≡ w ∷ tokenise max rest
unfolding tokenise
tokenise-word max [] tail rest h e = absurd (h.nonempty refl)
tokenise-word max (c ∷ cs) tail rest h e =
    let text = c ∷ cs in
    rw (tokenise, skip_blanks-word text tail h, behind_token-word text tail rest h.plain e)
      (let first = token-word text tail rest h.plain e in ground (arith, first))

tokenise_zero : (text : List ℕ) → tokenise 0 text ≡ []
unfolding tokenise
tokenise_zero text = refl

tokenise-nil : (max : ℕ) → tokenise max [] ≡ []
unfolding tokenise skip_blanks
tokenise-nil zero = refl
tokenise-nil (suc max) = refl

-- A text of words with a blank between them has those words as its tokens, up to the limit.
pub tokenise-join :
    (max : ℕ) (words : List (List ℕ))
    → All IsWord words
    → tokenise max (join words) ≡ take max words
unfolding join
tokenise-join zero words h = tokenise_zero (join words)
tokenise-join (suc max) [] h = tokenise-nil (suc max)
tokenise-join (suc max) (w ∷ []) h =
    let one = tokenise-word max w [] [] h.0 at_end in
    let alone = rw (append-nil w, tokenise-nil max) at one in
    let none_left : take max [] ≡ [] = take_all [] max (omega arith) in
    alone ∙ ap (◌∷◌ w) (sym none_left)
tokenise-join (suc max) (w ∷ v ∷ vs) h =
    let rest = join (v ∷ vs) in
    tokenise-word max w (32 ∷ rest) rest h.0 (at_blank rest)
    ∙ ap (◌∷◌ w) (tokenise-join max (v ∷ vs) h.1)

token-IsPlain : (text : List ℕ) → All IsPlain (token text)
unfolding token
token-IsPlain [] = tt
token-IsPlain (c ∷ cs) = elim (Bool-cases (is_blank c)) [
  | inl blank ↦ rw (token, blank) tt
  | inr plain ↦ rw (token, plain) (plain, token-IsPlain cs)
]

token-skip_blanks :
    (text : List ℕ) → (length (skip_blanks text) == 0) ≡ false → token (skip_blanks text) ≢ []
unfolding token skip_blanks
token-skip_blanks [] h = absurd (ground (arith, h))
token-skip_blanks (c ∷ cs) h = elim (Bool-cases (is_blank c)) [
  | inl blank ↦ rw (skip_blanks, blank) (token-skip_blanks cs (ground (arith, h, blank)))
  | inr plain ↦ rw (skip_blanks, plain, token, plain) (λ e. ground (arith, e))
]

-- Whatever the text, its tokens are words, and at most as many as the limit.
pub tokenise-IsWord :
    (max : ℕ) (text : List ℕ) → All IsWord (tokenise max text) × (length (tokenise max text) ≤ max)
unfolding tokenise
tokenise-IsWord zero text = (tt, omega arith)
tokenise-IsWord (suc max) text = elim (Bool-cases (length (skip_blanks text) == 0)) [
  | inl none_left ↦ rw (tokenise, none_left) (tt, omega arith)
  | inr some_left ↦
      let start = skip_blanks text in
      let (words, few) = tokenise-IsWord max (behind_token start) in
      let word : IsWord (token start) = record {
        plain = token-IsPlain start;
        nonempty = token-skip_blanks text some_left;
      } in
      rw (tokenise, some_left) ((word, words), omega (arith, few))
]
