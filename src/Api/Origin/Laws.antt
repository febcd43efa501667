-- ===== src/Api/Origin/Laws.antt =====
-- The allowed origins as a flag and as its text.
use che_machine_exec.Common.{
  ℕ, ◌≡◌, refl, ap, ◌∙◌, Text, is_empty, trim_space, split, join, cons_piece, false, List, [], ◌∷◌,
  ◌++◌, ◌==◌, ==_iff, All,
}
use che_machine_exec.Api.Origin.{string_of, keep_trimmed, parse_allowed_origins}

abbrev pub HasNoSep : ℕ → Text → Type 0
HasNoSep sep s = All (λ c. (c == sep) ≡ false) s

split-HasNoSep : (sep : ℕ) (s : Text) → HasNoSep sep s → split sep s ≡ s ∷ []
unfolding split cons_piece
split-HasNoSep sep [] h = refl
split-HasNoSep sep (c ∷ s) h = rw (h.0, split, split-HasNoSep sep s h.1, cons_piece) refl

split-append :
    (sep : ℕ) (s rest : Text) → HasNoSep sep s → split sep (s ++ sep ∷ rest) ≡ s ∷ split sep rest
unfolding split cons_piece
split-append sep [] rest h = rw ((==_iff sep sep).1 refl) refl
split-append sep (c ∷ s) rest h = rw (h.0, split, split-append sep s rest h.1, cons_piece) refl

-- Splitting at a separator undoes joining with it.
pub split-join :
    (sep : ℕ) (p : Text) (ps : List Text)
    → All (HasNoSep sep) (p ∷ ps)
    → split sep (join (sep ∷ []) (p ∷ ps)) ≡ p ∷ ps
unfolding join
split-join sep p [] h = split-HasNoSep sep p h.0
split-join sep p (q ∷ ps) h =
    split-append sep p (join (sep ∷ []) (q ∷ ps)) h.0 ∙ ap (λ l. p ∷ l) (split-join sep q ps h.1)

-- A text without spaces around it that can stand in the list.
abbrev pub IsOrigin : Text → Type 0
IsOrigin o = (is_empty o ≡ false) × (trim_space o ≡ o) × HasNoSep b',' o

keep_trimmed-IsOrigin : (os : List Text) → All IsOrigin os → keep_trimmed os ≡ os
unfolding keep_trimmed
keep_trimmed-IsOrigin [] h = refl
keep_trimmed-IsOrigin (o ∷ os) h =
    rw (h.0.1, keep_trimmed, h.0.0, keep_trimmed-IsOrigin os h.1) refl

seps : (os : List Text) → All IsOrigin os → All (HasNoSep b',') os
seps [] h = tt
seps (o ∷ os) h = (h.0.2, seps os h.1)

-- Reading the text that `String` gives back yields the same origins, in their order, when each of
-- them is a non-empty text without a comma and without spaces around it.
pub parse_allowed_origins-string_of :
    (os : List Text) → All IsOrigin os → parse_allowed_origins (string_of os) ≡ os
unfolding parse_allowed_origins keep_trimmed split join trim_space is_empty
parse_allowed_origins-string_of [] h = refl
parse_allowed_origins-string_of (o ∷ os) h =
    ap keep_trimmed (split-join b',' o os (seps (o ∷ os) h)) ∙ keep_trimmed-IsOrigin (o ∷ os) h
