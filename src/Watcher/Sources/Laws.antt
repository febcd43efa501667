-- ===== src/Watcher/Sources/Laws.antt =====
-- The selection of activity sources.
use che_machine_exec.Common.{
  ◌≡◌, inl, inr, Text, slices_contains, true, false, List, [], ◌∷◌, Bool-cases, Option-cases, In,
  ap, ◌∙◌,
}
use che_machine_exec.Watcher.Config.{Folding}
use che_machine_exec.Watcher.Sources.{
  Selector, parse_token, parse_tokens, is_mentioned, is_default_on, implicit_pass,
}

-- The names are valid, pairwise distinct and not among those seen before.
abbrev pub AreFresh : List Text → List Selector → Type 0
AreFresh seen [] = Unit
AreFresh seen (s ∷ ss) = (slices_contains seen s.name ≡ false) × AreFresh (s.name ∷ seen) ss

-- Whatever the text says, no two parsed selectors have the same name.
pub parse_tokens-AreFresh :
    (fold : Folding) (seen : List Text) (tokens : List Text)
    → AreFresh seen (parse_tokens fold seen tokens)
unfolding parse_tokens
parse_tokens-AreFresh fold seen [] = tt
parse_tokens-AreFresh fold seen (token ∷ tokens) = elim (Option-cases (parse_token fold token)) [
  | inl e ↦ rw (e, AreFresh) (parse_tokens-AreFresh fold seen tokens)
  | inr (s, e) ↦ elim (Bool-cases (slices_contains seen s.name)) [
    | inl d ↦ rw (e, d, AreFresh) (parse_tokens-AreFresh fold seen tokens)
    | inr d ↦ rw (e, d, AreFresh) (d, parse_tokens-AreFresh fold (s.name ∷ seen) tokens)
  ]
]

-- The implicit pass returns only registered sources that are on by default and that the admin's
-- list does not name.
pub implicit_pass-defaults :
    (fold : Folding) (sels : List Selector) (all : List Text) (src : Text)
    → In src (implicit_pass fold sels all)
    → (is_mentioned sels (fold.to_lower src) ≡ false) × (is_default_on (fold.to_lower src) ≡ true)
unfolding implicit_pass
implicit_pass-defaults fold sels [] src h = absurd h
implicit_pass-defaults fold sels (s ∷ all) src h =
    elim (Bool-cases (is_mentioned sels (fold.to_lower s))) [
      | inl e ↦ implicit_pass-defaults fold sels all src (rw e at h)
      | inr e ↦ elim (Bool-cases (is_default_on (fold.to_lower s))) [
        | inl d ↦
            (let at_cons : In src (s ∷ implicit_pass fold sels all) = rw (e, d) at h in
              elim at_cons [
                | inl same ↦ (
                  ap (λ x. is_mentioned sels (fold.to_lower x)) same ∙ e,
                  ap (λ x. is_default_on (fold.to_lower x)) same ∙ d,
                )
                | inr at ↦ implicit_pass-defaults fold sels all src at
              ])
        | inr d ↦ implicit_pass-defaults fold sels all src (rw (e, d) at h)
      ]
    ]
