-- ===== src/Terminal/Pty/Delivered.antt =====
-- What the connections of an exec are sent.
use che_machine_exec.Common.{
  ℕ, ◌≡◌, ◌≢◌, ◌⊎◌, refl, sym, subst, ap, ◌∙◌, inl, inr, Text, Bool, true, false, List, [], ◌∷◌,
  ◌++◌, if◌then◌else◌, ◌==◌, ==_iff, Bool-cases,
}
use mathlib.Core.List.{append_assoc, append-nil}
use che_machine_exec.Terminal.Sockets.{Sent, write_data_to_ws_connections}
use che_machine_exec.Terminal.Sockets.Remove.{IsFree, differ}

-- The messages of one connection, joined.
unfoldable pub sent_to : ℕ → List (ℕ × Text) → Text
sent_to conn [] = []
sent_to conn ((c, text) ∷ messages) =
    let rest = sent_to conn messages in if c == conn then text ++ rest else rest

pub sent_to-append :
    (conn : ℕ) (a b : List (ℕ × Text)) → sent_to conn (a ++ b) ≡ sent_to conn a ++ sent_to conn b
unfolding sent_to
sent_to-append conn [] b = refl
sent_to-append conn ((c, text) ∷ a) b = elim (Bool-cases (c == conn)) [
  | inl e ↦ rw e (
      ap (λ s. text ++ s) (sent_to-append conn a b)
      ∙ sym (append_assoc text (sent_to conn a) (sent_to conn b)))
  | inr e ↦ rw e (sent_to-append conn a b)
]

abbrev and_sent : ℕ → Text → Sent → Sent
and_sent c text s = record { conns = c ∷ s.conns; messages = (c, text) ∷ s.messages }

write_data_accepted :
    (accepts : ℕ → Bool) (text : Text) (c : ℕ) (conns : List ℕ)
    → accepts c ≡ true
    → write_data_to_ws_connections accepts text (c ∷ conns)
      ≡ and_sent c text (write_data_to_ws_connections accepts text conns)
unfolding write_data_to_ws_connections
write_data_accepted accepts text c conns e = rw e refl

write_data_refused :
    (accepts : ℕ → Bool) (text : Text) (c : ℕ) (conns : List ℕ)
    → accepts c ≡ false
    → write_data_to_ws_connections accepts text (c ∷ conns)
      ≡ write_data_to_ws_connections accepts text conns
unfolding write_data_to_ws_connections
write_data_refused accepts text c conns e = rw e refl

-- Nothing went to a connection, and it is not in the list.
abbrev IsSilent : ℕ → Sent → Type 0
IsSilent conn s = (sent_to conn s.messages ≡ []) × IsFree conn s.conns

IsFree-IsSilent :
    (conn : ℕ) (accepts : ℕ → Bool) (text : Text) (conns : List ℕ)
    → IsFree conn conns
    → IsSilent conn (write_data_to_ws_connections accepts text conns)
unfolding sent_to write_data_to_ws_connections
IsFree-IsSilent conn accepts text [] h = (refl, tt)
IsFree-IsSilent conn accepts text (c ∷ conns) h =
    let rest = IsFree-IsSilent conn accepts text conns h.1 in
    elim (Bool-cases (accepts c)) [
      | inl e ↦
          subst (IsSilent conn) (sym (write_data_accepted accepts text c conns e))
            (rw (differ c conn h.0) rest.0, (h.0, rest.1))
      | inr e ↦ subst (IsSilent conn) (sym (write_data_refused accepts text c conns e)) rest
    ]

-- The connection stands once in the list.
abbrev pub IsOnce : ℕ → List ℕ → Type 0
IsOnce conn [] = ⊥
IsOnce conn (c ∷ conns) = ((c ≡ conn) × IsFree conn conns) ⊎ ((c ≢ conn) × IsOnce conn conns)

-- The connection got the text once, and it still stands once in the list.
abbrev pub Got : ℕ → Text → Sent → Type 0
Got conn text s = (sent_to conn s.messages ≡ text) × IsOnce conn s.conns

pub IsOnce-Got :
    (conn : ℕ) (accepts : ℕ → Bool) (text : Text) (conns : List ℕ)
    → accepts conn ≡ true
    → IsOnce conn conns
    → Got conn text (write_data_to_ws_connections accepts text conns)
unfolding sent_to
IsOnce-Got conn accepts text [] acc once = absurd once
IsOnce-Got conn accepts text (c ∷ conns) acc (inl (same, free)) =
    let (silent, still) = IsFree-IsSilent conn accepts text conns free in
    let taken : accepts c ≡ true = ap accepts same ∙ acc in
    subst (Got conn text) (sym (write_data_accepted accepts text c conns taken)) (
      rw ((==_iff c conn).1 same) (ap (λ t. text ++ t) silent ∙ append-nil text),
      inl (same, still),
    )
IsOnce-Got conn accepts text (c ∷ conns) acc (inr (ne, once)) =
    let (got, still) = IsOnce-Got conn accepts text conns acc once in
    elim (Bool-cases (accepts c)) [
      | inl e ↦
          subst (Got conn text) (sym (write_data_accepted accepts text c conns e))
            (rw (differ c conn ne) got, inr (ne, still))
      | inr e ↦ subst (Got conn text) (sym (write_data_refused accepts text c conns e)) (got, still)
    ]
