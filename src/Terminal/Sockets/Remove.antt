-- ===== src/Terminal/Sockets/Remove.antt =====
-- Removing a connection.
use che_machine_exec.Common.{
  ℕ, zero, suc, ◌≡◌, ◌≢◌, refl, sym, ap, ◌∙◌, false, some, List, [], ◌∷◌, ◌++◌, ◌==◌, ==_iff, All,
  length, arith,
}
use mathlib.Core.List.{append_assoc, append-nil}
use che_machine_exec.Terminal.Sockets.{last_from, remove_loop, remove_connection}

-- None of the connections is `conn`.
abbrev pub IsFree : ℕ → List ℕ → Type 0
IsFree conn conns = All (λ c. c ≢ conn) conns

pub differ : (a b : ℕ) → a ≢ b → (a == b) ≡ false
differ a b h = ground (arith, ==_iff a b)

last_from-IsFree : (conn x : ℕ) (xs : List ℕ) → x ≢ conn → IsFree conn xs → last_from x xs ≢ conn
unfolding last_from
last_from-IsFree conn x [] h k = h
last_from-IsFree conn x (y ∷ ys) h k = last_from-IsFree conn y ys k.0 k.1

remove_loop_other :
    (conn left : ℕ) (passed : List ℕ) (x : ℕ) (xs stale : List ℕ)
    → x ≢ conn
    → remove_loop conn (suc left) passed (x ∷ xs) stale
      ≡ remove_loop conn left (passed ++ x ∷ []) xs stale
unfolding remove_loop
remove_loop_other conn left passed x [] stale h = rw (differ x conn h) refl
remove_loop_other conn left passed x (y ∷ ys) stale h = rw (differ x conn h) refl

remove_loop_stale :
    (conn left : ℕ) (passed stale : List ℕ)
    → IsFree conn stale
    → remove_loop conn left passed [] stale ≡ some passed
unfolding remove_loop
remove_loop_stale conn zero passed stale k = ap some (append-nil passed)
remove_loop_stale conn (suc left) passed [] k = refl
remove_loop_stale conn (suc left) passed (s ∷ stale) k =
    rw (differ s conn k.0) (remove_loop_stale conn left passed stale k.1)

remove_loop-IsFree :
    (conn left : ℕ) (passed ahead stale : List ℕ)
    → IsFree conn ahead
    → IsFree conn stale
    → remove_loop conn left passed ahead stale ≡ some (passed ++ ahead)
remove_loop-IsFree conn zero passed ahead stale h k = unfold remove_loop in refl
remove_loop-IsFree conn (suc left) passed [] stale h k =
    remove_loop_stale conn (suc left) passed stale k ∙ ap some (sym (append-nil passed))
remove_loop-IsFree conn (suc left) passed (x ∷ xs) stale h k =
    remove_loop_other conn left passed x xs stale h.0
    ∙ remove_loop-IsFree conn left (passed ++ x ∷ []) xs stale h.1 k
    ∙ ap some (append_assoc passed (x ∷ []) xs)

remove_loop_at :
    (conn left : ℕ) (passed after : List ℕ)
    → IsFree conn after
    → remove_loop conn (suc left) passed (conn ∷ after) [] ≡ some (passed ++ after)
unfolding remove_loop
remove_loop_at conn left passed [] h =
    rw ((==_iff conn conn).1 refl)
      (remove_loop_stale conn left passed [] tt ∙ ap some (sym (append-nil passed)))
remove_loop_at conn left passed (y ∷ ys) h = rw ((==_iff conn conn).1 refl) (
    remove_loop-IsFree conn left (passed ++ y ∷ []) ys (last_from y ys ∷ []) h.1
      (last_from-IsFree conn y ys h.0 h.1, tt)
    ∙ ap some (append_assoc passed (y ∷ []) ys))

remove_loop_once :
    (conn : ℕ) (passed before after : List ℕ)
    → IsFree conn before
    → IsFree conn after
    → remove_loop conn (length (before ++ conn ∷ after)) passed (before ++ conn ∷ after) []
      ≡ some (passed ++ (before ++ after))
remove_loop_once conn passed [] after h k = remove_loop_at conn (length after) passed after k
remove_loop_once conn passed (x ∷ before) after h k =
    remove_loop_other conn (length (before ++ conn ∷ after)) passed x (before ++ conn ∷ after) []
      h.0
    ∙ remove_loop_once conn (passed ++ x ∷ []) before after h.1 k
    ∙ ap some (append_assoc passed (x ∷ []) (before ++ after))

-- `removeConnection` takes a connection that stands once in the list out of it and keeps the others in
-- their order: its loop runs on over the array which it changes, and it neither removes another
-- connection nor panics.
pub remove_connection_once :
    (conn : ℕ) (before after : List ℕ)
    → IsFree conn before
    → IsFree conn after
    → remove_connection conn (before ++ conn ∷ after) ≡ some (before ++ after)
unfolding remove_connection
remove_connection_once conn before after h k = remove_loop_once conn [] before after h k
