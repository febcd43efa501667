-- ===== src/Utf8/Stream.antt =====
-- A text that arrives in chunks, cut anywhere, each in a buffer of its own: the calls on one filter.
use mathlib.Core.List.{append_assoc, append-nil}
use mathlib.Core.Option
use che_machine_exec.Common.{
  ℕ, suc, ◌≤◌, ◌≡◌, ◌≢◌, refl, sym, ap, ◌∙◌, ◌⊎◌, inl, inr, ◌++◌, List, [], ◌∷◌, Option, none, some,
  arith, length, is_empty,
}
use che_machine_exec.Utf8.Runes.{Bytes, rune_error, encode}
use che_machine_exec.Utf8.Filter.{Shown, Step, after, process_joined, process_raw}
use che_machine_exec.Utf8.Sequences.{IsSeq, one, pair, triple, quad}
use che_machine_exec.Utf8.Write.{valid_from-IsText}
use che_machine_exec.Utf8.Pending.{
  IsClean, IsClean-IsText, IsPending, valid_from_pending, valid_from-IsPending,
  process_loop-IsPending, stop, more, cut1, cut2, cut3,
}

-- Where a cut of a clean text falls: behind whole sequences, perhaps inside one.
pub record Cut (u v : Bytes) : Type 0 where
  pub front : Bytes
  pub pending : Bytes
  pub later : Bytes
  pub front_clean : IsClean front
  pub pending_short : (pending ≡ []) ⊎ IsPending pending
  pub splits : u ≡ front ++ pending
  pub later_clean : IsClean later
  pub later_eq : later ≡ pending ++ v

pub Cut-joins : {u v : Bytes} (c : Cut u v) → c.front ++ c.later ≡ u ++ v
Cut-joins {u} {v} c =
    ap (λ x. c.front ++ x) c.later_eq
    ∙ sym (append_assoc c.front c.pending v)
    ∙ ap (λ x. x ++ v) (sym c.splits)

Cut-extend : {r u u' v : Bytes} → IsSeq r → r ≢ encode rune_error → u ≡ r ++ u' → Cut u' v → Cut u v
Cut-extend {r} sq ne e c = record {
  front = r ++ c.front;
  pending = c.pending;
  later = c.later;
  front_clean = more r c.front refl sq ne c.front_clean;
  pending_short = c.pending_short;
  splits = e ∙ ap (λ x. r ++ x) c.splits ∙ sym (append_assoc r c.front c.pending);
  later_clean = c.later_clean;
  later_eq = c.later_eq;
}

Cut-inside : {u v x : Bytes} → IsPending u → IsClean x → x ≡ u ++ v → Cut u v
Cut-inside {u} {v} {x} h c e = record {
  front = [];
  pending = u;
  later = x;
  front_clean = stop;
  pending_short = inr h;
  splits = refl;
  later_clean = c;
  later_eq = e;
}

pub cut : {x : Bytes} → IsClean x → (u v : Bytes) → x ≡ u ++ v → Cut u v
cut {x} c [] v e = record {
  front = [];
  pending = [];
  later = x;
  front_clean = stop;
  pending_short = inl refl;
  splits = refl;
  later_clean = c;
  later_eq = e;
}
cut stop (a ∷ u) v e = absurd (cc e)
cut (more r s d (one b0 h) ne c) (a ∷ u) v e =
    Cut-extend (one b0 h) ne (cc (d, e)) (cut c u v (cc (d, e)))
cut {x} (more r s d (pair b0 b1 h k) ne c) (a ∷ []) v e =
    Cut-inside (cut1 a (inl (cc (d, e, h)))) (more _ s d (pair b0 b1 h k) ne c) e
cut (more r s d (pair b0 b1 h k) ne c) (a ∷ a' ∷ u) v e =
    Cut-extend (pair b0 b1 h k) ne (cc (d, e)) (cut c u v (cc (d, e)))
cut (more r s d (triple b0 b1 b2 h k l) ne c) (a ∷ []) v e =
    Cut-inside (cut1 a (inr (inl (cc (d, e, h))))) (more _ s d (triple b0 b1 b2 h k l) ne c) e
cut (more r s d (triple b0 b1 b2 h k l) ne c) (a ∷ a' ∷ []) v e =
    Cut-inside (cut2 a a' (inl (cc (d, e, h))) (cc (d, e, k)))
      (more _ s d (triple b0 b1 b2 h k l) ne c) e
cut (more r s d (triple b0 b1 b2 h k l) ne c) (a ∷ a' ∷ a'' ∷ u) v e =
    Cut-extend (triple b0 b1 b2 h k l) ne (cc (d, e)) (cut c u v (cc (d, e)))
cut (more r s d (quad b0 b1 b2 b3 h k l m) ne c) (a ∷ []) v e =
    Cut-inside (cut1 a (inr (inr (cc (d, e, h))))) (more _ s d (quad b0 b1 b2 b3 h k l m) ne c) e
cut (more r s d (quad b0 b1 b2 b3 h k l m) ne c) (a ∷ a' ∷ []) v e =
    Cut-inside (cut2 a a' (inr (cc (d, e, h))) (cc (d, e, k)))
      (more _ s d (quad b0 b1 b2 b3 h k l m) ne c) e
cut (more r s d (quad b0 b1 b2 b3 h k l m) ne c) (a ∷ a' ∷ a'' ∷ []) v e =
    Cut-inside (cut3 a a' a'' (cc (d, e, h)) (cc (d, e, k)) (cc (d, e, l)))
      (more _ s d (quad b0 b1 b2 b3 h k l m) ne c) e
cut (more r s d (quad b0 b1 b2 b3 h k l m) ne c) (a ∷ a' ∷ a'' ∷ a''' ∷ u) v e =
    Cut-extend (quad b0 b1 b2 b3 h k l m) ne (cc (d, e)) (cut c u v (cc (d, e)))

pub process_joined-Cut :
    (data_len : ℕ) {u v : Bytes} (c : Cut u v)
    → data_len ≤ length u
    → process_joined data_len (record { rest = [] }) u
      ≡ some (record { out = c.front; filter = record { rest = c.pending } })
unfolding process_joined
process_joined-Cut data_len {u} c le = elim c.pending_short [
  | inl e ↦
      let whole : u ≡ c.front = c.splits ∙ ap (λ x. c.front ++ x) e ∙ append-nil c.front in
      rw (whole, e, valid_from-IsText (length c.front) (IsClean-IsText c.front_clean) (omega arith))
  | inr h ↦
      let size = ap (length {A = ℕ}) c.splits in
      rw (c.splits, valid_from-IsPending (length (c.front ++ c.pending)) c.front_clean h)
        (process_loop-IsPending (suc (length (c.front ++ c.pending))) data_len 0
          (record { rest = [] }) [] c.front_clean h (omega arith) (omega arith))
]

-- One filter takes the chunks, each in a buffer of its own, in order; what the calls write, one after the other.
abbrev pub process_chunks : Shown → List Bytes → Option Step
process_chunks sf [] = some (record { out = []; filter = sf })
process_chunks sf (c ∷ cs) = elim (process_raw sf c) [
  | none ↦ none
  | some s ↦ Option.map (after s.out) (process_chunks s.filter cs)
]

pub IsClean-ne-IsPending : {q : Bytes} → IsClean q → IsPending q → ⊥
IsClean-ne-IsPending {q} c h =
    cc (
      valid_from-IsText (length q) (IsClean-IsText c) (omega arith),
      valid_from_pending (length q) h,
    )

pub process_raw_empty : (sf : Shown) → process_raw sf [] ≡ some (record { out = []; filter = sf })
unfolding process_raw
process_raw_empty sf = refl

pub process_raw_joins :
    (q : Bytes) (d : ℕ) (ds : Bytes)
    → process_raw (record { rest = q }) (d ∷ ds)
      ≡ process_joined (length (d ∷ ds)) (record { rest = [] }) (q ++ (d ∷ ds))
unfolding process_raw is_empty
process_raw_joins [] d ds = refl
process_raw_joins (b ∷ q) d ds = refl
