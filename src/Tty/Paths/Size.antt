-- ===== src/Tty/Paths/Size.antt =====
-- The size of the cache of TTY paths.
use che_machine_exec.Common.{
  ℕ, zero, suc, ◌+◌, ◌≤◌, ◌<◌, ◌≡◌, refl, codes, sym, subst, ap, ◌∙◌, ◌⊎◌, inl, inr, Text, text_eq,
  text_eq_refl, is_empty, Bool, true, false, [], ◌∷◌, length, All, Bool-cases, arith, if◌then◌else◌,
  ltb, leb,
}
use che_machine_exec.Common.Int.{ℤ, ltb_ℤ, leb_ℤ, ◌-ℤ◌}
use che_machine_exec.Common.Paths.{join_path}
use che_machine_exec.Tty.Paths.{
  TtyEntry, TtyCache, tty_cache_duration, Links, Readings, delete_entry, put_entry,
  cleanup_tty_cache, oldest, evict, clean_if_large, evict_if_full, store_path,
}

abbrev HasEntry : Text → TtyCache → Type 0
HasEntry pid [] = ⊥
HasEntry pid (e ∷ cache) = (pid ≡ e.pid) ⊎ HasEntry pid cache

-- The entries were stored before the time of the clock, under PIDs.
abbrev pub IsPast : (ℕ → ℤ) → TtyCache → Type 0
IsPast clock cache =
    All (λ e. ((n : ℕ) → ltb_ℤ e.cached_at (clock n) ≡ true) × (is_empty e.pid ≡ false)) cache

oldest_older :
    (t : ℤ) (pid : Text) (e : TtyEntry) (cache : TtyCache)
    → ltb_ℤ e.cached_at t ≡ true
    → oldest t pid (e ∷ cache) ≡ oldest e.cached_at e.pid cache
unfolding oldest
oldest_older t pid e cache h = rw h refl

oldest_kept :
    (t : ℤ) (pid : Text) (e : TtyEntry) (cache : TtyCache)
    → ltb_ℤ e.cached_at t ≡ false
    → oldest t pid (e ∷ cache) ≡ oldest t pid cache
unfolding oldest
oldest_kept t pid e cache h = rw h refl

-- The oldest entry is one of the cache, or there is only the one so far.
abbrev IsOneOf : Text → TtyCache → Text → Type 0
IsOneOf pid cache found = (found ≡ pid) ⊎ HasEntry found cache

oldest-IsOneOf : (t : ℤ) (pid : Text) (cache : TtyCache) → IsOneOf pid cache (oldest t pid cache)
oldest-IsOneOf t pid [] = inl (unfold oldest in refl)
oldest-IsOneOf t pid (e ∷ cache) = elim (Bool-cases (ltb_ℤ e.cached_at t)) [
  | inl h ↦
      subst (IsOneOf pid (e ∷ cache)) (sym (oldest_older t pid e cache h))
        (inr (oldest-IsOneOf e.cached_at e.pid cache))
  | inr h ↦
      subst (IsOneOf pid (e ∷ cache)) (sym (oldest_kept t pid e cache h))
        (further (oldest-IsOneOf t pid cache))
]
  where
    further : {found : Text} → IsOneOf pid cache found → IsOneOf pid (e ∷ cache) found
    further (inl k) = inl k
    further (inr k) = inr (inr k)

length-delete_entry :
    (pid : Text) (cache : TtyCache) → length (delete_entry pid cache) ≤ length cache
unfolding delete_entry
length-delete_entry pid [] = omega arith
length-delete_entry pid (e ∷ cache) = ground (arith, length-delete_entry pid cache)

delete_entry_shorter :
    (pid : Text) (cache : TtyCache)
    → HasEntry pid cache
    → length (delete_entry pid cache) < length cache
unfolding delete_entry
delete_entry_shorter pid (e ∷ cache) (inl h) =
    rw (ap (text_eq e.pid) h ∙ text_eq_refl e.pid) (omega (arith, length-delete_entry pid cache))
delete_entry_shorter pid (e ∷ cache) (inr h) = ground (arith, delete_entry_shorter pid cache h)
delete_entry_shorter pid [] h = absurd h

delete_entry-IsPast :
    (clock : ℕ → ℤ) (pid : Text) (cache : TtyCache)
    → IsPast clock cache
    → IsPast clock (delete_entry pid cache)
unfolding delete_entry
delete_entry-IsPast clock pid [] h = tt
delete_entry-IsPast clock pid (e ∷ cache) h = elim (Bool-cases (text_eq e.pid pid)) [
  | inl k ↦ rw (k, All) (delete_entry-IsPast clock pid cache h.1)
  | inr k ↦ rw (k, All) (h.0, delete_entry-IsPast clock pid cache h.1)
]

HasEntry-pid :
    (clock : ℕ → ℤ) (pid : Text) (cache : TtyCache)
    → IsPast clock cache
    → HasEntry pid cache
    → is_empty pid ≡ false
HasEntry-pid clock pid [] h k = absurd k
HasEntry-pid clock pid (e ∷ cache) h (inl k) = ap is_empty k ∙ h.0.1
HasEntry-pid clock pid (e ∷ cache) h (inr k) = HasEntry-pid clock pid cache h.1 k

oldest-HasEntry :
    (clock : ℕ → ℤ) (n : ℕ) (e : TtyEntry) (cache : TtyCache)
    → IsPast clock (e ∷ cache)
    → HasEntry (oldest (clock n) [] (e ∷ cache)) (e ∷ cache)
oldest-HasEntry clock n e cache h =
    subst (λ found. HasEntry found (e ∷ cache)) (sym (oldest_older (clock n) [] e cache (h.0.0 n)))
      (oldest-IsOneOf e.cached_at e.pid cache)

evict_stops :
    (rounds : ℕ) (clock : ℕ → ℤ) (cache : TtyCache)
    → ltb 750 (length cache) ≡ false
    → evict (suc rounds) clock cache ≡ cache
unfolding evict
evict_stops rounds clock cache h = rw h refl

evict_next :
    (rounds : ℕ) (clock : ℕ → ℤ) (cache : TtyCache)
    → ltb 750 (length cache) ≡ true
    → is_empty (oldest (clock (length cache)) [] cache) ≡ false
    → evict (suc rounds) clock cache
      ≡ evict rounds clock (delete_entry (oldest (clock (length cache)) [] cache) cache)
unfolding evict
evict_next rounds clock cache h k = rw (h, k) refl

evict-IsSmall :
    (rounds : ℕ) (clock : ℕ → ℤ) (cache : TtyCache)
    → IsPast clock cache
    → length cache ≤ rounds + 750
    → length (evict rounds clock cache) ≤ 750
evict-IsSmall zero clock cache h le = unfold evict in omega arith
evict-IsSmall (suc rounds) clock [] h le = rw (evict_stops rounds clock [] refl) (omega arith)
evict-IsSmall (suc rounds) clock (e ∷ cache) h le =
    let pid = oldest (clock (length (e ∷ cache))) [] (e ∷ cache) in
    let found = oldest-HasEntry clock (length (e ∷ cache)) e cache h in
    elim (Bool-cases (ltb 750 (length (e ∷ cache)))) [
      | inr k ↦ rw (evict_stops rounds clock (e ∷ cache) k) (ground arith)
      | inl k ↦
          rw (evict_next rounds clock (e ∷ cache) k (HasEntry-pid clock pid (e ∷ cache) h found)) (
            evict-IsSmall rounds clock (delete_entry pid (e ∷ cache))
              (delete_entry-IsPast clock pid (e ∷ cache) h)
              (omega (arith, delete_entry_shorter pid (e ∷ cache) found)))
    ]

-- Cleaning keeps some of the entries.
cleanup-IsPast :
    (links : Links) (now : ℤ) (clock : ℕ → ℤ) (cache : TtyCache)
    → IsPast clock cache
    → IsPast clock (cleanup_tty_cache links now cache)
unfolding cleanup_tty_cache
cleanup-IsPast links now clock [] h = tt
cleanup-IsPast links now clock (e ∷ cache) h =
    let rest = cleanup-IsPast links now clock cache h.1 in
    kept (leb_ℤ tty_cache_duration (now -ℤ e.cached_at))
      (links.is_gone (join_path (codes "/proc") e.pid)) (cleanup_tty_cache links now cache) rest
  where
    kept :
        (a b : Bool) (rest : TtyCache)
        → IsPast clock rest
        → IsPast clock (if a then rest else if b then rest else e ∷ rest)
    kept true b rest r = r
    kept false true rest r = r
    kept false false rest r = (h.0, r)

clean_if_large-IsPast :
    (links : Links) (now : ℤ) (clock : ℕ → ℤ) (cache : TtyCache)
    → IsPast clock cache
    → IsPast clock (clean_if_large links now cache)
unfolding clean_if_large
clean_if_large-IsPast links now clock cache h = elim (Bool-cases (leb 800 (length cache))) [
  | inl k ↦ rw (k, All) (cleanup-IsPast links now clock cache h)
  | inr k ↦ rw (k, All) h
]

evict_if_full-IsSmall :
    (clock : ℕ → ℤ) (cache : TtyCache)
    → IsPast clock cache
    → length (evict_if_full clock cache) < 1000
unfolding evict_if_full
evict_if_full-IsSmall clock cache h = elim (Bool-cases (leb 1000 (length cache))) [
  | inl k ↦ rw k (omega (arith, evict-IsSmall (length cache) clock cache h (omega arith)))
  | inr k ↦ ground arith
]

-- Whatever its size before, the cache of TTY paths has at most 1000 entries after a path has been stored
-- with its access time, when the entries before were stored earlier than the clock shows, under
-- non-empty PIDs.
pub store_path-IsBounded :
    (links : Links) (clock : Readings) (pid target : Text) (atime : ℤ) (cache : TtyCache)
    → IsPast clock.evicting cache
    → length (store_path links clock pid target atime cache) ≤ 1000
unfolding store_path put_entry
store_path-IsBounded links clock pid target atime cache h =
    let cleaned = clean_if_large links clock.cleaned cache in
    omega (
      arith,
      length-delete_entry pid (evict_if_full clock.evicting cleaned),
      evict_if_full-IsSmall clock.evicting cleaned
          (clean_if_large-IsPast links clock.cleaned clock.evicting cache h),
    )
