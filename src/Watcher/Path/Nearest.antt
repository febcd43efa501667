-- ===== src/Watcher/Path/Nearest.antt =====
-- Which file the search upward finds.
use che_machine_exec.Common.{
  ℕ, zero, suc, ◌<◌, ◌≡◌, refl, ◌∙◌, ◌⊎◌, inl, inr, Text, true, false, [], Bool-cases, arith,
}
use che_machine_exec.Common.Paths.{join_path, dir}
use che_machine_exec.Watcher.Path.{FileSystem, is_last, find_loop, resolved, find_upward}

-- The directory `k` levels above.
abbrev pub ancestor : ℕ → Text → Text
ancestor zero current = current
ancestor (suc k) current = ancestor k (dir current)

-- The file stands in the directory `k` levels above, in none before it, and the way up does not end
-- before it.
abbrev pub IsNearest : FileSystem → Text → Text → ℕ → Text → Type 0
IsNearest fs stop filename zero current = fs.stat (join_path current filename) ≡ true
IsNearest fs stop filename (suc k) current =
    (fs.stat (join_path current filename) ≡ false)
    × (is_last stop current ≡ false)
    × IsNearest fs stop filename k (dir current)

-- A file within `n` levels.
abbrev pub HasNearest : ℕ → FileSystem → Text → Text → Text → Type 0
HasNearest n fs stop filename current = (k : ℕ) × (k < n) × IsNearest fs stop filename k current

-- The result names the nearest file, or is empty because there is none.
abbrev pub Finds : ℕ → FileSystem → Text → Text → Text → Text → Type 0
Finds n fs stop filename current path =
    ((k : ℕ) × (k < n)
      × IsNearest fs stop filename k current
      × (path ≡ join_path (ancestor k current) filename))
    ⊎ ((path ≡ []) × ¬ HasNearest n fs stop filename current)

find_loop_at :
    (n : ℕ) (fs : FileSystem) (stop filename current : Text)
    → fs.stat (join_path current filename) ≡ true
    → find_loop (suc n) fs stop filename current ≡ join_path current filename
unfolding find_loop
find_loop_at n fs stop filename current e = rw e refl

find_loop_ends :
    (n : ℕ) (fs : FileSystem) (stop filename current : Text)
    → fs.stat (join_path current filename) ≡ false
    → is_last stop current ≡ true
    → find_loop (suc n) fs stop filename current ≡ []
unfolding find_loop
find_loop_ends n fs stop filename current e f = rw (e, f) refl

find_loop_above :
    (n : ℕ) (fs : FileSystem) (stop filename current : Text)
    → fs.stat (join_path current filename) ≡ false
    → is_last stop current ≡ false
    → find_loop (suc n) fs stop filename current ≡ find_loop n fs stop filename (dir current)
unfolding find_loop
find_loop_above n fs stop filename current e f = rw (e, f) refl

-- No nearest file further up, when the way ends here.
ends_here :
    (n : ℕ) (fs : FileSystem) (stop filename current : Text)
    → fs.stat (join_path current filename) ≡ false
    → is_last stop current ≡ true
    → ¬ HasNearest n fs stop filename current
ends_here n fs stop filename current e f (zero, lt, h) = absurd (cc (e, h))
ends_here n fs stop filename current e f (suc k, lt, (s, l, h)) = absurd (cc (f, l))

none_above :
    (n : ℕ) (fs : FileSystem) (stop filename current : Text)
    → fs.stat (join_path current filename) ≡ false
    → ¬ HasNearest n fs stop filename (dir current)
    → ¬ HasNearest (suc n) fs stop filename current
none_above n fs stop filename current e above (zero, lt, h) = absurd (cc (e, h))
none_above n fs stop filename current e above (suc k, lt, (s, l, h)) = above (k, omega arith, h)

find_loop-Finds :
    (n : ℕ) (fs : FileSystem) (stop filename current : Text)
    → Finds n fs stop filename current (find_loop n fs stop filename current)
find_loop-Finds zero fs stop filename current =
    inr (unfold find_loop in refl, λ (k, lt, h). absurd (omega arith))
find_loop-Finds (suc n) fs stop filename current =
    elim (Bool-cases (fs.stat (join_path current filename))) [
      | inl e ↦ inl (0, omega arith, e, find_loop_at n fs stop filename current e)
      | inr e ↦ elim (Bool-cases (is_last stop current)) [
        | inl f ↦ inr (
          find_loop_ends n fs stop filename current e f,
          ends_here (suc n) fs stop filename current e f,
        )
        | inr f ↦ elim (find_loop-Finds n fs stop filename (dir current)) [
          | inl (k, lt, h, p) ↦
              inl
                (suc k, omega arith, (e, f, h), find_loop_above n fs stop filename current e f ∙ p)
          | inr (p, none_there) ↦ inr (
            find_loop_above n fs stop filename current e f ∙ p,
            none_above n fs stop filename current e none_there,
          )
        ]
      ]
    ]

-- The search upward gives the file in the nearest directory, at most 99 levels above the start, that
-- has one, on a way that ends at the stop directory, at the root, or at a path that is its own parent;
-- its result is empty exactly when there is none.
pub find_upward-Finds :
    (fs : FileSystem) (start stop filename : Text)
    → Finds 100 fs
        (resolved fs stop)
        filename
        (resolved fs start)
        (find_upward fs start stop filename)
unfolding find_upward
find_upward-Finds fs start stop filename =
    find_loop-Finds 100 fs (resolved fs stop) filename (resolved fs start)
