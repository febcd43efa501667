-- ===== src/Tty/Processes/Walk.antt =====
-- What the walk up the process tree finds.
use che_machine_exec.Common.{
  ℕ, zero, suc, ◌≤◌, ◌≡◌, refl, ◌⊎◌, inl, inr, Text, text_eq, slices_contains, true, false, some,
  List, [], ◌∷◌, arith, Bool-cases,
}
use che_machine_exec.Tty.Processes.{
  ProcTree, process_has_tty, is_top, walk_up, max_depth, get_main_user_process,
}

-- `n` parents above a process.
abbrev pub ancestor : ProcTree → ℕ → Text → Text
ancestor t zero pid = pid
ancestor t (suc n) pid = ancestor t n (t.parent_pid pid)

-- The ancestor that is `n` parents above is the first one without a TTY, and none up to it is the
-- top of the tree.
abbrev pub IsFirstWithout : ProcTree → ℕ → Text → Type 0
IsFirstWithout t zero pid = ⊥
IsFirstWithout t (suc n) pid =
    (is_top (t.parent_pid pid) ≡ false)
    × (((n ≡ 0) × (process_has_tty t (t.parent_pid pid) ≡ false))
        ⊎ ((process_has_tty t (t.parent_pid pid) ≡ true) × IsFirstWithout t n (t.parent_pid pid)))

walk_up-finds :
    (t : ProcTree) (depth : ℕ) (visited : List Text) (pid p : Text)
    → walk_up t depth visited pid ≡ some p
    → (n : ℕ) × (n ≤ depth) × (ancestor t n pid ≡ p) × IsFirstWithout t n pid
unfolding walk_up
walk_up-finds t zero visited pid p h = absurd (cc h)
walk_up-finds t (suc depth) visited pid p h = elim (Bool-cases (slices_contains visited pid)) [
  | inl a ↦ absurd (cc (rw a at h))
  | inr a ↦ elim (Bool-cases (text_eq (t.parent_pid pid) pid)) [
    | inl b ↦ absurd (cc (rw (a, b) at h))
    | inr b ↦ elim (Bool-cases (is_top (t.parent_pid pid))) [
      | inl c ↦ absurd (cc (rw (a, b, c) at h))
      | inr c ↦ elim (Bool-cases (process_has_tty t (t.parent_pid pid))) [
        | inr d ↦ (1, omega arith, cc (rw (a, b, c, d) at h), (c, inl (refl, d)))
        | inl d ↦
            let (n, le, e, first) =
              walk_up-finds t depth (pid ∷ visited) (t.parent_pid pid) p (rw (a, b, c, d) at h) in
            (suc n, omega arith, e, (c, inr (d, first)))
      ]
    ]
  ]
]

-- A main user process that the walk finds is an ancestor at most 64 parents up, the first one that
-- has no TTY, and neither it nor any process below it on the way is the top of the tree.
pub get_main_user_process-finds :
    (t : ProcTree) (pid p : Text)
    → get_main_user_process t pid ≡ some p
    → (n : ℕ) × (n ≤ 64) × (ancestor t n pid ≡ p) × IsFirstWithout t n pid
unfolding get_main_user_process
get_main_user_process-finds t pid p h = walk_up-finds t max_depth [] pid p h
