-- ===== src/Exec/Manager/Table.antt =====
-- The exec manager as an abstract table: which exec each ID finds, and the counter. The order of the
-- entries of the map is forgotten.
pub mod Create
use che_machine_exec.Common.{
  ℕ, ◌+◌, ◌%◌, ◌^◌, ◌≡◌, ◌≢◌, refl, sym, ap, subst, fun_ext, ◌∙◌, ◌⊎◌, inl, inr, Text, Bool, true,
  false, is_empty, Option, none, some, List, [], ◌∷◌, Result, ok, err, if◌then◌else◌, ◌==◌, ==_iff,
  arith, Bool-cases, Option-cases, Result-cases,
}
use che_machine_exec.Filter.{ContainerInfo, FilterError, get_container_list, find_container_info}
use che_machine_exec.Exec.Resolver.{MachineExec, resolve_cmd}
use che_machine_exec.Exec.Manager.{
  Execs, Api, ExecError, exec_not_found, get_by_id, delete, put, to_uint16, next_id, register,
  with_executor, with_cmd, do_create, create_first, create_in_list, create_in, create, remove,
  check, send_size, resize,
}
use che_machine_exec.Exec.Manager.Ids.{get_by_id-delete_same, get_by_id-delete_other}

pub record Table : Type 0 where
  pub find : ℕ → Option MachineExec
  pub counter : ℕ

abbrev pub view : Execs → Table
view st = record { find = λ id. get_by_id id st.exec_map; counter = st.prev_exec_id }

abbrev pub set : ℕ → Option MachineExec → (ℕ → Option MachineExec) → ℕ → Option MachineExec
set id entry find x = if id == x then entry else find x

-- The operations on a table.
abbrev pub remove_from : ℕ → Table → Table
remove_from id t = record t { find = set id none t.find }

abbrev pub checked_id : ℕ → Option MachineExec → Result ExecError ℕ
checked_id id none = err (exec_not_found id)
checked_id id (some e) = ok e.id

abbrev pub sized : ℕ → ℕ → MachineExec → MachineExec
sized cols rows e = record e { size_chan = (to_uint16 cols, to_uint16 rows) ∷ [] }

-- A resize goes through when the channel is empty, and else waits.
abbrev pub sent_to : ℕ → ℕ → ℕ → MachineExec → List (ℕ × ℕ) → Table → Option Table
sent_to id cols rows e [] t = some (record t { find = set id (some (sized cols rows e)) t.find })
sent_to id cols rows e (size ∷ sizes) t = none

abbrev pub resized : ℕ → ℕ → ℕ → Option MachineExec → Table → Result ExecError (Option Table)
resized id cols rows none t = err (exec_not_found id)
resized id cols rows (some e) t = ok (sent_to id cols rows e e.size_chan t)

abbrev pub new_exec : MachineExec → List Text → ℕ → MachineExec
new_exec e cmd id = record e {
  cmd = cmd;
  id = id;
  size_chan = (to_uint16 e.cols, to_uint16 e.rows) ∷ [];
}

abbrev pub add_to : MachineExec → List Text → Table → Table
add_to e cmd t =
    let id = next_id t.counter in
    record { find = set id (some (new_exec e cmd id)) t.find; counter = id }

find_deleted :
    (id x : ℕ) (st : Execs) → get_by_id x (delete id st.exec_map) ≡ set id none (view st).find x
find_deleted id x st = elim (Bool-cases (id == x)) [
  | inl e ↦
      let same : id ≡ x = (==_iff id x).0 e in
      rw e (
        subst (λ n. get_by_id n (delete id st.exec_map) ≡ none) same
          (get_by_id-delete_same id st.exec_map))
  | inr e ↦ rw e (get_by_id-delete_other id x st.exec_map (λ k. absurd (ground arith)))
]

find_put :
    (id x : ℕ) (e : MachineExec) (st : Execs)
    → get_by_id x (put id e st.exec_map) ≡ set id (some e) (view st).find x
unfolding get_by_id
find_put id x e st = elim (Bool-cases (id == x)) [
  | inl k ↦ rw k refl
  | inr k ↦ rw k (get_by_id-delete_other id x st.exec_map (λ l. absurd (ground arith)))
]

pub view-remove : (id : ℕ) (st : Execs) → view (remove id st) ≡ remove_from id (view st)
unfolding remove
view-remove id st =
    ap (λ (f : ℕ → Option MachineExec). record { find = f; counter = st.prev_exec_id })
      (fun_ext (λ x. find_deleted id x st))

view-put :
    (id : ℕ) (e : MachineExec) (st : Execs) (counter : ℕ)
    → view (record { exec_map = put id e st.exec_map; prev_exec_id = counter })
      ≡ record { find = set id (some e) (view st).find; counter = counter }
view-put id e st counter =
    ap (λ (f : ℕ → Option MachineExec). record { find = f; counter = counter })
      (fun_ext (λ x. find_put id x e st))

pub view-register :
    (e : MachineExec) (cmd : List Text) (st : Execs)
    → view (register e cmd st).1 ≡ add_to e cmd (view st)
unfolding register
view-register e cmd st = let id = next_id st.prev_exec_id in view-put id (new_exec e cmd id) st id

pub check-view : (id : ℕ) (st : Execs) → check id st ≡ checked_id id ((view st).find id)
unfolding check
check-view id st = elim (Option-cases (get_by_id id st.exec_map)) [
  | inl k ↦ rw (k, check) refl
  | inr (e, k) ↦ rw (k, check) refl
]

-- A result, with the state as a table.
abbrev pub viewed : Result ExecError (Option Execs) → Result ExecError (Option Table)
viewed (err e) = err e
viewed (ok none) = ok none
viewed (ok (some st)) = ok (some (view st))

channel-cases :
    (xs : List (ℕ × ℕ)) → (xs ≡ []) ⊎ ((x : ℕ × ℕ) × (ys : List (ℕ × ℕ)) × (xs ≡ x ∷ ys))
channel-cases [] = inl refl
channel-cases (x ∷ xs) = inr (x, xs, refl)

viewed-send_size :
    (id cols rows : ℕ) (e : MachineExec) (st : Execs)
    → viewed (ok (send_size id cols rows e st)) ≡ ok (sent_to id cols rows e e.size_chan (view st))
unfolding send_size
viewed-send_size id cols rows e st = elim (channel-cases e.size_chan) [
  | inl k ↦
      rw (k, send_size)
        (ap (λ (t : Table). ok (some t)) (view-put id (sized cols rows e) st st.prev_exec_id))
  | inr (x, xs, k) ↦ rw (k, send_size) refl
]

pub viewed-resize :
    (id cols rows : ℕ) (st : Execs)
    → viewed (resize id cols rows st) ≡ resized id cols rows ((view st).find id) (view st)
unfolding resize
viewed-resize id cols rows st = elim (Option-cases (get_by_id id st.exec_map)) [
  | inl k ↦ rw (k, resize) refl
  | inr (e, k) ↦ rw (k, resize) (viewed-send_size id cols rows e st)
]
