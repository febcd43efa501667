-- ===== src/Api/Rpc/Laws.antt =====
-- What the JSON-RPC handlers reply, and when an exec is made.
use che_machine_exec.Common.{
  ℕ, ◌+◌, ◌^◌, ◌<◌, ◌≡◌, refl, ◌⊎◌, inl, inr, Text, codes, Bool, true, false, is_empty, Option,
  none, some, [], ◌∷◌, ok, All, ◌==◌, ==_iff, Bool-cases, Option-cases, Result-cases, length,
}
use che_machine_exec.Validation.{validate_no_shell_metacharacters}
use che_machine_exec.Validation.Laws.{is_metacharacter, validate_iff}
use che_machine_exec.Exec.Resolver.{MachineExec}
use che_machine_exec.Exec.Manager.{Execs, Api, create, check, get_by_id, exec_not_found}
use che_machine_exec.Exec.Manager.Ids.{IsWellFormed, IsCreated, create-IsCreated}
use che_machine_exec.Api.Rpc.{
  RpcError, sends_error, sends_id, exec_failed, minus_one, set_token, Outcome, after_create,
  json_rpc_create_exec, json_rpc_check_exec,
}

-- The exec was refused, and nothing was made.
abbrev pub IsRefused : Execs → Outcome → Type 0
IsRefused st o = (o.execs ≡ st) × ((e : RpcError) × (o.replies ≡ sends_error e ∷ []))

-- Authentication is off, or the connection has a token that is not empty.
abbrev pub HasToken : Bool → Option Text → Type 0
HasToken auth attribute =
    (auth ≡ false) ⊎ ((token : Text) × (attribute ≡ some token) × (is_empty token ≡ false))

set_token-HasToken :
    (auth : Bool) (attribute : Option Text) (token : Text)
    → set_token auth attribute ≡ ok token
    → HasToken auth attribute
unfolding set_token
set_token-HasToken false attribute token h = inl refl
set_token-HasToken true none token h = absurd (cc h)
set_token-HasToken true (some given) token h = elim (Bool-cases (is_empty given)) [
  | inl e ↦ absurd (cc (rw (e, set_token) at h))
  | inr e ↦ inr (given, refl, e)
]

-- A new exec, with a fresh ID that is replied, for a working directory without shell metacharacters and,
-- when authentication is on, for a connection with a token.
abbrev pub IsMade : Bool → Option Text → MachineExec → Execs → Outcome → Type 0
IsMade auth attribute e st o =
    All (λ c. is_metacharacter c ≡ false) e.cwd
    × HasToken auth attribute
    × ((made : MachineExec) × IsCreated st made o.execs
        × ((o.replies ≡ sends_id made.id ∷ [])
            ⊎ ((made.id ≡ minus_one) × ((x : RpcError) × (o.replies ≡ sends_error x ∷ [])))))

-- Every request for an exec has exactly one reply. Either it is refused, and the execs are as before; or
-- an exec was made, in a well-formed state whose counter has not reached its last value.
pub json_rpc_create_exec_cases :
    (auth : Bool) (api : Text → Api) (attribute : Option Text) (e : MachineExec) (st : Execs)
    → IsWellFormed st
    → st.prev_exec_id + 1 < 2 ^ 64
    → let o = json_rpc_create_exec auth api attribute e st in
      (length o.replies ≡ 1) × (IsRefused st o ⊎ IsMade auth attribute e st o)
unfolding json_rpc_create_exec
json_rpc_create_exec_cases auth api attribute e st wf lt =
    elim (Option-cases (validate_no_shell_metacharacters e.cwd (codes "cwd"))) [
      | inr (f, v) ↦ rw (v, json_rpc_create_exec) (refl, inl (refl, (_, refl)))
      | inl v ↦ elim (Result-cases (set_token auth attribute)) [
        | inl (x, t) ↦ rw (v, json_rpc_create_exec, t) (refl, inl (refl, (_, refl)))
        | inr (token, t) ↦ elim (Result-cases (create (api token) e st)) [
          | inl (x, c) ↦
              rw (v, json_rpc_create_exec, t, c, after_create) (refl, inl (refl, (_, refl)))
          | inr ((made, after), c) ↦
              let free = (validate_iff e.cwd (codes "cwd")).0 v in
              let created = create-IsCreated (api token) e made st after wf lt c in
              elim (Bool-cases (made.id == minus_one)) [
                | inl k ↦
                    let last : made.id ≡ minus_one = (==_iff made.id minus_one).0 k in
                    rw (v, json_rpc_create_exec, t, c, after_create, k)
                      (
                        refl,
                        inr (
                          free,
                          set_token-HasToken auth attribute token t,
                          (made, created, inr (last, (_, refl))),
                        ),
                      )
                | inr k ↦
                    rw (v, json_rpc_create_exec, t, c, after_create, k)
                      (
                        refl,
                        inr (
                          free,
                          set_token-HasToken auth attribute token t,
                          (made, created, inl refl),
                        ),
                      )
              ]
        ]
      ]
    ]

-- A check for an exec that is not there has two replies, an error and, behind it, the ID -1.
pub json_rpc_check_exec_missing :
    (id : ℕ) (st : Execs)
    → get_by_id id st.exec_map ≡ none
    → json_rpc_check_exec id st
      ≡ sends_error (exec_failed (exec_not_found id)) ∷ sends_id minus_one ∷ []
unfolding json_rpc_check_exec check
json_rpc_check_exec_missing id st h = rw (h, json_rpc_check_exec, check) refl
