-- ===== src/Info/Laws.antt =====
-- What the output of an info exec stands for.
use che_machine_exec.Common.{
  ◌≡◌, refl, sym, ap, ◌∙◌, ◌⊎◌, ◌↔◌, inl, inr, Text, is_empty, true, false, Option, none, some,
  List, [], ◌∷◌, ok, err, Result-cases,
}
use che_machine_exec.Filter.{ContainerInfo}
use che_machine_exec.Info.{
  PodExec, request_of, StreamEnd, stream_ended, timed_out, Streamed, Remote, error_output,
  result_of, start, create_info_exec, output_unless, run,
}

-- The stream ended without an error, or ran for 3 seconds, and nothing was written to the error output.
abbrev pub IsQuiet : Streamed → Type 0
IsQuiet s = ((s.stream_end ≡ timed_out) ⊎ (s.stream_end ≡ stream_ended none)) × (s.errors ≡ [])

error_output-none : (errors : Text) → error_output errors ≡ none → errors ≡ []
unfolding error_output is_empty
error_output-none [] h = refl
error_output-none (c ∷ errors) h = absurd (cc h)

result_of-quiet :
    (e : StreamEnd) (errors : Text)
    → result_of e errors ≡ none
    → ((e ≡ timed_out) ⊎ (e ≡ stream_ended none)) × (errors ≡ [])
unfolding result_of
result_of-quiet timed_out errors h = (inl refl, error_output-none errors h)
result_of-quiet (stream_ended (some e)) errors h = absurd (cc h)
result_of-quiet (stream_ended none) errors h = (inr refl, error_output-none errors h)

quiet-result_of :
    (e : StreamEnd) (errors : Text)
    → (e ≡ timed_out) ⊎ (e ≡ stream_ended none)
    → errors ≡ []
    → result_of e errors ≡ none
unfolding result_of error_output is_empty
quiet-result_of e errors (inl h) k = rw (h, k, result_of, error_output, is_empty) refl
quiet-result_of e errors (inr h) k = rw (h, k, result_of, error_output, is_empty) refl

-- The request for a command in a container.
abbrev pub request_in : Text → ContainerInfo → List Text → PodExec
request_in namespace info command = record {
  namespace = namespace;
  pod = info.pod_name;
  container = info.container_name;
  command = command;
  stdout = true;
  stderr = true;
  stdin = false;
  tty = false;
}

-- The command was run in the container, quietly, and has written the output.
abbrev pub HasOutput : Remote → Text → ContainerInfo → List Text → Text → Type 0
HasOutput remote namespace info command out =
    (s : Streamed) × (remote (request_in namespace info command) ≡ ok s) × IsQuiet s × (s.out ≡ out)

unless-some :
    (failure : Option Text) (out result : Text)
    → output_unless failure out ≡ some result
    → (failure ≡ none) × (out ≡ result)
unless-some none out result h = (refl, cc h)
unless-some (some e) out result h = absurd (cc h)

module _ (remote : Remote) (namespace : Text) (info : ContainerInfo) (command : List Text) where
  run_ok :
      (s : Streamed)
      → remote (request_in namespace info command) ≡ ok s
      → run remote namespace info command ≡ output_unless (result_of s.stream_end s.errors) s.out
  unfolding run start create_info_exec request_of
  run_ok s k = rw (k, run, start) refl

  run_err :
      (e : Text)
      → remote (request_in namespace info command) ≡ err e
      → run remote namespace info command ≡ none
  unfolding run start create_info_exec request_of
  run_err e k = rw (k, run, start) refl

  -- An info exec gives an output exactly when its command, without a terminal and without input, was run in
  -- the container of the given pod and namespace, has written that output and nothing to its error output, and
  -- ended without an error or ran for 3 seconds.
  pub run_iff :
      (out : Text)
      → (run remote namespace info command ≡ some out) ↔ HasOutput remote namespace info command out
  run_iff out = (
    (λ h. elim (Result-cases (remote (request_in namespace info command))) [
      | inl (e, k) ↦ let bad : none ≡ some out = sym (run_err e k) ∙ h in absurd (cc bad)
      | inr (s, k) ↦
          let (quiet, same) =
            unless-some (result_of s.stream_end s.errors) s.out out (sym (run_ok s k) ∙ h) in
          (s, k, result_of-quiet s.stream_end s.errors quiet, same)
    ]),
    (λ (s, k, quiet, same).
        run_ok s k
        ∙ ap (λ f. output_unless f s.out) (quiet-result_of s.stream_end s.errors quiet.0 quiet.1)
        ∙ ap some same),
  )
