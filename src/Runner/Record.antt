-- ===== src/Runner/Record.antt =====
-- What the record of a run says of the job's result.
use repeatr.Base.{
  inl, inr, ◌≡◌, refl, ℤ, Text, text_eq, Option, none, some, [], ◌∷◌, ◌==◌, if◌then◌else◌,
  Bool-cases, eq-of-==,
}
use repeatr.Base.Dict.{Dict, lookup, insert, NodupKeys, lookup-cons, lookup-insert}
use repeatr.Formula.{Output}
use repeatr.Runner.{
  Job, RunResult, exit_code_name, exit_result, result_of, flip_results, job_to_run_record,
}

-- What stands under a name once the outputs were flipped into results.
abbrev pub found : Text → Option Output → Option RunResult → Option RunResult
found name none before = before
found name (some output) before = some (result_of name output)

-- Where no output is named twice.
lookup-flip_results :
    (name : Text) (outputs : Dict Text Output) (results : Dict Text RunResult)
    → NodupKeys outputs
    → lookup name (flip_results outputs results)
      ≡ found name (lookup name outputs) (lookup name results)
unfolding flip_results
lookup-flip_results name [] results d = unfold lookup in refl
lookup-flip_results name ((k, o) ∷ outputs) results (fresh, d) = elim (Bool-cases (k == name)) [
  | inl same ↦
      let e : k ≡ name = eq-of-== k name same in
      let absent : lookup name outputs ≡ none = rw (← e) fresh in
      rw
        (
          lookup-cons name k o outputs,
          same,
          lookup-flip_results name outputs (insert k (result_of k o) results) d,
          absent,
          lookup-insert name k (result_of k o) results,
          same,
        )
        (rw e refl)
  | inr other ↦
      rw
        (
          lookup-cons name k o outputs,
          other,
          lookup-flip_results name outputs (insert k (result_of k o) results) d,
          lookup-insert name k (result_of k o) results,
          other,
        )
        refl
]

-- From a job with no output named twice, the record's result named "$exitcode" is the exit code in decimal, also where
-- an output has that name; under every other name stands the kind and the hash of the output of that name, or nothing; and the id and the error are the job's.
pub job_to_run_record_lem :
    {Error Log : Type 0}
    → (itoa : ℤ → Text) (job : Job Error Log) (name : Text) → NodupKeys job.outputs
    → (lookup name (job_to_run_record itoa job).results ≡ (
        if exit_code_name == name
        then some (exit_result itoa job)
        else found name (lookup name job.outputs) none))
      × ((job_to_run_record itoa job).uid ≡ job.id)
      × ((job_to_run_record itoa job).failure ≡ job.error)
unfolding job_to_run_record
job_to_run_record_lem itoa job name d = (
  rw
      (
        lookup-insert name exit_code_name (exit_result itoa job) (flip_results job.outputs []),
        lookup-flip_results name job.outputs [] d,
      )
      (unfold lookup in refl),
  refl,
  refl,
)
