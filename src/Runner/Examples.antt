-- ===== src/Runner/Examples.antt =====
-- The theorems on runners at one run that fails with two outputs.
use repeatr.Base.{
  ◌≡◌, refl, ℤ, pos, false, Text, str, text_eq, none, some, [], ◌∷◌, inl, inr, ◌==◌, if◌then◌else◌,
}
use repeatr.Base.Dict.{lookup}
use repeatr.Formula.{Formula, Output, Action}
use repeatr.Formula.Clone.{clone}
use repeatr.Runner.{
  Job, Runner, new_runner, nil_formula, exit_code_name, exit_result, follow_events, run,
  job_to_run_record,
}
use repeatr.Runner.Record.{found, job_to_run_record_lem}

abbrev output : Text → Output
output hash = record {
  kind = str "tar";
  hash = hash;
  warehouses = [];
  mount_path = str "/out";
  filters = none;
  conjecture = false;
}

abbrev action : Action
action = record {
  entrypoint = str "false" ∷ [];
  cwd = str "/task";
  env = [];
  hostname = [];
  policy = [];
  cradle = none;
  mounts = [];
}

abbrev formula : Formula
formula = record { inputs = []; action = action; outputs = (str "out", output []) ∷ [] }

abbrev itoa : ℤ → Text
itoa _ = str "1"

-- A job with an output that has the name of the exit code.
abbrev job : Job Text Text
job = record {
  id = str "r1";
  sent = inl (str "start") ∷ inr (str "no") ∷ inl (str "end") ∷ [];
  outputs = (str "out", output (str "h2")) ∷ (str "$exitcode", output (str "h3")) ∷ [];
  exit_code = pos 1;
  error = none;
}

abbrev start : Formula → Text → Job Text Text
start _ _ = job

abbrev started : Runner
started = record { run_id = str "r1"; frm = some (clone formula) }

-- A runner that was not started has the empty id, so it follows the empty id, and then has no formula to run.
empty_id_runs :
    (follow_events [] new_runner ≡ inr tt) × (run itoa start new_runner ≡ inl nil_formula)
unfolding follow_events run text_eq
empty_id_runs = (refl, refl)

job_to_run_record_lem_example :
    (lookup (str "out") (job_to_run_record itoa job).results ≡ (
      if exit_code_name == str "out"
      then some (exit_result itoa job)
      else found (str "out") (lookup (str "out") job.outputs) none))
    × ((job_to_run_record itoa job).uid ≡ str "r1")
    × ((job_to_run_record itoa job).failure ≡ none)
unfolding lookup text_eq
job_to_run_record_lem_example = job_to_run_record_lem itoa job (str "out") (refl, (refl, tt))
