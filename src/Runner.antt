-- ===== src/Runner.antt =====
-- core/actors/runner: a runner runs one formula and sends events of it (runner.go, logRouting.go, util.go). A
-- panic is `inl`. The executor is an argument: from the formula and the id of the run to a job, which
-- is what it sent on the stream, in the order in which its logs and the pieces of its output got there, and its
-- result.
pub mod Life
pub mod Record
mod Examples
use repeatr.Base.{
  ℤ, Bool, Text, str, text_eq, Option, none, some, List, [], ◌∷◌, ◌++◌, map, ◌⊎◌, inl, inr, ◌==◌,
  not, if◌then◌else◌,
}
use repeatr.Base.Dict.{Dict, insert}
use repeatr.Formula.{Formula, Output, Ware}
use repeatr.Formula.Clone.{clone}

-- `def.Result`
pub record RunResult : Type 0 where
  pub result_name : Text
  pub ware : Ware

-- `executor.JobResult`, and the id of the job.
pub record Job (Error Log : Type 0) : Type 0 where
  pub id : Text
  pub sent : List (Log ⊎ Text)
  pub outputs : Dict Text Output
  pub exit_code : ℤ
  pub error : Option Error

-- `def.RunRecord`, without its date.
pub record RunRecord (Error : Type 0) : Type 0 where
  pub uid : Text
  pub results : Dict Text RunResult
  pub failure : Option Error

-- `def.Event`: a log item, a piece of the journal, or the record.
pub data Event (Error Log : Type 0) : Type 0 where
  log_event : Text → Log → Event Error Log
  journal_event : Text → Text → Event Error Log
  record_event : Text → RunRecord Error → Event Error Log

-- `type Runner struct`: the id of the run, empty before it is picked, and the formula.
pub record Runner : Type 0 where
  pub run_id : Text
  pub frm : Option Formula

-- `New`
abbrev pub new_runner : Runner
new_runner = record { run_id = []; frm = none }

pub data RunnerPanic : Type 0 where
  already_started run_id_not_found nil_formula : RunnerPanic

-- `StartRun`, with the id that `guid.New` gives.
unfoldable pub start_run : Text → Formula → Runner → RunnerPanic ⊎ (Text × Runner)
unfolding clone
start_run token frm r =
    if not (r.run_id == [])
    then inl already_started
    else inr (token, record { run_id = token; frm = some (clone frm) })

-- `FollowEvents`: `inr` is that the stream is handed to `Run`.
unfoldable pub follow_events : Text → Runner → RunnerPanic ⊎ Unit {0}
follow_events which r = if not (which == r.run_id) then inl run_id_not_found else inr tt

-- The name of the exit code among the results.
abbrev pub exit_code_name : Text
exit_code_name = str "$exitcode"

abbrev pub result_of : Text → Output → RunResult
result_of name output = record {
  result_name = name;
  ware = record { kind = output.kind; hash = output.hash };
}

-- The loop over the outputs.
unfoldable pub flip_results : Dict Text Output → Dict Text RunResult → Dict Text RunResult
flip_results [] results = results
flip_results ((name, output) ∷ outputs) results =
    flip_results outputs (insert name (result_of name output) results)

module _ {Error Log : Type 0} (itoa : ℤ → Text) where
  abbrev pub exit_result : Job Error Log → RunResult
  exit_result job = record {
    result_name = exit_code_name;
    ware = record { kind = str "exitcode"; hash = itoa job.exit_code };
  }

  -- `jobToRunRecord`
  unfoldable pub job_to_run_record : Job Error Log → RunRecord Error
  unfolding flip_results
  job_to_run_record job = record {
    uid = job.id;
    results = insert exit_code_name (exit_result job) (flip_results job.outputs []);
    failure = job.error;
  }

  -- `Log` of the log handler, and `Write` of the journal's writer.
  abbrev pub sent_event : Text → Log ⊎ Text → Event Error Log
  sent_event run_id (inl item) = log_event run_id item
  sent_event run_id (inr piece) = journal_event run_id piece

  -- What `Run` sends for a job: its logs and its output, as they come, and the record.
  abbrev pub events_of : Text → Job Error Log → List (Event Error Log)
  events_of run_id job =
      map (sent_event run_id) job.sent ++ (record_event run_id (job_to_run_record job) ∷ [])

  abbrev run_formula :
      (Formula → Text → Job Error Log)
      → Text
      → Option Formula
      → RunnerPanic ⊎ List (Event Error Log)
  run_formula start run_id none = inl nil_formula
  run_formula start run_id (some frm) = inr (events_of run_id (start frm run_id))

  -- `Run`, once a stream was handed to it.
  unfoldable pub run :
      (Formula → Text → Job Error Log) → Runner → RunnerPanic ⊎ List (Event Error Log)
  unfolding job_to_run_record
  run start r = run_formula start r.run_id r.frm
