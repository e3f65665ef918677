-- ===== src/Runner/Life.antt =====
-- The life of a runner: started once, followed by the id it gave, and run.
use repeatr.Base.{◌≡◌, ℤ, Text, inl, inr, List, [], ◌∷◌, ◌++◌, ◌⊎◌}
use repeatr.Formula.{Formula}
use repeatr.Runner.{Event, log_event, journal_event, record_event, job_to_run_record, Job, Runner}

module _ {Error Log : Type 0} where
  -- Events before the record: logs and pieces of the journal, all under one id.
  abbrev pub IsBefore : Text → List (Event Error Log) → Type 0
  IsBefore id [] = Unit
  IsBefore id (log_event which item ∷ events) = (which ≡ id) × IsBefore id events
  IsBefore id (journal_event which piece ∷ events) = (which ≡ id) × IsBefore id events
  IsBefore id (record_event which rr ∷ events) = ⊥

  -- The journal that a reader of the events puts together, and the output that was written.
  abbrev pub journal_of : List (Event Error Log) → Text
  journal_of [] = []
  journal_of (log_event which item ∷ events) = journal_of events
  journal_of (journal_event which piece ∷ events) = piece ++ journal_of events
  journal_of (record_event which rr ∷ events) = journal_of events

abbrev pub output_of : {Log : Type 0} → List (Log ⊎ Text) → Text
output_of [] = []
output_of (inl item ∷ sent) = output_of sent
output_of (inr piece ∷ sent) = piece ++ output_of sent

module _ {Error Log : Type 0} (itoa : ℤ → Text) (start : Formula → Text → Job Error Log) where
  -- What a run under an id sends for a job.
  abbrev pub IsStream : Text → Job Error Log → List (Event Error Log) → Type 0
  IsStream id job events =
      (before : List (Event Error Log)) × (events
        ≡ before ++ (record_event id (job_to_run_record itoa job) ∷ []))
      × IsBefore id before
      × (journal_of before ≡ output_of job.sent)
