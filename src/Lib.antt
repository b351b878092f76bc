-- ===== src/Lib.antt =====
-- LearnLoop's backend: the exams, their grading, practice, canonical solutions, coaching,
-- the sessions in which variants of a problem are generated, reviewed and admitted, and the
-- batches of images that become problems, as functions on the documents that the code stores.
--
-- A write of the code is one atomic update of a document under a filter. It is a function from
-- the document (or its absence) to the document after it and whether the filter matched. What a
-- caller reads from the clock, from uuid4 or from an earlier read is an argument, so that writes
-- of others may fall between a read and a write. A transaction is one step.
--
-- States: the transition tables of backend/app/domain/state.py,
--   backend/app/domain/ingestion/state.py and backend/app/problem_variation.py with their guard
--   functions (transition_exam_state and the others keep the code's names). States/Preview is
--   recover_stale_preview; States/Chains has successions of transitions, States/Absorbing the
--   terminal states.
-- Assessment: backend/app/domain/ingestion/variation.py. Reports is what the gate reads, Gate is
--   assess_variant, Failures has the stored validation records, is_attestable and
--   is_execution_only_failure; Verdict and Override are on what passes and what a teacher may
--   override.
-- Variants: backend/app/infrastructure/problem_variants/repository.py. Sessions is the document,
--   Drafts the semantic change of backend/app/problem_variation.py, Repository the writes
--   (claim_generation is claim_problem_variant_generation, and so on: the words problem_variant
--   are left out), Edit is edit_problem_variant_candidate. Run has any sequence of writes by
--   anyone, on which Invariant, Fencing and Reservations rest; Attest and EditLaws are on one
--   write. Executor is the run of backend/app/infrastructure/problem_variants/executor.py, and
--   Execution is on it. The gate's records are what a run stores in a session.
-- Exam: Grading is backend/app/exam_grading.py, Scoring is backend/app/domain/scoring.py, Model
--   the documents of backend/app/domain/models.py, Tasks and Worker
--   backend/app/infrastructure/worker/exam_grading_worker.py, and Handlers, Submit and Review
--   the routes of backend/app/presentation/exams.py that write. Submission is on the second,
--   Legal and Races are on the handlers beside the worker, Leases, Finalize, Progress,
--   Completion, Valid and Blocked on the worker.
-- Solutions: Queue is backend/app/solution_generation.py, Worker
--   backend/app/infrastructure/worker/solution_worker.py, on the collections of Tasks.
--   Uniqueness and Regeneration are on the first, Retries and Late on the second.
-- Practice: backend/app/presentation/practice.py. Attempts has the grading of an answer and the
--   writes, Agreement compares it with the exams, with which it shares the tracking of a
--   problem.
-- Coaching: backend/app/domain/coaching/service.py. Conversation is the turn of send_message,
--   Turns what is stored.
-- Ingestion: backend/app/infrastructure/ingestion/repository.py, on the documents of
--   backend/app/infrastructure/ingestion/documents.py. Writes has the shape of a write; Images,
--   Items, Deletion, Submits, Variations and Work are the writes, Requests and Retrying the reads
--   and loops around them. History has any interleaving of them, in which a write may use what
--   was read any number of versions before; Moves, Serial, Keeps, Stable, Sound, Invariant and
--   Fencing are on histories, Only, Restore and Answers on one item of a batch.
--   VariationWorker and ExtractionWorker are backend/app/infrastructure/worker/variation_worker.py
--   and extraction_worker.py beside it; Landing, Claimable and Extraction are on them. Boxes is
--   backend/app/domain/ingestion/boxes.py, and Inside is on it. Admission is the transaction of
--   backend/app/presentation/variant_submission.py that makes a problem of an item, and
--   AdmittedOnce is on it. Cleanup is backend/app/infrastructure/ingestion/cleanup.py, Cleaning is
--   on it.
-- Selection: Score and Sampling are backend/app/domain/selection.py, and the choice of a practice
--   problem of backend/app/domain/practice_selection.py; Draws and Practice are on them.
-- Prelude: the names that the modules share, among them update_one (Prelude/Documents), the
--   results of functions that raise (Prelude/Results) and Python's text operations
--   (Prelude/Text).
--
-- Identifiers and times are natural numbers (microseconds), texts are native strings, a float
-- that is only ever 0.0 or 1.0 is the number 0 or 1. The loop of grade_short_answer_item runs on
-- two units of fuel, since an answer is retried at most once; the loop of
-- process_exam_grading_task runs on fuel too, and Exam.Completion.process_task_completes has how
-- much is enough for a worker that keeps its lease. An exception that leaves a function is an
-- error value, or the constructor raised of the loop over a task, and it ends the function with
-- the documents as they are. The batches of a backfill run on as much fuel as there are
-- documents, each batch holding at least one.
--
-- Parameters stand for the arithmetic on floats and the numbers of a random generator (the
-- selection, the boxes), the replies of the language model, the loading of an image and the
-- printing of a number, and for parts of the repository that are not modelled: the comparison of
-- normalized answers (backend/app/domain/normalization.py), the cleaning and the explanation of
-- a drawing (backend/app/domain/whiteboard/graph_dsl.py), the hash of a problem's context, the
-- content of an admitted problem. Of the validation of an exam's items only the type of the raw
-- response is modelled, the other fields being written with their types. Not modelled either are
-- the ranking of problems for the picker, the routes of the bulk ingestion, the network clients,
-- storage drivers, authentication and serialization, the polling loops of the workers, and the
-- frontend.
pub mod Prelude
pub mod States
pub mod Assessment
pub mod Variants
pub mod Exam
pub mod Solutions
pub mod Practice
pub mod Coaching
pub mod Ingestion
pub mod Selection
