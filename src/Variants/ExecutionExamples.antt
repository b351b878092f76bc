-- ===== src/Variants/ExecutionExamples.antt =====
-- A run of the executor at a concrete session.
use learn_loop.Prelude.{◌≡◌, refl, true, some, none, [], ok, err}
use learn_loop.Variants.Drafts.{Content, no_content, problem_content_from_snapshot}
use learn_loop.Variants.Sessions.{Session}
use learn_loop.Variants.Repository.{build_session}
use learn_loop.Variants.Executor.{is_ingestion_mode, Replies, run_session_generation}
use learn_loop.Variants.Execution.{run_session_generation-lands}

abbrev question : Content
question = record no_content {
  text = some "What is 2 + 2?";
  problem_type = some "short-answer";
  correct_answer = some "4";
}

abbrev created : Session
created = build_session "p1" 7 "data-only" question [] 10

-- The assessment of the candidate raises.
abbrev replies : Replies
replies = record {
  preflight = none;
  generated = ok (record { content = question; generator = none });
  malformed = λ c. none;
  assessed = λ c. err (record { verdict = some "fail"; failures = [] });
}

run_example : (run_session_generation (λ n slot. slot) (λ n. 20) replies (some created)).1 ≡ true
unfolding build_session is_ingestion_mode problem_content_from_snapshot
run_example =
    run_session_generation-lands (λ n slot. slot) (λ n. 20) replies (λ n r status slot h. h) created
      refl refl refl
