-- ===== src/Lib.antt =====
-- SocialPilot AI plans, renders and publishes marketing videos. What takes long or costs money is
-- done by execution jobs: a persistent queue hands a job to one worker at a time under a lease, the
-- worker runs the job's handler, and the handler calls external providers. This library models that
-- core; its subject is that a job is not run twice at once and that a paid submission is not repeated; with
-- it come the batches that fill the queue, and the files and subtitles of the finished videos.
--
-- The parts, and where they are:
-- - Json: JSON values and `reject_sensitive_keys` of backend/app/schemas/execution.py.
-- - Action: a call in a SQLAlchemy session: the open transaction, what is committed, and an error.
-- - Queue: the execution queue. Types and Invariant are the rows and the constraints of
--   backend/app/models/execution.py; Repository is backend/app/repositories/execution.py; Requests
--   is the request models of backend/app/schemas/execution.py; Service, Leases and Claim are the
--   methods of `ExecutionQueueService` in backend/app/services/execution_queue_service.py under
--   their own names; System is the routes of backend/app/api/v1/routes/execution_jobs.py, one `Call`
--   for each that changes state, and the tables that calls lead to. The other modules of Queue are
--   proofs.
-- - Worker: backend/app/execution. Contracts is contracts.py and registry.py, Context the
--   `ExecutionContext` of contracts.py with the heartbeats of worker.py, Run the rest of worker.py
--   from `run_once` down.
-- - Render: the render tasks of backend/app/models/video_render.py. Repository is
--   backend/app/repositories/video_render.py, Execution is `VideoRenderExecutionService` of
--   backend/app/services/video_render_execution_service.py with `transition_status` of
--   backend/app/services/video_render_service.py, Recovery is `build_recovery_decision` of
--   backend/app/services/video_render_operation_service.py. Scenes and Creation are
--   `create_render_task_with_reuse` of video_render_service.py, from the scenes of a video project
--   in backend/app/models/video.py, as backend/app/schemas/video.py validates them, to the row.
-- - Batch: batch video jobs. Types and Repository are backend/app/models/batch_video.py with the
--   constraints that a flush meets, and backend/app/repositories/batch_video.py; Requests is
--   backend/app/schemas/batch_video.py; Preflight is
--   backend/app/services/batch_video_preflight.py; Status, Service, Creates and Controls are
--   backend/app/services/batch_video_job_service.py; Handler is
--   backend/app/execution/handlers/batch_video_variant.py. A batch enqueues its jobs in the tables of
--   Queue, with slots as their concurrency keys.
-- - Artifacts: Range and Stream are backend/app/services/video_artifact_http.py.
-- - Subtitles: Times, Webvtt and Ass are backend/app/services/video_composition_subtitles.py;
--   Document is a reader of ASS documents, apart from the code.
-- - Base: the names and lemmas that all share.
--
-- How it is modelled. A method is an action on a session and answers a value or an error; the clock's
-- answers are arguments. A call of the queue is atomic, except that `create` and `claim` may find at
-- their flush that other sessions have committed another table (`Flush`); the orders in which calls
-- of several clients take effect are sequences of calls (`Reach`). In the worker, time passes before
-- each of its calls: other clients may act, its heartbeat thread may read the provider state or send
-- what it has read, and the stop event may be set (`World`). A handler is the tree of the calls that
-- it makes of its context (`Program`). In Render the wait for the provider splits `submit` and
-- `refresh` in two, with anything in between. The SHA-256 of a worker's name, the providers, the
-- clock, the download and storage of a video, `json.dumps`, `textwrap.wrap`, UTF-8 and pydantic's
-- reading of an integer are parameters. The sessions do not flush
-- by themselves (`autoflush=False`): the recovery at the start of a `claim` reaches the database
-- with the claim, which selects its job among the rows as they were. A flush of the batch service raises where a unique index or a CHECK constraint of the
-- rows speaks against it, or where another session has come first. Python's `sorted`, `set`, `strip`,
-- `split`, `splitlines`, `int` and number formats are definitions of Base and of the modules that use
-- them, on ASCII text. Instants are microseconds and costs
-- ten-thousandths; case functions act on ASCII letters. The one loop of the source that is bounded by
-- a constant, the three rounds of `claim`, is recursion on that constant; the others
-- follow lists, except two that are on fuel: the streaming of a file, with a turn for each byte and
-- one more, and the reading of WebVTT, with a turn for each line and one more; every turn but the last
-- takes a byte, or a line.
--
-- Not modelled: the columns `created_at` and `updated_at` beyond the order of claims, the listing of
-- jobs with its filters, the bound on the digits of a cost, the lock that keeps a second caller out of
-- one worker, the text of messages that quote a status, the columns of a batch that belong to the
-- generation of scripts, the artifacts of render tasks that are saved by hand, the handlers of the
-- other job types, and the rest of the application:
-- compositions, publication, analysis, generation, configuration, the user interface.
pub mod Base
pub mod Json
pub mod Action
pub mod Queue
pub mod Worker
pub mod Render
pub mod Batch
pub mod Artifacts
pub mod Subtitles
