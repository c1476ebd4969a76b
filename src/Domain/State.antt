-- ===== src/Domain/State.antt =====
-- packages/domain/src/state.ts: the life cycles of a job and of one attempt at it. A status is
-- compared by its text, as `includes`, `has` and `===` do.
pub mod Laws
use scribe_drop.Common.{ℕ, ◌*◌, String, Bool, List, [], ◌∷◌, any, ◌is◌}

pub data JobStatus : Type 0 where
  created uploading uploaded submission_pending submitting running cancel_requested : JobStatus
  completed failed cancelled expired source_mutated : JobStatus

pub data AttemptStatus : Type 0 where
  submission_pending submitting running cancel_requested : AttemptStatus
  completed failed cancelled : AttemptStatus

abbrev pub job_text : JobStatus → String
job_text JobStatus.created = "CREATED"
job_text JobStatus.uploading = "UPLOADING"
job_text JobStatus.uploaded = "UPLOADED"
job_text JobStatus.submission_pending = "SUBMISSION_PENDING"
job_text JobStatus.submitting = "SUBMITTING"
job_text JobStatus.running = "RUNNING"
job_text JobStatus.cancel_requested = "CANCEL_REQUESTED"
job_text JobStatus.completed = "COMPLETED"
job_text JobStatus.failed = "FAILED"
job_text JobStatus.cancelled = "CANCELLED"
job_text JobStatus.expired = "EXPIRED"
job_text JobStatus.source_mutated = "SOURCE_MUTATED"

abbrev pub attempt_text : AttemptStatus → String
attempt_text AttemptStatus.submission_pending = "SUBMISSION_PENDING"
attempt_text AttemptStatus.submitting = "SUBMITTING"
attempt_text AttemptStatus.running = "RUNNING"
attempt_text AttemptStatus.cancel_requested = "CANCEL_REQUESTED"
attempt_text AttemptStatus.completed = "COMPLETED"
attempt_text AttemptStatus.failed = "FAILED"
attempt_text AttemptStatus.cancelled = "CANCELLED"

abbrev job_includes : List JobStatus → JobStatus → Bool
job_includes xs s = any (λ x. job_text x is job_text s) xs

abbrev attempt_includes : List AttemptStatus → AttemptStatus → Bool
attempt_includes xs s = any (λ x. attempt_text x is attempt_text s) xs

unfoldable pub job_statuses : List JobStatus
job_statuses =
    JobStatus.created ∷ JobStatus.uploading ∷ JobStatus.uploaded ∷ JobStatus.submission_pending
    ∷ JobStatus.submitting ∷ JobStatus.running ∷ JobStatus.cancel_requested ∷ JobStatus.completed
    ∷ JobStatus.failed ∷ JobStatus.cancelled ∷ JobStatus.expired ∷ JobStatus.source_mutated ∷ []

unfoldable pub active_job_statuses : List JobStatus
active_job_statuses =
    JobStatus.created ∷ JobStatus.uploading ∷ JobStatus.uploaded ∷ JobStatus.submission_pending
    ∷ JobStatus.submitting ∷ JobStatus.running ∷ JobStatus.cancel_requested ∷ []

pub is_active_job_status : JobStatus → Bool
unfolding active_job_statuses
is_active_job_status s = job_includes active_job_statuses s

abbrev pub max_active_jobs_per_owner : ℕ
max_active_jobs_per_owner = 3

abbrev pub max_job_creations_per_window : ℕ
max_job_creations_per_window = 10

abbrev pub job_creation_window_seconds : ℕ
job_creation_window_seconds = 10 * 60

pub job_status_transitions : JobStatus → List JobStatus
job_status_transitions JobStatus.cancelled = []
job_status_transitions JobStatus.cancel_requested =
    JobStatus.cancelled ∷ JobStatus.completed ∷ JobStatus.failed ∷ JobStatus.source_mutated ∷ []
job_status_transitions JobStatus.completed = []
job_status_transitions JobStatus.created =
    JobStatus.uploading ∷ JobStatus.uploaded ∷ JobStatus.cancelled ∷ JobStatus.expired
    ∷ JobStatus.failed ∷ JobStatus.source_mutated ∷ []
job_status_transitions JobStatus.expired = []
job_status_transitions JobStatus.failed = JobStatus.submission_pending ∷ []
job_status_transitions JobStatus.running =
    JobStatus.cancel_requested ∷ JobStatus.completed ∷ JobStatus.failed ∷ JobStatus.source_mutated
    ∷ []
job_status_transitions JobStatus.source_mutated = []
job_status_transitions JobStatus.submission_pending =
    JobStatus.submitting ∷ JobStatus.cancel_requested ∷ JobStatus.failed ∷ JobStatus.source_mutated
    ∷ []
job_status_transitions JobStatus.submitting =
    JobStatus.running ∷ JobStatus.cancel_requested ∷ JobStatus.failed ∷ JobStatus.source_mutated
    ∷ []
job_status_transitions JobStatus.uploaded =
    JobStatus.submission_pending ∷ JobStatus.cancel_requested ∷ JobStatus.failed
    ∷ JobStatus.source_mutated ∷ []
job_status_transitions JobStatus.uploading =
    JobStatus.uploaded ∷ JobStatus.cancelled ∷ JobStatus.expired ∷ JobStatus.failed
    ∷ JobStatus.source_mutated ∷ []

pub attempt_status_transitions : AttemptStatus → List AttemptStatus
attempt_status_transitions AttemptStatus.cancelled = []
attempt_status_transitions AttemptStatus.cancel_requested =
    AttemptStatus.cancelled ∷ AttemptStatus.completed ∷ AttemptStatus.failed ∷ []
attempt_status_transitions AttemptStatus.completed = []
attempt_status_transitions AttemptStatus.failed = []
attempt_status_transitions AttemptStatus.running =
    AttemptStatus.cancel_requested ∷ AttemptStatus.completed ∷ AttemptStatus.failed ∷ []
attempt_status_transitions AttemptStatus.submission_pending =
    AttemptStatus.submitting ∷ AttemptStatus.cancel_requested ∷ AttemptStatus.failed ∷ []
attempt_status_transitions AttemptStatus.submitting =
    AttemptStatus.running ∷ AttemptStatus.cancel_requested ∷ AttemptStatus.failed ∷ []

terminal_job_statuses : List JobStatus
terminal_job_statuses =
    JobStatus.cancelled ∷ JobStatus.completed ∷ JobStatus.expired ∷ JobStatus.source_mutated ∷ []

terminal_attempt_statuses : List AttemptStatus
terminal_attempt_statuses =
    AttemptStatus.cancelled ∷ AttemptStatus.completed ∷ AttemptStatus.failed ∷ []

unfoldable pub can_transition_job_status : JobStatus → JobStatus → Bool
unfolding job_status_transitions
can_transition_job_status from to = job_includes (job_status_transitions from) to

unfoldable pub can_transition_attempt_status : AttemptStatus → AttemptStatus → Bool
unfolding attempt_status_transitions
can_transition_attempt_status from to = attempt_includes (attempt_status_transitions from) to

unfoldable pub is_terminal_job_status : JobStatus → Bool
unfolding terminal_job_statuses
is_terminal_job_status status = job_includes terminal_job_statuses status

unfoldable pub is_terminal_attempt_status : AttemptStatus → Bool
unfolding terminal_attempt_statuses
is_terminal_attempt_status status = attempt_includes terminal_attempt_statuses status

unfoldable pub can_retry_job : JobStatus → Bool
can_retry_job status = job_text status is "FAILED"
