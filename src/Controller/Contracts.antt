-- ===== src/Controller/Contracts.antt =====
-- packages/contracts/src/cloud-run-controller.ts, as apps/gpu-controller/src/contracts.ts passes it on:
-- the requests to the controller and its responses.
use scribe_drop.Common.{ℕ, ◌≡◌, refl, String, Bool, true, false, Option}

pub data Environment : Type 0 where
  staging production : Environment

pub data Action : Type 0 where
  create observe reconcile cancel cleanup : Action

pub data Outcome : Type 0 where
  accepted pending running succeeded failed cancelled cleaned unknown rejected : Outcome

pub data ErrorCode : Type 0 where
  authentication_failed budget_exhausted conflict environment_mismatch expired_request : ErrorCode
  internal_error invalid_request multiple_executions provider_permanent : ErrorCode
  provider_retryable rate_limited resource_drift stale_version unknown_outcome : ErrorCode

-- The fields that the controller's service reads.
pub record Request : Type 0 where
  pub action : Action
  pub environment : Environment
  pub execution_handle : String
  pub expected_version : ℕ
  pub request_id : String

pub record Response : Type 0 where
  pub error_code : Option ErrorCode
  pub execution_handle : String
  pub outcome : Outcome
  pub request_id : String
  pub version : ℕ

-- `===` on environments and on actions.
abbrev pub same_environment : Environment → Environment → Bool
same_environment Environment.staging Environment.staging = true
same_environment Environment.production Environment.production = true
same_environment _ _ = false

pub same_environment_sound : (e f : Environment) → same_environment e f ≡ true → e ≡ f
same_environment_sound Environment.staging Environment.staging h = refl
same_environment_sound Environment.production Environment.production h = refl
same_environment_sound Environment.staging Environment.production h = absurd (cc)
same_environment_sound Environment.production Environment.staging h = absurd (cc)

abbrev pub same_action : Action → Action → Bool
same_action Action.create Action.create = true
same_action Action.observe Action.observe = true
same_action Action.reconcile Action.reconcile = true
same_action Action.cancel Action.cancel = true
same_action Action.cleanup Action.cleanup = true
same_action _ _ = false

pub same_action_sound : (a b : Action) → same_action a b ≡ true → a ≡ b
same_action_sound Action.create Action.create h = refl
same_action_sound Action.create Action.observe h = absurd (cc)
same_action_sound Action.create Action.reconcile h = absurd (cc)
same_action_sound Action.create Action.cancel h = absurd (cc)
same_action_sound Action.create Action.cleanup h = absurd (cc)
same_action_sound Action.observe Action.create h = absurd (cc)
same_action_sound Action.observe Action.observe h = refl
same_action_sound Action.observe Action.reconcile h = absurd (cc)
same_action_sound Action.observe Action.cancel h = absurd (cc)
same_action_sound Action.observe Action.cleanup h = absurd (cc)
same_action_sound Action.reconcile Action.create h = absurd (cc)
same_action_sound Action.reconcile Action.observe h = absurd (cc)
same_action_sound Action.reconcile Action.reconcile h = refl
same_action_sound Action.reconcile Action.cancel h = absurd (cc)
same_action_sound Action.reconcile Action.cleanup h = absurd (cc)
same_action_sound Action.cancel Action.create h = absurd (cc)
same_action_sound Action.cancel Action.observe h = absurd (cc)
same_action_sound Action.cancel Action.reconcile h = absurd (cc)
same_action_sound Action.cancel Action.cancel h = refl
same_action_sound Action.cancel Action.cleanup h = absurd (cc)
same_action_sound Action.cleanup Action.create h = absurd (cc)
same_action_sound Action.cleanup Action.observe h = absurd (cc)
same_action_sound Action.cleanup Action.reconcile h = absurd (cc)
same_action_sound Action.cleanup Action.cancel h = absurd (cc)
same_action_sound Action.cleanup Action.cleanup h = refl
