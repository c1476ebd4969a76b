-- ===== src/Controller/Provider.antt =====
-- apps/gpu-controller/src/provider.ts: the Cloud Run job of an execution, and what the provider answers.
-- A manifest keeps the fields that can differ between two values of its type: what the type fixes to a
-- literal (one task, the command, the limits, the volumes) is the same in all.
use Prim.Native.String.{◌++◌ as ◌<>◌}
use scribe_drop.Common.{
  ℕ, ◌/◌, ◌%◌, String, Bool, true, false, ◌&&◌, List, [], ◌∷◌, Option, none, some, ◌is◌, get_elem?,
  take,
}
use scribe_drop.Controller.Contracts.{Environment, same_environment}

abbrev pub policy_id : String
policy_id = "cloud_run_jobs_l4_v1"

pub record PolicyConfiguration : Type 0 where
  pub environment : Environment
  pub project_id : String
  pub image_digest : String
  pub runtime_service_account : String
  pub orchestrator_origin : String
  pub result_host : String
  pub source_host : String

pub record JobManifest : Type 0 where
  pub labels : List (String × String)
  pub image : String
  pub app_env : Environment
  pub bootstrap_request_id : String
  pub execution_handle : String
  pub origin : String
  pub identity_audience : String
  pub source_host_value : String
  pub result_host_value : String
  pub service_account : String

unfoldable pub environment_text : Environment → String
environment_text Environment.staging = "staging"
environment_text Environment.production = "production"

-- The configuration as the schema has parsed it.
unfoldable pub manifest_of : PolicyConfiguration → String → String → JobManifest
unfolding environment_text
manifest_of parsed handle bootstrap_request = record {
  labels =
      ("scribe-drop-environment", environment_text parsed.environment)
      ∷ ("scribe-drop-policy", "cloud-run-jobs-l4-v1")
      ∷ [];
  image = parsed.image_digest;
  app_env = parsed.environment;
  bootstrap_request_id = bootstrap_request;
  execution_handle = handle;
  origin = parsed.orchestrator_origin;
  identity_audience = parsed.orchestrator_origin <> "internal/cloud-run/bootstrap";
  source_host_value = parsed.source_host;
  result_host_value = parsed.result_host;
  service_account = parsed.runtime_service_account;
}

unfoldable pub parsed_manifest : Option PolicyConfiguration → String → String → Option JobManifest
unfolding manifest_of
parsed_manifest none handle bootstrap_request = none
parsed_manifest (some parsed) handle bootstrap_request =
    some (manifest_of parsed handle bootstrap_request)

-- `parse` is the schema's, of the validation library; where it throws there is no manifest.
unfoldable pub create_fixed_job_manifest :
    (PolicyConfiguration → Option PolicyConfiguration)
    → PolicyConfiguration
    → String
    → String
    → Option JobManifest
unfolding parsed_manifest
create_fixed_job_manifest parse configuration handle bootstrap_request =
    parsed_manifest (parse configuration) handle bootstrap_request

pub data ErrorKind : Type 0 where
  permanent retryable : ErrorKind

pub data Mutation : Type 0 where
  accepted : String → Mutation
  conflict : Mutation
  rejected : ErrorKind → Mutation
  unknown : Mutation

pub record ProviderJob : Type 0 where
  pub ref : String
  pub uid : String
  pub etag : String
  pub ready : Bool
  pub manifest : JobManifest

pub data JobRead : Type 0 where
  found : ProviderJob → JobRead
  not_found unavailable : JobRead

pub data ExecutionStatus : Type 0 where
  cancelled failed pending running succeeded : ExecutionStatus

pub record ProviderExecution : Type 0 where
  pub ref : String
  pub uid : String
  pub etag : String
  pub job_ref : String
  pub status : ExecutionStatus

pub data ExecutionList : Type 0 where
  found : List ProviderExecution → ExecutionList
  unavailable : ExecutionList

pub data OperationRead : Type 0 where
  pending succeeded unavailable : OperationRead
  failed : ErrorKind → OperationRead

-- Of two objects of entries in key order, the canonical texts agree if the entries do.
unfoldable pub same_labels : List (String × String) → List (String × String) → Bool
same_labels [] [] = true
same_labels ((j, v) ∷ l) ((k, w) ∷ m) = j is k && (v is w && same_labels l m)
same_labels _ _ = false

-- Equality of the canonical JSON texts, which write an object's entries in the order of their keys.
unfoldable pub manifests_match : JobManifest → JobManifest → Bool
unfolding same_labels
manifests_match a b =
    same_labels a.labels b.labels
    && (a.image is b.image
        && (same_environment a.app_env b.app_env
            && (a.bootstrap_request_id is b.bootstrap_request_id
                && (a.execution_handle is b.execution_handle
                    && (a.origin is b.origin
                        && (a.identity_audience is b.identity_audience
                            && (a.source_host_value is b.source_host_value
                                && (a.result_host_value is b.result_host_value
                                    && a.service_account is b.service_account))))))))

unfoldable pub hex_digits : List String
hex_digits =
    "0" ∷ "1" ∷ "2" ∷ "3" ∷ "4" ∷ "5" ∷ "6" ∷ "7" ∷ "8" ∷ "9" ∷ "a" ∷ "b" ∷ "c" ∷ "d" ∷ "e" ∷ "f"
    ∷ []

unfoldable pub hex_digit : ℕ → String
unfolding hex_digits
hex_digit n = elim (get_elem? hex_digits n) [ none ↦ "" | some d ↦ d ]

-- `byte.toString(16).padStart(2, "0")`, joined.
unfoldable pub hex_text : List ℕ → String
unfolding hex_digit
hex_text [] = ""
hex_text (b ∷ bytes) = hex_digit (b / 16) <> (hex_digit (b % 16) <> hex_text bytes)

abbrev environment_code : Environment → String
environment_code Environment.staging = "stg"
environment_code Environment.production = "prd"

-- `digest` is the platform's SHA-256 of a text in UTF-8.
unfoldable pub derive_job_id : (String → List ℕ) → Environment → String → String
unfolding environment_text hex_text
derive_job_id digest environment handle =
    let bytes = digest (environment_text environment <> (":" <> (policy_id <> (":" <> handle)))) in
    "sd-" <> (environment_code environment <> ("-" <> hex_text (take 15 bytes)))
