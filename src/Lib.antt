-- ===== src/Lib.antt =====
-- A model of ScribeDrop, a private web application that transcribes recordings on GPUs that are
-- started on demand.
--
-- A recording becomes a job, and each try of it an attempt; their life cycles, the identifiers, the
-- public errors and the deletion times are the rules of packages/domain/src. An attempt runs as one
-- execution of a Cloud Run job. The orchestrator never starts one itself: it asks the GPU controller,
-- apps/gpu-controller/src, which admits it within a budget of money and executions, and then creates,
-- runs, observes, cancels and removes the job. Every request carries a handle; the store keeps one
-- control record per handle, and a request changes it by optimistic locking on its version.
--
-- Common has what the parts share: Boolean tests, lists measured by native numbers, JavaScript's
-- numbers as far as they are read (`natural n` and any `other`) with the rounding of a sum to a
-- double, `Map`s with text keys as lists of entries, and texts as lists of character codes.
--
-- Domain models packages/domain/src: Domain/State is state.ts, Domain/GpuExecution gpu-execution.ts,
-- Domain/Retention retention.ts, Domain/Ulid ulid.ts and Domain/Errors errors.ts. Texts of identifiers
-- are lists of character codes, and a thrown error is a constructor of the module's `Result`.
--
-- Controller models apps/gpu-controller/src:
--   Contracts   the request and the response of packages/contracts/src/cloud-run-controller.ts
--   Provider    provider.ts: manifests, job identifiers, and what the provider answers
--   Record      the control record and the changes that are made to it
--   Store       control-store.ts: admission, claims of requests, replacement by version
--   Program     what a method does: it calls the clock, the store or the provider and goes on with the
--               answer; `#tryUpdate` and `#update`
--   Service     controller-service.ts, one file for each group of methods
--   System      any number of requests, reapers and attestations in progress over one store; a step
--               answers one call of one of them, so steps interleave in every order, the provider
--               answers anything, and a log keeps the calls
--   Schedule    systems run by a list of turns and replies
-- Safety is the proof that the log stays within what the records allow: a history of the versions
-- under one handle, what a program may still do, and the same of every method. Stored carries what the
-- store's operations keep along every run; Budget and Persistence use it.
--
-- Controller/Firestore models firestore-control-store.ts, the store that keeps the same records as
-- documents: Documents has the schemas, Database the collections and what a transaction reads and
-- writes, Admit, Claim, Replace and Read the operations of `FirestoreControlStore`. A transaction is
-- one function from the database to the database and an answer, since Firestore runs transactions as
-- if one after the other; a `throw` leaves the database as it was. Consistent says what the documents
-- agree on and which store in memory they stand for; Admission, Claiming, Replacing and Reading relate
-- each operation to that store's, and Reachable follows any sequence of them. The time to live by
-- which Firestore may drop documents is not modelled: documents past it stay.
--
-- A time is its text (Controller/Record): the one that `toISOString` writes, another one that
-- `Date.parse` reads, or one that it does not read; instants before 1970 and years of more than four
-- digits are left out. An amount of money is a natural number, without the rounding of doubles above
-- 2 ^ 53.
--
-- Runtime models the store behind the sessions of the workers, which the orchestrator keeps in
-- apps/orchestrator/src/cloud-run-runtime-store.ts: a started worker presents itself by a bootstrap,
-- claims a session with its challenge, and reports by an acknowledgement, heartbeats and a terminal
-- event. Runtime/Record has the records, Runtime/Store the operations, Runtime/Sessions any sequence of
-- operations with the events that were accepted. Runtime/Guards, Runtime/Framing and Runtime/Service
-- are apps/orchestrator/src/cloud-run-runtime-service.ts: its guards, the bytes of a challenge that is
-- signed, and each method as a program that calls the store, the digests, Google, the controller and
-- the signer of capabilities. Runtime/System runs any number of methods over one store, one call at a
-- time and in every order.
--
-- Web/Upload models apps/web/src/client/multipart-uploader.ts, by which the browser uploads a
-- recording: the sizes of the parts, and up to eight workers that take parts from a shared counter
-- until none is left, an upload fails or the user aborts. JavaScript switches between them only where
-- one awaits an upload, which is where the steps of the model stop.
--
-- `#sendCreate` and `#reconcileJob` call each other; `send_create` takes fuel, 2, for a job is sent at
-- most twice. A field that a change leaves out is `none`. Loops over lists are structural recursion.
--
-- SHA-256, the HMAC and the test of an Ed25519 signature, the UTF-8 encoder, the schema of the
-- configuration, the test whether a text is a UUID and the source of random bytes are arguments,
-- because they are the platform's or a library's. Not modelled: the controller's transport (HTTP,
-- signed requests, the clients of Google's services, the adapter to the client of Firestore), the
-- orchestrator's other services and its SQL, the rest of the web application with its own upload
-- transport, the worker in Python, deployment checks and scripts.
pub mod Common
pub mod Domain
pub mod Controller
pub mod Runtime
pub mod Web
