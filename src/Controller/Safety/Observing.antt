-- ===== src/Controller/Safety/Observing.antt =====
-- Observation and cancellation claim nothing: they keep a record that is held.
use scribe_drop.Common.{ℕ, refl, String, Bool, List, [], ◌∷◌, Option, none, some}
use scribe_drop.Controller.Provider.{Mutation, ErrorKind, ProviderExecution, ExecutionList}
use scribe_drop.Controller.Record.{ControlRecord}
use scribe_drop.Controller.Program.{Call, Program, done, ask, try_update, update}
use scribe_drop.Controller.Service.Executions.{
  belongs, handle_execution_list, observe_execution, record_run_mutation, cancel_all,
  unknown_outcome,
}
use scribe_drop.Controller.Service.Cancel.{
  is_settled, cancelling, cancel_outcome, send_cancel, cancel_observed, cancel_record,
}
use scribe_drop.Controller.Safety.History.{Kind, History}
use scribe_drop.Controller.Safety.Logic.{Safe, Safe-bind, Safe-if}
use scribe_drop.Controller.Safety.Updates.{
  Held, Kept, Tried, Held-Extends, try_update-Safe, update-Safe,
}

module _ (h : String) (mine : Bool) where
  cancel_all-Safe :
      (es : List ProviderExecution) (x : ControlRecord) (next : Program ControlRecord) (H : History)
      (c r : ℕ)
      → Held h mine H x
      → ((H' : History) (c' r' : ℕ) → Held h mine H' x → Safe h mine (Kept h mine) H' c' r' next)
      → Safe h mine (Kept h mine) H c r (cancel_all es next)
  unfolding cancel_all
  cancel_all-Safe [] x next H c r held s = s H c r held
  cancel_all-Safe (e ∷ es) x next H c r held s = (
    tt,
    λ a H' c' r' ext eff.
        cancel_all-Safe es x next H' c' r' (Held-Extends h mine H H' x ext held) s,
  )

  pub handle_execution_list-Safe :
      (es : List ProviderExecution) (x : ControlRecord) (H : History) (c r : ℕ)
      → Held h mine H x
      → Safe h mine (Kept h mine) H c r (handle_execution_list x es)
  unfolding handle_execution_list
  handle_execution_list-Safe [] x H c r held = update-Safe h mine x _ H c r held refl refl
  handle_execution_list-Safe (e ∷ []) x H c r held =
      Safe-if h mine (Kept h mine) H c r (belongs e x.job) _ _
        (λ ours. update-Safe h mine x _ H c r held refl refl)
        (λ foreign. (
          tt,
          λ a H' c' r' ext eff.
              update-Safe h mine x _ H' c' r' (Held-Extends h mine H H' x ext held) refl refl,
        ))
  handle_execution_list-Safe (e ∷ e' ∷ es) x H c r held =
      cancel_all-Safe (e ∷ e' ∷ es) x _ H c r held
        (λ H' c' r' held'. update-Safe h mine x _ H' c' r' held' refl refl)

  pub observe_execution-Safe :
      (x : ControlRecord) (H : History) (c r : ℕ)
      → Held h mine H x
      → Safe h mine (Kept h mine) H c r (observe_execution x)
  unfolding observe_execution
  observe_execution-Safe x H c r held =
      (tt, λ a H' c' r' ext eff. listed a H' c' r' (Held-Extends h mine H H' x ext held))
    where
      listed :
          (a : ExecutionList) (H' : History) (c' r' : ℕ)
          → Held h mine H' x
          → Safe h mine (Kept h mine) H' c' r' (elim a [
            | ExecutionList.unavailable ↦ update x unknown_outcome
            | ExecutionList.found executions ↦ handle_execution_list x executions
          ])
      listed ExecutionList.unavailable H' c' r' k = update-Safe h mine x _ H' c' r' k refl refl
      listed (ExecutionList.found es) H' c' r' k = handle_execution_list-Safe es x H' c' r' k

  pub record_run_mutation-Safe :
      (m : Mutation) (x : ControlRecord) (H : History) (c r : ℕ)
      → Held h mine H x
      → Safe h mine (Kept h mine) H c r (record_run_mutation x m)
  unfolding record_run_mutation
  record_run_mutation-Safe Mutation.conflict x H c r held =
      update-Safe h mine x _ H c r held refl refl
  record_run_mutation-Safe _ x H c r held = update-Safe h mine x _ H c r held refl refl

  outcome-Safe :
      (m : Mutation) (x : ControlRecord) (H : History) (c r : ℕ)
      → Held h mine H x
      → Safe h mine (Kept h mine) H c r (update x (cancel_outcome m))
  unfolding cancel_outcome
  outcome-Safe (Mutation.rejected ErrorKind.permanent) x H c r held =
      update-Safe h mine x _ H c r held refl refl
  outcome-Safe (Mutation.rejected ErrorKind.retryable) x H c r held =
      update-Safe h mine x _ H c r held refl refl
  outcome-Safe _ x H c r held = update-Safe h mine x _ H c r held refl refl

  cancelled-Safe :
      (x : ControlRecord) (H : History) (c r : ℕ)
      → Held h mine H x
      → Safe h mine (Kept h mine) H c r (send_cancel x)
  unfolding send_cancel
  cancelled-Safe x H c r held = go x.execution
    where
      go :
          (e : Option ProviderExecution)
          → Safe h mine (Kept h mine) H c r (elim e [
            | none ↦ done x
            | some execution ↦
                ask (Call.cancel_execution execution) λ result. update x (cancel_outcome result)
          ])
      go none = held
      go (some e) = (
        tt,
        λ a H' c' r' ext eff. outcome-Safe a x H' c' r' (Held-Extends h mine H H' x ext held),
      )

  cancel_observed-Safe :
      (x : ControlRecord) (H : History) (c r : ℕ)
      → Held h mine H x
      → Safe h mine (Kept h mine) H c r (cancel_observed x)
  unfolding cancel_observed
  cancel_observed-Safe x H c r held =
      Safe-if h mine (Kept h mine) H c r _ _ _
        (λ _. update-Safe h mine x cancelling H c r held refl refl)
        (λ _.
          Safe-if h mine (Kept h mine) H c r (is_settled x.state) (done x) _ (λ _. held)
            (λ _.
              Safe-bind h mine (Tried h mine Kind.plain x cancelling) (Kept h mine) H c r
                (try_update x cancelling) _
                (try_update-Safe h mine Kind.plain x cancelling H c r held (λ now. (refl, refl)))
                (λ result H' c' r' ext post.
                  Safe-if h mine (Kept h mine) H' c' r' result.0 (send_cancel result.1)
                    (done result.1) (λ _. cancelled-Safe result.1 H' c' r' post.0) (λ _. post.0))))

  pub cancel_record-Safe :
      (x : ControlRecord) (H : History) (c r : ℕ)
      → Held h mine H x
      → Safe h mine (Kept h mine) H c r (cancel_record x)
  unfolding cancel_record
  cancel_record-Safe x H c r held =
      Safe-bind h mine (Kept h mine) (Kept h mine) H c r _ cancel_observed
        (Safe-if h mine (Kept h mine) H c r _ (observe_execution x) (done x)
          (λ _. observe_execution-Safe x H c r held) (λ _. held))
        (λ y H' c' r' ext held'. cancel_observed-Safe y H' c' r' held')
