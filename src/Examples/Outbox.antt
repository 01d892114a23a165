-- ===== src/Examples/Outbox.antt =====
-- A tenant database with two events, a publisher that fails once, and a delivery that comes twice.
use karmevo_erp.Integration.Outbox.{
  OutboxEvent, OutboxMessage, TenantDb, Publisher, message, is_key, enqueue, older, is_pending,
  claim_pending, dispatch, dispatch_all, written, run_once, consume_once,
}
use karmevo_erp.Integration.Outbox.Runs.{IsKeyed}
use karmevo_erp.Integration.Outbox.Attempts.{IsRun, run_once_lem}
use karmevo_erp.Integration.Outbox.Counts.{IsSound}
use karmevo_erp.Integration.Outbox.Steps.{
  State, Steps, enqueued, committed, lost, start, then_step, Steps-IsSound,
}
use karmevo_erp.Integration.Outbox.Inbox.{applied, applied_lem}
use karmevo_erp.Platform.Registry.{tenant_session}
use karmevo_erp.Prelude.{
  ℕ, String, List, [], ◌∷◌, ◌++◌, none, some, ◌≡◌, refl, any, count, contains, keep, find_first,
  sort_by, insert_by, arith, take_chars, string_dec, nat_key,
}
use native.Mathlib.Decide.{ℕ_discrete}

-- Opens all that a run of the relay goes through.
unfoldable outbox_program : Unit {0}
unfolding is_key enqueue older is_pending claim_pending dispatch dispatch_all written run_once
    consume_once any count contains keep find_first sort_by insert_by string_dec ℕ_discrete applied
outbox_program = tt

abbrev flaky : Publisher ℕ
flaky [] m = some "broker down"
flaky (_ ∷ _) m = none

abbrev empty_db : TenantDb ℕ
empty_db = record { owner = 7; outbox = []; processed = [] }

abbrev event : ℕ → ℕ → OutboxEvent ℕ
event id now = record {
  outbox_event_id = id;
  tenant_id = 7;
  event_topic = "inventory.moved";
  event_payload = id;
  occurred_at = now;
  dispatched_at = none;
  attempt_count = 0;
  last_error = none;
}

abbrev one_event : TenantDb ℕ
one_event = record empty_db { outbox = event 1 10 ∷ [] }

abbrev two_events : TenantDb ℕ
two_events = record empty_db { outbox = event 1 10 ∷ event 2 9 ∷ [] }

first_run : run_once flaky 20 [] 100 10 [] two_events ≡ (
  1,
  message (event 2 9) ∷ message (event 1 10) ∷ [],
  record two_events {
    outbox =
        record (event 1 10) { attempt_count = 1; dispatched_at = some 20 }
        ∷ record (event 2 9) { attempt_count = 1; last_error = some (take_chars 500 "broker down") }
        ∷ [];
  },
)
unfolding outbox_program
first_run = refl

two_events-IsKeyed : IsKeyed two_events.outbox
unfolding count
two_events-IsKeyed i = ground arith

run_once_example :
    IsRun flaky 20 [] 100 10 [] two_events
      (run_once flaky 20 [] 100 10 [] two_events).1
      (run_once flaky 20 [] 100 10 [] two_events).2
run_once_example = run_once_lem flaky 20 [] 100 10 [] two_events two_events-IsKeyed

abbrev handed : List (OutboxMessage ℕ)
handed = message (event 1 10) ∷ []

-- A run that is lost, one whose publishing fails and one that publishes the event.
abbrev final : State ℕ
final = (
  message (event 1 10) ∷ message (event 1 10) ∷ message (event 1 10) ∷ [],
  message (event 1 10) ∷ message (event 1 10) ∷ [],
  record empty_db {
    outbox =
        record (event 1 10) {
          attempt_count = 2;
          dispatched_at = some 50;
          last_error = some (take_chars 500 "broker down");
        }
        ∷ [];
  },
)

abbrev broken : Publisher ℕ
broken sent m = some "broker down"

history : Steps {P = ℕ} 10 ([], [], empty_db) final
unfolding outbox_program
history =
    then_step
      (then_step
        (then_step
          (then_step (start ([], [], empty_db)) (
            enqueued (tenant_session 7) 1 10 7 "inventory.moved" 1 [] [] empty_db one_event refl
              refl))
          (lost flaky 20 [] 100 [] [] handed one_event refl))
        (committed broken 30 [] 100 handed [] handed one_event refl))
      (committed flaky 50 [] 100 (handed ++ handed) handed handed
        (run_once broken 30 [] 100 10 handed one_event).2 refl)

Steps-IsSound_example : IsSound 10 final.0 final.1 final.2
Steps-IsSound_example = Steps-IsSound 10 empty_db final history refl

abbrev twice : List (String × OutboxMessage ℕ)
twice = ("stock", message (event 1 10)) ∷ ("stock", message (event 1 10)) ∷ []

applied_example : applied (tenant_session 7) 40 "stock" 1 twice empty_db ≡ 1
unfolding outbox_program
applied_example = applied_lem (tenant_session 7) 40 "stock" 1 twice empty_db
