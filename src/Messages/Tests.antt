-- ===== src/Messages/Tests.antt =====
-- Runs of the message handler (cmd/service/message_handler.go), and its theorems at concrete inputs.
use order_flow.Prelude.{
  ℕ, suc, ◌+◌, ◌≤◌, ◌≡◌, ◌⊎◌, inl, refl, Option, none, some, [], ◌∷◌, pos, ltb, if◌then◌else◌, Time,
  arith,
}
use order_flow.Samples.{sample_order}
use order_flow.Errors.{GoError, str, plain, annotated}
use order_flow.Cache.{new_order_cache, set, get}
use order_flow.OrderValidator.{judge, validate}
use order_flow.Retry.{exhausted, execute_with_retry, retry_loop}
use order_flow.Retry.Attempts.{AllFail, world_after, error_at}
use order_flow.Messages.{App, process_message, handle_message}
use order_flow.Messages.Handled.{
  given_up, handle_message-cases, handle_message-rejected, handle_message-get, stored_at,
}
use order_flow.Repository.Redelivery.{with_order}
use order_flow.Repository.Samples.{empty}
use order_flow.Messages.Stored.{handle_message-stored}
use order_flow.Messages.Samples.{
  stored_server, stored_commits, stored_laws, connected, StoredWorld, stored_services, stored_app,
  World, services, whole, cfg, queue, app_with,
}

abbrev op : App World → Option GoError × App World
op = process_message services (1 ∷ [])

handle_message-cases_example :
    ((k : ℕ) × (k ≤ 2)
      × AllFail op k (app_with 1)
      × (error_at op k (app_with 1) ≡ none)
      × (handle_message services whole cfg queue (1 ∷ []) (app_with 1)
          ≡ (none, world_after op (suc k) (app_with 1))))
    ⊎ ((e : GoError) × AllFail op 2 (app_with 1)
        × (error_at op 2 (app_with 1) ≡ some e)
        × (handle_message services whole cfg queue (1 ∷ []) (app_with 1) ≡ (
          some (exhausted (pos 3) e),
          given_up services queue (1 ∷ []) (exhausted (pos 3) e) (world_after op 3 (app_with 1)),
        )))
handle_message-cases_example =
    handle_message-cases services whole cfg queue (1 ∷ []) 2 (app_with 1) refl

abbrev not_json : GoError
not_json = annotated (str "failed to parse JSON: " ∷ []) (plain (str "no JSON" ∷ []))

handle_message-rejected_example : handle_message services whole cfg queue (0 ∷ []) (app_with 0) ≡ (
  some (exhausted (pos 3) not_json),
  given_up services queue (0 ∷ []) (exhausted (pos 3) not_json) (app_with 0),
)
handle_message-rejected_example =
    handle_message-rejected services whole cfg queue (0 ∷ []) 2 (app_with 0) not_json refl
      (inl (plain (str "no JSON" ∷ []), refl, refl))

handle_message-get_example :
    (k : ℕ) × (k ≤ 2)
    × AllFail (process_message services (1 ∷ [])) k (app_with 1)
    × (error_at (process_message services (1 ∷ [])) k (app_with 1) ≡ none)
    × ((later : Time)
        → (get later "order-a"
            (handle_message services whole cfg queue (1 ∷ []) (app_with 1)).1.cache).1
          ≡ (if ltb
                (stored_at services (1 ∷ []) (sample_order "order-a") k (app_with 1) + 100)
                later
              then none
              else some (sample_order "order-a")))
unfolding handle_message process_message execute_with_retry retry_loop set new_order_cache validate
    judge
handle_message-get_example =
    handle_message-get services whole cfg queue (1 ∷ []) 2 100 (app_with 1) (sample_order "order-a")
      refl refl refl refl (omega arith) refl

abbrev stored : Option GoError × App StoredWorld
stored = handle_message stored_services whole cfg queue (1 ∷ []) stored_app

handle_message-stored_example :
    (stored.0 ≡ none → stored.1.world.tables ≡ with_order (sample_order "order-a") empty)
    × ((e : GoError) → stored.0 ≡ some e → stored.1.world.tables ≡ empty)
handle_message-stored_example =
    handle_message-stored stored_services stored_server connected stored_commits (λ t. t)
      stored_laws (λ w. refl) (λ w st view. refl) whole cfg queue (1 ∷ []) 2 stored_app
      (sample_order "order-a") refl refl
