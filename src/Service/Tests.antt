-- ===== src/Service/Tests.antt =====
-- The theorems on the services, for one that is closed while it runs, and one whose handler has
-- returned.
use workload.Prelude.{true, false, some, List, [], ◌∷◌, ◌≡◌, refl, ◌⊎◌}
use workload.Prelude.Int.{pos}
use workload.Service.{
  ctrl_error, ctrl_start, closing, released, break_service, Act, begins, acks, ends, opens, asks,
  closes, act, schedule, open_service, code, begin_at, begin_thread, end_at, end_thread, in_handler,
  ack_service, open_at, open_round, ask_at, close_at, close_round,
}
use workload.Service.Close.{is_live, after, closes-frees, schedule-ends}
use workload.Service.Ask.{break_service-closes}

-- The thread begins and acknowledges, the owner gets the handle and asks for the end.
abbrev served : List Act
served = opens ∷ begins ∷ opens ∷ acks ∷ opens ∷ asks ∷ []

abbrev returned : List Act
returned = opens ∷ begins ∷ acks ∷ opens ∷ ends ∷ asks ∷ []

served-closing : (after served true).owner ≡ closing
unfolding schedule open_service act begin_at begin_thread end_at end_thread in_handler ack_service
    open_at open_round ask_at close_at close_round code
served-closing = refl

served-ctrl_start : (after served true).service.status ≡ ctrl_start
unfolding schedule open_service act begin_at begin_thread end_at end_thread in_handler ack_service
    open_at open_round ask_at close_at close_round code
served-ctrl_start = refl

returned-closing : (after returned true).owner ≡ closing
unfolding schedule open_service act begin_at begin_thread end_at end_thread in_handler ack_service
    open_at open_round ask_at close_at close_round code
returned-closing = refl

returned-released : (act (closes false) (after returned true)).owner ≡ released
unfolding schedule open_service act begin_at begin_thread end_at end_thread in_handler ack_service
    open_at open_round ask_at close_at close_round code
returned-released = refl

closes-frees_example :
    is_live (after returned true).thread ≡ false ⊎ (after returned true).service.status ≡ ctrl_error
closes-frees_example = closes-frees returned true false returned-closing returned-released

schedule-ends_example : (schedule (ends ∷ closes false ∷ []) (after served true)).owner ≡ released
schedule-ends_example = schedule-ends served true false served-closing

break_service-closes_example :
    break_service
      (some (schedule (closes true ∷ asks ∷ []) (act (closes false) (after served true))).service)
    ≡ pos 1
break_service-closes_example =
    break_service-closes served (closes true ∷ asks ∷ []) true false served-closing
      served-ctrl_start
