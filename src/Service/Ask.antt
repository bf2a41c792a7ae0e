-- ===== src/Service/Ask.antt =====
-- source/service.c: what the handler learns of a closing.
use workload.Prelude.{Bool, some, List, [], ◌∷◌, ◌≡◌, refl, sym, subst, arith}
use workload.Prelude.Int.{pos}
use workload.Service.{
  Ctrl, ctrl_start, ctrl_stop, code, Thread, handling, ended, Owner, opening, holding, closing,
  released, State, begin_thread, end_thread, break_service, ack_service, error_service, open_round,
  close_round, Act, begins, acks, errs, ends, opens, asks, closes, in_handler, begin_at, end_at,
  open_at, ask_at, close_at, act, schedule,
}
use workload.Service.Close.{
  Fits, unlaunched, serving, failing, stopped, failed, state, after, closing-IsFit,
}

-- The thread has begun, and the command is to stop.
data Asked : Thread → Ctrl → Type 0 where
  asked_handling : Asked handling ctrl_stop
  asked_ended : Asked ended ctrl_stop

abbrev IsAsked : State → Type 0
IsAsked s = Asked s.thread s.service.command

close_round-command :
    (is_expired : Bool) (st : Ctrl)
    → (close_round is_expired (record { command = ctrl_stop; status = st })).1.command ≡ ctrl_stop
unfolding close_round
close_round-command is_expired st = ground arith

end_thread-command :
    (st : Ctrl) → (end_thread (record { command = ctrl_stop; status = st })).command ≡ ctrl_stop
unfolding end_thread
end_thread-command st = ground arith

close_at-IsAsked :
    (is_expired : Bool) (o : Owner) (t : Thread) (st : Ctrl)
    → Asked t ctrl_stop
    → IsAsked (close_at is_expired o (state o t ctrl_stop st))
unfolding close_at close_round
close_at-IsAsked is_expired closing t st p =
    subst (Asked t) (sym (close_round-command is_expired st)) p
close_at-IsAsked is_expired opening t st p = p
close_at-IsAsked is_expired holding t st p = p
close_at-IsAsked is_expired released t st p = p

act-IsAsked :
    (a : Act) (o : Owner) (t : Thread) (c st : Ctrl) → Asked t c → IsAsked (act a (state o t c st))
unfolding act begin_at begin_thread in_handler ack_service error_service end_at end_thread open_at
    open_round ask_at
act-IsAsked begins o _ _ st asked_handling = asked_handling
act-IsAsked begins o _ _ st asked_ended = asked_ended
act-IsAsked acks o _ _ st asked_handling = asked_handling
act-IsAsked acks o _ _ st asked_ended = asked_ended
act-IsAsked errs o _ _ st asked_handling = asked_handling
act-IsAsked errs o _ _ st asked_ended = asked_ended
act-IsAsked ends o _ _ st asked_handling =
    subst (Asked ended) (sym (end_thread-command st)) asked_ended
act-IsAsked ends o _ _ st asked_ended = asked_ended
act-IsAsked opens opening t c st p = p
act-IsAsked opens holding t c st p = p
act-IsAsked opens closing t c st p = p
act-IsAsked opens released t c st p = p
act-IsAsked asks opening t c st p = p
act-IsAsked asks holding t c st p = p
act-IsAsked asks closing t c st p = p
act-IsAsked asks released t c st p = p
act-IsAsked (closes is_expired) o _ _ st asked_handling =
    close_at-IsAsked is_expired o handling st asked_handling
act-IsAsked (closes is_expired) o _ _ st asked_ended =
    close_at-IsAsked is_expired o ended st asked_ended

schedule-IsAsked : (acts : List Act) (s : State) → IsAsked s → IsAsked (schedule acts s)
unfolding schedule
schedule-IsAsked [] s p = p
schedule-IsAsked (a ∷ acts) s p = schedule-IsAsked acts (act a s) (act-IsAsked a _ _ _ _ p)

Asked-break :
    (t : Thread) (c st : Ctrl)
    → Asked t c
    → break_service (some (record { command = c; status = st })) ≡ pos 1
unfolding break_service code
Asked-break _ _ st asked_handling = refl
Asked-break _ _ st asked_ended = refl

close-IsAsked :
    (is_expired : Bool) (t : Thread) (c st : Ctrl)
    → Fits closing t c st
    → st ≡ ctrl_start
    → IsAsked (act (closes is_expired) (state closing t c st))
unfolding act close_at close_round code
close-IsAsked is_expired _ _ _ unlaunched running = ground arith
close-IsAsked is_expired _ _ _ (serving _ c) running = asked_handling
close-IsAsked is_expired _ _ _ (failing _ c) running = ground arith
close-IsAsked is_expired _ _ _ (stopped _ c) running = ground arith
close-IsAsked is_expired _ _ _ (failed _ c) running = ground arith

-- Whatever the owner and the handler have done since the service was opened, in any order: after a round
-- of the closing loop that finds the service started, workload_break_service answers 1, whatever they do
-- later, in any order, also after a closing that timed out.
pub break_service-closes :
    (acts later : List Act) (is_created is_expired : Bool)
    → (after acts is_created).owner ≡ closing
    → (after acts is_created).service.status ≡ ctrl_start
    → break_service
        (some (schedule later (act (closes is_expired) (after acts is_created))).service)
      ≡ pos 1
break_service-closes acts later is_created is_expired at running =
    let asked =
      subst
        (λ (o : Owner).
          IsAsked (act (closes is_expired) (record (after acts is_created) { owner = o })))
        (sym at) (close-IsAsked is_expired _ _ _ (closing-IsFit acts is_created at) running) in
    Asked-break _ _ _
      (schedule-IsAsked later (act (closes is_expired) (after acts is_created)) asked)
