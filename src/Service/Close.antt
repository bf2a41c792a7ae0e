-- ===== src/Service/Close.antt =====
-- source/service.c: closing a service, whatever the owner and the handler did before.
use workload.Prelude.{Bool, true, false, List, [], ◌∷◌, ◌≡◌, refl, sym, subst, ◌⊎◌, inl, inr, arith}
use workload.Service.{
  Ctrl, ctrl_error, ctrl_ack, ctrl_ready, ctrl_start, ctrl_stop, code, Thread, absent, created,
  handling, ended, Owner, opening, holding, closing, released, State, begin_thread, end_thread,
  ack_service, error_service, open_service, open_round, close_round, Act, begins, acks, errs, ends,
  opens, asks, closes, in_handler, begin_at, end_at, open_at, ask_at, close_at, act, schedule,
}

-- The owner, the thread, the command and the status that go together.
pub data Fits : Owner → Thread → Ctrl → Ctrl → Type 0 where
  launched : Fits opening created ctrl_start ctrl_ready
  unlaunched : Fits closing absent ctrl_start ctrl_ready
  unanswered : Fits opening handling ctrl_ack ctrl_ready
  serving : (o : Owner) (c : Ctrl) → Fits o handling c ctrl_start
  failing : (o : Owner) (c : Ctrl) → Fits o handling c ctrl_error
  stopped : (o : Owner) (c : Ctrl) → Fits o ended c ctrl_stop
  failed : (o : Owner) (c : Ctrl) → Fits o ended c ctrl_error
  gone : (t : Thread) (c st : Ctrl) → Fits released t c st

-- Whether the thread still is to take the lock of the service.
abbrev pub is_live : Thread → Bool
is_live absent = false
is_live created = true
is_live handling = true
is_live ended = false

abbrev pub state : Owner → Thread → Ctrl → Ctrl → State
state o t c st = record { owner = o; thread = t; service = record { command = c; status = st } }

abbrev pub IsFit : State → Type 0
IsFit s = Fits s.owner s.thread s.service.command s.service.status

begin-IsFit :
    (o : Owner) (t : Thread) (c st : Ctrl) → Fits o t c st → IsFit (begin_at t (state o t c st))
unfolding begin_at begin_thread
begin-IsFit _ _ _ _ launched = unanswered
begin-IsFit _ _ _ _ unlaunched = unlaunched
begin-IsFit _ _ _ _ unanswered = unanswered
begin-IsFit _ _ _ _ (serving o c) = serving o c
begin-IsFit _ _ _ _ (failing o c) = failing o c
begin-IsFit _ _ _ _ (stopped o c) = stopped o c
begin-IsFit _ _ _ _ (failed o c) = failed o c
begin-IsFit _ absent _ _ (gone _ c st) = gone absent c st
begin-IsFit _ created _ _ (gone _ c st) = gone handling ctrl_ack st
begin-IsFit _ handling _ _ (gone _ c st) = gone handling c st
begin-IsFit _ ended _ _ (gone _ c st) = gone ended c st

open-IsFit :
    (o : Owner) (t : Thread) (c st : Ctrl) → Fits o t c st → IsFit (open_at o (state o t c st))
unfolding open_at open_round code
open-IsFit _ _ _ _ launched = launched
open-IsFit _ _ _ _ unlaunched = unlaunched
open-IsFit _ _ _ _ unanswered = unanswered
open-IsFit opening _ _ _ (serving _ c) = serving _ c
open-IsFit opening _ _ _ (failing _ c) = failing _ c
open-IsFit opening _ _ _ (stopped _ c) = stopped _ c
open-IsFit opening _ _ _ (failed _ c) = failed _ c
open-IsFit holding _ _ _ p = p
open-IsFit closing _ _ _ p = p
open-IsFit released _ _ _ p = p

acks-IsFit :
    (o : Owner) (t : Thread) (c st : Ctrl)
    → Fits o t c st
    → IsFit (in_handler ack_service t (state o t c st))
unfolding in_handler ack_service
acks-IsFit _ _ _ _ launched = launched
acks-IsFit _ _ _ _ unlaunched = unlaunched
acks-IsFit _ _ _ _ unanswered = serving opening ctrl_ack
acks-IsFit _ _ _ _ (serving o c) = serving o c
acks-IsFit _ _ _ _ (failing o c) = serving o c
acks-IsFit _ _ _ _ (stopped o c) = stopped o c
acks-IsFit _ _ _ _ (failed o c) = failed o c
acks-IsFit _ absent _ _ (gone _ c st) = gone absent c st
acks-IsFit _ created _ _ (gone _ c st) = gone created c st
acks-IsFit _ handling _ _ (gone _ c st) = gone handling c ctrl_start
acks-IsFit _ ended _ _ (gone _ c st) = gone ended c st

errs-IsFit :
    (o : Owner) (t : Thread) (c st : Ctrl)
    → Fits o t c st
    → IsFit (in_handler error_service t (state o t c st))
unfolding in_handler error_service
errs-IsFit _ _ _ _ launched = launched
errs-IsFit _ _ _ _ unlaunched = unlaunched
errs-IsFit _ _ _ _ unanswered = failing opening ctrl_ack
errs-IsFit _ _ _ _ (serving o c) = failing o c
errs-IsFit _ _ _ _ (failing o c) = failing o c
errs-IsFit _ _ _ _ (stopped o c) = stopped o c
errs-IsFit _ _ _ _ (failed o c) = failed o c
errs-IsFit _ absent _ _ (gone _ c st) = gone absent c st
errs-IsFit _ created _ _ (gone _ c st) = gone created c st
errs-IsFit _ handling _ _ (gone _ c st) = gone handling c ctrl_error
errs-IsFit _ ended _ _ (gone _ c st) = gone ended c st

end-IsFit :
    (o : Owner) (t : Thread) (c st : Ctrl) → Fits o t c st → IsFit (end_at t (state o t c st))
unfolding end_at end_thread code
end-IsFit _ _ _ _ launched = launched
end-IsFit _ _ _ _ unlaunched = unlaunched
end-IsFit _ _ _ _ unanswered = stopped opening ctrl_ack
end-IsFit _ _ _ _ (serving o c) = stopped o c
end-IsFit _ _ _ _ (failing o c) = failed o c
end-IsFit _ _ _ _ (stopped o c) = stopped o c
end-IsFit _ _ _ _ (failed o c) = failed o c
end-IsFit _ absent _ _ (gone _ c st) = gone absent c st
end-IsFit _ created _ _ (gone _ c st) = gone created c st
end-IsFit _ handling _ _ (gone _ c st) = gone ended _ _
end-IsFit _ ended _ _ (gone _ c st) = gone ended c st

ask-IsFit :
    (o : Owner) (t : Thread) (c st : Ctrl) → Fits o t c st → IsFit (ask_at o (state o t c st))
unfolding ask_at
ask-IsFit holding _ _ _ (serving _ c) = serving closing c
ask-IsFit holding _ _ _ (failing _ c) = failing closing c
ask-IsFit holding _ _ _ (stopped _ c) = stopped closing c
ask-IsFit holding _ _ _ (failed _ c) = failed closing c
ask-IsFit opening _ _ _ p = p
ask-IsFit closing _ _ _ p = p
ask-IsFit released _ _ _ p = p

close-IsFit :
    (is_expired : Bool) (o : Owner) (t : Thread) (c st : Ctrl)
    → Fits o t c st
    → IsFit (close_at is_expired o (state o t c st))
unfolding close_at close_round code
close-IsFit is_expired closing _ _ _ unlaunched = gone absent ctrl_start ctrl_ready
close-IsFit is_expired closing _ _ _ (serving _ c) = serving _ ctrl_stop
close-IsFit is_expired closing _ _ _ (failing _ c) = gone handling c ctrl_error
close-IsFit is_expired closing _ _ _ (stopped _ c) = gone ended c ctrl_stop
close-IsFit is_expired closing _ _ _ (failed _ c) = gone ended c ctrl_error
close-IsFit is_expired opening _ _ _ p = p
close-IsFit is_expired holding _ _ _ p = p
close-IsFit is_expired released _ _ _ p = p

act-IsFit : (a : Act) (s : State) → IsFit s → IsFit (act a s)
unfolding act
act-IsFit begins s p = begin-IsFit _ _ _ _ p
act-IsFit acks s p = acks-IsFit _ _ _ _ p
act-IsFit errs s p = errs-IsFit _ _ _ _ p
act-IsFit ends s p = end-IsFit _ _ _ _ p
act-IsFit opens s p = open-IsFit _ _ _ _ p
act-IsFit asks s p = ask-IsFit _ _ _ _ p
act-IsFit (closes is_expired) s p = close-IsFit is_expired _ _ _ _ p

schedule-IsFit : (acts : List Act) (s : State) → IsFit s → IsFit (schedule acts s)
unfolding schedule
schedule-IsFit [] s p = p
schedule-IsFit (a ∷ acts) s p = schedule-IsFit acts (act a s) (act-IsFit a s p)

open_service-IsFit : (is_created : Bool) → IsFit (open_service is_created)
unfolding open_service
open_service-IsFit false = unlaunched
open_service-IsFit true = launched

frees :
    (is_expired : Bool) (t : Thread) (c st : Ctrl)
    → Fits closing t c st
    → (act (closes is_expired) (state closing t c st)).owner ≡ released
    → is_live t ≡ false ⊎ st ≡ ctrl_error
unfolding act close_at close_round code
frees is_expired _ _ _ unlaunched free = inl refl
frees is_expired _ _ _ (serving _ c) free = ground arith
frees is_expired _ _ _ (failing _ c) free = inr refl
frees is_expired _ _ _ (stopped _ c) free = inl refl
frees is_expired _ _ _ (failed _ c) free = inl refl

ends-frees :
    (is_expired : Bool) (t : Thread) (c st : Ctrl)
    → Fits closing t c st
    → (schedule (ends ∷ closes is_expired ∷ []) (state closing t c st)).owner ≡ released
unfolding schedule act end_at end_thread close_at close_round code
ends-frees is_expired _ _ _ unlaunched = refl
ends-frees is_expired _ _ _ (serving _ c) = refl
ends-frees is_expired _ _ _ (failing _ c) = refl
ends-frees is_expired _ _ _ (stopped _ c) = refl
ends-frees is_expired _ _ _ (failed _ c) = refl

-- The state after a schedule of acts, from the opening on.
abbrev pub after : List Act → (is_created : Bool) → State
after acts is_created = schedule acts (open_service is_created)

pub closing-IsFit :
    (acts : List Act) (is_created : Bool)
    → (after acts is_created).owner ≡ closing
    → IsFit (record (after acts is_created) { owner = closing })
closing-IsFit acts is_created at =
    subst (λ (o : Owner). IsFit (record (after acts is_created) { owner = o })) at
      (schedule-IsFit acts (open_service is_created) (open_service-IsFit is_created))

-- Whatever the owner and the handler have done since the service was opened, in any order, and whether
-- or not its thread could be created: if a round of the closing loop frees the service, then the thread
-- will not take the lock of the service again, or the handler has reported an error.
pub closes-frees :
    (acts : List Act) (is_created is_expired : Bool)
    → (after acts is_created).owner ≡ closing
    → (act (closes is_expired) (after acts is_created)).owner ≡ released
    → is_live (after acts is_created).thread ≡ false
      ⊎ (after acts is_created).service.status ≡ ctrl_error
closes-frees acts is_created is_expired at free =
    frees is_expired _ _ _ (closing-IsFit acts is_created at) (
      subst
        (λ (o : Owner).
          (act (closes is_expired) (record (after acts is_created) { owner = o })).owner ≡ released)
        at free)

-- Whatever the owner and the handler have done since the service was opened, in any order: if the owner
-- is closing it, then as soon as the handler returns the next round of the loop frees the service.
pub schedule-ends :
    (acts : List Act) (is_created is_expired : Bool)
    → (after acts is_created).owner ≡ closing
    → (schedule (ends ∷ closes is_expired ∷ []) (after acts is_created)).owner ≡ released
schedule-ends acts is_created is_expired at =
    subst
      (λ (o : Owner).
        (schedule (ends ∷ closes is_expired ∷ [])
          (record (after acts is_created) { owner = o })).owner
        ≡ released)
      (sym at) (ends-frees is_expired _ _ _ (closing-IsFit acts is_created at))
