-- ===== src/Service.antt =====
-- source/service.c: the handshake between the owner of a service and its thread. They share the two
-- words `m_command` and `m_status` under `m_lock`, so what one of them does under the lock is one act,
-- and a schedule is a list of acts. An act of someone who is not at that point does nothing. The loops
-- of the owner take one act for each round. The name, the argument and the stack size are left out,
-- and the handler is whatever it calls.

pub mod Close
pub mod Ask
mod Tests
use workload.Prelude.{ℕ, Bool, true, false, ◌==◌, if◌then◌else◌, Option, none, some, List, [], ◌∷◌}
use workload.Prelude.Int.{ℤ, pos, negsuc}

-- `def_workload_service_ctrl_none` and its successors
pub data Ctrl : Type 0 where
  ctrl_none : Ctrl
  ctrl_error : Ctrl
  ctrl_ack : Ctrl
  ctrl_nack : Ctrl
  ctrl_ready : Ctrl
  ctrl_start : Ctrl
  ctrl_stop : Ctrl

code : Ctrl → ℕ
code ctrl_none = 0
code ctrl_error = 1
code ctrl_ack = 2
code ctrl_nack = 3
code ctrl_ready = 4
code ctrl_start = 5
code ctrl_stop = 6

-- `workload_service_ctx_t`
pub record Service : Type 0 where
  pub command : Ctrl
  pub status : Ctrl

-- Where workload_service_thread is: `absent` if it could not be created.
pub data Thread : Type 0 where
  absent : Thread
  created : Thread
  handling : Thread
  ended : Thread

-- Where the owner is: in the loop of workload_open_service_ex, with the handle in its hands, in the
-- loop of workload_close_service_ex, or behind the free.
pub data Owner : Type 0 where
  opening : Owner
  holding : Owner
  closing : Owner
  released : Owner

pub record State : Type 0 where
  pub owner : Owner
  pub thread : Thread
  pub service : Service

-- Before the handler.
begin_thread : Service → Service
begin_thread s = record s { command = ctrl_ack }

-- After the handler.
end_thread : Service → Service
end_thread s = if code s.status == 1 then s else record s { status = ctrl_stop }

-- workload_check_service, of NULL too
pub check_service : Option Service → ℤ
check_service none = negsuc 0
check_service (some s) =
    if code s.status == 5 then pos 1 else if code s.status == 1 then negsuc 0 else pos 0

-- workload_break_service, of NULL too
pub break_service : Option Service → ℤ
break_service none = negsuc 0
break_service (some s) = if code s.command == 6 then pos 1 else pos 0

-- workload_ack_service
ack_service : Service → Service
ack_service s = record s { status = ctrl_start }

-- workload_error_service
error_service : Service → Service
error_service s = record s { status = ctrl_error }

-- The start of workload_open_service_ex. If there is no thread, it closes the service.
pub open_service : (is_created : Bool) → State
open_service is_created = record {
  owner = if is_created then opening else closing;
  thread = if is_created then created else absent;
  service = record { command = ctrl_start; status = ctrl_ready };
}

-- A round of the loop of workload_open_service_ex: where it leads.
open_round : Service → Owner
open_round s =
    if code s.command == 2
    then if code s.status == 5 then holding else if code s.status == 4 then opening else closing
    else opening

-- A round of the loop of workload_close_service_ex, with the answer of the timer. With a timeout of
-- -1 the timer is set again, so that it never ends the loop.
close_round : (is_expired : Bool) → Service → Owner × Service
close_round is_expired s =
    if code s.status == 5
    then (if is_expired then holding else closing, record s { command = ctrl_stop })
    else (released, s)

pub data Act : Type 0 where
  begins : Act
  acks : Act
  errs : Act
  ends : Act
  opens : Act
  asks : Act
  closes : (is_expired : Bool) → Act

-- What the handler does while it runs.
in_handler : (Service → Service) → Thread → State → State
in_handler g handling s = record s { service = g s.service }
in_handler g absent s = s
in_handler g created s = s
in_handler g ended s = s

begin_at : Thread → State → State
begin_at created s = record s { thread = handling; service = begin_thread s.service }
begin_at absent s = s
begin_at handling s = s
begin_at ended s = s

end_at : Thread → State → State
end_at handling s = record s { thread = ended; service = end_thread s.service }
end_at absent s = s
end_at created s = s
end_at ended s = s

open_at : Owner → State → State
open_at opening s = record s { owner = open_round s.service }
open_at holding s = s
open_at closing s = s
open_at released s = s

ask_at : Owner → State → State
ask_at holding s = record s { owner = closing }
ask_at opening s = s
ask_at closing s = s
ask_at released s = s

close_at : Bool → Owner → State → State
close_at is_expired closing s =
    let (owner, service) = close_round is_expired s.service in
    record s { owner = owner; service = service }
close_at is_expired opening s = s
close_at is_expired holding s = s
close_at is_expired released s = s

pub act : Act → State → State
act begins s = begin_at s.thread s
act acks s = in_handler ack_service s.thread s
act errs s = in_handler error_service s.thread s
act ends s = end_at s.thread s
act opens s = open_at s.owner s
act asks s = ask_at s.owner s
act (closes is_expired) s = close_at is_expired s.owner s

pub schedule : List Act → State → State
schedule [] s = s
schedule (a ∷ acts) s = schedule acts (act a s)
