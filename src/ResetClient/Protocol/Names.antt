-- ===== src/ResetClient/Protocol/Names.antt =====
-- The texts that `name(Outcome)` and `name(Reason)` of reset_protocol.h give.
use xgc2_ugv_controller.Base.{String}
use xgc2_ugv_controller.ResetClient.Protocol.{Outcome, Reason}

abbrev outcome_name : Outcome → String
outcome_name Outcome.arrived = "ARRIVED"
outcome_name Outcome.timeout = "TIMEOUT"
outcome_name Outcome.stopped = "STOPPED"
outcome_name Outcome.rejected_no_target = "REJECTED_NO_TARGET"
outcome_name Outcome.rejected_no_coordinator = "REJECTED_NO_COORDINATOR"
outcome_name Outcome.rejected_by_coordinator = "REJECTED_BY_COORDINATOR"
outcome_name Outcome.infeasible = "INFEASIBLE"
outcome_name Outcome.aborted_deviation = "ABORTED_DEVIATION"
outcome_name Outcome.aborted_stalled = "ABORTED_STALLED"
outcome_name Outcome.aborted_coordinator_lost = "ABORTED_COORDINATOR_LOST"
outcome_name Outcome.aborted_unhealthy = "ABORTED_UNHEALTHY"
outcome_name Outcome.none = "NONE"

abbrev reason_name : Reason → String
reason_name Reason.waiting_for_peer = "waiting for a peer"
reason_name Reason.precedence = "another vehicle passes first"
reason_name Reason.replan = "route revoked, re-planning"
reason_name Reason.scene_unavailable = "scene unavailable"
reason_name Reason.non_participant_moving = "a body outside Reset is moving"
reason_name Reason.goal_occupied = "target occupied"
reason_name Reason.no_route = "no route"
reason_name Reason.deadlock = "deadlock"
reason_name Reason.too_slow = "predicted duration exceeds the limit"
reason_name Reason.bad_session = "invalid session"
reason_name Reason.stalled = "stalled"
reason_name Reason.scene_changed = "scene changed"
reason_name Reason.none = ""
