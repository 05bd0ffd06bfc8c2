-- ===== src/AcceptJob/Tests.antt =====
-- A turn of the accept job on a concrete table.
use my_server_project.Common.{◌≡◌, refl, true, false, some, List, [], ◌∷◌, ◌++◌, arith}
use my_server_project.SessionGroup.{SessionGroup, Slot, construct, push_down}
use my_server_project.SessionGroup.History.{construct-Serves}
use my_server_project.AcceptJob.{Accepts, accepted, interrupted, again, AcceptCall, armed, run_job}
use my_server_project.AcceptJob.Loop.{Outcome, approved, run_job-Serves}

-- Two clients are approved, one between them is not.
abbrev clients : Accepts
clients = accepted 7 true (interrupted (accepted 8 false (accepted 9 true again)))

abbrev raw_slot : Slot
raw_slot = record { session_id = 99; socket_fd = 99 }

abbrev table : SessionGroup
table = construct raw_slot 0 5

run_job-Serves_example :
    (calls : List AcceptCall) × (h : SessionGroup) × (run_job 3 (some 4) table clients
      ≡ some (calls ++ armed 3 (some 4) ∷ [], h))
    × Outcome table [] (2 ∷ 3 ∷ 4 ∷ 5 ∷ []) clients calls h
run_job-Serves_example =
    run_job-Serves 3 (some 4) clients table [] (0 ∷ 1 ∷ []) (2 ∷ 3 ∷ 4 ∷ 5 ∷ [])
      (construct-Serves raw_slot 0 5 (omega arith) (omega arith))
      (unfold construct push_down in refl) (unfold approved in refl)
      (unfold construct in ((omega arith), ((omega arith), tt)))
