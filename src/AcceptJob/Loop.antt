-- ===== src/AcceptJob/Loop.antt =====
-- What the accept loop does to the table of sessions.
use my_server_project.Common.{
  ℕ, suc, ◌<◌, ◌≡◌, refl, ap, ◌∙◌, true, false, Option, some, List, [], ◌∷◌, ◌++◌, length, ◌>>=◌,
  All, arith,
}
use my_server_project.SessionGroup.{SessionGroup, add_session, get_index, make_session_id}
use my_server_project.SessionGroup.Table.{
  Serves, add_session-Serves, add_session_lem, added, get_session-stored,
}
use my_server_project.AcceptJob.{
  Accepts, accepted, interrupted, again, failed, AcceptCall, closed, on_connected, nonblocking,
  no_delay, send_registered, recv_registered, connect_calls, with_found, connect_added,
  handle_client, prepend, execute, armed, complete, append_calls, run_job,
}

-- The clients that are approved, and those that are not, in their order.
unfoldable pub approved : Accepts → List ℕ
approved (accepted fd true rest) = fd ∷ approved rest
approved (accepted fd false rest) = approved rest
approved (interrupted rest) = approved rest
approved again = []
approved failed = []

pub rejected : Accepts → List ℕ
rejected (accepted fd true rest) = rejected rest
rejected (accepted fd false rest) = fd ∷ rejected rest
rejected (interrupted rest) = rejected rest
rejected again = []
rejected failed = []

-- The descriptors closed, and the ids connected, in their order.
pub closed_of : List AcceptCall → List ℕ
closed_of [] = []
closed_of (closed fd ∷ cs) = fd ∷ closed_of cs
closed_of (nonblocking fd ∷ cs) = closed_of cs
closed_of (no_delay fd ∷ cs) = closed_of cs
closed_of (send_registered fd ∷ cs) = closed_of cs
closed_of (recv_registered fd i ∷ cs) = closed_of cs
closed_of (armed e fd ∷ cs) = closed_of cs
closed_of (on_connected id ∷ cs) = closed_of cs

pub connected_of : List AcceptCall → List ℕ
connected_of [] = []
connected_of (closed fd ∷ cs) = connected_of cs
connected_of (nonblocking fd ∷ cs) = connected_of cs
connected_of (no_delay fd ∷ cs) = connected_of cs
connected_of (send_registered fd ∷ cs) = connected_of cs
connected_of (recv_registered fd i ∷ cs) = connected_of cs
connected_of (armed e fd ∷ cs) = connected_of cs
connected_of (on_connected id ∷ cs) = id ∷ connected_of cs

-- The ids with the latest first, as the table's live sessions are listed.
pub onto : List ℕ → List ℕ → List ℕ
onto [] live = live
onto (id ∷ ids) live = onto ids (id ∷ live)

-- What a run of the loop comes to, from a table that serves `live` and with `rest` of its pool left.
pub record Outcome (g : SessionGroup) (live rest : List ℕ) (w : Accepts) (calls : List AcceptCall)
    (h : SessionGroup) : Type 0 where
  pub serves : Serves h (onto (connected_of calls) live)
  pub one_each : length (connected_of calls) ≡ length (approved w)
  pub closes : closed_of calls ≡ rejected w
  pub pool : h.index_pool ≡ rest

-- One approved client.
client_added :
    (g : SessionGroup) (live : List ℕ) (fd i : ℕ) (pool : List ℕ)
    → Serves g live
    → g.index_pool ≡ i ∷ pool
    → i < g.max_session
    → let id = make_session_id g.unique_number i in
      (handle_client g fd true ≡ some (connect_calls fd (get_index id) id, added g i pool fd))
      × Serves (added g i pool fd) (id ∷ live)
unfolding handle_client connect_added with_found
client_added g live fd i pool s e lt =
    let id = make_session_id g.unique_number i in
    let (h, adds, serves, fresh, left) = add_session-Serves g live fd i pool s e lt in
    let added_eq : add_session g fd ≡ some (id, added g i pool fd) =
      add_session_lem g fd i pool e (rw s.size lt) in
    let same : h ≡ added g i pool fd = cc in
    let serves' : Serves (added g i pool fd) (id ∷ live) = rw same at serves in
    (
      ap (connect_added fd) added_eq
          ∙ ap (λ f. with_found fd id f (added g i pool fd))
              (get_session-stored (added g i pool fd) id serves'.stored.0),
      serves',
    )

Runs : SessionGroup → List ℕ → List ℕ → Accepts → Type 0
Runs g live rest w =
    (calls : List AcceptCall) × (h : SessionGroup) × (execute g w ≡ some (calls, h))
    × Outcome g live rest w calls h

execute-Outcome :
    (w : Accepts) (g : SessionGroup) (live free rest : List ℕ)
    → Serves g live
    → g.index_pool ≡ free ++ rest
    → length free ≡ length (approved w)
    → All (λ i. i < g.max_session) free
    → Runs g live rest w
unfolding execute approved rejected connected_of closed_of onto Runs prepend handle_client
execute-Outcome again g live [] rest s e n lt =
    ([], g, refl, record { serves = s; one_each = refl; closes = refl; pool = e })
execute-Outcome again g live (i ∷ free) rest s e n lt = absurd (omega arith)
execute-Outcome failed g live [] rest s e n lt =
    ([], g, refl, record { serves = s; one_each = refl; closes = refl; pool = e })
execute-Outcome failed g live (i ∷ free) rest s e n lt = absurd (omega arith)
execute-Outcome (interrupted w) g live free rest s e n lt =
    let (calls, h, eq, o) = execute-Outcome w g live free rest s e n lt in
    (
      calls,
      h,
      eq,
      record { serves = o.serves; one_each = o.one_each; closes = o.closes; pool = o.pool },
    )
execute-Outcome (accepted fd false w) g live free rest s e n lt =
    let (calls, h, eq, o) = execute-Outcome w g live free rest s e n lt in
    (
      closed fd ∷ calls,
      h,
      ap (prepend (closed fd ∷ [])) eq,
      record {
        serves = o.serves;
        one_each = o.one_each;
        closes = ap (λ xs. fd ∷ xs) o.closes;
        pool = o.pool;
      },
    )
execute-Outcome (accepted fd true w) g live [] rest s e n lt = absurd (omega arith)
execute-Outcome (accepted fd true w) g live (i ∷ free) rest s e n lt =
    let id = make_session_id g.unique_number i in
    let (client, serves) = client_added g live fd i (free ++ rest) s e lt.0 in
    let h1 = added g i (free ++ rest) fd in
    let (calls, h, eq, o) =
      execute-Outcome w h1 (id ∷ live) free rest serves refl (omega arith) lt.1 in
    (
      connect_calls fd (get_index id) id ++ calls,
      h,
      ap (λ o. o >>= λ (calls, h). prepend calls (execute h w)) client
          ∙ ap (prepend (connect_calls fd (get_index id) id)) eq,
      record { serves = o.serves; one_each = ap suc o.one_each; closes = o.closes; pool = o.pool },
    )

-- On a served table, when the approved clients of a turn are as many as the first free indices, all
-- of them within the vector, the job adds one session for each of them: `OnConnected` is called
-- with as many ids, the table serves these beside the old ones, exactly the clients that were not
-- approved are closed, in their order, and the last call arms the job again.
pub run_job-Serves :
    (epoll : ℕ) (listen : Option ℕ) (w : Accepts) (g : SessionGroup) (live free rest : List ℕ)
    → Serves g live
    → g.index_pool ≡ free ++ rest
    → length free ≡ length (approved w)
    → All (λ i. i < g.max_session) free
    → (calls : List AcceptCall) × (h : SessionGroup) × (run_job epoll listen g w
        ≡ some (calls ++ armed epoll listen ∷ [], h))
      × Outcome g live rest w calls h
unfolding run_job append_calls complete Runs
run_job-Serves epoll listen w g live free rest s e n lt =
    let (calls, h, eq, o) = execute-Outcome w g live free rest s e n lt in
    (calls, h, ap (append_calls (armed epoll listen ∷ [])) eq, o)
