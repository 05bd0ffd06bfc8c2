-- ===== src/Server/Sends.antt =====
-- What `Server::Send` reaches.
use my_server_project.Common.{
  ℕ, ◌≡◌, refl, Option, some, List, [], ◌∷◌, ◌++◌, map, if_self, if_other, All, NotIn,
  All-append_right, Distinct-middle,
}
use mathlib.Core.List.{map-append}
use my_server_project.SessionGroup.{SessionGroup, get_index, get_session}
use my_server_project.SessionGroup.History.{Reaches, Reaches-found}
use my_server_project.Session.{Session, Writes, send}
use my_server_project.Server.{send_to, server_send}

module _ (g : SessionGroup) (sessions : ℕ → Session) (id : ℕ) (buffer : Option (List ℕ))
    (w : Writes) where
  send_found :
      (found : Option ℕ)
      → get_session g id ≡ some found
      → server_send g sessions id buffer w ≡ some (send_to found sessions buffer w)
  unfolding server_send send_to
  send_found found e = rw (server_send, e) refl

  -- Sessions at other indices are left alone.
  others_kept :
      (live : List ℕ)
      → NotIn (get_index id) (map get_index live)
      → All
          (λ other.
            send_to (some (get_index id)) sessions buffer w (get_index other)
            ≡ sessions (get_index other))
          live
  unfolding send_to
  others_kept [] n = tt
  others_kept (other ∷ live) n = (
    if_other (get_index other) (get_index id) (send (sessions (get_index id)) buffer w)
        (sessions (get_index other)) n.0,
    others_kept live n.1,
  )

  -- In a table of an orderly history, a `Send` to a live id is a `Send` of the session at its
  -- index, and the session of no other live id changes.
  pub send_live :
      (before after live : List ℕ)
      → Reaches g live
      → live ≡ before ++ id ∷ after
      → (after_send : ℕ → Session) × (server_send g sessions id buffer w ≡ some after_send)
        × (after_send (get_index id) ≡ send (sessions (get_index id)) buffer w)
        × All (λ other. after_send (get_index other) ≡ sessions (get_index other)) (before ++ after)
  send_live before after live r e =
      let (found, distinct, inside) = Reaches-found (rw e at r) in
      let here =
        (All-append_right (λ i. get_session g i ≡ some (some (get_index i))) before (id ∷ after)
          found).0 in
      let apart : NotIn (get_index id) (map get_index (before ++ after)) =
        rw map-append
          (Distinct-middle (map get_index before) (map get_index after) (get_index id)
            (rw map-append at distinct)).0 in
      (
        send_to (some (get_index id)) sessions buffer w,
        send_found (some (get_index id)) here,
        (unfold send_to in
            if_self (get_index id) (send (sessions (get_index id)) buffer w)
              (sessions (get_index id))),
        others_kept (before ++ after) apart,
      )
