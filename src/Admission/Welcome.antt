-- ===== src/Admission/Welcome.antt =====
-- What the admin of a session answers to a peer that it admits (main.go).
use p2ptogether.Prelude.{
  ◌≡◌, refl, ap, ◌∙◌, arith, true, false, Option, none, some, List, [], ◌∷◌, ◌++◌, nat_eq, list_eq,
  ==_refl, ◌==◌, ok,
}
use p2ptogether.Names.{Text, text}
use p2ptogether.Peers.{PeerId, PeerCodec}
use p2ptogether.Roles.{get_all_assignments}
use p2ptogether.Sessions.{
  Session, SessionManager, UserInfo, get_session, is_peer_banned, add_peer_to_session,
}
use p2ptogether.Sessions.Members.{add_peer_to_session-ok}
use p2ptogether.Messages.{WireItem, Effect, JoinSessionResponse, accepted, answer, broadcast}
use p2ptogether.Server.{Server, sessions, role_manager}
use p2ptogether.Admission.{authorize, admitted, welcome, handle_auth_stream}

abbrev answer_of : Effect → Option JoinSessionResponse
answer_of (answer response) = some response
answer_of (broadcast msg) = none
answer_of e = none

abbrev either : Option JoinSessionResponse → Option JoinSessionResponse → Option JoinSessionResponse
either none o = o
either (some response) o = some response

-- The last answer that was written to an auth stream.
unfoldable pub last_answer : List Effect → Option JoinSessionResponse
last_answer [] = none
last_answer (e ∷ es) = either (last_answer es) (answer_of e)

last_answer-append :
    (e : Effect) (es : List Effect)
    → last_answer (es ++ e ∷ []) ≡ either (answer_of e) (last_answer es)
unfolding last_answer
last_answer-append e [] = ground arith
last_answer-append e (d ∷ es) = ground (arith, last_answer-append e es)

module _ ⦃codec : PeerCodec⦄ where
  -- The answer has all assignments as they are after the peer was added.
  pub last_answer-welcome :
      (remote : PeerId) (username : Text) (session : Session) (s : Server)
      → (items : List WireItem) × (identities : List (Text × Text)) × (last_answer
            (welcome remote username session s).sent
          ≡ some (
              accepted session.id session.name
                (get_all_assignments (role_manager s))
                items
                identities))
  unfolding welcome
  last_answer-welcome remote username session s = (
    _,
    _,
    last_answer-append _ _
        ∙ last_answer-append _ _
        ∙ last_answer-append _ _
        ∙ last_answer-append _ _
        ∙ last_answer-append _ _,
  )

  authorize-welcome :
      (remote : PeerId) (username : Text) (s : Server) (session joined : Session) (info : UserInfo)
      (sm : SessionManager)
      → (session.admin_peer_id == s.node.id) ≡ true
      → (is_peer_banned (sessions s) session.id remote).0 ≡ false
      → add_peer_to_session s.session_manager session.id remote username (text "Viewer" ∷ [])
        ≡ (ok (joined, info), sm)
      → authorize remote username s (some session)
        ≡ welcome remote username joined (record s { session_manager = sm })
  unfolding authorize admitted
  authorize-welcome remote username s session joined info sm admin free added =
      rw (admin, free, added) refl

  -- The admin of a stored session welcomes a peer that is not banned, after adding it.
  pub handle_auth_stream-welcome :
      (remote : PeerId) (username : Text) (s : Server) (session : Session)
      → get_session (sessions s) session.id ≡ some session
      → session.admin_peer_id ≡ s.node.id
      → (is_peer_banned (sessions s) session.id remote).0 ≡ false
      → (joined : Session) × (info : UserInfo) × (joined.id ≡ session.id)
        × (let sm =
              (add_peer_to_session s.session_manager session.id remote username
                (text "Viewer" ∷ [])).1 in
            handle_auth_stream remote session.id username s
            ≡ welcome remote username joined (record s { session_manager = sm }))
  unfolding handle_auth_stream
  handle_auth_stream-welcome remote username s session stored admin free =
      let is_admin = ap (λ p. p == s.node.id) admin ∙ ==_refl s.node.id in
      let (joined, info, named, added) =
        add_peer_to_session-ok s.session_manager session.id remote username (text "Viewer" ∷ [])
          stored in
      let (result, sm) =
        add_peer_to_session s.session_manager session.id remote username (text "Viewer" ∷ []) in
      (
        joined,
        info,
        named,
        ap (authorize remote username s) stored
            ∙ authorize-welcome remote username s session joined info sm is_admin free
                (ap (λ r. (r, sm)) added),
      )
