-- ===== src/WsHub/Sockets.antt =====
-- backend/app/core/ws_manager.py: the sockets of the devices and of the web clients.
use wecom_ai_agent.Prelude.{
  ℕ, ◌≡◌, ◌≢◌, refl, ◌∙◌, ap, String, Bool, false, some, List, [], ◌∷◌, ◌++◌, arith, ◌==◌, ◌&&◌,
  not, or_else, keep, map, if◌then◌else◌, str_eq, str_eq_iff, ==_iff, Bool-cases, append_assoc,
  append_empty, inl, inr,
}
use wecom_ai_agent.Prelude.Assoc.{find, find-put_self, find-put_ne}
use wecom_ai_agent.WsHub.{
  WsHub, Packet, web_of, has_socket, discard_socket, disconnect_web, send_json, send_all,
  disconnect_all, broadcast_web, android_of, connect_android, disconnect_android,
}

-- A device that has come back keeps its new socket: the close of an older one, which comes late,
-- changes nothing.
pub connect-disconnect_stale :
    (robot_id : String) (old ws : ℕ) (hub : WsHub)
    → ws ≢ old
    → let connected = connect_android robot_id ws hub in
      (disconnect_android robot_id old connected ≡ connected)
      × (android_of robot_id connected ≡ some ws)
unfolding connect_android disconnect_android
connect-disconnect_stale robot_id old ws hub h =
    let e = find-put_self str_eq str_eq_iff robot_id ws hub.android in (simp (e, other) refl, e)
  where
    other : (ws == old) ≡ false
    other = ground (arith, ==_iff ws old)

has-discard :
    (ws x : ℕ) (sockets : List ℕ)
    → has_socket x (discard_socket ws sockets) ≡ (has_socket x sockets && not (x == ws))
unfolding discard_socket
has-discard ws x [] = refl
has-discard ws x (y ∷ ys) = ground (arith, has-discard ws x ys)

disconnect_web-web_of :
    (team ws : ℕ) (hub : WsHub)
    → web_of team (disconnect_web team ws hub) ≡ discard_socket ws (web_of team hub)
unfolding disconnect_web
disconnect_web-web_of team ws hub =
    ap (λ o. or_else o [])
      (find-put_self ◌==◌ ==_iff team (discard_socket ws (web_of team hub)) hub.web)

disconnect_web-others :
    (team other ws : ℕ) (hub : WsHub)
    → (team == other) ≡ false
    → web_of other (disconnect_web team ws hub) ≡ web_of other hub
unfolding disconnect_web
disconnect_web-others team other ws hub h =
    ap (λ o. or_else o [])
      (find-put_ne ◌==◌ ==_iff team other (discard_socket ws (web_of team hub)) hub.web h)

disconnect_all-has :
    (team x : ℕ) (dead : List ℕ) (hub : WsHub)
    → has_socket x (web_of team (disconnect_all team dead hub))
      ≡ (has_socket x (web_of team hub) && not (has_socket x dead))
unfolding disconnect_all
disconnect_all-has team x [] hub = ground arith
disconnect_all-has team x (d ∷ dead) hub =
    disconnect_all-has team x dead (disconnect_web team d hub)
    ∙ ap (λ ws. has_socket x ws && not (has_socket x dead)) (disconnect_web-web_of team d hub)
    ∙ ap (λ b. b && not (has_socket x dead)) (has-discard d x (web_of team hub))
    ∙ ground (arith, ==_iff x d, ==_iff d x)

disconnect_all-others :
    (team other : ℕ) (dead : List ℕ) (hub : WsHub)
    → (team == other) ≡ false
    → web_of other (disconnect_all team dead hub) ≡ web_of other hub
unfolding disconnect_all
disconnect_all-others team other [] hub h = refl
disconnect_all-others team other (d ∷ dead) hub h =
    disconnect_all-others team other dead (disconnect_web team d hub) h
    ∙ disconnect_web-others team other d hub h

disconnect_all-sent :
    (team : ℕ) (dead : List ℕ) (hub : WsHub) → (disconnect_all team dead hub).sent ≡ hub.sent
unfolding disconnect_all disconnect_web
disconnect_all-sent team [] hub = refl
disconnect_all-sent team (d ∷ dead) hub = disconnect_all-sent team dead (disconnect_web team d hub)

send_all-web :
    (alive : ℕ → Bool) (packet : Packet) (sockets : List ℕ) (hub : WsHub)
    → (send_all alive packet sockets hub).web ≡ hub.web
unfolding send_all
send_all-web alive packet [] hub = refl
send_all-web alive packet (ws ∷ sockets) hub =
    send_all-web alive packet sockets (if alive ws then send_json ws packet hub else hub)
    ∙ (unfold send_json in ground arith)

send_all-sent :
    (alive : ℕ → Bool) (packet : Packet) (sockets : List ℕ) (hub : WsHub)
    → (send_all alive packet sockets hub).sent
      ≡ hub.sent ++ map (λ ws. (ws, packet)) (keep alive sockets)
unfolding send_all send_json
send_all-sent alive packet [] hub = append_empty hub.sent
send_all-sent alive packet (ws ∷ sockets) hub = elim (Bool-cases (alive ws)) [
  | inl e ↦ simp e (
      send_all-sent alive packet sockets (send_json ws packet hub)
      ∙ append_assoc hub.sent ((ws, packet) ∷ []) (map (λ x. (x, packet)) (keep alive sockets)))
  | inr e ↦ simp e (send_all-sent alive packet sockets hub)
]

has-keep :
    (p : ℕ → Bool) (x : ℕ) (sockets : List ℕ)
    → has_socket x (keep p sockets) ≡ (has_socket x sockets && p x)
has-keep p x [] = refl
has-keep p x (y ∷ ys) = elim (Bool-cases (y == x)) [
  | inl e ↦ let same : y ≡ x = (==_iff y x).0 e in ground (arith, has-keep p x ys, same, ap p same)
  | inr e ↦ ground (arith, has-keep p x ys)
]

-- A broadcast is sent to the sockets of the team that are up, in the order of the set, and to no
-- other; after it a socket is in the team's set exactly if it was and is up, and the set of
-- another team is as before.
pub broadcast_web_lem :
    (alive : ℕ → Bool) (team : ℕ) (packet : Packet) (hub : WsHub) (x other : ℕ)
    → (team == other) ≡ false
    → let after = broadcast_web alive team packet hub in
      (after.sent ≡ hub.sent ++ map (λ ws. (ws, packet)) (keep alive (web_of team hub)))
      × (has_socket x (web_of team after) ≡ (has_socket x (web_of team hub) && alive x))
      × (web_of other after ≡ web_of other hub)
unfolding broadcast_web
broadcast_web_lem alive team packet hub x other h = (
  disconnect_all-sent team dead sent ∙ send_all-sent alive packet (web_of team hub) hub,
  disconnect_all-has team x dead sent
      ∙ ap (λ w. has_socket x (or_else (find ◌==◌ team w) []) && not (has_socket x dead)) same
      ∙ ground (arith, has-keep (λ ws. not (alive ws)) x (web_of team hub)),
  disconnect_all-others team other dead sent h ∙ ap (λ w. or_else (find ◌==◌ other w) []) same,
)
  where
    dead : List ℕ
    dead = keep (λ ws. not (alive ws)) (web_of team hub)

    sent : WsHub
    sent = send_all alive packet (web_of team hub) hub

    same : sent.web ≡ hub.web
    same = send_all-web alive packet (web_of team hub) hub
