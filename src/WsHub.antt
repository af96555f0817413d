-- ===== src/WsHub.antt =====
-- backend/app/core/ws_manager.py: the sockets of the web clients and of the devices, and the requests
-- that wait for a device. A socket is a number; whether a send on it succeeds is an argument.
pub mod Requests
pub mod Sockets
use wecom_ai_agent.Prelude.{
  ℕ, String, Bool, true, false, Option, none, some, List, [], ◌∷◌, ◌++◌, ◌==◌, not, str_eq,
  if◌then◌else◌, or_else, is_some, is_empty, any, keep, map,
}
use wecom_ai_agent.Prelude.Assoc.{find, put, pop}
use wecom_ai_agent.Prelude.Text.{Text, text_eq}

-- `{"event": event, "payload": payload}`; the payload is JSON text, and `request_id` the key that
-- `send_request` adds to it.
pub record Packet : Type 0 where
  pub event : String
  pub payload : Text
  pub request_id : Option Text

-- A future without a result, or with one.
pub data Future : Type 0 where
  open_ : Future
  done : Text → Future

pub record WsHub : Type 0 where
  pub web : List (ℕ × List ℕ)
  pub android : List (String × ℕ)
  pub pending : List (Text × Future)
  -- what has been sent, and which sockets the hub has closed
  pub sent : List (ℕ × Packet)
  pub closed : List ℕ

-- `WsHub()`
abbrev pub new_hub : WsHub
new_hub = record { web = []; android = []; pending = []; sent = []; closed = [] }

abbrev pub web_of : ℕ → WsHub → List ℕ
web_of team_id hub = or_else (find ◌==◌ team_id hub.web) []

abbrev pub has_socket : ℕ → List ℕ → Bool
has_socket ws sockets = any (λ x. x == ws) sockets

-- `set.add` and `set.discard`
unfoldable pub add_socket : ℕ → List ℕ → List ℕ
add_socket ws sockets = if has_socket ws sockets then sockets else ws ∷ sockets

unfoldable pub discard_socket : ℕ → List ℕ → List ℕ
discard_socket ws sockets = keep (λ x. not (x == ws)) sockets

unfoldable pub connect_web : ℕ → ℕ → WsHub → WsHub
unfolding add_socket
connect_web team_id ws hub = record hub {
  web = put ◌==◌ team_id (add_socket ws (web_of team_id hub)) hub.web;
}

unfoldable pub disconnect_web : ℕ → ℕ → WsHub → WsHub
unfolding discard_socket
disconnect_web team_id ws hub = record hub {
  web = put ◌==◌ team_id (discard_socket ws (web_of team_id hub)) hub.web;
}

unfoldable pub send_json : ℕ → Packet → WsHub → WsHub
send_json ws packet hub = record hub { sent = hub.sent ++ (ws, packet) ∷ [] }

-- The sends to the sockets of a team that are up.
unfoldable pub send_all : (ℕ → Bool) → Packet → List ℕ → WsHub → WsHub
unfolding send_json
send_all alive packet [] hub = hub
send_all alive packet (ws ∷ sockets) hub =
    send_all alive packet sockets (if alive ws then send_json ws packet hub else hub)

unfoldable pub disconnect_all : ℕ → List ℕ → WsHub → WsHub
unfolding disconnect_web
disconnect_all team_id [] hub = hub
disconnect_all team_id (ws ∷ dead) hub = disconnect_all team_id dead (disconnect_web team_id ws hub)

unfoldable pub broadcast_web : (ℕ → Bool) → ℕ → Packet → WsHub → WsHub
unfolding send_all disconnect_all
broadcast_web alive team_id packet hub =
    disconnect_all team_id (keep (λ ws. not (alive ws)) (web_of team_id hub))
      (send_all alive packet (web_of team_id hub) hub)

abbrev pub android_of : String → WsHub → Option ℕ
android_of robot_id hub = find str_eq robot_id hub.android

close_old : Option ℕ → List ℕ → List ℕ
close_old none closed = closed
close_old (some old) closed = closed ++ old ∷ []

unfoldable pub connect_android : String → ℕ → WsHub → WsHub
unfolding close_old
connect_android robot_id ws hub = record hub {
  closed = close_old (android_of robot_id hub) hub.closed;
  android = put str_eq robot_id ws hub.android;
}

abbrev pub is_socket : Option ℕ → ℕ → Bool
is_socket none ws = false
is_socket (some x) ws = x == ws

unfoldable pub disconnect_android : String → ℕ → WsHub → WsHub
disconnect_android robot_id ws hub =
    if is_socket (android_of robot_id hub) ws
    then record hub { android = pop str_eq robot_id hub.android }
    else hub

abbrev pub is_android_online : String → WsHub → Bool
is_android_online robot_id hub = is_some (android_of robot_id hub)

unfoldable pub send_to : (ℕ → Bool) → String → Packet → Option ℕ → WsHub → WsHub × Bool
send_to alive robot_id packet none hub = (hub, false)
send_to alive robot_id packet (some ws) hub =
    if alive ws
    then (send_json ws packet hub, true)
    else (disconnect_android robot_id ws hub, false)

unfoldable pub send_android : (ℕ → Bool) → String → Packet → WsHub → WsHub × Bool
send_android alive robot_id packet hub = send_to alive robot_id packet (android_of robot_id hub) hub

unfoldable pub drop_request : Text → WsHub → WsHub
drop_request request_id hub = record hub { pending = pop text_eq request_id hub.pending }

-- `send_request` up to the wait; false is the RuntimeError "robot offline". `request_id` is the new
-- UUID.
unfoldable pub begin_request : (ℕ → Bool) → String → String → Text → Text → WsHub → WsHub × Bool
begin_request alive robot_id event payload request_id hub =
    let waiting : WsHub = record hub { pending = put text_eq request_id open_ hub.pending } in
    let body : Packet = record { event = event; payload = payload; request_id = some request_id } in
    let (hub', ok) = send_android alive robot_id body waiting in
    if ok then (hub', true) else (drop_request request_id hub', false)

unfoldable pub result_of : Option Future → Option Text
result_of none = none
result_of (some open_) = none
result_of (some (done value)) = some value

-- The end of the wait: the result, or none for the TimeoutError.
unfoldable pub end_request : Text → WsHub → WsHub × Option Text
end_request request_id hub =
    (drop_request request_id hub, result_of (find text_eq request_id hub.pending))

unfoldable pub resolve_found : Text → Text → Option Future → WsHub → WsHub × Bool
resolve_found request_id value none hub = (hub, false)
resolve_found request_id value (some (done v)) hub = (hub, false)
resolve_found request_id value (some open_) hub =
    (record hub { pending = put text_eq request_id (done value) hub.pending }, true)

unfoldable pub resolve_request : Option Text → Text → WsHub → WsHub × Bool
resolve_request none value hub = (hub, false)
resolve_request (some request_id) value hub =
    if is_empty request_id
    then (hub, false)
    else resolve_found request_id value (find text_eq request_id hub.pending) hub
