-- ===== src/Tests/Hub.antt =====
-- backend/app/core/ws_manager.py and kb/graphstore/memory.py on concrete states.
use wecom_ai_agent.Prelude.{
  ℕ, ◌≤◌, ◌≡◌, refl, Bool, true, false, none, some, [], ◌∷◌, ◌==◌, ◌&&◌, not, arith, length, keep,
  map, All, if◌then◌else◌,
}
use wecom_ai_agent.Prelude.Text.{codes}
use wecom_ai_agent.WsHub.{
  WsHub, Packet, begin_request, end_request, resolve_request, connect_android, disconnect_android,
  android_of, broadcast_web, web_of, has_socket,
}
use wecom_ai_agent.WsHub.Requests.{future_of, request_roundtrip, request-forgotten}
use wecom_ai_agent.WsHub.Sockets.{connect-disconnect_stale, broadcast_web_lem}
use wecom_ai_agent.GraphStore.{
  GraphStore, Node, Edge, graph_of, key_of, links_of, node_at, has_key, upsert_edge, chunk_key,
  delete_chunks, neighbors,
}
use wecom_ai_agent.GraphStore.Neighbors.{IsEdge, neighbors_lem}
use wecom_ai_agent.GraphStore.Edges.{delete_chunks_lem}

-- Socket 7 is down.
abbrev alive : ℕ → Bool
alive ws = not (ws == 7)

abbrev hub : WsHub
hub = record {
  web = (1, 5 ∷ 7 ∷ []) ∷ (2, 7 ∷ []) ∷ [];
  android = ("r1", 9) ∷ [];
  pending = [];
  sent = [];
  closed = [];
}

request_roundtrip_example :
    let waiting = (begin_request alive "r1" "device.command" (codes "{}") (codes "id") hub).0 in
    let answered = (resolve_request (some (codes "id")) (codes "ok") waiting).0 in
    let ended = end_request (codes "id") answered in
    ((begin_request alive "r1" "device.command" (codes "{}") (codes "id") hub).1 ≡ true)
    × ((resolve_request (some (codes "id")) (codes "ok") waiting).1 ≡ true)
    × (resolve_request (some (codes "id")) (codes "no") answered ≡ (answered, false))
    × (ended.1 ≡ some (codes "ok"))
    × (future_of (codes "id") ended.0 ≡ none)
request_roundtrip_example =
    request_roundtrip (codes "id") refl alive "r1" "device.command" (codes "{}") (codes "ok")
      (codes "no") hub 9 refl refl

request-forgotten_example :
    let begun = begin_request alive "r2" "device.command" (codes "{}") (codes "id") hub in
    let ended = if begun.1 then (end_request (codes "id") begun.0).0 else begun.0 in
    (future_of (codes "id") ended ≡ none)
    × (resolve_request (some (codes "id")) (codes "late") ended ≡ (ended, false))
request-forgotten_example =
    request-forgotten alive "r2" "device.command" (codes "{}") (codes "id") (codes "late") hub

connect-disconnect_stale_example :
    let connected = connect_android "r1" 10 hub in
    (disconnect_android "r1" 9 connected ≡ connected) × (android_of "r1" connected ≡ some 10)
connect-disconnect_stale_example =
    connect-disconnect_stale "r1" 9 10 hub (λ e. absurd (omega arith))

abbrev packet : Packet
packet = record { event = "task.updated"; payload = codes "{}"; request_id = none }

broadcast_web_lem_example :
    let after = broadcast_web alive 1 packet hub in
    (after.sent ≡ (5, packet) ∷ [])
    × (has_socket 7 (web_of 1 after) ≡ (has_socket 7 (web_of 1 hub) && alive 7))
    × (web_of 2 after ≡ web_of 2 hub)
broadcast_web_lem_example = broadcast_web_lem alive 1 packet hub 7 2 refl

abbrev product : Node
product = record { label = codes "Product"; name = codes "desk"; props = [] }

abbrev chunk_node : Node
chunk_node = record { label = codes "Chunk"; name = codes "chunk-4"; props = [] }

abbrev mentions : Edge
mentions = record { src = chunk_node; dst = product; rel = codes "MENTIONS"; props = [] }

abbrev store : GraphStore
unfolding upsert_edge
store = upsert_edge 1 mentions []

neighbors_lem_example :
    (length (neighbors 1 chunk_node 2 5 store) ≤ 5)
    × All (IsEdge (graph_of 1 store)) (neighbors 1 chunk_node 2 5 store)
neighbors_lem_example = neighbors_lem 1 chunk_node 2 5 store

delete_chunks_lem_example :
    let keys = map chunk_key (4 ∷ []) in
    let before = graph_of 1 store in
    let after = graph_of 1 (delete_chunks 1 (4 ∷ []) store) in
    (node_at (key_of chunk_node) after
      ≡ (if has_key (key_of chunk_node) keys then none else node_at (key_of chunk_node) before))
    × (links_of (key_of chunk_node) after ≡ (
        if has_key (key_of chunk_node) keys
        then []
        else keep (λ l. not (has_key l.1 keys)) (links_of (key_of chunk_node) before)))
delete_chunks_lem_example = delete_chunks_lem 1 (4 ∷ []) store (key_of chunk_node)
