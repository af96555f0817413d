-- ===== src/GraphStore.antt =====
-- backend/app/kb/graphstore/memory.py, with the node and edge types of base.py: the knowledge graph of
-- each team, in memory.
pub mod Edges
pub mod Neighbors
use wecom_ai_agent.Prelude.{
  ℕ, zero, suc, ◌+◌, String, Bool, true, false, Option, none, some, List, [], ◌∷◌, ◌++◌, ◌==◌, ◌&&◌,
  not, str_eq, leb, max, if◌then◌else◌, or_else, is_some, is_empty, any, keep, map, length,
}
use wecom_ai_agent.Prelude.Assoc.{find, put, pop}
use wecom_ai_agent.Prelude.Text.{Text, codes, text_eq, show}

-- `Node.key()`: the label and the name
abbrev pub Key : Type 0
Key = Text × Text

pub record Node : Type 0 where
  pub label : Text
  pub name : Text
  pub props : Text

abbrev pub key_of : Node → Key
key_of node = (node.label, node.name)

pub record Edge : Type 0 where
  pub src : Node
  pub dst : Node
  pub rel : Text
  pub props : Text

unfoldable pub key_eq : Key → Key → Bool
key_eq j k = text_eq j.0 k.0 && text_eq j.1 k.1

-- An entry of the adjacency list: the relation and the key of the other end.
abbrev pub Link : Type 0
Link = Text × Key

unfoldable pub link_eq : Link → Link → Bool
link_eq a b = text_eq a.0 b.0 && key_eq a.1 b.1

pub record Graph : Type 0 where
  pub nodes : List (Key × Node)
  pub adj : List (Key × List Link)

-- The graphs of the teams. A team that is not there has the empty graph: both dicts are defaultdicts.
abbrev pub GraphStore : Type 0
GraphStore = List (ℕ × Graph)

abbrev pub empty_graph : Graph
empty_graph = record { nodes = []; adj = [] }

abbrev pub graph_of : ℕ → GraphStore → Graph
graph_of team_id store = or_else (find ◌==◌ team_id store) empty_graph

abbrev pub set_graph : ℕ → (Graph → Graph) → GraphStore → GraphStore
set_graph team_id f store = put ◌==◌ team_id (f (graph_of team_id store)) store

abbrev pub links_of : Key → Graph → List Link
links_of key graph = or_else (find key_eq key graph.adj) []

abbrev pub node_at : Key → Graph → Option Node
node_at key graph = find key_eq key graph.nodes

unfoldable pub add_node : Node → Graph → Graph
add_node node graph = record graph { nodes = put key_eq (key_of node) node graph.nodes }

unfoldable pub upsert_node : ℕ → Node → GraphStore → GraphStore
upsert_node team_id node store = set_graph team_id (add_node node) store

unfoldable pub add_link : Link → List Link → List Link
add_link link links = if any (λ l. link_eq l link) links then links else links ++ link ∷ []

unfoldable pub add_edge : Edge → Graph → Graph
add_edge edge graph =
    let graph' = add_node edge.dst (add_node edge.src graph) in
    let src = key_of edge.src in
    record graph' {
      adj = put key_eq src (add_link (edge.rel, key_of edge.dst) (links_of src graph')) graph'.adj;
    }

unfoldable pub upsert_edge : ℕ → Edge → GraphStore → GraphStore
upsert_edge team_id edge store = set_graph team_id (add_edge edge) store

-- A triple of the result of `neighbors`.
abbrev pub Triple : Type 0
Triple = Node × Text × Node

-- The state of the search: the result, the keys that have been seen, and the next frontier. It stops
-- as soon as another edge comes after the limit is reached.
pub record Search : Type 0 where
  pub out : List Triple
  pub seen : List Key
  pub next_frontier : List Key
  pub stopped : Bool

abbrev pub has_key : Key → List Key → Bool
has_key key keys = any (λ k. key_eq k key) keys

unfoldable pub visit_ends : Text → Key → Option Node → Option Node → Search → Search
visit_ends rel dst (some src_node) (some dst_node) s =
    let out = s.out ++ (src_node, rel, dst_node) ∷ [] in
    if has_key dst s.seen
    then record s { out = out }
    else record s { out = out; seen = dst ∷ s.seen; next_frontier = s.next_frontier ++ dst ∷ [] }
visit_ends rel dst _ _ s = s

unfoldable pub visit_link : Graph → ℕ → Key → Link → Search → Search
visit_link graph limit key link s =
    if s.stopped
    then s
    else if leb limit (length s.out)
    then record s { stopped = true }
    else visit_ends link.0 link.1 (node_at key graph) (node_at link.1 graph) s

unfoldable pub visit_links : Graph → ℕ → Key → List Link → Search → Search
visit_links graph limit key [] s = s
visit_links graph limit key (l ∷ ls) s =
    visit_links graph limit key ls (visit_link graph limit key l s)

unfoldable pub visit_frontier : Graph → ℕ → List Key → Search → Search
visit_frontier graph limit [] s = s
visit_frontier graph limit (key ∷ keys) s =
    visit_frontier graph limit keys (visit_links graph limit key (links_of key graph) s)

-- The rounds: each takes the frontier that the last one has found.
unfoldable pub search_hops : Graph → ℕ → ℕ → Search → Search
search_hops graph limit zero s = s
search_hops graph limit (suc hops) s =
    let s' = visit_frontier graph limit s.next_frontier (record s { next_frontier = [] }) in
    let rest = search_hops graph limit hops s' in
    if s'.stopped then s' else if is_empty s'.next_frontier then s' else rest

unfoldable pub neighbors : ℕ → Node → ℕ → ℕ → GraphStore → List Triple
neighbors team_id node hops limit store =
    (search_hops (graph_of team_id store) limit (max 1 hops) (record {
      out = [];
      seen = key_of node ∷ [];
      next_frontier = key_of node ∷ [];
      stopped = false;
    })).out

abbrev pub chunk_key : ℕ → Key
chunk_key id = (codes "Chunk", codes "chunk-" ++ show id)

unfoldable pub pop_all : {V : Type 0} → List Key → List (Key × V) → List (Key × V)
pop_all [] d = d
pop_all (k ∷ ks) d = pop_all ks (pop key_eq k d)

unfoldable pub keep_links : List Key → List (Key × List Link) → List (Key × List Link)
keep_links keys adj =
    map (λ (e : Key × List Link). (e.0, keep (λ l. not (has_key l.1 keys)) e.1)) adj

unfoldable pub remove_keys : List Key → Graph → Graph
remove_keys keys graph = record {
  nodes = pop_all keys graph.nodes;
  adj = keep_links keys (pop_all keys graph.adj);
}

unfoldable pub delete_chunks : ℕ → List ℕ → GraphStore → GraphStore
delete_chunks team_id [] store = store
delete_chunks team_id (i ∷ is) store =
    set_graph team_id (remove_keys (map chunk_key (i ∷ is))) store
