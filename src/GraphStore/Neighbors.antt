-- ===== src/GraphStore/Neighbors.antt =====
-- backend/app/kb/graphstore/memory.py, `neighbors`: the size and the content of its result.
use wecom_ai_agent.Prelude.{
  ℕ, zero, suc, ◌≤◌, ◌≡◌, refl, inl, inr, false, Option, none, some, List, [], ◌∷◌, ◌++◌, arith,
  leb, max, length, is_empty, if_elim, Bool-cases, All, All-append, length-append, Member,
}
use wecom_ai_agent.Prelude.Text.{Text}
use wecom_ai_agent.GraphStore.{
  Graph, GraphStore, Key, Node, Link, Triple, Search, graph_of, key_of, links_of, node_at, has_key,
  visit_ends, visit_link, visit_links, visit_frontier, search_hops, neighbors,
}

-- The triple is an edge of the graph: a link between two nodes that are there.
abbrev pub IsEdge : Graph → Triple → Type 0
IsEdge graph (src, rel, dst) =
    (k : Key) × (j : Key) × Member (rel, j) (links_of k graph)
    × (node_at k graph ≡ some src)
    × (node_at j graph ≡ some dst)

module _ (graph : Graph) (limit : ℕ) where
  record IsSound (s : Search) : Type 0 where
    bounded : length s.out ≤ limit
    edges : All (IsEdge graph) s.out

  grown :
      (s : Search) (t : Triple) (seen next : List Key)
      → suc (length s.out) ≤ limit
      → IsEdge graph t
      → IsSound s
      → IsSound (record s { out = s.out ++ t ∷ []; seen = seen; next_frontier = next })
  grown s t seen next room e v = record {
    bounded = omega (arith, room, length-append s.out (t ∷ []));
    edges = All-append (IsEdge graph) s.out (t ∷ []) v.edges (e, tt);
  }

  visit_ends-IsSound :
      (rel : Text) (k j : Key) (src dst : Option Node) (s : Search)
      → suc (length s.out) ≤ limit
      → Member (rel, j) (links_of k graph)
      → node_at k graph ≡ src
      → node_at j graph ≡ dst
      → IsSound s
      → IsSound (visit_ends rel j src dst s)
  unfolding visit_ends
  visit_ends-IsSound rel k j none dst s room m a b v = v
  visit_ends-IsSound rel k j (some x) none s room m a b v = v
  visit_ends-IsSound rel k j (some x) (some y) s room m a b v =
      if_elim IsSound (has_key j s.seen)
        (grown s (x, rel, y) s.seen s.next_frontier room (k, j, m, a, b) v)
        (grown s (x, rel, y) (j ∷ s.seen) (s.next_frontier ++ j ∷ []) room (k, j, m, a, b) v)

  visit_link-IsSound :
      (k : Key) (l : Link) (s : Search)
      → Member l (links_of k graph)
      → IsSound s
      → IsSound (visit_link graph limit k l s)
  unfolding visit_link
  visit_link-IsSound k l s m v = elim (Bool-cases s.stopped) [
    | inl e ↦ simp e v
    | inr e ↦ elim (Bool-cases (leb limit (length s.out))) [
      | inl f ↦ simp (e, f) (record { bounded = v.bounded; edges = v.edges })
      | inr f ↦
          simp (e, f)
            (visit_ends-IsSound l.0 k l.1 (node_at k graph) (node_at l.1 graph) s (ground arith) m
              refl refl v)
    ]
  ]

  visit_links-IsSound :
      (k : Key) (ls : List Link) (s : Search)
      → ((l : Link) → Member l ls → Member l (links_of k graph))
      → IsSound s
      → IsSound (visit_links graph limit k ls s)
  unfolding visit_links
  visit_links-IsSound k [] s m v = v
  visit_links-IsSound k (l ∷ ls) s m v =
      visit_links-IsSound k ls (visit_link graph limit k l s) (λ x h. m x (inr h))
        (visit_link-IsSound k l s (m l (inl refl)) v)

  visit_frontier-IsSound :
      (ks : List Key) (s : Search) → IsSound s → IsSound (visit_frontier graph limit ks s)
  unfolding visit_frontier
  visit_frontier-IsSound [] s v = v
  visit_frontier-IsSound (k ∷ ks) s v =
      visit_frontier-IsSound ks (visit_links graph limit k (links_of k graph) s)
        (visit_links-IsSound k (links_of k graph) s (λ l h. h) v)

  search_hops-IsSound :
      (hops : ℕ) (s : Search) → IsSound s → IsSound (search_hops graph limit hops s)
  unfolding search_hops
  search_hops-IsSound zero s v = v
  search_hops-IsSound (suc hops) s v =
      let s' = visit_frontier graph limit s.next_frontier (record s { next_frontier = [] }) in
      let v' =
        visit_frontier-IsSound s.next_frontier (record s { next_frontier = [] })
          (record { bounded = v.bounded; edges = v.edges }) in
      if_elim IsSound s'.stopped v'
        (if_elim IsSound (is_empty s'.next_frontier) v' (search_hops-IsSound hops s' v'))

-- The neighbours of a node are at most as many triples as the limit, and each is an edge of the team's
-- graph between two nodes that are there.
pub neighbors_lem :
    (team : ℕ) (node : Node) (hops limit : ℕ) (store : GraphStore)
    → (length (neighbors team node hops limit store) ≤ limit)
      × All (IsEdge (graph_of team store)) (neighbors team node hops limit store)
unfolding neighbors
neighbors_lem team node hops limit store = (found.bounded, found.edges)
  where
    start : Search
    start = record {
      out = [];
      seen = key_of node ∷ [];
      next_frontier = key_of node ∷ [];
      stopped = false;
    }

    found :
        IsSound
          (graph_of team store)
          limit
          (search_hops (graph_of team store) limit (max 1 hops) start)
    found =
        search_hops-IsSound (graph_of team store) limit (max 1 hops) start
          (record { bounded = omega arith; edges = tt })
