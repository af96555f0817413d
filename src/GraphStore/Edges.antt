-- ===== src/GraphStore/Edges.antt =====
-- backend/app/kb/graphstore/memory.py, `upsert_edge` and `delete_chunks`: what the graph holds after
-- them.
use wecom_ai_agent.Prelude.{
  ℕ, ◌≡◌, ◌↔◌, refl, sym, ◌∙◌, ap, ap₂, subst, inl, inr, Bool, true, none, List, [], ◌∷◌, arith,
  ◌==◌, ◌&&◌, not, or_else, keep, map, count, if◌then◌else◌, ==_iff, Bool-cases, &&-true,
}
use wecom_ai_agent.Prelude.Assoc.{find, put, pop, find-put_self, find-pop_self, find-pop_ne}
use wecom_ai_agent.Prelude.Text.{text_eq, text_eq_iff}
use wecom_ai_agent.GraphStore.{
  Graph, GraphStore, empty_graph, Key, Link, graph_of, key_eq, link_eq, links_of, node_at, has_key,
  chunk_key, pop_all, keep_links, remove_keys, delete_chunks,
}

pair_iff :
    {A B : Type 0} (p q : Bool) (a c : A) (b d : B)
    → (p ≡ true) ↔ (a ≡ c)
    → (q ≡ true) ↔ (b ≡ d)
    → ((p && q) ≡ true) ↔ (◌≡◌ {A = A × B} (a, b) (c, d))
pair_iff {A} {B} p q a c b d f g = (
  λ h. let (x, y) = &&-true p q h in ap₂ (λ u v. (u, v)) (f.0 x) (g.0 y),
  λ h. ground (arith, f.1 (ap (λ (k : A × B). k.0) h), g.1 (ap (λ (k : A × B). k.1) h)),
)

key_eq_iff : (j k : Key) → (key_eq j k ≡ true) ↔ (j ≡ k)
unfolding key_eq
key_eq_iff (a, b) (c, d) =
    pair_iff (text_eq a c) (text_eq b d) a c b d (text_eq_iff a c) (text_eq_iff b d)

graph_of_set :
    (team : ℕ) (graph : Graph) (store : GraphStore)
    → graph_of team (put ◌==◌ team graph store) ≡ graph
graph_of_set team graph store =
    ap (λ o. or_else o empty_graph) (find-put_self ◌==◌ ==_iff team graph store)

find-pop_all :
    {V : Type 0} (key : Key) (keys : List Key) (d : List (Key × V))
    → find key_eq key (pop_all keys d) ≡ (if has_key key keys then none else find key_eq key d)
unfolding pop_all
find-pop_all key [] d = refl
find-pop_all key (k ∷ ks) d = elim (Bool-cases (key_eq k key)) [
  | inl e ↦
      let same : k ≡ key = (key_eq_iff k key).0 e in
      let gone : find key_eq key (pop key_eq k d) ≡ none =
        subst (λ x. find key_eq key (pop key_eq x d) ≡ none) (sym same)
          (find-pop_self key_eq key_eq_iff key d) in
      ground (arith, e, gone, find-pop_all key ks (pop key_eq k d))
  | inr e ↦
      ground
        (arith, e, find-pop_ne key_eq key_eq_iff k key d e, find-pop_all key ks (pop key_eq k d))
]

-- The links of a key whose ends are not among the keys.
abbrev links_but : List Key → List Link → List Link
links_but keys links = keep (λ l. not (has_key l.1 keys)) links

links-keep_links :
    (key : Key) (keys : List Key) (adj : List (Key × List Link))
    → or_else (find key_eq key (keep_links keys adj)) []
      ≡ links_but keys (or_else (find key_eq key adj) [])
unfolding keep_links
links-keep_links key keys [] = refl
links-keep_links key keys ((k, ls) ∷ rest) = elim (Bool-cases (key_eq k key)) [
  | inl e ↦ simp e
  | inr e ↦ simp e (links-keep_links key keys rest)
]

links_but-nothing : (links : List Link) → links_but [] links ≡ links
links_but-nothing [] = refl
links_but-nothing (l ∷ ls) = ap (λ r. l ∷ r) (links_but-nothing ls)

-- After a deletion of chunks the graph of the team is the one before without them: without their
-- nodes, without the links from them and without the links to them, and the rest is kept.
pub delete_chunks_lem :
    (team : ℕ) (ids : List ℕ) (store : GraphStore) (key : Key)
    → let keys = map chunk_key ids in
      let before = graph_of team store in
      let after = graph_of team (delete_chunks team ids store) in
      (node_at key after ≡ (if has_key key keys then none else node_at key before))
      × (links_of key after ≡ (
          if has_key key keys
          then []
          else keep (λ l. not (has_key l.1 keys)) (links_of key before)))
unfolding delete_chunks remove_keys
delete_chunks_lem team [] store key =
    (refl, sym (links_but-nothing (links_of key (graph_of team store))))
delete_chunks_lem team (i ∷ is) store key =
    let keys = map chunk_key (i ∷ is) in
    let before = graph_of team store in
    let after = graph_of_set team (remove_keys keys before) store in
    (
      ap (node_at key) after ∙ find-pop_all key keys before.nodes,
      ap (links_of key) after
          ∙ (links-keep_links key keys (pop_all keys before.adj)
              ∙ elim (Bool-cases (has_key key keys)) [
                | inl e ↦ ground (arith, e, find-pop_all key keys before.adj)
                | inr e ↦ ground (arith, e, find-pop_all key keys before.adj)
              ]),
    )

-- How often a link stands in a list.
abbrev pub occurrences : Link → List Link → ℕ
occurrences link links = count (λ l. link_eq l link) links
