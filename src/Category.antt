-- ===== src/Category.antt =====
-- frontend/lib/model/Category.tsx: the categories and their tree.
--
-- The nodes of a tree are shared objects that point to one another. They are a store: the list
-- of the nodes, where a pointer is a position. A function that takes a category or an id takes
-- the id, which is all it reads of the category.
pub mod Walk
pub mod Links
pub mod Mirror
pub mod Descendants
pub mod Order
pub mod Tests
use Prim.Native.String.{◌++◌ as str_append}
use prosper.Prelude.{
  ℕ, zero, suc, ◌+◌, String, Bool, true, false, Option, none, some, List, [], ◌∷◌, ◌++◌, map,
  reverse, ◌==◌, nat_eq, if◌then◌else◌, present, get_elem?, keep, Result, ok, err, or_throw, ◌>>=◌,
  map_result, category_not_found, parent_not_found,
}
use prosper.Prelude.Int.{ℤ}
use prosper.Prelude.Maps.{Assoc, lookup, from_entries}
use prosper.Model.Ledger.{PbCategory}

pub record Category : Type 0 where
  pub id : ℕ
  pub name : String
  pub display_order : ℤ
  pub parent_category_id : Option ℕ

unfoldable pub category_model_from_db : PbCategory → Category
category_model_from_db init = record {
  id = init.id;
  name = init.name;
  display_order = init.display_order;
  parent_category_id = init.parent_category_id;
}

pub record CategoryTreeNode : Type 0 where
  pub category : Category
  pub parent : Option ℕ
  pub children : List ℕ

pub record CategoryTree : Type 0 where
  pub nodes : List CategoryTreeNode
  pub tree : List ℕ
  pub node_lookup : Assoc ℕ ℕ

unfoldable pub is_root : Category → Bool
is_root c = elim (present c.parent_category_id) [ none ↦ true | some _ ↦ false ]

-- A write to the node at a position.
unfoldable pub update_at {ℓ} : {A : Type ℓ} → ℕ → (A → A) → List A → List A
update_at i f [] = []
update_at zero f (x ∷ xs) = f x ∷ xs
update_at (suc i) f (x ∷ xs) = x ∷ update_at i f xs

abbrev pub with_parent : ℕ → CategoryTreeNode → CategoryTreeNode
with_parent p node = record node { parent = some p }

abbrev pub with_children : List ℕ → CategoryTreeNode → CategoryTreeNode
with_children more node = record node { children = node.children ++ more }

-- A new node for each category.
abbrev pub new_node : Category → CategoryTreeNode
new_node c = record { category = c; parent = none; children = [] }

-- The positions from `i` on.
unfoldable pub indexed_from {ℓ} : {A : Type ℓ} → ℕ → List A → List (ℕ × A)
indexed_from i [] = []
indexed_from i (x ∷ xs) = (i, x) ∷ indexed_from (suc i) xs

-- The body of `nodes.forEach`: links the node at position `i` to its parent.
unfoldable pub link_node :
    Assoc ℕ ℕ → ℕ → Category → List CategoryTreeNode → Result (List CategoryTreeNode)
unfolding lookup update_at
link_node node_lookup i c nodes = elim (present c.parent_category_id) [
  | none ↦ ok nodes
  | some parent_id ↦ (do
    p ← or_throw (lookup parent_id node_lookup) parent_not_found
    ok (update_at p (with_children (i ∷ [])) (update_at i (with_parent p) nodes)))
]

unfoldable pub link_nodes :
    Assoc ℕ ℕ → List (ℕ × Category) → List CategoryTreeNode → Result (List CategoryTreeNode)
unfolding link_node
link_nodes node_lookup [] nodes = ok nodes
link_nodes node_lookup ((i, c) ∷ rest) nodes = do
  nodes' ← link_node node_lookup i c nodes
  link_nodes node_lookup rest nodes'

-- `new Map(nodes.map(n => [n.category.id, n]))`
unfoldable pub positions : List Category → Assoc ℕ ℕ
unfolding from_entries indexed_from
positions all = from_entries (map (λ (e : ℕ × Category). (e.1.id, e.0)) (indexed_from 0 all)) []

unfoldable pub make_category_tree : List Category → Result CategoryTree
unfolding positions link_nodes is_root keep indexed_from
make_category_tree all = do
  nodes ← link_nodes (positions all) (indexed_from 0 all) (map new_node all)
  ok (record {
    nodes = nodes;
    tree = map (λ e. e.0) (keep (λ (e : ℕ × Category). is_root e.1) (indexed_from 0 all));
    node_lookup = positions all;
  })

-- `nodeLookup.get(id)` with the assertion that it is there: the position and the node.
unfoldable pub find_node : ℕ → CategoryTree → Result (ℕ × CategoryTreeNode)
unfolding lookup
find_node c tree = do
  i ← or_throw (lookup c tree.node_lookup) category_not_found
  node ← or_throw (get_elem? tree.nodes i) category_not_found
  ok (i, node)

-- The loop `while (parent)` on fuel: the chain of parents, nearest first.
unfoldable pub climb : ℕ → List CategoryTreeNode → Option ℕ → Option (List CategoryTreeNode)
climb fuel nodes none = some []
climb zero nodes (some i) = none
climb (suc fuel) nodes (some i) = elim (get_elem? nodes i) [
  | none ↦ some []
  | some node ↦ elim (climb fuel nodes node.parent) [ none ↦ none | some rest ↦ some (node ∷ rest) ]
]

-- Without enough fuel the answer is `none`.
unfoldable pub get_ancestors : ℕ → ℕ → CategoryTree → Result (Option (List CategoryTreeNode))
unfolding find_node climb
get_ancestors fuel c tree = do
  (i, node) ← find_node c tree
  ok (elim (climb fuel tree.nodes node.parent) [ none ↦ none | some l ↦ some (reverse l) ])

-- `ancestors[0].category`, which is there where the node has a parent.
abbrev first_or : CategoryTreeNode → List CategoryTreeNode → Category
first_or node [] = node.category
first_or node (a ∷ _) = a.category

unfoldable pub find_root : ℕ → ℕ → CategoryTree → Result (Option Category)
unfolding find_node get_ancestors
find_root fuel c tree = do
  (i, node) ← find_node c tree
  ancestors ← get_ancestors fuel c tree
  ok (elim node.parent [
    | none ↦ some node.category
    | some _ ↦ elim ancestors [ none ↦ none | some l ↦ some (first_or node l) ]
  ])

-- `names.join(' > ')`
unfoldable pub join_names : List String → String
join_names [] = ""
join_names (s ∷ []) = s
join_names (s ∷ t ∷ rest) = str_append s (str_append " > " (join_names (t ∷ rest)))

unfoldable pub get_name_with_ancestors : ℕ → ℕ → CategoryTree → Result (Option String)
unfolding find_node get_ancestors join_names
get_name_with_ancestors fuel c tree = do
  (i, node) ← find_node c tree
  ancestors ← get_ancestors fuel c tree
  ok (elim ancestors [
    | none ↦ none
    | some l ↦ some (join_names (map (λ (a : CategoryTreeNode). a.category.name) (l ++ node ∷ [])))
  ])

-- The loop `while (node)` of `subtreeIncludes`, on fuel.
unfoldable pub includes_from : ℕ → List CategoryTreeNode → ℕ → CategoryTreeNode → Option Bool
includes_from zero nodes root node = none
includes_from (suc fuel) nodes root node =
    let up : Option Bool = elim node.parent [
      | none ↦ some false
      | some p ↦ elim (get_elem? nodes p) [
        | none ↦ some false
        | some parent ↦ includes_from fuel nodes root parent
      ]
    ] in
    if node.category.id == root then some true else up

unfoldable pub subtree_includes : ℕ → ℕ → ℕ → CategoryTree → Result (Option Bool)
unfolding find_node includes_from
subtree_includes fuel subtree_root maybe_descendant tree = do
  (i, root) ← find_node subtree_root tree
  (j, node) ← find_node maybe_descendant tree
  ok (includes_from fuel tree.nodes root.category.id node)

-- The nodes at positions.
abbrev pub nodes_at : List CategoryTreeNode → List ℕ → List CategoryTreeNode
nodes_at nodes [] = []
nodes_at nodes (i ∷ is) = elim (get_elem? nodes i) [
  | none ↦ nodes_at nodes is
  | some node ↦ node ∷ nodes_at nodes is
]

unfoldable pub immediate_children : ℕ → CategoryTree → Result (List Category)
unfolding find_node
immediate_children parent tree = do
  (i, node) ← find_node parent tree
  ok (map (λ (n : CategoryTreeNode). n.category) (nodes_at tree.nodes node.children))

abbrev pub children_at : List CategoryTreeNode → ℕ → List ℕ
children_at nodes i = elim (get_elem? nodes i) [ none ↦ [] | some node ↦ node.children ]

-- The loop of `getDescendants`, on fuel. The list `descendants` is the array of the target's own
-- children, so every push goes into the node at `target`. The frontier is a stack, top first.
unfoldable pub descend : ℕ → ℕ → List ℕ → List CategoryTreeNode → Option (List CategoryTreeNode)
unfolding update_at
descend fuel target [] nodes = some nodes
descend zero target (next ∷ frontier) nodes = none
descend (suc fuel) target (next ∷ frontier) nodes =
    descend fuel target (reverse (children_at nodes next) ++ frontier)
      (update_at target (with_children (children_at nodes next)) nodes)

-- The nodes returned, by position, and the tree that the call leaves.
unfoldable pub get_descendants : ℕ → ℕ → CategoryTree → Result (Option (List ℕ × CategoryTree))
unfolding find_node descend
get_descendants fuel target tree = do
  (i, node) ← find_node target tree
  ok (elim (descend fuel i (reverse node.children) tree.nodes) [
    | none ↦ none
    | some nodes ↦ some (children_at nodes i, record tree { nodes = nodes })
  ])
