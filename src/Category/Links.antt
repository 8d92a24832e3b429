-- ===== src/Category/Links.antt =====
-- The pointers that `makeCategoryTree` of frontend/lib/model/Category.tsx sets up.
use prosper.Prelude.{
  ℕ, zero, suc, ◌<◌, ◌≡◌, refl, sym, ap, ◌∙◌, Bool, true, false, ◌||◌, Option, none, some, List, [],
  ◌∷◌, ◌++◌, arith, ◌==◌, nat_eq, nat_beq_iff, if◌then◌else◌, present, get_elem?, length, any,
  Option-cases, Bool-cases, inl, inr, ok, err, ok-injective, parent_not_found,
}
use prosper.Prelude.Maps.{Assoc, lookup}
use prosper.Category.{
  Category, CategoryTreeNode, update_at, with_parent, with_children, children_at, link_node,
}

abbrev pub parent_at : List CategoryTreeNode → ℕ → Option ℕ
parent_at nodes i = elim (get_elem? nodes i) [ none ↦ none | some node ↦ node.parent ]

abbrev pub is_in : ℕ → List ℕ → Bool
is_in j l = any (λ i. i == j) l

abbrev pub points_to : ℕ → Option ℕ → Bool
points_to p none = false
points_to p (some q) = q == p

-- A node is among the children of another exactly when that one is its parent.
abbrev pub IsMirrored : List CategoryTreeNode → Type 0
IsMirrored nodes = (j p : ℕ) → is_in j (children_at nodes p) ≡ points_to p (parent_at nodes j)

-- Where the parent of a category stands.
abbrev pub target_of : Assoc ℕ ℕ → Category → Option ℕ
target_of node_lookup c = elim (present c.parent_category_id) [
  | none ↦ none
  | some id ↦ lookup id node_lookup
]

length-update_at :
    (i : ℕ) (f : CategoryTreeNode → CategoryTreeNode) (xs : List CategoryTreeNode)
    → length (update_at i f xs) ≡ length xs
unfolding update_at
length-update_at i f [] = refl
length-update_at zero f (x ∷ xs) = refl
length-update_at (suc i) f (x ∷ xs) = ap (λ n. suc n) (length-update_at i f xs)

parent_at-with_parent :
    (i p j : ℕ) (xs : List CategoryTreeNode)
    → i < length xs
    → parent_at (update_at i (with_parent p) xs) j ≡ (if i == j then some p else parent_at xs j)
unfolding update_at
parent_at-with_parent i p j [] h = absurd (omega arith)
parent_at-with_parent zero p zero (x ∷ xs) h = refl
parent_at-with_parent zero p (suc j) (x ∷ xs) h = ground arith
parent_at-with_parent (suc i) p zero (x ∷ xs) h = ground arith
parent_at-with_parent (suc i) p (suc j) (x ∷ xs) h =
    parent_at-with_parent i p j xs (omega arith) ∙ ground arith

children_at-with_parent :
    (i p j : ℕ) (xs : List CategoryTreeNode)
    → children_at (update_at i (with_parent p) xs) j ≡ children_at xs j
unfolding update_at
children_at-with_parent i p j [] = refl
children_at-with_parent zero p zero (x ∷ xs) = refl
children_at-with_parent zero p (suc j) (x ∷ xs) = refl
children_at-with_parent (suc i) p zero (x ∷ xs) = refl
children_at-with_parent (suc i) p (suc j) (x ∷ xs) = children_at-with_parent i p j xs

parent_at-with_children :
    (i : ℕ) (cs : List ℕ) (j : ℕ) (xs : List CategoryTreeNode)
    → parent_at (update_at i (with_children cs) xs) j ≡ parent_at xs j
unfolding update_at
parent_at-with_children i cs j [] = refl
parent_at-with_children zero cs zero (x ∷ xs) = refl
parent_at-with_children zero cs (suc j) (x ∷ xs) = refl
parent_at-with_children (suc i) cs zero (x ∷ xs) = refl
parent_at-with_children (suc i) cs (suc j) (x ∷ xs) = parent_at-with_children i cs j xs

children_at-with_children :
    (i : ℕ) (cs : List ℕ) (j : ℕ) (xs : List CategoryTreeNode)
    → i < length xs
    → children_at (update_at i (with_children cs) xs) j
      ≡ (if i == j then children_at xs j ++ cs else children_at xs j)
unfolding update_at
children_at-with_children i cs j [] h = absurd (omega arith)
children_at-with_children zero cs zero (x ∷ xs) h = refl
children_at-with_children zero cs (suc j) (x ∷ xs) h = ground arith
children_at-with_children (suc i) cs zero (x ∷ xs) h = ground arith
children_at-with_children (suc i) cs (suc j) (x ∷ xs) h =
    children_at-with_children i cs j xs (omega arith) ∙ ground arith

is_in-append : (j i : ℕ) (l : List ℕ) → is_in j (l ++ i ∷ []) ≡ (is_in j l || i == j)
unfolding any
is_in-append j i [] = ground arith
is_in-append j i (x ∷ l) = ground (arith, is_in-append j i l)

-- One round of the loop, at a position whose node has no parent yet.
pub record Linked (m : Assoc ℕ ℕ) (k : ℕ) (c : Category) (nodes nodes' : List CategoryTreeNode)
    : Type 0 where
  pub same_length : length nodes' ≡ length nodes
  pub parents : (j : ℕ) → parent_at nodes' j ≡ (if k == j then target_of m c else parent_at nodes j)
  pub mirrored : IsMirrored nodes'

points_to-linked :
    (k p q j : ℕ) (o : Option ℕ)
    → (k ≡ j → o ≡ none)
    → (p == q) ≡ true
    → (points_to q o || k == j) ≡ points_to q (if k == j then some p else o)
points_to-linked k p q j o fresh e = elim (Bool-cases (k == j)) [
  | inl f ↦ rw (f, fresh ((nat_beq_iff k j).0 f), e) refl
  | inr f ↦ rw f (ground arith)
]

points_to-other :
    (k p q j : ℕ) (o : Option ℕ)
    → (k ≡ j → o ≡ none)
    → (p == q) ≡ false
    → points_to q o ≡ points_to q (if k == j then some p else o)
points_to-other k p q j o fresh e = elim (Bool-cases (k == j)) [
  | inl f ↦ rw (f, fresh ((nat_beq_iff k j).0 f), e) refl
  | inr f ↦ rw f refl
]

target_of-root :
    (m : Assoc ℕ ℕ) (c : Category) → present c.parent_category_id ≡ none → target_of m c ≡ none
target_of-root m c e = ground arith

target_of-child :
    (m : Assoc ℕ ℕ) (c : Category) (id : ℕ)
    → present c.parent_category_id ≡ some id
    → target_of m c ≡ lookup id m
target_of-child m c id e = ground arith

unset_parent : (k j : ℕ) (o : Option ℕ) → (k ≡ j → o ≡ none) → o ≡ (if k == j then none else o)
unset_parent k j o fresh = elim (Bool-cases (k == j)) [
  | inl f ↦ rw f (fresh ((nat_beq_iff k j).0 f))
  | inr f ↦ rw f refl
]

link-IsMirrored :
    (k p : ℕ) (nodes : List CategoryTreeNode)
    → k < length nodes
    → p < length nodes
    → parent_at nodes k ≡ none
    → IsMirrored nodes
    → IsMirrored (update_at p (with_children (k ∷ [])) (update_at k (with_parent p) nodes))
link-IsMirrored k p nodes h h' fresh mirrored j q =
    let up = update_at k (with_parent p) nodes in
    let room : p < length up = rw (length-update_at k (with_parent p) nodes) h' in
    rw
      (
        children_at-with_children p (k ∷ []) q up room,
        parent_at-with_children p (k ∷ []) j up,
        children_at-with_parent k p q nodes,
        parent_at-with_parent k p j nodes h,
      )
      (elim (Bool-cases (p == q)) [
        | inl e ↦
            rw (e, is_in-append j k (children_at nodes q), mirrored j q)
              (points_to-linked k p q j (parent_at nodes j) (λ f. rw (← f) fresh) e)
        | inr e ↦
            rw (e, mirrored j q)
              (points_to-other k p q j (parent_at nodes j) (λ f. rw (← f) fresh) e)
      ])

module _ (m : Assoc ℕ ℕ) (k : ℕ) (c : Category) (nodes : List CategoryTreeNode) where
  link_node-root : present c.parent_category_id ≡ none → link_node m k c nodes ≡ ok nodes
  unfolding link_node
  link_node-root e = ground arith

  link_node-child :
      (id p : ℕ)
      → present c.parent_category_id ≡ some id
      → lookup id m ≡ some p
      → link_node m k c nodes
        ≡ ok (update_at p (with_children (k ∷ [])) (update_at k (with_parent p) nodes))
  unfolding link_node
  link_node-child id p e f = ground arith

  link_node-missing :
      (id : ℕ)
      → present c.parent_category_id ≡ some id
      → lookup id m ≡ none
      → link_node m k c nodes ≡ err parent_not_found
  unfolding link_node
  link_node-missing id e f = ground arith

pub link_node-Linked :
    (m : Assoc ℕ ℕ) (k : ℕ) (c : Category) (nodes nodes' : List CategoryTreeNode)
    → ((id p : ℕ) → lookup id m ≡ some p → p < length nodes)
    → k < length nodes
    → parent_at nodes k ≡ none
    → IsMirrored nodes
    → link_node m k c nodes ≡ ok nodes'
    → Linked m k c nodes nodes'
unfolding link_node
link_node-Linked m k c nodes nodes' inside h fresh mirrored done =
    elim (Option-cases (present c.parent_category_id)) [
      | inl e ↦
          let same : nodes ≡ nodes' = ok-injective (sym (link_node-root m k c nodes e) ∙ done) in
          record {
            same_length = rw (← same) refl;
            parents = λ j.
                rw (← same, target_of-root m c e)
                  (unset_parent k j (parent_at nodes j) (λ f. rw (← f) fresh));
            mirrored = rw (← same) mirrored;
          }
      | inr (id, e) ↦ elim (Option-cases (lookup id m)) [
        | inl f ↦ absurd (let d = sym (link_node-missing m k c nodes id e f) ∙ done in cc)
        | inr (p, f) ↦
            let up = update_at k (with_parent p) nodes in
            let same : update_at p (with_children (k ∷ [])) up ≡ nodes' =
              ok-injective (sym (link_node-child m k c nodes id p e f) ∙ done) in
            record {
              same_length =
                  rw (← same, length-update_at p (with_children (k ∷ [])) up)
                    (length-update_at k (with_parent p) nodes);
              parents = λ j.
                  rw (← same, target_of-child m c id e, f, parent_at-with_children p (k ∷ []) j up)
                    (parent_at-with_parent k p j nodes h);
              mirrored = rw (← same) (link-IsMirrored k p nodes h (inside id p f) fresh mirrored);
            }
      ]
    ]
