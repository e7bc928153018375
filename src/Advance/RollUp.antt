-- ===== src/Advance/RollUp.antt =====
-- executing/advance.py, the roll-up: a parent is closed once all posts that link up to it are
-- finished. A dict of nodes is a list in the order of the posts, which have different ids.
use specseed.Prelude.{
  ℕ, zero, suc, String, Bool, false, ◌&&◌, ◌||◌, not, Option, none, some, List, [], ◌∷◌, map, keep,
  any, find?, length, str_eq, if◌then◌else◌,
}
use specseed.Prelude.Text.{decimal}
use specseed.Entities.{Entity, tier_from_labels, status_from_labels, for_labels, is_work_tier, tier}
use specseed.Entities.Links.{parent_id}
use specseed.StateMachine.{is_terminal}
use specseed.Tracker.{Store}
use specseed.Tracker.Read.{Summary, list_entries, get_entry}
use specseed.Advance.Wording.{rolled_up}
use specseed.Advance.Writes.{Ctx, World, set_status, close, comment}

pub record Node : Type 0 where
  pub id : String
  pub status : Option String
  pub tier : String
  pub is_open : Bool
  pub labels : List String
  pub ticket : Option String
  pub epic : Option String

abbrev body_of : String → Store → Option String
body_of id s = elim (get_entry id s) [ none ↦ none | some d ↦ d.body ]

abbrev node_of_tier : Store → Summary → Option String → List Node → List Node
node_of_tier s e none rest = rest
node_of_tier s e (some t) rest =
    if is_work_tier t
    then record {
      id = decimal e.id;
      status = status_from_labels e.labels;
      tier = t;
      is_open = e.is_open;
      labels = e.labels;
      ticket = parent_id (body_of (decimal e.id) s) "ticket";
      epic = parent_id (body_of (decimal e.id) s) "epic";
    }
      ∷ rest
    else rest

unfoldable pub nodes_of : Store → List Summary → List Node
unfolding is_work_tier tier_from_labels status_from_labels get_entry parent_id decimal
nodes_of s [] = []
nodes_of s (e ∷ es) = node_of_tier s e (tier_from_labels e.labels) (nodes_of s es)

-- `_work_nodes`
unfoldable pub work_nodes : World → List Node
unfolding nodes_of list_entries
work_nodes w = nodes_of w.remote (list_entries none [] none none w.remote)

-- `_PARENT_OF`: the tier of the parent
unfoldable pub parent_tier_of : Option String → Option String
unfolding str_eq
parent_tier_of none = none
parent_tier_of (some t) =
    if str_eq t "issue" then some "ticket" else if str_eq t "ticket" then some "epic" else none

-- the link of a node to its parent of a tier
unfoldable pub link : (parent_tier : String) → Node → Option String
unfolding str_eq
link parent_tier n = if str_eq parent_tier "ticket" then n.ticket else n.epic

abbrev pub is_text : String → Option String → Bool
is_text s none = false
is_text s (some t) = str_eq t s

unfoldable pub find_node : String → List Node → Option Node
unfolding str_eq
find_node id = find? (λ n. str_eq n.id id)

-- the posts of the child's tier that link up to the parent
unfoldable pub is_sibling : (child_tier parent_tier parent_id : String) → Node → Bool
unfolding link str_eq
is_sibling child_tier parent_tier parent_id n =
    str_eq n.tier child_tier && is_text parent_id (link parent_tier n)

abbrev pub is_finished : Option String → Bool
is_finished none = false
is_finished (some s) = is_terminal s

abbrev pub is_done : Option String → Bool
is_done none = false
is_done (some s) = str_eq s "done"

unfoldable pub new_status : List Node → String
unfolding str_eq
new_status siblings = if any (λ n. is_done n.status) siblings then "done" else "wont_do"

-- a parent that is open and unfinished, all of whose children are finished
abbrev pub closes : Node → List Node → Option (Node × List Node)
closes parent [] = none
closes parent (n ∷ ns) =
    if not parent.is_open || is_finished parent.status
    then none
    else if any (λ n. not (is_finished n.status)) (n ∷ ns)
    then none
    else some (parent, n ∷ ns)

-- the parent that is to be closed, with its children
unfoldable pub ready_parent :
    (child_id : String) (child_tier parent_tier : String) → List Node → Option (Node × List Node)
unfolding find_node link is_sibling is_terminal
ready_parent child_id child_tier parent_tier nodes = elim (find_node child_id nodes) [
  | none ↦ none
  | some child ↦ elim (link parent_tier child) [
    | none ↦ none
    | some pid ↦ elim (find_node pid nodes) [
      | none ↦ none
      | some parent ↦ closes parent (keep (is_sibling child_tier parent_tier pid) nodes)
    ]
  ]
]

abbrev children_word : String → String
children_word tier = if str_eq tier "ticket" then "issues" else "tickets"

-- `_close_parent`
unfoldable pub close_parent : Ctx → Node → (tier new_status : String) → ℕ → World → World
unfolding for_labels set_status close comment rolled_up str_eq
close_parent ctx node tier new_status n w =
    comment ctx node.id (rolled_up n (children_word tier) tier new_status)
      (close ctx node.id (set_status ctx (for_labels node.id node.labels none none) new_status w))

-- `nodes[parent] = {**parent, status, is_open: False}`
unfoldable pub settle_node : (id status : String) → List Node → List Node
unfolding str_eq
settle_node id status =
    map (λ n. if str_eq n.id id then record n { status = some status; is_open = false } else n)

abbrev pub Go : Type 0
Go = String → Option String → List Node → World → World × List String

-- the parent is closed, and the roll-up goes on from it
unfoldable pub raise :
    Ctx
    → (parent_tier : String) → Option (Node × List Node)
    → List Node
    → World
    → Go
    → World × List String
unfolding new_status settle_node close_parent
raise ctx p none nodes w go = (w, [])
raise ctx p (some (parent, siblings)) nodes w go =
    let status = new_status siblings in
    let (w', closed) =
      go parent.id (some p) (settle_node parent.id status nodes)
        (close_parent ctx parent p status (length siblings) w) in
    (w', parent.id ∷ closed)

-- one step up
unfoldable pub climb :
    Ctx
    → (child_id : String) (child_tier parent_tier : Option String) → List Node
    → World
    → Go
    → World × List String
unfolding ready_parent raise
climb ctx child_id (some t) (some p) nodes w go =
    raise ctx p (ready_parent child_id t p nodes) nodes w go
climb ctx child_id _ _ nodes w go = (w, [])

-- `_roll_up_from`; the fuel is the steps that may still be made
unfoldable pub roll_up_from : (fuel : ℕ) → Ctx → Go
unfolding parent_tier_of climb
roll_up_from zero ctx child_id child_tier nodes w = (w, [])
roll_up_from (suc fuel) ctx child_id child_tier nodes w =
    climb ctx child_id child_tier (parent_tier_of child_tier) nodes w (roll_up_from fuel ctx)

-- `roll_up`: from an issue to its ticket and to the epic, above which there is no tier
unfoldable pub roll_up : Ctx → Entity → World → World × List String
unfolding roll_up_from work_nodes tier
roll_up ctx entity w =
    if not ctx.can_write
    then (w, [])
    else roll_up_from 3 ctx entity.post_id (tier entity) (work_nodes w) w
