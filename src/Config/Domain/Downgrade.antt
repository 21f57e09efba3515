-- ===== src/Config/Domain/Downgrade.antt =====
-- What a child domain can do to the security items of its ancestors.
use Prim.Native.String.{String}
use do_logger.Config.Domain.{
  Domain, Item, check_non_downgradable, item_signature, item_value, loosens, merge_domains, or_else,
  DomainManager, Domains, add_below, add_domain, check_items, insert, insert_checked, lookup,
  merge_into, non_downgradable_items, out_of_fuel, resolve, resolve_chain, resolved,
}
use text.Mathlib.Text.{◌==◌ as str_eq}
use text.Mathlib.TextEquality.{eq_iff}
use do_logger.Prelude.{
  ◌≡◌, refl, ap, ◌∙◌, Bool, true, false, Option, none, some, List, [], ◌∷◌, arith, ℕ, zero, suc,
  ◌≢◌, ◌⊎◌, inl, inr, ok, if◌then◌else◌,
}

-- The item is on.
abbrev pub IsOn : Item → Domain → Type 0
IsOn i d = item_value i d ≡ some true

module _ (parent child : Domain) where
  check-loosens :
      check_non_downgradable parent child ≡ []
      → (i : Item) → loosens (item_value i parent) (item_value i child) ≡ false
  unfolding check_non_downgradable
  check-loosens e item_signature = ground arith
  check-loosens e i = ground arith

item-merge :
    (parent child : Domain) (i : Item)
    → item_value i (merge_domains parent child) ≡ or_else (item_value i child) (item_value i parent)
unfolding merge_domains item_value
item-merge parent child item_signature = refl
item-merge parent child i = refl

stays_on : (p c : Option Bool) → loosens p c ≡ false → p ≡ some true → or_else c p ≡ some true
unfolding loosens or_else
stays_on p none h e = ground arith
stays_on p (some c) h e = ground arith

-- A child that passes the check against its own parent leaves every item on that is on there:
-- merged into that parent it loosens nothing.
pub merge-IsOn :
    (parent child : Domain) (i : Item)
    → check_non_downgradable parent child ≡ []
    → IsOn i parent
    → IsOn i (merge_domains parent child)
merge-IsOn parent child i h on =
    item-merge parent child i
    ∙ stays_on (item_value i parent) (item_value i child) (check-loosens parent child h i) on

lookup-insert :
    (k j : String) (d : Domain) (m : Domains)
    → lookup j (insert k d m) ≡ (if str_eq k j then some d else lookup j m)
unfolding lookup insert
lookup-insert k j d [] = refl
lookup-insert k j d ((i, e) ∷ m) =
    ground (arith, eq_iff k j, eq_iff i k, eq_iff i j, lookup-insert k j d m)

-- No item is set in both: there is nothing for the check to compare.
abbrev pub SetApart : Domain → Domain → Type 0
SetApart p c = (i : Item) → (item_value i p ≡ none) ⊎ (item_value i c ≡ none)

apart-loosens : (p c : Option Bool) → (p ≡ none) ⊎ (c ≡ none) → loosens p c ≡ false
unfolding loosens
apart-loosens p c (inl e) = rw e refl
apart-loosens none c (inr e) = refl
apart-loosens (some p) c (inr e) = rw e refl

items_apart :
    (parent child : Domain)
    → SetApart parent child
    → (is : List Item) → check_items is parent child ≡ []
unfolding check_items
items_apart parent child apart [] = refl
items_apart parent child apart (i ∷ is) =
    rw (apart-loosens (item_value i parent) (item_value i child) (apart i))
      (items_apart parent child apart is)

check-apart :
    (parent child : Domain) → SetApart parent child → check_non_downgradable parent child ≡ []
unfolding check_non_downgradable
check-apart parent child apart = items_apart parent child apart non_downgradable_items

chain_top :
    (fuel : ℕ) (m : Domains) (d : Domain)
    → d.inherits ≡ none
    → resolve_chain (suc fuel) m d ≡ resolved d
unfolding resolve_chain
chain_top fuel m d e = ground arith

chain_below :
    (fuel : ℕ) (m : Domains) (d parent : Domain) (name : String)
    → d.inherits ≡ some name
    → lookup name m ≡ some parent
    → resolve_chain (suc fuel) m d ≡ merge_into d (resolve_chain fuel m parent)
unfolding resolve_chain
chain_below fuel m d parent name e f = ground arith

resolve_found :
    (fuel : ℕ) (m : DomainManager) (name : String) (d : Domain)
    → lookup name m.domains ≡ some d
    → resolve fuel m name ≡ resolve_chain fuel m.domains d
unfolding resolve
resolve_found fuel m name d e = ground arith

add_below_passes :
    (m : DomainManager) (parent child : Domain) (name : String)
    → child.inherits ≡ some name
    → lookup name m.domains ≡ some parent
    → check_non_downgradable parent child ≡ []
    → add_domain m child ≡ ok (record m { domains = insert child.name child m.domains })
unfolding add_domain add_below insert_checked
add_below_passes m parent child name e f h = ground arith

module _ (m : DomainManager) (root parent child : Domain) (a b : String)
    (root_in : lookup a m.domains ≡ some root) (parent_in : lookup b m.domains ≡ some parent)
    (tops : root.inherits ≡ none) (below_root : parent.inherits ≡ some a)
    (below_parent : child.inherits ≡ some b) (fresh_a : child.name ≢ a)
    (fresh_b : child.name ≢ b) where
  abbrev added : DomainManager
  added = record m { domains = insert child.name child m.domains }

  others_kept : (j : String) → child.name ≢ j → lookup j added.domains ≡ lookup j m.domains
  others_kept j h = ground (arith, lookup-insert child.name j child m.domains, eq_iff child.name j)

  child_in : lookup child.name added.domains ≡ some child
  child_in =
      ground
        (arith, lookup-insert child.name child.name child m.domains, eq_iff child.name child.name)

  chain_parent :
      (fuel : ℕ)
      → resolve_chain (suc (suc fuel)) added.domains parent ≡ resolved (merge_domains root parent)
  unfolding merge_into
  chain_parent fuel =
      chain_below (suc fuel) added.domains parent root a below_root
        (others_kept a fresh_a ∙ root_in)
      ∙ ap (merge_into parent) (chain_top fuel added.domains root tops)

  chain_child :
      (fuel : ℕ)
      → resolve_chain (suc (suc (suc fuel))) added.domains child
        ≡ resolved (merge_domains (merge_domains root parent) child)
  unfolding merge_into
  chain_child fuel =
      chain_below (suc (suc fuel)) added.domains child parent b below_parent
        (others_kept b fresh_b ∙ parent_in)
      ∙ ap (merge_into child) (chain_parent fuel)

-- Adding a domain compares it with its parent alone and not with what the parent inherits. A
-- manager has a domain without a parent, in which a security item is on, and a domain below it; a
-- new domain below that one turns the item off, and sets no item that its parent sets. Then
-- `add_domain` takes it, and when the domains are resolved, with fuel for three of them, the item
-- is on for the parent and off for the child.
pub downgrade_below_unset :
    (m : DomainManager) (a b : String) (root parent child : Domain) (i : Item) (fuel : ℕ)
    → lookup a m.domains ≡ some root
    → lookup b m.domains ≡ some parent
    → root.inherits ≡ none
    → parent.inherits ≡ some a
    → child.inherits ≡ some b
    → child.name ≢ a
    → child.name ≢ b
    → SetApart parent child
    → IsOn i root
    → item_value i child ≡ some false
    → (m' : DomainManager) × (add_domain m child ≡ ok m')
      × (p : Domain) × (resolve (suc (suc (suc fuel))) m' b ≡ resolved p)
      × IsOn i p
      × (d : Domain) × (resolve (suc (suc (suc fuel))) m' child.name ≡ resolved d)
      × (item_value i d ≡ some false)
unfolding or_else
downgrade_below_unset m a b root parent child i fuel ra pb tops br bp fa fb apart on off =
    let m' = record m { domains = insert child.name child m.domains } in
    let unset : item_value i parent ≡ none = ground (arith, apart i) in
    (
      m',
      add_below_passes m parent child b bp pb (check-apart parent child apart),
      merge_domains root parent,
      resolve_found (suc (suc (suc fuel))) m' b parent
            (others_kept m root parent child a b ra pb tops br bp fa fb b fb ∙ pb)
          ∙ chain_parent m root parent child a b ra pb tops br bp fa fb (suc fuel),
      ground (arith, item-merge root parent i),
      merge_domains (merge_domains root parent) child,
      resolve_found (suc (suc (suc fuel))) m' child.name child
            (child_in m root parent child a b ra pb tops br bp fa fb)
          ∙ chain_child m root parent child a b ra pb tops br bp fa fb fuel,
      ground (arith, item-merge (merge_domains root parent) child i),
    )

module _ (m : DomainManager) (a b : String) (da db : Domain) (la : lookup a m.domains ≡ some da)
    (lb : lookup b m.domains ≡ some db) (ia : da.inherits ≡ some b)
    (ib : db.inherits ≡ some a) where
  chain_cycle :
      (fuel : ℕ)
      → (resolve_chain fuel m.domains da ≡ out_of_fuel)
        × (resolve_chain fuel m.domains db ≡ out_of_fuel)
  unfolding resolve_chain
  chain_cycle zero = (refl, refl)
  chain_cycle (suc fuel) = ground (arith, chain_cycle fuel)

-- Two domains that inherit from one another never resolve: the walk up the chain uses up any fuel,
-- so the loop of the source does not end.
pub resolve_cycle :
    (m : DomainManager) (a b : String) (da db : Domain)
    → lookup a m.domains ≡ some da
    → lookup b m.domains ≡ some db
    → da.inherits ≡ some b
    → db.inherits ≡ some a
    → (fuel : ℕ) → resolve fuel m a ≡ out_of_fuel
unfolding resolve
resolve_cycle m a b da db la lb ia ib fuel =
    rw (la, resolve) (chain_cycle m a b da db la lb ia ib fuel).0
