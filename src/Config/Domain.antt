-- ===== src/Config/Domain.antt =====
-- Logger domains and their inheritance (core/src/config/domain.rs).
-- The hash map of domains is an association list without repeated keys.
pub mod Downgrade
mod Tests
use Prim.Native.String.{String}
use text.Mathlib.Text.{◌==◌ as str_eq}
use do_logger.Prelude.{
  ℕ, zero, suc, Bool, false, not, ◌&&◌, ◌||◌, Option, none, some, List, [], ◌∷◌, ◌++◌,
  if◌then◌else◌, Result, ok, err,
}

pub data ArrayMergePolicy : Type 0 where
  replace append unique_append : ArrayMergePolicy

pub record Domain : Type 0 where
  pub name : String
  pub inherits : Option String
  pub level : Option String
  pub sinks : List String
  pub enable_signature : Option Bool
  pub escape_html : Option Bool
  pub worm_enabled : Option Bool
  pub fsync_on_write : Option Bool
  pub require_tls : Option Bool
  pub sign_ring2 : Option Bool
  pub performance_profile : Option String
  pub array_merge_policy : ArrayMergePolicy

abbrev pub Domains : Type 0
Domains = List (String × Domain)

pub lookup : String → Domains → Option Domain
lookup name [] = none
lookup name ((key, domain) ∷ rest) = if str_eq key name then some domain else lookup name rest

pub insert : String → Domain → Domains → Domains
insert name domain [] = (name, domain) ∷ []
insert name domain ((key, old) ∷ rest) =
    if str_eq key name then (name, domain) ∷ rest else (key, old) ∷ insert name domain rest

pub record DomainManager : Type 0 where
  pub domains : Domains
  pub default_domain : String

pub new : DomainManager
new = record {
  domains =
      (
        "default",
        record {
          name = "default";
          inherits = none;
          level = some "INFO";
          sinks = "console" ∷ [];
          enable_signature = some false;
          escape_html = some false;
          worm_enabled = some false;
          fsync_on_write = some false;
          require_tls = some false;
          sign_ring2 = some false;
          performance_profile = some "prod-performance";
          array_merge_policy = unique_append;
        },
      )
      ∷ [];
  default_domain = "default";
}

-- The items of NON_DOWNGRADABLE_ITEMS.
pub data Item : Type 0 where
  item_signature item_escape_html item_worm item_fsync item_tls item_ring2 : Item

pub non_downgradable_items : List Item
non_downgradable_items =
    item_signature ∷ item_escape_html ∷ item_worm ∷ item_fsync ∷ item_tls ∷ item_ring2 ∷ []

pub item_value : Item → Domain → Option Bool
item_value item_signature d = d.enable_signature
item_value item_escape_html d = d.escape_html
item_value item_worm d = d.worm_enabled
item_value item_fsync d = d.fsync_on_write
item_value item_tls d = d.require_tls
item_value item_ring2 d = d.sign_ring2

-- Parent on and child off.
pub loosens : Option Bool → Option Bool → Bool
loosens none c = false
loosens (some p) none = false
loosens (some p) (some c) = p && not c

-- The items that `check_non_downgradable` reports; every report it makes is a failure.
pub check_items : List Item → Domain → Domain → List Item
unfolding item_value loosens
check_items [] parent child = []
check_items (i ∷ is) parent child =
    let rest = check_items is parent child in
    if loosens (item_value i parent) (item_value i child) then i ∷ rest else rest

pub check_non_downgradable : Domain → Domain → List Item
unfolding check_items non_downgradable_items
check_non_downgradable parent child = check_items non_downgradable_items parent child

pub data DomainError : Type 0 where
  unknown_parent not_found parent_not_found : String → DomainError
  violates : List Item → DomainError

pub insert_checked : DomainManager → Domain → List Item → Result DomainError DomainManager
unfolding insert
insert_checked m d [] = ok (record m { domains = insert d.name d m.domains })
insert_checked m d (i ∷ is) = err (violates (i ∷ is))

pub add_below : DomainManager → Domain → String → Option Domain → Result DomainError DomainManager
unfolding insert_checked check_non_downgradable
add_below m d parent_name none = err (unknown_parent parent_name)
add_below m d parent_name (some parent) = insert_checked m d (check_non_downgradable parent d)

pub add_domain : DomainManager → Domain → Result DomainError DomainManager
unfolding add_below lookup
add_domain m d = elim d.inherits [
  | none ↦ insert_checked m d []
  | some parent ↦ add_below m d parent (lookup parent m.domains)
]

pub or_else {ℓ} : {A : Type ℓ} → Option A → Option A → Option A
or_else (some c) p = some c
or_else none p = p

pub contains : List String → String → Bool
contains [] s = false
contains (x ∷ xs) s = str_eq x s || contains xs s

pub add_unique : List String → List String → List String
unfolding contains
add_unique s [] = s
add_unique s (x ∷ xs) = add_unique (if contains s x then s else s ++ (x ∷ [])) xs

pub merge_sinks : ArrayMergePolicy → List String → List String → List String
unfolding add_unique
merge_sinks replace parent child = child
merge_sinks append parent child = parent ++ child
merge_sinks unique_append parent child = add_unique parent child

pub merge_domains : Domain → Domain → Domain
unfolding or_else merge_sinks
merge_domains parent child = record parent {
  name = child.name;
  level = or_else child.level parent.level;
  enable_signature = or_else child.enable_signature parent.enable_signature;
  performance_profile = or_else child.performance_profile parent.performance_profile;
  escape_html = or_else child.escape_html parent.escape_html;
  worm_enabled = or_else child.worm_enabled parent.worm_enabled;
  sign_ring2 = or_else child.sign_ring2 parent.sign_ring2;
  fsync_on_write = or_else child.fsync_on_write parent.fsync_on_write;
  require_tls = or_else child.require_tls parent.require_tls;
  sinks = merge_sinks child.array_merge_policy parent.sinks child.sinks;
}

-- What the loop over the inheritance chain ends with; a cycle of parents uses up any fuel, as the
-- loop of the source does not end.
pub data Resolution : Type 0 where
  resolved : Domain → Resolution
  failed : DomainError → Resolution
  out_of_fuel : Resolution

pub merge_into : Domain → Resolution → Resolution
unfolding merge_domains
merge_into child (resolved parent) = resolved (merge_domains parent child)
merge_into child (failed e) = failed e
merge_into child out_of_fuel = out_of_fuel

-- The domain merged onto what its ancestors resolve to, from the root down.
pub resolve_chain : ℕ → Domains → Domain → Resolution
unfolding merge_into lookup
resolve_chain zero m d = out_of_fuel
resolve_chain (suc fuel) m d = elim d.inherits [
  | none ↦ resolved d
  | some parent_name ↦ elim (lookup parent_name m) [
    | none ↦ failed (parent_not_found parent_name)
    | some parent ↦ merge_into d (resolve_chain fuel m parent)
  ]
]

pub resolve : ℕ → DomainManager → String → Resolution
unfolding resolve_chain lookup
resolve fuel m name = elim (lookup name m.domains) [
  | none ↦ failed (not_found name)
  | some d ↦ resolve_chain fuel m.domains d
]
