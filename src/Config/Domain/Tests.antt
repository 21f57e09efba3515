-- ===== src/Config/Domain/Tests.antt =====
-- Runs and witnesses for domains.
use text.Mathlib.TextEquality.{eq_iff}
use do_logger.Config.Domain.{
  Domain, DomainManager, add_domain, check_non_downgradable, item_signature, item_value, lookup,
  merge_domains, out_of_fuel, resolve, resolved, unique_append,
}
use do_logger.Config.Domain.Downgrade.{
  IsOn, SetApart, downgrade_below_unset, merge-IsOn, resolve_cycle,
}
use do_logger.Prelude.{ok, inl, arith, ◌≡◌, refl, true, false, none, some, [], ◌∷◌}

-- Every item unset.
abbrev plain : Domain
plain = record {
  name = "plain";
  inherits = none;
  level = none;
  sinks = [];
  enable_signature = none;
  escape_html = none;
  worm_enabled = none;
  fsync_on_write = none;
  require_tls = none;
  sign_ring2 = none;
  performance_profile = none;
  array_merge_policy = unique_append;
}

abbrev signed : Domain
signed = record plain { name = "signed"; enable_signature = some true }

abbrev middle : Domain
middle = record plain { name = "middle"; inherits = some "signed" }

abbrev unsigned : Domain
unsigned = record plain {
  name = "unsigned";
  inherits = some "middle";
  enable_signature = some false;
}

abbrev layered : DomainManager
layered = record {
  domains = ("signed", signed) ∷ ("middle", middle) ∷ [];
  default_domain = "signed";
}

merge-IsOn_example : IsOn item_signature (merge_domains signed plain)
unfolding check_non_downgradable item_value
merge-IsOn_example = merge-IsOn signed plain item_signature refl refl

middle-SetApart : SetApart middle unsigned
unfolding item_value
middle-SetApart item_signature = inl refl
middle-SetApart i = inl refl

downgrade_below_unset_example :
    (m : DomainManager) × (add_domain layered unsigned ≡ ok m)
    × (p : Domain) × (resolve 3 m "middle" ≡ resolved p)
    × IsOn item_signature p
    × (d : Domain) × (resolve 3 m "unsigned" ≡ resolved d)
    × (item_value item_signature d ≡ some false)
unfolding item_value lookup
downgrade_below_unset_example =
    downgrade_below_unset layered "signed" "middle" signed middle unsigned item_signature 0 refl
      refl refl refl refl (ground (arith, eq_iff "unsigned" "signed"))
      (ground (arith, eq_iff "unsigned" "middle")) middle-SetApart refl refl

abbrev ours : Domain
ours = record plain { name = "ours"; inherits = some "theirs" }

abbrev theirs : Domain
theirs = record plain { name = "theirs"; inherits = some "ours" }

abbrev cyclic : DomainManager
cyclic = record { domains = ("ours", ours) ∷ ("theirs", theirs) ∷ []; default_domain = "ours" }

resolve_cycle_example : resolve 40 cyclic "ours" ≡ out_of_fuel
unfolding lookup
resolve_cycle_example = resolve_cycle cyclic "ours" "theirs" ours theirs refl refl refl refl 40
