-- ===== src/Record/Tags/Allocation.antt =====
-- Vendor tags that are allocated by `vendor_tag_for` alone never name two fields.
use do_logger.Prelude.{
  ℕ, ◌≤◌, ◌<◌, ◌≡◌, refl, ◌↔◌, inl, inr, true, some, List, [], ◌∷◌, arith, ltb, if◌then◌else◌,
  Bool-cases, Bool, Option-cases,
}
use do_logger.Record.Tags.{
  Name, Vendors, allocate_tag, name_eq, no_vendors, tag_of, vendor_tag_for, core_tag, core_tags,
  is_vendor, resolve_tag,
}

pub name_eq_iff : (a b : Name) → (name_eq a b ≡ true) ↔ (a ≡ b)
unfolding name_eq
name_eq_iff [] [] = (λ e. refl, λ e. refl)
name_eq_iff [] (y ∷ ys) = (λ e. cc, λ e. cc)
name_eq_iff (x ∷ xs) [] = (λ e. cc, λ e. cc)
name_eq_iff (x ∷ xs) (y ∷ ys) = ground (arith, name_eq_iff xs ys)

pub tag_of-cons :
    (a b : Name) (t : ℕ) (l : List (Name × ℕ))
    → tag_of a ((b, t) ∷ l) ≡ (if name_eq b a then some t else tag_of a l)
unfolding tag_of
tag_of-cons a b t l = refl

-- The tags of the table are vendor tags below the next one, and no two names share one.
pub record IsSound (v : Vendors) : Type 0 where
  pub next : (64 ≤ v.next) × (v.next ≤ 193)
  pub range : (a : Name) (t : ℕ) → tag_of a v.tags ≡ some t → (64 ≤ t) × (t < v.next)
  pub distinct : (a b : Name) (t : ℕ) → tag_of a v.tags ≡ some t → tag_of b v.tags ≡ some t → a ≡ b

no_vendors-IsSound : IsSound no_vendors
unfolding tag_of
no_vendors-IsSound = record { next = omega arith; range = λ a t e. cc; distinct = λ a b t e e'. cc }

module _ (v : Vendors) (s : IsSound v) where
  allocate_tag-IsSound : (name : Name) → IsSound (allocate_tag name v).0
  unfolding allocate_tag
  allocate_tag-IsSound name = elim (Bool-cases (ltb 192 v.next)) [
    | inl e ↦ rw e s
    | inr e ↦ rw e (record {
      next = (omega (arith, s.next), ground (arith, s.next));
      range = λ a t q. ground (arith, tag_of-cons a name v.next v.tags, s.range a t, s.next);
      distinct = λ a b t q q'. ground (
        arith,
        tag_of-cons a name v.next v.tags,
        tag_of-cons b name v.next v.tags,
        s.distinct a b t,
        s.range a t,
        s.range b t,
        name_eq_iff name a,
        name_eq_iff name b,
      );
    })
  ]

  ready_IsSound : IsSound (record v { ready = true })
  ready_IsSound = record { next = s.next; range = s.range; distinct = s.distinct }

vendor_tag_for-IsSound :
    (v : Vendors)
    → IsSound v
    → (name : Name) (allocate : Bool) → IsSound (vendor_tag_for name allocate v).0
unfolding vendor_tag_for
vendor_tag_for-IsSound v s name allocate = elim (Option-cases (tag_of name v.tags)) [
  | inl e ↦
      rw (e, vendor_tag_for)
        (elim (Bool-cases allocate) [
          | inl f ↦ rw f (allocate_tag-IsSound _ (ready_IsSound v s) name)
          | inr f ↦ rw f (ready_IsSound v s)
        ])
  | inr e ↦ rw (e.1, vendor_tag_for) (ready_IsSound v s)
]

resolve_tag-IsSound :
    (v : Vendors)
    → IsSound v
    → (name : Name) (allocate : Bool) → IsSound (resolve_tag name allocate v).0
unfolding resolve_tag
resolve_tag-IsSound v s name allocate = elim (Option-cases (core_tag name core_tags)) [
  | inl e ↦
      rw (e, resolve_tag)
        (elim (Bool-cases (is_vendor name)) [
          | inl f ↦ rw f (vendor_tag_for-IsSound v s name allocate)
          | inr f ↦ rw f s
        ])
  | inr e ↦ rw (e.1, resolve_tag) s
]

-- The names that the process resolves, and whether each call may allocate.
unfoldable pub resolved : List (Name × Bool) → Vendors → Vendors
resolved [] v = v
resolved ((name, allocate) ∷ rest) v = resolved rest (resolve_tag name allocate v).0

resolved-IsSound :
    (calls : List (Name × Bool)) (v : Vendors) → IsSound v → IsSound (resolved calls v)
unfolding resolved
resolved-IsSound [] v s = s
resolved-IsSound ((name, allocate) ∷ rest) v s =
    resolved-IsSound rest _ (resolve_tag-IsSound v s name allocate)

-- Whatever names a process resolves by `resolve_tag`, in whatever order and starting from the empty
-- table, no two names of the table have one vendor tag, and every tag of the table is between 64
-- and 192.
pub vendor_tags_distinct :
    (calls : List (Name × Bool)) (a b : Name) (t : ℕ)
    → tag_of a (resolved calls no_vendors).tags ≡ some t
    → (64 ≤ t) × (t ≤ 192) × (tag_of b (resolved calls no_vendors).tags ≡ some t → a ≡ b)
vendor_tags_distinct calls a b t e =
    let s = resolved-IsSound calls no_vendors no_vendors-IsSound in
    ((s.range a t e).0, omega (arith, (s.range a t e).1, s.next.1), s.distinct a b t e)
