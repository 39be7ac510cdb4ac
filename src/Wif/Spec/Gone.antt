-- ===== src/Wif/Spec/Gone.antt =====
-- What is left of the bindings under a policy or a role after ours were dropped.
use thalassa_workload_identi.Common.{
  ◌≡◌, refl, ap, ◌∙◌, Bool, true, false, not, ◌&&◌, ◌||◌, List, [], ◌∷◌, any, all, arith,
  if◌then◌else◌, Bool-cases, inl, inr,
}
use thalassa_workload_identi.Text.Eq.{Text, text_eq, text_eq_iff, text_eq_refl}
use thalassa_workload_identi.Errors.{ok}
use thalassa_workload_identi.Iam.{Binding, IamClient}
use thalassa_workload_identi.Iam.Laws.{View, IsLawful}
use thalassa_workload_identi.Iam.Deletion.{without, drop_policy_binding, IsDeleting}
use thalassa_workload_identi.Wif.Bindings.{is_ours, delete_policy_binding_for_sa}
use thalassa_workload_identi.Wif.Spec.Deletion.{
  drop_ours, drop_policy_bindings, delete_policy_binding_for_sa_lem,
}

-- A list without the identities of ours of another list.
abbrev left_over : Text → List Binding → List Binding → List Binding
left_over sa [] l = l
left_over sa (b ∷ bs) l =
    left_over sa bs (if is_ours sa b then without (λ (d : Binding). d.identity) b.identity l else l)

drop_ours_lem :
    (policy sa : Text) (bs : List Binding) (v : View)
    → (drop_ours (drop_policy_binding policy) sa bs v).policy_bindings policy
      ≡ left_over sa bs (v.policy_bindings policy)
drop_ours_lem policy sa [] v = refl
drop_ours_lem policy sa (b ∷ bs) v = elim (Bool-cases (is_ours sa b)) [
  | inl ours ↦
      rw (drop_ours, ours)
        (drop_ours_lem policy sa bs (drop_policy_binding policy b.identity v)
          ∙ ap (left_over sa bs) (rw (text_eq_refl policy)))
  | inr other ↦ rw (drop_ours, other) (drop_ours_lem policy sa bs v)
]

-- A binding of ours has the identity of one of ours in the list.
abbrev covered : Text → List Binding → Binding → Bool
covered sa bs d =
    not (is_ours sa d) || any (λ (b : Binding). is_ours sa b && text_eq d.identity b.identity) bs

all-without :
    (sa : Text) (b : Binding) (bs l : List Binding)
    → is_ours sa b ≡ true
    → all (covered sa (b ∷ bs)) l ≡ true
    → all (covered sa bs) (without (λ (d : Binding). d.identity) b.identity l) ≡ true
all-without sa b bs [] ours h = refl
all-without sa b bs (d ∷ l) ours h = elim (Bool-cases (text_eq d.identity b.identity)) [
  | inl same ↦ rw same (all-without sa b bs l ours (ground arith))
  | inr other ↦ rw other (ground (arith, all-without sa b bs l ours))
]

all_skip :
    (sa : Text) (b : Binding) (bs l : List Binding)
    → is_ours sa b ≡ false
    → all (covered sa (b ∷ bs)) l ≡ true
    → all (covered sa bs) l ≡ true
all_skip sa b bs [] other h = refl
all_skip sa b bs (d ∷ l) other h = ground (arith, all_skip sa b bs l)

none_covered :
    (sa : Text) (l : List Binding) → all (covered sa []) l ≡ true → any (is_ours sa) l ≡ false
none_covered sa [] h = refl
none_covered sa (d ∷ l) h = ground (arith, none_covered sa l)

left_over_none_ours :
    (sa : Text) (bs l : List Binding)
    → all (covered sa bs) l ≡ true
    → any (is_ours sa) (left_over sa bs l) ≡ false
left_over_none_ours sa [] l h = none_covered sa l h
left_over_none_ours sa (b ∷ bs) l h = elim (Bool-cases (is_ours sa b)) [
  | inl ours ↦ rw ours (left_over_none_ours sa bs _ (all-without sa b bs l ours h))
  | inr other ↦ rw other (left_over_none_ours sa bs l (all_skip sa b bs l other h))
]

covered_more :
    (sa : Text) (b : Binding) (bs l : List Binding)
    → all (covered sa bs) l ≡ true
    → all (covered sa (b ∷ bs)) l ≡ true
covered_more sa b bs [] h = refl
covered_more sa b bs (d ∷ l) h = ground (arith, covered_more sa b bs l)

covered_self : (sa : Text) (bs : List Binding) → all (covered sa bs) bs ≡ true
covered_self sa [] = refl
covered_self sa (b ∷ bs) =
    ground (arith, text_eq_refl b.identity, covered_more sa b bs bs (covered_self sa bs))

-- Once our bindings of an account under a policy are dropped, none of ours is left there.
drop_policy_bindings_none_ours :
    (policy sa : Text) (v : View)
    → any (is_ours sa) ((drop_policy_bindings policy sa v).policy_bindings policy) ≡ false
drop_policy_bindings_none_ours policy sa v =
    rw (drop_ours_lem policy sa (v.policy_bindings policy) v) (
      left_over_none_ours sa (v.policy_bindings policy) (v.policy_bindings policy)
        (covered_self sa (v.policy_bindings policy)))

abbrev pub has_identity : Text → List Binding → Bool
has_identity id l = any (λ (d : Binding). text_eq d.identity id) l

-- No binding of ours has the identity.
abbrev pub not_ours : Text → Text → List Binding → Bool
not_ours sa id bs = all (λ (b : Binding). not (is_ours sa b && text_eq b.identity id)) bs

has_identity-without :
    (id gone : Text) (l : List Binding)
    → text_eq gone id ≡ false
    → has_identity id (without (λ (d : Binding). d.identity) gone l) ≡ has_identity id l
has_identity-without id gone [] h = refl
has_identity-without id gone (d ∷ l) h = elim (Bool-cases (text_eq d.identity gone)) [
  | inl same ↦
      rw same (has_identity-without id gone l h ∙ rw ((text_eq_iff d.identity gone).0 same, h))
  | inr other ↦ rw other (ground (arith, has_identity-without id gone l h))
]

left_over_kept :
    (sa id : Text) (bs l : List Binding)
    → not_ours sa id bs ≡ true
    → has_identity id (left_over sa bs l) ≡ has_identity id l
left_over_kept sa id [] l h = refl
left_over_kept sa id (b ∷ bs) l h = elim (Bool-cases (is_ours sa b)) [
  | inl ours ↦ rw ours (
      left_over_kept sa id bs (without (λ (d : Binding). d.identity) b.identity l) (ground arith)
      ∙ has_identity-without id b.identity l (ground arith))
  | inr other ↦ rw other (left_over_kept sa id bs l (ground arith))
]

drop_policy_bindings_kept :
    (policy sa id : Text) (v : View)
    → not_ours sa id (v.policy_bindings policy) ≡ true
    → has_identity id ((drop_policy_bindings policy sa v).policy_bindings policy)
      ≡ has_identity id (v.policy_bindings policy)
drop_policy_bindings_kept policy sa id v h =
    rw (drop_ours_lem policy sa (v.policy_bindings policy) v)
      (left_over_kept sa id (v.policy_bindings policy) (v.policy_bindings policy) h)

-- Over a lawful service that deletes as is relied on: after a deletion of our bindings of an account
-- under a policy that succeeds, none of ours is left
-- under the policy, and an identity that none of ours had is there as before.
pub delete_policy_binding_for_sa-gone :
    (c : IamClient) (L : IsLawful c) (D : IsDeleting c L) (policy sa id : Text) (s : c.State)
    {x : Unit {0}} {t : c.State}
    → not_ours sa id ((L.view s).policy_bindings policy) ≡ true
    → delete_policy_binding_for_sa c policy sa s ≡ (ok x, t)
    → (any (is_ours sa) ((L.view t).policy_bindings policy) ≡ false)
      × (has_identity id ((L.view t).policy_bindings policy)
          ≡ has_identity id ((L.view s).policy_bindings policy))
delete_policy_binding_for_sa-gone c L D policy sa id s h e =
    rw (delete_policy_binding_for_sa_lem c L D policy sa s e) (
      drop_policy_bindings_none_ours policy sa (L.view s),
      drop_policy_bindings_kept policy sa id (L.view s) h,
    )
