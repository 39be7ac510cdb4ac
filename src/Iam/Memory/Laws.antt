-- ===== src/Iam/Memory/Laws.antt =====
-- The service that keeps its resources in lists is lawful.
use thalassa_workload_identi.Common.{
  ==_iff, ◌≡◌, refl, ◌≤◌, true, none, some, List, [], ◌∷◌, ◌++◌, any, ◌==◌, arith, inl, inr,
  Bool-cases,
}
use thalassa_workload_identi.Text.Eq.{Text, text_eq_iff, text_eq_refl}
use thalassa_workload_identi.Dict.{Dict}
use thalassa_workload_identi.Iam.{
  FederatedIdentity, UpdateFederatedIdentityRequest, Reply, answer, Binding,
}
use thalassa_workload_identi.Iam.Laws.{View, IsLawful, IsUpdated, identity_in}
use thalassa_workload_identi.Wif.Labels.{labels_match}
use thalassa_workload_identi.Wif.Find.{first_labelled, binds}
use thalassa_workload_identi.Iam.Memory.{
  Store, bindings_of, role_with, policy_with, updated, count_identity, update_in, find_identity,
  update_identity, memory_client,
}

abbrev pub view_of : Store → View
view_of s = record {
  providers = λ _. s.providers;
  accounts = λ _. s.accounts;
  identities = λ _. s.identities;
  role = λ id. role_with id s.roles;
  roles = s.roles;
  policy = λ id. policy_with id s.policies;
  policies = s.policies;
  role_bindings = λ id. bindings_of id s.role_bindings;
  policy_bindings = λ id. bindings_of id s.policy_bindings;
}

-- What is appended is found where nothing was.
first_labelled-append :
    {A : Type 0} (labels : A → Dict) (want : Dict) (l : List A) (a : A)
    → labels_match (labels a) want ≡ true
    → first_labelled labels want l ≡ none
    → first_labelled labels want (l ++ a ∷ []) ≡ some a
unfolding first_labelled
first_labelled-append labels want [] a h e = rw h
first_labelled-append labels want (b ∷ l) a h e =
    ground (arith, first_labelled-append labels want l a h)

count_pos :
    (want : Dict) (l : List FederatedIdentity) {fi : FederatedIdentity}
    → first_labelled (λ f. f.labels) want l ≡ some fi
    → 1 ≤ count_identity fi.identity l
unfolding first_labelled
count_pos want [] e = cc
count_pos want (g ∷ l) {fi} e =
    ground (arith, count_pos want l {fi = fi}, text_eq_iff g.identity fi.identity)

-- An update of the identity that labels found is found by them.
first_labelled-update_in :
    (r : UpdateFederatedIdentityRequest) (l : List FederatedIdentity) {fi : FederatedIdentity}
    → labels_match r.labels r.labels ≡ true
    → first_labelled (λ f. f.labels) r.labels l ≡ some fi
    → count_identity fi.identity l ≡ 1
    → first_labelled (λ f. f.labels) r.labels (update_in fi.identity r l) ≡ some (updated r fi)
unfolding first_labelled
first_labelled-update_in r [] h e n = cc
first_labelled-update_in r (g ∷ l) {fi} h e n = elim (Bool-cases (labels_match g.labels r.labels)) [
  | inl hit ↦ let same : fi ≡ g = ground arith in rw same (rw text_eq_refl (rw h))
  | inr miss ↦ ground (
    arith,
    count_pos r.labels l {fi = fi},
    text_eq_iff g.identity fi.identity,
    first_labelled-update_in r l {fi = fi} h,
  )
]

find_identity_of_found :
    (want : Dict) (l : List FederatedIdentity) {fi : FederatedIdentity}
    → first_labelled (λ f. f.labels) want l ≡ some fi
    → count_identity fi.identity l ≡ 1
    → find_identity fi.identity l ≡ some fi
unfolding first_labelled
find_identity_of_found want [] e n = cc
find_identity_of_found want (g ∷ l) {fi} e n = ground (
  arith,
  count_pos want l {fi = fi},
  text_eq_iff g.identity fi.identity,
  find_identity_of_found want l {fi = fi},
)

answer_of :
    {A : Type 0} {a b : A} {s t : Store}
    → ◌≡◌ {A = Reply A × Store} (answer a, s) (answer b, t)
    → a ≡ b
answer_of e = cc

state_of :
    {A : Type 0} {a b : A} {s t : Store}
    → ◌≡◌ {A = Reply A × Store} (answer a, s) (answer b, t)
    → s ≡ t
state_of e = cc

update_identity_lem :
    (old : FederatedIdentity) (r : UpdateFederatedIdentityRequest) (s : Store)
    {fi : FederatedIdentity} {t : Store}
    → update_identity old.identity r s ≡ (answer fi, t)
    → labels_match r.labels r.labels ≡ true
    → identity_in (view_of s) r.labels ≡ some old
    → (view_of t ≡ record (view_of s) { identities = (view_of t).identities })
      × (identity_in (view_of t) r.labels ≡ some fi)
      × IsUpdated r old fi
update_identity_lem old r s {fi} {t} e h found =
    elim (Bool-cases (count_identity old.identity s.identities == 1)) [
      | inl one ↦
          let n = (==_iff _ _).0 one in
          let hit = find_identity_of_found r.labels s.identities found n in
          let e' = rw (update_identity, hit, one) at e in
          rw (← answer_of e', ← state_of e')
            (refl, first_labelled-update_in r s.identities h found n, ground arith)
      | inr many ↦ absurd (ground arith)
    ]

any-bindings_of :
    (id sa : Text) (b : Binding) (l : List (Text × Binding))
    → b.service_account ≡ some sa
    → any (binds sa) (bindings_of id ((id, b) ∷ l)) ≡ true
any-bindings_of id sa b l e = rw (text_eq_refl id) (rw e (rw (text_eq_refl sa)))

pub memory_client-IsLawful : IsLawful memory_client
memory_client-IsLawful = record {
  view = view_of;
  read_providers = λ want s. refl;
  read_accounts = λ want s. refl;
  read_identities = λ want s. refl;
  read_role = λ id s. refl;
  read_roles = λ s. refl;
  read_policy = λ id s. refl;
  read_policies = λ s. refl;
  read_role_bindings = λ id s. refl;
  read_policy_bindings = λ id s. refl;
  create_account = λ r s e h fresh.
      rw (← answer_of e, ← state_of e)
        (refl, first_labelled-append (λ sa. sa.labels) r.labels s.accounts _ h fresh);
  create_identity = λ r s e h fresh.
      rw (← answer_of e, ← state_of e)
        (
          refl,
          first_labelled-append (λ fi. fi.labels) r.labels s.identities _ h fresh,
          ground arith,
        );
  update_identity = update_identity_lem;
  create_role_binding =
      λ role r s e. rw (← state_of e) (refl, any-bindings_of role _ _ s.role_bindings refl);
  create_policy_binding =
      λ policy r s e. rw (← state_of e) (refl, any-bindings_of policy _ _ s.policy_bindings refl);
}

-- Its view is that of its lists.
pub memory_client-view : (s : Store) → memory_client-IsLawful.view s ≡ view_of s
unfolding memory_client-IsLawful
memory_client-view s = refl
