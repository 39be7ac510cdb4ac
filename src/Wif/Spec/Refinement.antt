-- ===== src/Wif/Spec/Refinement.antt =====
-- A successful ensure run provisions the workload identity, and a second one finds nothing to do.
use thalassa_workload_identi.Common.{◌≡◌, sym, ap, ◌∙◌, false, some, arith}
use thalassa_workload_identi.Text.Eq.{Text}
use thalassa_workload_identi.Errors.{Result, ok}
use thalassa_workload_identi.Iam.{
  FederatedIdentityProvider, ServiceAccount, FederatedIdentity, IamClient,
}
use thalassa_workload_identi.Iam.Monad.{>>=-eq-ok, pure-eq-ok, lift-eq-ok, pure, lift, ◌>>=◌, ◌>>◌}
use thalassa_workload_identi.Iam.Laws.{View, IsLawful, account_in, identity_in}
use thalassa_workload_identi.Wif.Scopes.{IamConstants}
use thalassa_workload_identi.Wif.Find.{find_provider_by_cluster_id}
use thalassa_workload_identi.Wif.Ensure.{
  EnsureInput, EnsureResult, validate_ensure_input, ensure_service_account,
  ensure_federated_identity,
}
use thalassa_workload_identi.Wif.Workload.{
  Names, derive_names, ensure_policy, ensure_role, ensure_resources, ensure_workload_identity,
}
use thalassa_workload_identi.Wif.Spec.{
  provider_in, PolicySettled, RoleSettled, IsProvisioned, outdated,
}
use thalassa_workload_identi.Wif.Spec.Reads.{find_provider_by_cluster_id_lem}
use thalassa_workload_identi.Wif.Spec.Steps.{
  ensure_service_account_lem, ensure_service_account_found, ensure_federated_identity_lem,
  ensure_federated_identity_found,
}
use thalassa_workload_identi.Wif.Spec.Bound.{ensure_policy_lem, ensure_role_lem}
use thalassa_workload_identi.Wif.Spec.Settled.{ensure_policy_settled, ensure_role_settled}
use thalassa_workload_identi.Wif.Spec.Same.{
  derive_names-labels, account_in-same, identity_in-same, provider_in-same, PolicySettled-same,
}

-- The result that a run composes.
abbrev result_of :
    FederatedIdentityProvider → Names → ServiceAccount → FederatedIdentity → Text → EnsureResult
result_of provider n sa fi id = record {
  provider_id = provider.identity;
  service_account_id = sa.identity;
  federated_identity_id = fi.identity;
  policy_id = id;
  issuer = n.issuer;
  subject = n.subject;
  key = n.key;
}

module _ (k : IamConstants) (c : IamClient) (L : IsLawful c) where
  open L use {view}

  -- Whatever federated identity the run will find, it has the subject that it was created with.
  abbrev pub SubjectKept : EnsureInput → View → Type 0
  SubjectKept input v =
      (provider : FederatedIdentityProvider) (n : Names) (fi : FederatedIdentity)
      → provider_in v input.cluster_identity ≡ ok provider
      → derive_names input provider ≡ ok n
      → identity_in v n.labels ≡ some fi
      → fi.provider_subject ≡ n.subject

  -- Over a lawful service in which the workload identity is provisioned, a run returns what is there
  -- and changes nothing.
  pub ensure_workload_identity_settled :
      (input : EnsureInput) (r : EnsureResult) (s : c.State)
      → IsProvisioned k input r (view s)
      → ensure_workload_identity k c input s ≡ (ok r, s)
  unfolding ensure_workload_identity ensure_resources
  ensure_workload_identity_settled input r s p =
      rw
        (
          p.valid,
          find_provider_by_cluster_id_lem c L input.cluster_identity s,
          p.provided,
          p.derived,
        )
        (rw (ensure_service_account_found k c L _ _ _ _ _ s p.account_found) (
          rw
            (ensure_federated_identity_found k c L p.provider p.account _ _ _ _ _ s p.identity_found
              p.identity_current)
            (rw (ensure_policy_settled c L input p.account _ _ s p.policy)
              (rw (ensure_role_settled c L input p.account _ _ s p.role) (ground arith)))))

  after_role :
      (input : EnsureInput) (provider : FederatedIdentityProvider) (n : Names) (s1 s2 s3 s4 : View)
      {sa : ServiceAccount} {fi : FederatedIdentity} {id : Text} {r : EnsureResult}
      → validate_ensure_input input ≡ ok tt
      → provider_in s1 input.cluster_identity ≡ ok provider
      → derive_names input provider ≡ ok n
      → account_in s1 n.labels ≡ some sa
      → s2 ≡ record s1 { identities = s2.identities }
      → identity_in s2 n.labels ≡ some fi
      → outdated k input n fi ≡ false
      → s3 ≡ record s2 { policy_bindings = s3.policy_bindings }
      → PolicySettled s3 input sa id
      → s4 ≡ record s3 { role_bindings = s4.role_bindings }
      → RoleSettled s4 input sa
      → result_of provider n sa fi id ≡ r
      → IsProvisioned k input r s4
  after_role input provider n s1 s2 s3 s4 {sa} {fi} {id} {r} valid provided derived found fr2 there
        current fr3 policy fr4 role e =
      record {
        valid = valid;
        provider = provider;
        provided =
            provider_in-same s4 s1 _ (
              ap (λ (v : View). v.providers) fr4
              ∙ (ap (λ (v : View). v.providers) fr3 ∙ ap (λ (v : View). v.providers) fr2))
            ∙ provided;
        names = n;
        derived = derived;
        account = sa;
        account_found =
            account_in-same s4 s1 _ (
              ap (λ (v : View). v.accounts) fr4
              ∙ (ap (λ (v : View). v.accounts) fr3 ∙ ap (λ (v : View). v.accounts) fr2))
            ∙ found;
        identity = fi;
        identity_found =
            identity_in-same s4 s2 _
              (ap (λ (v : View). v.identities) fr4 ∙ ap (λ (v : View). v.identities) fr3)
            ∙ there;
        identity_current = current;
        policy = rw (← e) (PolicySettled-same s4 s3 input sa id fr4 policy);
        role = role;
        provider_id = sym (ap (λ (x : EnsureResult). x.provider_id) e);
        service_account_id = sym (ap (λ (x : EnsureResult). x.service_account_id) e);
        federated_identity_id = sym (ap (λ (x : EnsureResult). x.federated_identity_id) e);
        issuer = sym (ap (λ (x : EnsureResult). x.issuer) e);
        subject = sym (ap (λ (x : EnsureResult). x.subject) e);
        key = sym (ap (λ (x : EnsureResult). x.key) e);
      }

  -- The two binding steps.
  after_identity :
      (input : EnsureInput) (provider : FederatedIdentityProvider) (n : Names) (s1 : View)
      (s2 : c.State) {sa : ServiceAccount} {fi : FederatedIdentity} {r : EnsureResult} {t : c.State}
      → validate_ensure_input input ≡ ok tt
      → provider_in s1 input.cluster_identity ≡ ok provider
      → derive_names input provider ≡ ok n
      → account_in s1 n.labels ≡ some sa
      → view s2 ≡ record s1 { identities = (view s2).identities }
      → identity_in (view s2) n.labels ≡ some fi
      → outdated k input n fi ≡ false
      → ◌≡◌ {A = Result EnsureResult × c.State}
          ((ensure_policy c input sa n.key n.labels >>= λ id.
              ensure_role c input sa n.key n.labels >> pure (result_of provider n sa fi id))
            s2)
          (ok r, t)
      → IsProvisioned k input r (view t)
  after_identity input provider n s1 s2 {sa} {fi} {r} {t} valid provided derived found fr2 there
        current f =
      let (id, s3, e3, f3) = >>=-eq-ok (ensure_policy c input sa n.key n.labels) _ s2 f in
      let (fr3, policy) = ensure_policy_lem c L input sa n.key n.labels s2 e3 in
      let (_, s4, e4, f4) = >>=-eq-ok (ensure_role c input sa n.key n.labels) _ s3 f3 in
      let (fr4, role) = ensure_role_lem c L input sa n.key n.labels s3 e4 in
      let (same, at_t) = pure-eq-ok f4 in
      rw (← at_t) (
        after_role input provider n s1 (view s2) (view s3) (view s4) valid provided derived found
          fr2 there current fr3 policy fr4 role same)

  -- The steps after the service account.
  after_account :
      (input : EnsureInput) (provider : FederatedIdentityProvider) (n : Names) (s : c.State)
      {sa : ServiceAccount} {s1 : c.State} {r : EnsureResult} {t : c.State}
      → validate_ensure_input input ≡ ok tt
      → provider_in (view s) input.cluster_identity ≡ ok provider
      → derive_names input provider ≡ ok n
      → ((old : FederatedIdentity)
          → identity_in (view s) n.labels ≡ some old
          → old.provider_subject ≡ n.subject)
      → ensure_service_account k c n.sa_name n.subject input.namespace input.service_account
          n.labels s
        ≡ (ok sa, s1)
      → ◌≡◌ {A = Result EnsureResult × c.State}
          ((ensure_federated_identity k c provider sa n.fi_name n.subject input.scopes
                input.trusted_audiences n.labels
              >>= λ fi. ensure_policy c input sa n.key n.labels >>= λ id.
                  ensure_role c input sa n.key n.labels >> pure (result_of provider n sa fi id))
            s1)
          (ok r, t)
      → IsProvisioned k input r (view t)
  after_account input provider n s {sa} {s1} valid provided derived kept e1 f1 =
      let m = derive_names-labels input provider derived in
      let (fr1, found) = ensure_service_account_lem k c L _ _ _ _ n.labels s m e1 in
      let (fi, s2, e2, f2) =
        >>=-eq-ok
          (ensure_federated_identity k c provider sa n.fi_name n.subject input.scopes
            input.trusted_audiences n.labels)
          _ s1 f1 in
      let (fr2, there, current) =
        ensure_federated_identity_lem k c L provider sa _ _ _ _ n.labels s1 m
          (λ old is_there. kept old (
            identity_in-same (view s) (view s1) n.labels (sym (ap (λ (v : View). v.identities) fr1))
            ∙ is_there))
          e2 in
      after_identity input provider n (view s1) s2 valid
        (provider_in-same (view s1) (view s) _ (ap (λ (v : View). v.providers) fr1) ∙ provided)
        derived found fr2 there current f2

  -- The steps that write, from a view in which the names were derived.
  ensure_resources-IsProvisioned :
      (input : EnsureInput) (provider : FederatedIdentityProvider) (n : Names) (s : c.State)
      {r : EnsureResult} {t : c.State}
      → validate_ensure_input input ≡ ok tt
      → provider_in (view s) input.cluster_identity ≡ ok provider
      → derive_names input provider ≡ ok n
      → ((old : FederatedIdentity)
          → identity_in (view s) n.labels ≡ some old
          → old.provider_subject ≡ n.subject)
      → ensure_resources k c input provider n s ≡ (ok r, t)
      → IsProvisioned k input r (view t)
  unfolding ensure_resources
  ensure_resources-IsProvisioned input provider n s {r} {t} valid provided derived kept e =
      let (sa, s1, e1, f1) =
        >>=-eq-ok
          (ensure_service_account k c n.sa_name n.subject input.namespace input.service_account
            n.labels)
          _ s e in
      after_account input provider n s valid provided derived kept e1 f1

  -- The steps after the provider was found.
  after_provider :
      (input : EnsureInput) (provider : FederatedIdentityProvider) (s u u' : c.State)
      {r : EnsureResult} {t : c.State}
      → SubjectKept input (view s)
      → validate_ensure_input input ≡ ok tt
      → s ≡ u
      → find_provider_by_cluster_id c input.cluster_identity u ≡ (ok provider, u')
      → ◌≡◌ {A = Result EnsureResult × c.State}
          ((lift (derive_names input provider) >>= ensure_resources k c input provider) u')
          (ok r, t)
      → IsProvisioned k input r (view t)
  after_provider input provider s u u' {r} {t} kept valid at_u found rest =
      let (provided, at_u') =
        lift-eq-ok _ (rw (find_provider_by_cluster_id_lem c L input.cluster_identity u) at found) in
      let (n, w, named, e) = >>=-eq-ok (lift (derive_names input provider)) _ u' rest in
      let (derived, at_w) = lift-eq-ok _ named in
      let back = at_u ∙ (at_u' ∙ at_w) in
      let provided' = rw (← at_u) at provided in
      ensure_resources-IsProvisioned input provider n s valid provided' derived
        (λ old is_there. kept provider n old provided' derived is_there) (rw (← back) at e)

  -- Over a lawful service, if a federated identity that already has the labels has the subject too, a
  -- run that succeeds leaves the workload identity provisioned as its result records it.
  pub ensure_workload_identity-IsProvisioned :
      (input : EnsureInput) (s : c.State) {r : EnsureResult} {t : c.State}
      → SubjectKept input (view s)
      → ensure_workload_identity k c input s ≡ (ok r, t)
      → IsProvisioned k input r (view t)
  unfolding ensure_workload_identity
  ensure_workload_identity-IsProvisioned input s {r} {t} kept e =
      let (_, u, checked, rest) = >>=-eq-ok (lift (validate_ensure_input input)) _ s e in
      let (valid, at_u) = lift-eq-ok _ checked in
      let (provider, u', found, rest') =
        >>=-eq-ok (find_provider_by_cluster_id c input.cluster_identity) _ u rest in
      after_provider input provider s u u' kept valid at_u found rest'

  -- Under the same conditions, running it again with the same input returns the same result and
  -- changes nothing.
  pub ensure_workload_identity_idem :
      (input : EnsureInput) (s : c.State) {r : EnsureResult} {t : c.State}
      → SubjectKept input (view s)
      → ensure_workload_identity k c input s ≡ (ok r, t)
      → ensure_workload_identity k c input t ≡ (ok r, t)
  ensure_workload_identity_idem input s kept e =
      ensure_workload_identity_settled input _ _
        (ensure_workload_identity-IsProvisioned input s kept e)
