-- ===== src/Kube/Memory.antt =====
-- An API server that keeps its objects by namespace and name, and always answers.
use thalassa_workload_identi.Common.{
  ◌≡◌, refl, Bool, true, false, Option, none, some, List, [], ◌∷◌, ◌++◌, any, all, not, ◌||◌, arith,
  if◌then◌else◌,
}
use thalassa_workload_identi.Text.Eq.{Text, codes, text_eq, text_eq_refl}
use thalassa_workload_identi.Api.{WorkloadIdentityBinding}
use thalassa_workload_identi.Kube.{
  ConfigMap, OwnerReference, Response, given, missing, failed, KubeClient,
}
use thalassa_workload_identi.Kube.Laws.{
  Cluster, put, put_binding, put_account, remaining_binding, remaining_account, Reads, Answers,
  or_new, is_reference, Ownable, IsLawful, IsUp,
}

pub record Store : Type 0 where
  pub cluster : Cluster
  pub config_map_at : Text → Text → Option ConfigMap

abbrev pub responding : {A : Type 0} → Option A → Response A
responding none = missing (codes "not found")
responding (some a) = given a

abbrev pub has_finalizer : List Text → Text → Bool
has_finalizer l f = any (λ g. text_eq g f) l

abbrev pub without_finalizer : List Text → Text → List Text
without_finalizer [] f = []
without_finalizer (g ∷ l) f =
    let rest = without_finalizer l f in if text_eq g f then rest else g ∷ rest

abbrev pub with_finalizer : List Text → Text → List Text
with_finalizer l f = if has_finalizer l f then l else l ++ f ∷ []

-- A controller that is another object is an error, as an AlreadyOwnedError is; else the owner's
-- reference is the only one.
abbrev with_owner : WorkloadIdentityBinding → ConfigMap → ConfigMap
with_owner b cm = record cm {
  owner_references =
      record { kind = codes "WorkloadIdentityBinding"; name = b.name; controller = true } ∷ [];
}

abbrev controlled_by : WorkloadIdentityBinding → ConfigMap → Response ConfigMap
controlled_by b cm =
    if all (λ (r : OwnerReference). not r.controller || is_reference b r) cm.owner_references
    then given (with_owner b cm)
    else failed (codes "already owned")

abbrev pub stored : Text → Text → Response ConfigMap → Store → Response (Unit {0}) × Store
stored ns n (given cm) s =
    (given tt, record s { config_map_at = put ns n (some cm) s.config_map_at })
stored ns n (missing m) s = (missing m, s)
stored ns n (failed m) s = (failed m, s)

abbrev pub kube_memory : KubeClient
kube_memory = record {
  State = Store;
  get_service_account = λ ns n s. (responding (s.cluster.account_at ns n), s);
  update_service_account =
      λ a s. (given tt, record s { cluster = put_account a (remaining_account a) s.cluster });
  get_binding = λ ns n s. (responding (s.cluster.binding_at ns n), s);
  update_binding =
      λ b s. (given tt, record s { cluster = put_binding b (remaining_binding b) s.cluster });
  update_binding_status =
      λ b s. (given tt, record s { cluster = put_binding b (some b) s.cluster });
  create_or_update_config_map =
      λ ns n mutate s. stored ns n (mutate (or_new ns n (s.config_map_at ns n))) s;
  set_controller_reference = controlled_by;
  contains_finalizer = has_finalizer;
  add_finalizer = with_finalizer;
  remove_finalizer = without_finalizer;
  now = λ s. 7;
  rfc3339 = λ t. codes "1970-01-01T00:00:07Z";
}

pub responding-Reads : {A : Type 0} (o : Option A) → Reads o (responding o)
responding-Reads none = refl
responding-Reads (some a) = refl

pub responding-Answers : {A : Type 0} (o : Option A) → Answers o (responding o)
responding-Answers none = (codes "not found", refl)
responding-Answers (some a) = refl

pub stored-cluster :
    (ns n : Text) (r : Response ConfigMap) (s : Store) → (stored ns n r s).1.cluster ≡ s.cluster
stored-cluster ns n (given cm) s = refl
stored-cluster ns n (missing m) s = refl
stored-cluster ns n (failed m) s = refl

has_finalizer-append : (l : List Text) (f : Text) → has_finalizer (l ++ f ∷ []) f ≡ true
has_finalizer-append [] f = rw (text_eq_refl f)
has_finalizer-append (g ∷ l) f = ground (arith, has_finalizer-append l f)

stored_up :
    (ns n : Text) (r : Response ConfigMap) (s : Store)
    → (new : ConfigMap) × (r ≡ given new)
    → (stored ns n r s).0 ≡ given tt
stored_up ns n r s (new, e) = rw e

pub has_finalizer-with : (l : List Text) (f : Text) → has_finalizer (with_finalizer l f) f ≡ true
has_finalizer-with l f = ground (arith, has_finalizer-append l f)

pub has_finalizer-without :
    (l : List Text) (f : Text) → has_finalizer (without_finalizer l f) f ≡ false
has_finalizer-without [] f = refl
has_finalizer-without (g ∷ l) f = ground (arith, has_finalizer-without l f)

pub put_self :
    {A : Type 0} (ns n : Text) (o : Option A) (at : Text → Text → Option A) → put ns n o at ns n ≡ o
put_self ns n o at = rw (text_eq_refl ns, text_eq_refl n)

abbrev pub kube_memory-IsLawful : IsLawful kube_memory
kube_memory-IsLawful = record {
  view = λ s. s.cluster;
  get_service_account_reads = λ ns n s. responding-Reads _;
  get_service_account_keeps = λ ns n s. refl;
  get_binding_reads = λ ns n s. responding-Reads _;
  get_binding_keeps = λ ns n s. refl;
  update_service_account_writes = λ a annotations finalizers s e. refl;
  update_service_account_bindings = λ a s. refl;
  update_binding_writes = λ b finalizers s e. refl;
  update_binding_status_writes = λ b status s e. refl;
  create_or_update_config_map_keeps = λ ns n mutate s. stored-cluster ns n _ s;
  config_map_at = λ s. s.config_map_at;
  get_service_account_maps = λ ns n s. refl;
  update_service_account_maps = λ a s. refl;
  get_binding_maps = λ ns n s. refl;
  update_binding_maps = λ b s. refl;
  update_binding_status_maps = λ b s. refl;
  create_or_update_config_map_writes =
      λ ns n mutate s new up e. rw e (put_self ns n (some new) s.config_map_at);
  contains_finalizer_none = λ f. refl;
  contains_finalizer_added = has_finalizer-with;
  contains_finalizer_removed = has_finalizer-without;
}

controlled_by_up :
    (owner : WorkloadIdentityBinding) (cm : ConfigMap)
    → Ownable owner cm
    → (new : ConfigMap) × (controlled_by owner cm ≡ given new)
      × (new.namespace ≡ cm.namespace)
      × (new.name ≡ cm.name)
      × Ownable owner new
unfolding text_eq
controlled_by_up owner cm (same, free) =
    (with_owner owner cm, rw free, refl, refl, (same, rw (text_eq_refl owner.name)))

pub kube_memory-IsUp : IsUp kube_memory kube_memory-IsLawful
kube_memory-IsUp = record {
  get_service_account_up = λ ns n s. responding-Answers _;
  get_binding_up = λ ns n s e. rw e;
  create_or_update_config_map_up = λ ns n mutate s up.
      let (new, e, _, _) = up in
      stored_up ns n (mutate (or_new ns n (s.config_map_at ns n))) s (new, e);
  set_controller_reference_up = controlled_by_up;
  update_service_account_up = λ a annotations finalizers s e. refl;
  update_binding_up = λ b finalizers s e. refl;
  update_binding_status_up = λ b status s e. refl;
}
