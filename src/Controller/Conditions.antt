-- ===== src/Controller/Conditions.antt =====
-- The conditions of a binding's status: `setCondition` and `setReadyCondition` of
-- internal/controller/binding_reconcile.go. Times are numbers.
use thalassa_workload_identi.Common.{
  ℕ, ◌≡◌, refl, sym, ap, ◌∙◌, Bool, true, ◌&&◌, Option, none, some, List, [], ◌∷◌, arith, ◌==◌,
  ==_iff, if◌then◌else◌, Bool-cases, inl, inr,
}
use thalassa_workload_identi.Text.Eq.{Text, codes, text_eq, text_eq_iff, text_eq_refl, cut}

pub record Condition : Type 0 where
  pub type : Text
  pub status : Text
  pub reason : Text
  pub message : Text
  pub observed_generation : ℕ
  pub last_transition_time : ℕ

-- `bindingObserved`
pub record BindingObserved : Type 0 where
  pub phase : Text
  pub service_account_id : Text
  pub federated_identity_id : Text
  pub provider_id : Text
  pub policy_id : Text
  pub organisation_id : Text
  pub project_id : Text
  pub ready : Bool
  pub message : Text
  pub reason : Text

-- The comparison of all but the transition time.
abbrev pub agrees : Condition → Condition → Bool
agrees old neu =
    text_eq old.status neu.status
    && text_eq old.reason neu.reason
    && text_eq old.message neu.message
    && old.observed_generation == neu.observed_generation

-- What stands in place of a condition of the same type.
abbrev pub replacement : Condition → Condition → Condition
replacement old neu =
    if agrees old neu
    then old
    else if text_eq old.status neu.status
    then record neu { last_transition_time = old.last_transition_time }
    else neu

unfoldable pub set_condition : List Condition → Condition → List Condition
set_condition [] neu = neu ∷ []
set_condition (old ∷ cs) neu =
    let rest = set_condition cs neu in
    if text_eq old.type neu.type then replacement old neu ∷ cs else old ∷ rest

abbrev pub ready_condition : BindingObserved → ℕ → ℕ → Condition
ready_condition obs generation now = record {
  type = codes "Ready";
  status = if obs.ready then codes "True" else codes "False";
  reason = obs.reason;
  message = cut 1024 obs.message;
  observed_generation = generation;
  last_transition_time = now;
}

unfoldable pub set_ready_condition :
    List Condition → Option BindingObserved → ℕ → ℕ → List Condition
set_ready_condition conditions none generation now = conditions
set_ready_condition conditions (some obs) generation now =
    set_condition conditions (ready_condition obs generation now)

-- The first condition of a type.
abbrev pub condition_of : Text → List Condition → Option Condition
condition_of type [] = none
condition_of type (c ∷ cs) = if text_eq c.type type then some c else condition_of type cs

-- The transition time that a condition ends up with: that of the one before, if its status is the same.
abbrev pub transition_time : Option Condition → Condition → ℕ
transition_time none neu = neu.last_transition_time
transition_time (some old) neu =
    if text_eq old.status neu.status then old.last_transition_time else neu.last_transition_time

replacement-type :
    (old neu : Condition) → text_eq old.type neu.type ≡ true → (replacement old neu).type ≡ neu.type
replacement-type old neu same = ground (arith, (text_eq_iff old.type neu.type).0 same)

agrees_self :
    (neu : Condition) (now : ℕ) → agrees neu (record neu { last_transition_time = now }) ≡ true
agrees_self neu now = rw (
  text_eq_refl neu.status,
  text_eq_refl neu.reason,
  text_eq_refl neu.message,
  (==_iff neu.observed_generation neu.observed_generation).1 refl,
)

agrees-replacement :
    (old neu : Condition) (now : ℕ)
    → agrees (replacement old neu) (record neu { last_transition_time = now }) ≡ true
agrees-replacement old neu now = elim (Bool-cases (agrees old neu)) [
  | inl same ↦ rw same same
  | inr other ↦ elim (Bool-cases (text_eq old.status neu.status)) [
    | inl kept ↦
        rw (other, kept)
          (agrees_self (record neu { last_transition_time = old.last_transition_time }) now)
    | inr moved ↦ rw (other, moved) (agrees_self neu now)
  ]
]

-- Setting a condition again, at any later time, changes nothing.
pub set_condition_idem :
    (cs : List Condition) (neu : Condition) (now : ℕ)
    → set_condition (set_condition cs neu) (record neu { last_transition_time = now })
      ≡ set_condition cs neu
unfolding set_condition
set_condition_idem [] neu now = rw (text_eq_refl neu.type, agrees_self neu now)
set_condition_idem (old ∷ cs) neu now = elim (Bool-cases (text_eq old.type neu.type)) [
  | inl same ↦
      rw same
        (rw (replacement-type old neu same, text_eq_refl neu.type, agrees-replacement old neu now))
  | inr other ↦ rw other (rw (other, set_condition_idem cs neu now))
]

same_condition :
    (old neu : Condition)
    → old.type ≡ neu.type
    → agrees old neu ≡ true
    → old ≡ record neu { last_transition_time = old.last_transition_time }
same_condition old neu type same =
    let status = (text_eq_iff old.status neu.status).0 (ground arith) in
    let reason = (text_eq_iff old.reason neu.reason).0 (ground arith) in
    let message = (text_eq_iff old.message neu.message).0 (ground arith) in
    let generation = (==_iff old.observed_generation neu.observed_generation).0 (ground arith) in
    rw (← type, ← status, ← reason, ← message, ← generation)

replacement_lem :
    (old neu : Condition)
    → text_eq old.type neu.type ≡ true
    → replacement old neu ≡ record neu { last_transition_time = transition_time (some old) neu }
replacement_lem old neu matched = elim (Bool-cases (agrees old neu)) [
  | inl same ↦
      let status : text_eq old.status neu.status ≡ true = ground arith in
      rw (same, status) (same_condition old neu ((text_eq_iff old.type neu.type).0 matched) same)
  | inr other ↦ elim (Bool-cases (text_eq old.status neu.status)) [
    | inl kept ↦ rw (other, kept)
    | inr moved ↦ rw (other, moved)
  ]
]

-- Setting a condition puts the new one in place of the first of its type, or adds it, with the
-- transition time of the one before where that had the same status, and leaves those of other types.
pub set_condition_lem :
    (cs : List Condition) (neu : Condition) (type : Text)
    → condition_of type (set_condition cs neu) ≡ (
        if text_eq neu.type type
        then some
            (record neu { last_transition_time = transition_time (condition_of neu.type cs) neu })
        else condition_of type cs)
unfolding set_condition
set_condition_lem [] neu type = ground arith
set_condition_lem (old ∷ cs) neu type = elim (Bool-cases (text_eq old.type neu.type)) [
  | inl same ↦
      let old_type = ap (λ (x : Text). text_eq x type) ((text_eq_iff old.type neu.type).0 same) in
      elim (Bool-cases (text_eq neu.type type)) [
        | inl hit ↦
            rw (same, replacement-type old neu same, hit)
              (ap (λ c. some c) (replacement_lem old neu same))
        | inr miss ↦ rw (same, replacement-type old neu same, miss, old_type ∙ miss)
      ]
  | inr other ↦ elim (Bool-cases (text_eq neu.type type)) [
    | inl hit ↦
        let apart = ap (text_eq old.type) (sym ((text_eq_iff neu.type type).0 hit)) ∙ other in
        rw (other, hit, apart) (rw (set_condition_lem cs neu type, hit))
    | inr miss ↦ rw (other, miss, set_condition_lem cs neu type, miss)
  ]
]
