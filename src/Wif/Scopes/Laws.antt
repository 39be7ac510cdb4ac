-- ===== src/Wif/Scopes/Laws.antt =====
-- What a scope list is accepted for, and what it is parsed to.
use thalassa_workload_identi.Common.{
  ◌≡◌, refl, sym, ◌∙◌, ◌≢◌, ◌↔◌, ◌⊎◌, inl, inr, Bool, true, false, not, ◌&&◌, ◌||◌, List, [], ◌∷◌,
  ◌++◌, arith, All, Any, any, any_iff, is_nil, if◌then◌else◌, any-append, All-append,
}
use thalassa_workload_identi.Text.Eq.{
  Text, codes, text_eq, is_empty, is_empty_iff, text_eq_iff, text_eq_refl,
}
use thalassa_workload_identi.Text.Trim.{trim_space}
use thalassa_workload_identi.Errors.{Result, ok, err}
use thalassa_workload_identi.Wif.Scopes.{
  IamConstants, scope_open_id, known_scope, parse_scopes_from, or_open_id, parse_scope_list,
}

-- No text stands twice in the list.
abbrev pub Distinct : List Text → Type 0
Distinct [] = Unit
Distinct (x ∷ xs) = (any (text_eq x) xs ≡ false) × Distinct xs

Distinct-append :
    (out : List Text) (p : Text)
    → Distinct out
    → any (text_eq p) out ≡ false
    → Distinct (out ++ p ∷ [])
Distinct-append [] p d h = (refl, tt)
Distinct-append (x ∷ out) p (fresh, d) h = (
  any-append (text_eq x) out (p ∷ []) ∙ ground (arith, text_eq_iff x p, text_eq_iff p x),
  Distinct-append out p d (ground arith),
)

module _ (k : IamConstants) where
  -- What the loop lets pass: a blank part, or a known scope that is not the wildcard.
  abbrev pub Acceptable : Text → Type 0
  Acceptable part =
      (trim_space part ≡ [])
      ⊎ ((trim_space part ≢ codes "*") × (known_scope k (trim_space part) ≡ true))

  abbrev pub Known : Text → Type 0
  Known s = (s ≢ codes "*") × (known_scope k s ≡ true)

  parse_scopes_from-Known :
      (parts out : List Text) {r : List Text}
      → All Known out
      → parse_scopes_from k parts out ≡ ok r
      → All Known r
  unfolding parse_scopes_from
  parse_scopes_from-Known [] out h e = ground arith
  parse_scopes_from-Known (part ∷ parts) out {r} h e = ground (
    arith,
    text_eq_iff (trim_space part) (codes "*"),
    parse_scopes_from-Known parts out {r = r} h,
    parse_scopes_from-Known parts (out ++ trim_space part ∷ []) {r = r},
    All-append Known out (trim_space part ∷ []) h,
  )

  parse_scopes_from-Distinct :
      (parts out : List Text) {r : List Text}
      → Distinct out
      → parse_scopes_from k parts out ≡ ok r
      → Distinct r
  unfolding parse_scopes_from
  parse_scopes_from-Distinct [] out h e = ground arith
  parse_scopes_from-Distinct (part ∷ parts) out {r} h e = ground (
    arith,
    parse_scopes_from-Distinct parts out {r = r} h,
    parse_scopes_from-Distinct parts (out ++ trim_space part ∷ []) {r = r},
    Distinct-append out (trim_space part) h,
  )

  abbrev listed : Text → List Text → Bool
  listed s parts = any (λ p. not (is_empty (trim_space p)) && text_eq s (trim_space p)) parts

  any-parse_scopes_from :
      (s : Text) (parts out : List Text) {r : List Text}
      → parse_scopes_from k parts out ≡ ok r
      → any (text_eq s) r ≡ (any (text_eq s) out || listed s parts)
  unfolding parse_scopes_from
  any-parse_scopes_from s [] out e = ground arith
  any-parse_scopes_from s (part ∷ parts) out {r} e = ground (
    arith,
    any-parse_scopes_from s parts out {r = r},
    any-parse_scopes_from s parts (out ++ trim_space part ∷ []) {r = r},
    any-append (text_eq s) out (trim_space part ∷ []),
    text_eq_iff s (trim_space part),
  )

  parse_scopes_from-accepts :
      (parts out : List Text)
      → All Acceptable parts
      → (r : List Text) × (parse_scopes_from k parts out ≡ ok r)
  unfolding parse_scopes_from
  parse_scopes_from-accepts [] out h = (out, refl)
  parse_scopes_from-accepts (part ∷ parts) out (pass, h) =
      let (r, e) = parse_scopes_from-accepts parts out h in
      let (r', e') = parse_scopes_from-accepts parts (out ++ trim_space part ∷ []) h in
      (
        (if is_empty (trim_space part) || any (text_eq (trim_space part)) out then r else r'),
        ground (arith, text_eq_iff (trim_space part) (codes "*"), is_empty_iff (trim_space part)),
      )

  parse_scopes_from-Acceptable :
      (parts out : List Text) {r : List Text}
      → parse_scopes_from k parts out ≡ ok r
      → All Acceptable parts
  unfolding parse_scopes_from
  parse_scopes_from-Acceptable [] out e = tt
  parse_scopes_from-Acceptable (part ∷ parts) out {r} e = ground (
    arith,
    text_eq_iff (trim_space part) (codes "*"),
    is_empty_iff (trim_space part),
    parse_scopes_from-Acceptable parts out {r = r},
    parse_scopes_from-Acceptable parts (out ++ trim_space part ∷ []) {r = r},
  )

  or_open_id-eq-ok :
      (m : Result (List Text)) {out : List Text}
      → or_open_id k m ≡ ok out
      → (r : List Text) × (m ≡ ok r) × (out ≡ (if is_nil r then scope_open_id ∷ [] else r))
  unfolding or_open_id
  or_open_id-eq-ok (ok r) e = (r, refl, cc)
  or_open_id-eq-ok (err _) e = cc

  -- A list of scopes is accepted exactly when each part is blank, or a known scope and no wildcard.
  pub parse_scope_list-accepts_iff :
      (parts : List Text)
      → ((out : List Text) × (parse_scope_list k parts ≡ ok out)) ↔ All Acceptable parts
  unfolding parse_scope_list
  parse_scope_list-accepts_iff parts = (
    λ (out, e). let (r, e', _) = or_open_id-eq-ok _ e in parse_scopes_from-Acceptable parts [] e',
    λ h.
        let (r, e) = parse_scopes_from-accepts parts [] h in
        ((if is_nil r then scope_open_id ∷ [] else r), (unfold or_open_id in rw e)),
  )

  open_id-Known : Known scope_open_id
  unfolding known_scope
  open_id-Known =
      (λ e. absurd (ground (arith, (text_eq_iff scope_open_id (codes "*")).1 e)), rw text_eq_refl)

  -- The loop's result is empty only if all parts are blank.
  listed_none :
      (parts : List Text)
      → ((s : Text) → listed s parts ≡ false)
      → All (λ p. trim_space p ≡ []) parts
  listed_none [] h = tt
  listed_none (p ∷ parts) h = (
    ground (arith, h (trim_space p), is_empty_iff (trim_space p), text_eq_refl (trim_space p)),
    listed_none parts (λ s. ground (arith, h s)),
  )

  listed-blank :
      (s : Text) (parts : List Text) → All (λ p. trim_space p ≡ []) parts → listed s parts ≡ false
  listed-blank s [] h = refl
  listed-blank s (p ∷ parts) (blank, h) = rw blank (listed-blank s parts h)

  listed_iff :
      (s : Text) (parts : List Text)
      → (listed s parts ≡ true) ↔ Any (λ p. (trim_space p ≢ []) × (s ≡ trim_space p)) parts
  listed_iff s parts =
      any_iff (λ p. not (is_empty (trim_space p)) && text_eq s (trim_space p))
        (λ p. ground (arith, is_empty_iff (trim_space p), text_eq_iff s (trim_space p))) parts

  -- What an accepted list was parsed to.
  pub record IsScopeList (parts out : List Text) : Type 0 where
    pub nonempty : out ≢ []
    pub known : All Known out
    pub distinct : Distinct out
    pub members :
        (s : Text)
        → (any (text_eq s) out ≡ true) ↔ (
            Any (λ p. (trim_space p ≢ []) × (s ≡ trim_space p)) parts
            ⊎ ((s ≡ scope_open_id) × All (λ p. trim_space p ≡ []) parts))

  default-IsScopeList :
      (parts : List Text)
      → parse_scopes_from k parts [] ≡ ok []
      → IsScopeList parts (scope_open_id ∷ [])
  default-IsScopeList parts e =
      let blank = listed_none parts (λ s. sym (any-parse_scopes_from s parts [] e)) in
      record {
        nonempty = λ h. cc;
        known = (open_id-Known, tt);
        distinct = (refl, tt);
        members = λ s. ground (
          arith,
          text_eq_iff s scope_open_id,
          blank,
          listed-blank s parts blank,
          (listed_iff s parts).1,
        );
      }

  listed-IsScopeList :
      (parts : List Text) (x : Text) (r : List Text)
      → parse_scopes_from k parts [] ≡ ok (x ∷ r)
      → IsScopeList parts (x ∷ r)
  listed-IsScopeList parts x r e = record {
    nonempty = λ h. cc;
    known = parse_scopes_from-Known parts [] tt e;
    distinct = parse_scopes_from-Distinct parts [] tt e;
    members = λ s. (
      λ h. inl ((listed_iff s parts).0 (sym (any-parse_scopes_from s parts [] e) ∙ h)),
      λ h. any-parse_scopes_from s parts [] e ∙ elim h [
        | inl found ↦ (listed_iff s parts).1 found
        | inr (_, blank) ↦
            ground (
              arith,
              any-parse_scopes_from x parts [] e,
              listed-blank x parts blank,
              text_eq_refl x,
            )
      ],
    );
  }

  as-IsScopeList :
      (parts r : List Text)
      → parse_scopes_from k parts [] ≡ ok r
      → IsScopeList parts (if is_nil r then scope_open_id ∷ [] else r)
  as-IsScopeList parts [] e = default-IsScopeList parts e
  as-IsScopeList parts (x ∷ r) e = listed-IsScopeList parts x r e

  -- An accepted list is parsed to known scopes, none of them twice or the wildcard: those of the
  -- parts that are not blank, and openid alone where all are blank.
  pub parse_scope_list-IsScopeList :
      (parts out : List Text) → parse_scope_list k parts ≡ ok out → IsScopeList parts out
  unfolding parse_scope_list
  parse_scope_list-IsScopeList parts out e =
      let (r, e', same) = or_open_id-eq-ok _ e in rw same (as-IsScopeList parts r e')
