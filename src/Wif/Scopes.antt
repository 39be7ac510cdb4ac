-- ===== src/Wif/Scopes.antt =====
-- The scope lists of internal/wif/subject.go.
pub mod Laws
use thalassa_workload_identi.Common.{
  ◌≡◌, Bool, true, false, ◌||◌, List, [], ◌∷◌, ◌++◌, any, is_nil, if◌then◌else◌,
}
use thalassa_workload_identi.Text.Eq.{Text, codes, text_eq, is_empty}
use thalassa_workload_identi.Text.Trim.{trim_space}
use thalassa_workload_identi.Text.Split.{split}
use thalassa_workload_identi.Errors.{Error, wildcard_scope, unsupported_scope, Result, ok, err}

-- The constants of github.com/thalassa-cloud/client-go/iam, which is not part of the repository.
pub record IamConstants : Type 0 where
  pub scope_api_read : Text
  pub scope_api_write : Text
  pub scope_kubernetes : Text
  pub scope_object_storage : Text
  pub audience_match_mode_any : Text

-- `AccessCredentialsScopeOpenID`
abbrev pub scope_open_id : Text
scope_open_id = codes "openid"

module _ (k : IamConstants) where
  -- The cases of the `switch`. The scope that is returned is the text itself.
  unfoldable pub known_scope : Text → Bool
  known_scope s =
      text_eq s scope_open_id
      || text_eq s k.scope_api_read
      || text_eq s k.scope_api_write
      || text_eq s k.scope_kubernetes
      || text_eq s k.scope_object_storage

  -- The loop, with what it has put out. Every scope in `seen` is in `out` and the other way round.
  unfoldable pub parse_scopes_from : List Text → List Text → Result (List Text)
  unfolding known_scope
  parse_scopes_from [] out = ok out
  parse_scopes_from (part ∷ parts) out =
      let p = trim_space part in
      let skip = parse_scopes_from parts out in
      let add = parse_scopes_from parts (out ++ p ∷ []) in
      if is_empty p
      then skip
      else if text_eq p (codes "*")
      then err wildcard_scope
      else if known_scope p
      then (if any (text_eq p) out then skip else add)
      else err (unsupported_scope p)

  -- The default, after the loop.
  unfoldable pub or_open_id : Result (List Text) → Result (List Text)
  or_open_id (ok out) = ok (if is_nil out then scope_open_id ∷ [] else out)
  or_open_id (err e) = err e

  unfoldable pub parse_scope_list : List Text → Result (List Text)
  unfolding parse_scopes_from or_open_id
  parse_scope_list parts = or_open_id (parse_scopes_from parts [])

  unfoldable pub parse_scopes : Text → Result (List Text)
  unfolding parse_scope_list
  parse_scopes raw =
      let r = trim_space raw in
      if is_empty r then parse_scope_list [] else parse_scope_list (split b',' r)
