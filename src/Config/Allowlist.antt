-- ===== src/Config/Allowlist.antt =====
-- internal/config/allowlist.go
pub mod Laws
use thalassa_workload_identi.Common.{
  ◌≡◌, Bool, true, false, not, ◌&&◌, ◌||◌, List, [], ◌∷◌, ◌++◌, any, is_nil, if◌then◌else◌,
}
use thalassa_workload_identi.Text.Eq.{Text, is_empty}
use thalassa_workload_identi.Text.Trim.{trim_space}
use thalassa_workload_identi.Text.Fold.{equal_fold}
use thalassa_workload_identi.Errors.{Error, not_in_allowlist, Result, ok, err}

-- One round of the loop over `resolved`: the trimmed text, unless it is blank.
unfoldable pub add_candidate : Text → List Text → List Text
add_candidate r candidates =
    let t = trim_space r in if is_empty t then candidates else candidates ++ t ∷ []

add_candidates : List Text → List Text → List Text
unfolding add_candidate
add_candidates [] candidates = candidates
add_candidates (r ∷ resolved) candidates = add_candidates resolved (add_candidate r candidates)

candidates : Text → List Text → List Text
unfolding add_candidates add_candidate
candidates ref resolved = add_candidates resolved (add_candidate ref [])

-- One entry of the allowlist against all the candidates.
entry_allows : List Text → Text → Bool
entry_allows cs entry =
    let allowed = trim_space entry in not (is_empty allowed) && any (λ c. equal_fold allowed c) cs

unfoldable pub ref_allowed : Text → List Text → List Text → Bool
unfolding candidates entry_allows
ref_allowed ref allowlist resolved =
    if is_nil allowlist then true else any (entry_allows (candidates ref resolved)) allowlist

unfoldable pub check_ref_allowlist : Text → Text → List Text → List Text → Result (Unit {0})
unfolding ref_allowed
check_ref_allowlist kind ref allowlist resolved =
    let r = trim_space ref in
    if is_empty r || is_nil allowlist
    then ok tt
    else if ref_allowed r allowlist resolved
    then ok tt
    else err (not_in_allowlist kind r)
