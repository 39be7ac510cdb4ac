-- ===== src/Dict.antt =====
-- Go's `map[string]string` as an association list. A nil map and an empty one are the same.
use thalassa_workload_identi.Common.{
  ◌≡◌, refl, Option, none, some, List, [], ◌∷◌, arith, if◌then◌else◌,
}
use thalassa_workload_identi.Text.Eq.{Text, text_eq, text_eq_iff}

abbrev pub Dict : Type 0
Dict = List (Text × Text)

-- `v, ok := d[k]`
unfoldable pub lookup : Text → Dict → Option Text
lookup k [] = none
lookup k ((j, v) ∷ d) = if text_eq j k then some v else lookup k d

abbrev pub or_empty : Option Text → Text
or_empty none = []
or_empty (some v) = v

-- `d[k]`, the empty text where the key is missing.
unfoldable pub get : Text → Dict → Text
unfolding lookup
get k d = or_empty (lookup k d)

-- `d[k] = v`
unfoldable pub insert : Text → Text → Dict → Dict
insert k v [] = (k, v) ∷ []
insert k v ((j, w) ∷ d) = if text_eq j k then (k, v) ∷ d else (j, w) ∷ insert k v d

-- `delete(d, k)`
unfoldable pub erase : Text → Dict → Dict
erase k [] = []
erase k ((j, w) ∷ d) = let rest = erase k d in if text_eq j k then rest else (j, w) ∷ rest

pub lookup-insert :
    (k j v : Text) (d : Dict)
    → lookup j (insert k v d) ≡ (if text_eq k j then some v else lookup j d)
unfolding lookup insert
lookup-insert k j v [] = refl
lookup-insert k j v ((i, w) ∷ d) =
    ground (arith, text_eq_iff k j, text_eq_iff i k, text_eq_iff i j, lookup-insert k j v d)

pub lookup-erase :
    (k j : Text) (d : Dict) → lookup j (erase k d) ≡ (if text_eq k j then none else lookup j d)
unfolding lookup erase
lookup-erase k j [] = ground arith
lookup-erase k j ((i, w) ∷ d) =
    ground (arith, text_eq_iff k j, text_eq_iff i k, text_eq_iff i j, lookup-erase k j d)

pub get-insert :
    (k j v : Text) (d : Dict) → get j (insert k v d) ≡ (if text_eq k j then v else get j d)
unfolding get
get-insert k j v d = ground (arith, lookup-insert k j v d)

pub get-erase : (k j : Text) (d : Dict) → get j (erase k d) ≡ (if text_eq k j then [] else get j d)
unfolding get
get-erase k j d = ground (arith, lookup-erase k j d)
