-- ===== src/Trie/Flat/Retrieve.antt =====
-- The index in the result of a lookup retrieves the result's value.
use mathlib.Core.Path.{subst}
use pandora_web_server.Base.{
  ℕ, zero, suc, ◌≡◌, refl, Option, none, some, or, ◌>>=◌, Bytes, List, [], ◌∷◌, length, get_elem?,
}
use pandora_web_server.Trie.Flat.{
  Trie, Node, LookupResult, ChildMatch, matched, partial, missed, broken, follow, to_lookup_result,
  lookup_from, lookup, retrieve,
}

module _ {ℓ} {V : Type ℓ} (t : Trie V) where
  -- A result whose value stands at its index.
  abbrev Stored : Option (LookupResult V) → Type ℓ
  Stored none = Unit
  Stored (some r) = get_elem? t.values r.index ≡ some r.value

  to_lookup_result-Stored : (result : Option ℕ) → Stored (to_lookup_result t result)
  unfolding to_lookup_result
  to_lookup_result-Stored none = tt
  to_lookup_result-Stored (some i) = there (get_elem? t.values i) refl
    where
      there :
          (o : Option V)
          → get_elem? t.values i ≡ o
          → Stored (do value ← o; some (record { value = value; index = i }))
      there none e = tt
      there (some v) e = e

  follow-Stored :
      (above : Option ℕ) (descend : Node → List Bytes → Option (LookupResult V)) (m : ChildMatch)
      → ((child : Node) (rest : List Bytes) → Stored (descend child rest))
      → Stored (follow t above descend m)
  unfolding follow
  follow-Stored above descend (matched child rest) h = h child rest
  follow-Stored above descend partial h = to_lookup_result-Stored above
  follow-Stored above descend missed h = to_lookup_result-Stored above
  follow-Stored above descend broken h = tt

  lookup_from-Stored :
      (fuel : ℕ) (current : Node) (result : Option ℕ) (segments : List Bytes)
      → Stored (lookup_from t fuel current result segments)
  unfolding lookup_from
  lookup_from-Stored fuel current result [] = to_lookup_result-Stored _
  lookup_from-Stored zero current result (s ∷ segments) = tt
  lookup_from-Stored (suc fuel) current result (s ∷ segments) =
      follow-Stored _ _ _
        (λ child rest. lookup_from-Stored fuel child (or current.value_prefix result) rest)

  -- In every trie, the index in the result of a lookup retrieves the value of the result.
  pub retrieve-lookup :
      (segments : List Bytes) (r : LookupResult V)
      → lookup t segments ≡ some r
      → retrieve t r.index ≡ some r.value
  unfolding lookup retrieve
  retrieve-lookup segments r e = subst Stored e (go (get_elem? t.nodes 0))
    where
      go :
          (o : Option Node)
          → Stored (elim o [
            | none ↦ none
            | some root ↦ lookup_from t (length segments) root none segments
          ])
      go none = tt
      go (some root) = lookup_from-Stored (length segments) root none segments
