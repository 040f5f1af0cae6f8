-- ===== src/Exclude.antt =====
-- exclude.cc: the exclusion patterns of --exclude. The regular expressions are PCRE's.
use hbackup.Prelude.{
  ◌≡◌, ◌↔◌, ◌⊎◌, refl, [], ◌∷◌, ◌++◌, List, Bool, true, false, Bytes, arith, if◌then◌else◌, All,
}
use hbackup.Outcome.{Result, ok, fatal, ◌>>=◌}

-- What pcre_exec() answers: a match, PCRE_ERROR_NOMATCH, or another error code.
pub data ExecResult : Type 0 where
  match_found no_match exec_error : ExecResult

-- `Regex` is a compiled pattern; pcre_compile() refuses some patterns.
pub record Pcre : Type 1 where
  pub Regex : Type 0
  pub compile : Bytes → Result Regex
  pub exec : Regex → Bytes → ExecResult

module _ (P : Pcre) where
  open P use {Regex, compile, exec}

  -- Exclusion::matches()
  unfoldable pub matches : Regex → Bytes → Result Bool
  matches re s = elim (exec re s) [
    | match_found ↦ ok true
    | no_match ↦ ok false
    | exec_error ↦ fatal
  ]

  -- Exclusions::add(): the patterns in the order of the command line.
  unfoldable pub add : Bytes → List Regex → Result (List Regex)
  add s exclusions = do re ← compile s; ok (exclusions ++ re ∷ [])

  -- Exclusions::excluded(): the first match ends the loop.
  unfoldable pub excluded : List Regex → Bytes → Result Bool
  unfolding matches
  excluded [] path = ok false
  excluded (re ∷ exclusions) path = do
    hit ← matches re path
    if hit then ok true else excluded exclusions path

  -- The patterns that do not match a path, nor fail on it.
  abbrev pub Misses : Bytes → List Regex → Type 0
  Misses path = All (λ re. exec re path ≡ no_match)

  -- The first pattern that does not miss a path matches it.
  abbrev pub FirstMatches : Bytes → List Regex → Type 0
  FirstMatches path [] = ⊥
  FirstMatches path (re ∷ exclusions) =
      (exec re path ≡ match_found) ⊎ ((exec re path ≡ no_match) × FirstMatches path exclusions)

  excluded-false_iff :
      (exclusions : List Regex) (path : Bytes)
      → (excluded exclusions path ≡ ok false) ↔ Misses path exclusions
  unfolding excluded
  excluded-false_iff [] path = (λ _. tt, λ _. refl)
  excluded-false_iff (re ∷ exclusions) path = ground (arith, excluded-false_iff exclusions path)

  excluded-true_iff :
      (exclusions : List Regex) (path : Bytes)
      → (excluded exclusions path ≡ ok true) ↔ FirstMatches path exclusions
  unfolding excluded
  excluded-true_iff [] path = (λ h. absurd (cc), λ h. absurd h)
  excluded-true_iff (re ∷ exclusions) path = ground (arith, excluded-true_iff exclusions path)

  -- A path is kept exactly if every pattern misses it, and excluded exactly if a pattern matches it
  -- and all before that one miss it. In the remaining case, a pattern on which pcre_exec() fails
  -- before any has matched, there is no answer.
  pub excluded_iff :
      (exclusions : List Regex) (path : Bytes)
      → ((excluded exclusions path ≡ ok false) ↔ Misses path exclusions)
        × ((excluded exclusions path ≡ ok true) ↔ FirstMatches path exclusions)
  excluded_iff exclusions path =
      (excluded-false_iff exclusions path, excluded-true_iff exclusions path)
