-- ===== src/Engine/Pairing.antt =====
-- `authorizeUpgrade` of `StreamEngine`, which checks the pairing token of a request's target.
pub mod Query
pub mod Tests
use phonepostmix.Base.{ℕ, Bool, true, false, bytes_eq, if◌then◌else◌, List, [], ◌∷◌, ◌++◌}
use phonepostmix.Http.{bytes}

-- What the code asks of juce::String and juce::StringArray, with case sensitive search that leaves the
-- text searched for out, and with no quotes.
pub record TextOps : Type 0 where
  pub from_first_occurrence_of : List ℕ → List ℕ → List ℕ
  pub up_to_first_occurrence_of : List ℕ → List ℕ → List ℕ
  pub from_tokens : List ℕ → List ℕ → List (List ℕ)

module _ (T : TextOps) where
  -- The loop over the pairs.
  unfoldable pub check_pairs : List ℕ → List (List ℕ) → Bool
  check_pairs token [] = false
  check_pairs token (pair ∷ pairs) =
      let rest = check_pairs token pairs in
      if bytes_eq (T.up_to_first_occurrence_of pair (bytes "=")) (bytes "t")
      then bytes_eq (T.from_first_occurrence_of pair (bytes "=")) token
      else rest

  unfoldable pub authorize_upgrade : List ℕ → List ℕ → Bool
  unfolding check_pairs
  authorize_upgrade token target =
      check_pairs token (T.from_tokens (T.from_first_occurrence_of target (bytes "?")) (bytes "&"))
