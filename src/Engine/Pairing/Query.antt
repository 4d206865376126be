-- ===== src/Engine/Pairing/Query.antt =====
-- Which targets carry the token.
use phonepostmix.Base.{
  ℕ, ◌≡◌, ◌≢◌, refl, ap, ◌∙◌, Bool, false, bytes_eq, All, if◌then◌else◌, List, [], ◌∷◌, ◌++◌, map,
}
use phonepostmix.Http.{bytes}
use phonepostmix.Engine.Pairing.{TextOps, check_pairs, authorize_upgrade}

abbrev pub Lacks : ℕ → List ℕ → Type 0
Lacks c text = All (λ x. x ≢ c) text

unfoldable pub join : ℕ → List (List ℕ) → List ℕ
join c [] = []
join c (x ∷ []) = x
join c (x ∷ y ∷ xs) = x ++ c ∷ join c (y ∷ xs)

-- The documented behaviour of JUCE's functions for a text of one character.
pub record TextLaws (T : TextOps) : Type 0 where
  pub from_lem :
      (c : ℕ) (before after : List ℕ)
      → Lacks c before
      → T.from_first_occurrence_of (before ++ c ∷ after) (c ∷ []) ≡ after
  pub from_absent :
      (c : ℕ) (text : List ℕ) → Lacks c text → T.from_first_occurrence_of text (c ∷ []) ≡ []
  pub up_to_lem :
      (c : ℕ) (before after : List ℕ)
      → Lacks c before
      → T.up_to_first_occurrence_of (before ++ c ∷ after) (c ∷ []) ≡ before
  pub tokens_lem :
      (c : ℕ) (tokens : List (List ℕ))
      → All (λ t. Lacks c t × (t ≢ [])) tokens
      → T.from_tokens (join c tokens) (c ∷ []) ≡ tokens

-- A parameter of a query, as it is written.
pub record Param : Type 0 where
  pub key : List ℕ
  pub value : List ℕ

abbrev pub print : Param → List ℕ
print p = p.key ++ 61 ∷ p.value

abbrev pub IsPlain : Param → Type 0
IsPlain p = Lacks 61 p.key × Lacks 38 (print p) × (print p ≢ [])

-- The specification: the first parameter `t` has the token as its value.
unfoldable pub grants : List ℕ → List Param → Bool
grants token [] = false
grants token (p ∷ params) =
    if bytes_eq p.key (bytes "t") then bytes_eq p.value token else grants token params

module _ (T : TextOps) (laws : TextLaws T) where
  plain_tokens :
      (params : List Param)
      → All IsPlain params
      → All (λ t. Lacks 38 t × (t ≢ [])) (map print params)
  plain_tokens [] h = tt
  plain_tokens (p ∷ params) h = ((h.0.1, h.0.2), plain_tokens params h.1)

  check_pairs-print :
      (token : List ℕ) (params : List Param)
      → All IsPlain params
      → check_pairs T token (map print params) ≡ grants token params
  unfolding check_pairs grants
  check_pairs-print token [] h = refl
  check_pairs-print token (p ∷ params) h =
      let more = check_pairs-print token params h.1 in
      ap
        (λ k.
          if bytes_eq k (bytes "t")
          then bytes_eq (T.from_first_occurrence_of (print p) (bytes "=")) token
          else check_pairs T token (map print params))
        (laws.up_to_lem 61 p.key p.value h.0.0)
      ∙ ap
          (λ v.
            if bytes_eq p.key (bytes "t")
            then bytes_eq v token
            else check_pairs T token (map print params))
          (laws.from_lem 61 p.key p.value h.0.0)
      ∙ ap (λ r. if bytes_eq p.key (bytes "t") then bytes_eq p.value token else r) more

  -- Where JUCE's functions cut texts as documented, a target with a query is let through just where
  -- the first parameter `t` has the pairing token as its value, for every path without a question
  -- mark and parameters with no `=` in a name and no `&`; a target without a question mark is never
  -- let through.
  pub authorize_upgrade_lem :
      (token path : List ℕ) (params : List Param)
      → Lacks 63 path
      → All IsPlain params
      → (authorize_upgrade T token (path ++ 63 ∷ join 38 (map print params)) ≡ grants token params)
        × (authorize_upgrade T token path ≡ false)
  unfolding authorize_upgrade check_pairs join
  authorize_upgrade_lem token path params h plain = (
    ap (λ q. check_pairs T token (T.from_tokens q (bytes "&")))
          (laws.from_lem 63 path (join 38 (map print params)) h)
        ∙ ap (check_pairs T token)
            (laws.tokens_lem 38 (map print params) (plain_tokens params plain))
        ∙ check_pairs-print token params plain,
    ap (λ q. check_pairs T token (T.from_tokens q (bytes "&"))) (laws.from_absent 63 path h)
        ∙ ap (check_pairs T token) (laws.tokens_lem 38 [] tt),
  )
