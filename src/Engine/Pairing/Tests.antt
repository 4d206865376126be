-- ===== src/Engine/Pairing/Tests.antt =====
-- JUCE's functions over byte lists, and concrete targets.
use phonepostmix.Base.{
  ℕ, ◌==◌, ◌≡◌, ◌≢◌, refl, sym, ap, ◌∙◌, arith, true, false, All, append-nil, append_assoc,
  if◌then◌else◌, List, [], ◌∷◌, ◌++◌, map,
}
use phonepostmix.Http.{bytes}
use phonepostmix.Engine.Pairing.{TextOps, check_pairs, authorize_upgrade}
use phonepostmix.Engine.Pairing.Query.{
  Lacks, join, TextLaws, Param, print, grants, authorize_upgrade_lem,
}

abbrev first_char : List ℕ → ℕ
first_char [] = 0
first_char (c ∷ text) = c

pub cut_from : ℕ → List ℕ → List ℕ
cut_from c [] = []
cut_from c (x ∷ xs) = let rest = cut_from c xs in if x == c then xs else rest

pub cut_to : ℕ → List ℕ → List ℕ
cut_to c [] = []
cut_to c (x ∷ xs) = let rest = cut_to c xs in if x == c then [] else x ∷ rest

abbrev last_token : List ℕ → List (List ℕ)
last_token [] = []
last_token (x ∷ token) = (x ∷ token) ∷ []

pub tokens : ℕ → List ℕ → List ℕ → List (List ℕ)
tokens c token [] = last_token token
tokens c token (x ∷ xs) =
    let ended = tokens c [] xs in
    let longer = tokens c (token ++ x ∷ []) xs in if x == c then token ∷ ended else longer

abbrev pub texts : TextOps
texts = record {
  from_first_occurrence_of = λ text c. cut_from (first_char c) text;
  up_to_first_occurrence_of = λ text c. cut_to (first_char c) text;
  from_tokens = λ text c. tokens (first_char c) [] text;
}

cut_from_lem :
    (c : ℕ) (before after : List ℕ) → Lacks c before → cut_from c (before ++ c ∷ after) ≡ after
unfolding cut_from
cut_from_lem c [] after h = ground arith
cut_from_lem c (x ∷ before) after h = ground (arith, h.0, cut_from_lem c before after h.1)

cut_from_absent : (c : ℕ) (text : List ℕ) → Lacks c text → cut_from c text ≡ []
unfolding cut_from
cut_from_absent c [] h = refl
cut_from_absent c (x ∷ text) h = ground (arith, h.0, cut_from_absent c text h.1)

cut_to_lem :
    (c : ℕ) (before after : List ℕ) → Lacks c before → cut_to c (before ++ c ∷ after) ≡ before
unfolding cut_to
cut_to_lem c [] after h = ground arith
cut_to_lem c (x ∷ before) after h = ground (arith, h.0, cut_to_lem c before after h.1)

tokens-first :
    (c : ℕ) (token text after : List ℕ)
    → Lacks c text
    → tokens c token (text ++ c ∷ after) ≡ (token ++ text) ∷ tokens c [] after
unfolding tokens
tokens-first c token [] after h = ground (arith, append-nil token)
tokens-first c token (x ∷ text) after h =
    ground (
      arith,
      h.0,
      tokens-first c (token ++ x ∷ []) text after h.1,
      append_assoc token (x ∷ []) text,
    )

tokens-last :
    (c : ℕ) (token text : List ℕ) → Lacks c text → tokens c token text ≡ last_token (token ++ text)
unfolding tokens
tokens-last c token [] h = ap last_token (sym (append-nil token))
tokens-last c token (x ∷ text) h =
    ground (arith, h.0, tokens-last c (token ++ x ∷ []) text h.1, append_assoc token (x ∷ []) text)

last_token_lem : (token : List ℕ) → token ≢ [] → last_token token ≡ token ∷ []
last_token_lem [] h = absurd (h refl)
last_token_lem (x ∷ token) h = refl

tokens_lem :
    (c : ℕ) (parts : List (List ℕ))
    → All (λ t. Lacks c t × (t ≢ [])) parts
    → tokens c [] (join c parts) ≡ parts
unfolding join
tokens_lem c [] h = unfold tokens in refl
tokens_lem c (t ∷ []) h = tokens-last c [] t h.0.0 ∙ last_token_lem t h.0.1
tokens_lem c (t ∷ u ∷ parts) h =
    tokens-first c [] t (join c (u ∷ parts)) h.0.0 ∙ ap (◌∷◌ t) (tokens_lem c (u ∷ parts) h.1)

texts-TextLaws : TextLaws texts
texts-TextLaws = record {
  from_lem = cut_from_lem;
  from_absent = cut_from_absent;
  up_to_lem = cut_to_lem;
  tokens_lem = tokens_lem;
}

abbrev params : List Param
params =
    record { key = bytes "v"; value = bytes "1" }
    ∷ record { key = bytes "t"; value = bytes "ab" }
    ∷ []

authorize-token :
    (authorize_upgrade texts (bytes "ab") (bytes "/ws?v=1&t=ab") ≡ true)
    × (authorize_upgrade texts (bytes "ab") (bytes "/ws?v=1&t=aa&t=ab") ≡ false)
unfolding authorize_upgrade check_pairs cut_from cut_to tokens
authorize-token = (refl, refl)

authorize_upgrade_lem_example :
    (authorize_upgrade texts (bytes "ab") (bytes "/ws" ++ 63 ∷ join 38 (map print params)) ≡ true)
    × (authorize_upgrade texts (bytes "ab") (bytes "/ws") ≡ false)
unfolding grants
authorize_upgrade_lem_example =
    authorize_upgrade_lem texts texts-TextLaws (bytes "ab") (bytes "/ws") params (ground arith)
      (ground arith)
