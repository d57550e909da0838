-- ===== src/Config/Urls.antt =====
-- The nodes that RPC_URLS names: what the split and the trim leave.
use mathlib.Core.Path.{subst}
use aave_v3_flash_liquidator.Prelude.{
  ◌≡◌, refl, sym, ap, ◌∙◌, ◌⊎◌, ℕ, true, false, Bool-cases, inl, inr, List, [], ◌∷◌, ◌++◌, map,
  length, ◌≤◌, All, All-append, List-cases, ◌==◌, arith,
}
use aave_v3_flash_liquidator.Text.{Text, text_beq}
use aave_v3_flash_liquidator.Config.{
  split_on, is_space, trim_left, trim_right, trim_space, clean_urls, split_urls,
}

abbrev pub IsFree : ℕ → Text → Type 0
IsFree sep = All (λ c. (c == sep) ≡ false)

-- Not empty, no comma, and no space at either end.
pub record IsUrl (url : Text) : Type 0 where
  pub nonempty : text_beq url [] ≡ false
  pub left : trim_left url ≡ url
  pub right : trim_right url ≡ url
  pub no_comma : IsFree b',' url

split_on-free : (sep : ℕ) (p : Text) → IsFree sep p → split_on sep p ≡ p ∷ []
unfolding split_on
split_on-free sep [] h = refl
split_on-free sep (c ∷ p) h = rw (split_on, h.0, split_on-free sep p h.1) refl

split_on-append :
    (sep : ℕ) (p s : Text) → IsFree sep p → split_on sep (p ++ sep ∷ s) ≡ p ∷ split_on sep s
unfolding split_on
split_on-append sep [] s h =
    let same : (sep == sep) ≡ true = ground arith in rw (split_on, same) refl
split_on-append sep (c ∷ p) s h = rw (split_on, h.0, split_on-append sep p s h.1) refl

abbrev pub AreSpaces : Text → Type 0
AreSpaces = All (λ c. is_space c ≡ true)

trim_left-append : (before s : Text) → AreSpaces before → trim_left (before ++ s) ≡ trim_left s
unfolding trim_left
trim_left-append [] s h = refl
trim_left-append (c ∷ before) s h = rw (trim_left, h.0) (trim_left-append before s h.1)

trim_right-spaces : (after : Text) → AreSpaces after → trim_right after ≡ []
unfolding trim_right
trim_right-spaces [] h = refl
trim_right-spaces (c ∷ after) h = rw (trim_right, trim_right-spaces after h.1, h.0) refl

trim_right-append : (s after : Text) → AreSpaces after → trim_right (s ++ after) ≡ trim_right s
unfolding trim_right
trim_right-append [] after h = trim_right-spaces after h
trim_right-append (c ∷ s) after h = rw (trim_right, trim_right-append s after h) refl

-- What is left at the front starts with no space.
trim_left_cases :
    (s : Text)
    → (trim_left s ≡ []) ⊎ ((c : ℕ) × (t : Text) × (trim_left s ≡ c ∷ t) × (is_space c ≡ false))
unfolding trim_left
trim_left_cases [] = inl refl
trim_left_cases (c ∷ s) = elim (Bool-cases (is_space c)) [
  | inl e ↦ rw (trim_left, e) (trim_left_cases s)
  | inr e ↦ inr (c, s, rw (trim_left, e) refl, e)
]

trim_right-cons : (c : ℕ) (s : Text) → is_space c ≡ false → trim_right (c ∷ s) ≡ c ∷ trim_right s
unfolding trim_right
trim_right-cons c s h = elim (List-cases (trim_right s)) [
  | inl e ↦ rw (trim_right, e, h) refl
  | inr (d, t, e) ↦ rw (trim_right, e) refl
]

trim_right_idem : (s : Text) → trim_right (trim_right s) ≡ trim_right s
unfolding trim_right
trim_right_idem [] = refl
trim_right_idem (c ∷ s) = elim (List-cases (trim_right s)) [
  | inl e ↦ elim (Bool-cases (is_space c)) [
    | inl e' ↦ rw (trim_right, e, e') refl
    | inr e' ↦ rw (trim_right, e, e') (rw (trim_right, e') refl)
  ]
  | inr (d, t, e) ↦
      let rest : trim_right (d ∷ t) ≡ d ∷ t = sym (ap trim_right e) ∙ trim_right_idem s ∙ e in
      rw (trim_right, e) (rw (trim_right, rest) refl)
]

trim_left-cons : (c : ℕ) (s : Text) → is_space c ≡ false → trim_left (c ∷ s) ≡ c ∷ s
unfolding trim_left
trim_left-cons c s h = rw (trim_left, h) refl

trim_left-trim_space : (s : Text) → trim_left (trim_space s) ≡ trim_space s
unfolding trim_left trim_right
trim_left-trim_space s = elim (trim_left_cases s) [
  | inl e ↦ rw (e) refl
  | inr (c, t, e, h) ↦ rw (e, trim_right-cons c t h) (trim_left-cons c (trim_right t) h)
]

IsFree-trim_left : (sep : ℕ) (s : Text) → IsFree sep s → IsFree sep (trim_left s)
unfolding trim_left
IsFree-trim_left sep [] h = tt
IsFree-trim_left sep (c ∷ s) h = elim (Bool-cases (is_space c)) [
  | inl e ↦ rw (trim_left, e) (IsFree-trim_left sep s h.1)
  | inr e ↦ rw (trim_left, e) h
]

IsFree-trim_right : (sep : ℕ) (s : Text) → IsFree sep s → IsFree sep (trim_right s)
unfolding trim_right
IsFree-trim_right sep [] h = tt
IsFree-trim_right sep (c ∷ s) h =
    let rest = IsFree-trim_right sep s h.1 in
    elim (List-cases (trim_right s)) [
      | inl e ↦ elim (Bool-cases (is_space c)) [
        | inl e' ↦ rw (trim_right, e, e') tt
        | inr e' ↦ rw (trim_right, e, e') (h.0, tt)
      ]
      | inr (d, t, e) ↦ rw (trim_right, e) (h.0, subst (IsFree sep) e rest)
    ]

split_on-IsFree : (sep : ℕ) (s : Text) → All (IsFree sep) (split_on sep s)
unfolding split_on
split_on-IsFree sep [] = (tt, tt)
split_on-IsFree sep (c ∷ s) =
    let rest = split_on-IsFree sep s in
    elim (Bool-cases (c == sep)) [
      | inl e ↦ rw (split_on, e) (tt, rest)
      | inr e ↦ elim (List-cases (split_on sep s)) [
        | inl e' ↦ rw (split_on, e, e') ((e, tt), tt)
        | inr (first, others, e') ↦
            let pieces : All (IsFree sep) (first ∷ others) = subst (All (IsFree sep)) e' rest in
            rw (split_on, e, e') ((e, pieces.0), pieces.1)
      ]
    ]

clean_urls-IsUrl : (pieces : List Text) → All (IsFree b',') pieces → All IsUrl (clean_urls pieces)
unfolding clean_urls
clean_urls-IsUrl [] h = tt
clean_urls-IsUrl (p ∷ pieces) h =
    let rest = clean_urls-IsUrl pieces h.1 in
    elim (Bool-cases (text_beq (trim_space p) [])) [
      | inl e ↦ rw (clean_urls, e) rest
      | inr e ↦
          rw (clean_urls, e)
            (
              record {
                nonempty = e;
                left = trim_left-trim_space p;
                right = trim_right_idem (trim_left p);
                no_comma = IsFree-trim_right b',' (trim_left p) (IsFree-trim_left b',' p h.0);
              },
              rest,
            )
    ]

pub split_urls-IsUrl : (raw : Text) → All IsUrl (split_urls raw)
unfolding split_urls
split_urls-IsUrl raw = clean_urls-IsUrl (split_on b',' raw) (split_on-IsFree b',' raw)

-- A URL with spaces around it.
pub record Padded : Type 0 where
  pub before : Text
  pub url : Text
  pub after : Text

pub record IsPadded (p : Padded) : Type 0 where
  pub before : AreSpaces p.before
  pub url : IsUrl p.url
  pub after : AreSpaces p.after

abbrev pub padded_text : Padded → Text
padded_text p = p.before ++ (p.url ++ p.after)

-- The texts one after another with commas between them.
abbrev pub join_commas : List Text → Text
join_commas [] = []
join_commas (s ∷ []) = s
join_commas (s ∷ t ∷ texts) = s ++ b',' ∷ join_commas (t ∷ texts)

split_on-join_commas :
    (s : Text) (texts : List Text)
    → All (IsFree b',') (s ∷ texts)
    → split_on b',' (join_commas (s ∷ texts)) ≡ s ∷ texts
split_on-join_commas s [] h = split_on-free b',' s h.0
split_on-join_commas s (t ∷ texts) h =
    split_on-append b',' s (join_commas (t ∷ texts)) h.0
    ∙ ap (λ r. s ∷ r) (split_on-join_commas t texts h.1)

length-trim_left : (s : Text) → length (trim_left s) ≤ length s
unfolding trim_left
length-trim_left [] = omega arith
length-trim_left (c ∷ s) = ground (arith, length-trim_left s)

trim_left-url : (url after : Text) → IsUrl url → trim_left (url ++ after) ≡ url ++ after
unfolding trim_left
trim_left-url [] after u = absurd (ground (arith, u.nonempty))
trim_left-url (c ∷ t) after u = elim (Bool-cases (is_space c)) [
  | inl e ↦
      let shorter : trim_left t ≡ c ∷ t = rw (trim_left, e) at u.left in
      absurd (omega (arith, length-trim_left t, ap length shorter))
  | inr e ↦ trim_left-cons c (t ++ after) e
]

trim_space-padded : (p : Padded) → IsPadded p → trim_space (padded_text p) ≡ p.url
trim_space-padded p h =
    ap trim_right (trim_left-append p.before (p.url ++ p.after) h.before)
    ∙ ap trim_right (trim_left-url p.url p.after h.url)
    ∙ trim_right-append p.url p.after h.after
    ∙ h.url.right

spaces-IsFree : (s : Text) → AreSpaces s → IsFree b',' s
spaces-IsFree [] h = tt
spaces-IsFree (c ∷ s) h = (ground (arith, h.0), spaces-IsFree s h.1)

padded-IsFree : (p : Padded) → IsPadded p → IsFree b',' (padded_text p)
padded-IsFree p h =
    All-append _ p.before _ (spaces-IsFree p.before h.before)
      (All-append _ p.url p.after h.url.no_comma (spaces-IsFree p.after h.after))

All-IsFree : (ps : List Padded) → All IsPadded ps → All (IsFree b',') (map padded_text ps)
All-IsFree [] h = tt
All-IsFree (p ∷ ps) h = (padded-IsFree p h.0, All-IsFree ps h.1)

clean_urls-padded :
    (ps : List Padded)
    → All IsPadded ps
    → clean_urls (map padded_text ps) ≡ map (λ (p : Padded). p.url) ps
unfolding clean_urls
clean_urls-padded [] h = refl
clean_urls-padded (p ∷ ps) h =
    rw (clean_urls, trim_space-padded p h.0, h.0.url.nonempty, clean_urls-padded ps h.1) refl

-- From URLs with spaces around them and commas between them, the split gives the URLs back.
pub split_urls-join_commas :
    (p : Padded) (ps : List Padded)
    → All IsPadded (p ∷ ps)
    → split_urls (join_commas (map padded_text (p ∷ ps))) ≡ map (λ (q : Padded). q.url) (p ∷ ps)
unfolding split_urls
split_urls-join_commas p ps h =
    ap clean_urls
      (split_on-join_commas (padded_text p) (map padded_text ps) (All-IsFree (p ∷ ps) h))
    ∙ clean_urls-padded (p ∷ ps) h
