-- ===== src/Query/RoundTrip.antt =====
-- What a server reads from an encoded query.
use correlation.Base.{
  ℕ, Text, List, [], ◌∷◌, ◌++◌, map, false, ◌==◌, ◌≡◌, ◌≢◌, refl, ap, ap₂, ◌∙◌, arith, leb,
  if◌then◌else◌, ◌+◌, ◌-◌, ◌*◌, ◌/◌, ◌%◌, ◌<◌, All, All-append, Lacks, Bool-cases, inl, inr, ◌⊎◌,
}
use correlation.Strings.{split}
use correlation.Strings.Parts.{split-join}
use correlation.Query.{is_unreserved, hex, escape_byte, query_escape, pair_text, spell}

abbrev unhex : ℕ → ℕ
unhex c = if leb c b'9' then c - b'0' else c - b'A' + 10

-- Percent decoding of a part of a query.
unfoldable pub query_unescape : Text → Text
query_unescape [] = []
query_unescape (c ∷ []) = (if c == b'+' then 32 else c) ∷ []
query_unescape (c ∷ d ∷ []) = (if c == b'+' then 32 else c) ∷ query_unescape (d ∷ [])
query_unescape (c ∷ d ∷ e ∷ s) =
    let plain = query_unescape (d ∷ e ∷ s) in
    let rest = query_unescape s in
    if c == b'%' then (unhex d * 16 + unhex e) ∷ rest else (if c == b'+' then 32 else c) ∷ plain

unhex-hex : (n : ℕ) → n < 16 → unhex (hex n) ≡ n
unhex-hex n h = ground arith

unescape_plain :
    (c : ℕ) (t : Text)
    → (c == b'%') ≡ false
    → query_unescape (c ∷ t) ≡ (if c == b'+' then 32 else c) ∷ query_unescape t
unfolding query_unescape
unescape_plain c [] h = refl
unescape_plain c (d ∷ []) h = refl
unescape_plain c (d ∷ e ∷ t) h = rw h

unescape_hex :
    (d e : ℕ) (t : Text)
    → query_unescape (b'%' ∷ d ∷ e ∷ t) ≡ (unhex d * 16 + unhex e) ∷ query_unescape t
unfolding query_unescape
unescape_hex d e t = refl

both_hex : (c : ℕ) → c < 256 → unhex (hex (c / 16)) * 16 + unhex (hex (c % 16)) ≡ c
both_hex c h = omega (arith, unhex-hex (c / 16) (omega arith), unhex-hex (c % 16) (omega arith))

unescape-escape_byte :
    (c : ℕ) (t : Text) → c < 256 → query_unescape (escape_byte c ++ t) ≡ c ∷ query_unescape t
unfolding escape_byte
unescape-escape_byte c t h = elim (Bool-cases (is_unreserved c)) [
  | inl u ↦ rw u (unescape_plain c t (ground arith) ∙ ap (λ x. x ∷ query_unescape t) (ground arith))
  | inr u ↦ elim (Bool-cases (c == 32)) [
    | inl e ↦ rw (u, e) (unescape_plain b'+' t refl ∙ ground arith)
    | inr e ↦ rw (u, e) (unescape_hex _ _ t ∙ ap (λ x. x ∷ query_unescape t) (both_hex c h))
  ]
]

abbrev pub IsBytes : Text → Type 0
IsBytes = All (λ c. c < 256)

-- Unescaping is the inverse of url.QueryEscape on bytes.
pub query_unescape-query_escape : (s : Text) → IsBytes s → query_unescape (query_escape s) ≡ s
unfolding query_escape
query_unescape-query_escape [] h = unfold query_unescape in refl
query_unescape-query_escape (c ∷ s) (hc, h) =
    unescape-escape_byte c (query_escape s) hc ∙ ap (◌∷◌ c) (query_unescape-query_escape s h)

escape_byte-Lacks : (b c : ℕ) → (b ≡ b'&') ⊎ (b ≡ b'=') → c < 256 → Lacks b (escape_byte c)
unfolding escape_byte
escape_byte-Lacks b c special h = ground arith

query_escape-Lacks :
    (b : ℕ) (s : Text) → (b ≡ b'&') ⊎ (b ≡ b'=') → IsBytes s → Lacks b (query_escape s)
unfolding query_escape
query_escape-Lacks b [] special h = tt
query_escape-Lacks b (c ∷ s) special (hc, h) =
    All-append (λ x. x ≢ b) (escape_byte c) (query_escape s) (escape_byte-Lacks b c special hc)
      (query_escape-Lacks b s special h)

-- the text before the first separator, and the text behind it
abbrev pub cut : ℕ → Text → Text × Text
cut sep [] = ([], [])
cut sep (c ∷ s) = let (p, q) = cut sep s in if c == sep then ([], s) else (c ∷ p, q)

cut-append : (sep : ℕ) (s t : Text) → Lacks sep s → cut sep (s ++ sep ∷ t) ≡ (s, t)
cut-append sep [] t h = ground arith
cut-append sep (c ∷ s) t (hc, h) = ground (arith, cut-append sep s t h)

-- a key with its value, as a server reads it
abbrev pub read_pair : Text → Text × Text
read_pair p = let (k, v) = cut b'=' p in (query_unescape k, query_unescape v)

-- What a server makes of a query: its pairs, in order.
unfoldable pub read_query : Text → List (Text × Text)
read_query s = map read_pair (split b'&' s)

abbrev pub IsBytePair : Text × Text → Type 0
IsBytePair (k, v) = IsBytes k × IsBytes v

read_pair-pair_text : (p : Text × Text) → IsBytePair p → read_pair (pair_text p) ≡ p
unfolding pair_text
read_pair-pair_text (k, v) (hk, hv) =
    ap (λ (r : Text × Text). (query_unescape r.0, query_unescape r.1))
      (cut-append b'=' (query_escape k) (query_escape v) (query_escape-Lacks b'=' k (inr refl) hk))
    ∙ ap₂ (λ a b. (a, b)) (query_unescape-query_escape k hk) (query_unescape-query_escape v hv)

pair_text-Lacks : (p : Text × Text) → IsBytePair p → Lacks b'&' (pair_text p)
unfolding pair_text
pair_text-Lacks (k, v) (hk, hv) =
    All-append (λ c. c ≢ b'&') (query_escape k) (b'=' ∷ query_escape v)
      (query_escape-Lacks b'&' k (inl refl) hk)
      ((λ e. absurd (omega arith)), query_escape-Lacks b'&' v (inl refl) hv)

pair_texts-Lacks :
    (ps : List (Text × Text)) → All IsBytePair ps → All (Lacks b'&') (map pair_text ps)
pair_texts-Lacks [] h = tt
pair_texts-Lacks (p ∷ ps) (hp, h) = (pair_text-Lacks p hp, pair_texts-Lacks ps h)

map-read_pair :
    (ps : List (Text × Text)) → All IsBytePair ps → map read_pair (map pair_text ps) ≡ ps
map-read_pair [] h = refl
map-read_pair (p ∷ ps) (hp, h) = ap₂ ◌∷◌ (read_pair-pair_text p hp) (map-read_pair ps h)

-- A server reads from an encoded query the pairs that were encoded, if there is one.
pub read_query-spell :
    (p : Text × Text) (ps : List (Text × Text))
    → All IsBytePair (p ∷ ps)
    → read_query (spell (p ∷ ps)) ≡ p ∷ ps
unfolding read_query spell
read_query-spell p ps h =
    ap (map read_pair)
      (split-join b'&' (pair_text p) (map pair_text ps) (pair_texts-Lacks (p ∷ ps) h))
    ∙ map-read_pair (p ∷ ps) h
