-- ===== src/Llm/Balanced.antt =====
-- llm/caller.go, extractJSON: what it cuts out of a text.
use Prim.Native.Char.{Char, code}
use kugelblitz.Common.{
  ℕ, zero, suc, ◌-◌, String, true, Option, none, some, ◌==◌, ◌≡◌, ◌⊎◌, inl, inr, refl, sym, ◌∙◌, ap,
  subst, arith, Bool-cases, Option-cases, some_eq, none_ne_some, if_split,
}
use kugelblitz.Llm.{
  Scan, outside, quoted, escaped, Kind, quote, opening, closing, plain, QuotedKind, backslash,
  end_quote, inner, kind, quoted_kind, put_char, match_from, match_delim, first_of, extract_json,
}

-- One text after another.
unfoldable pub join : String → String → String
join String.[] t = t
join (String.◌∷◌ c s) t = String.◌∷◌ c (join s t)

join_assoc : (s t u : String) → join (join s t) u ≡ join s (join t u)
unfolding join
join_assoc String.[] t u = refl
join_assoc (String.◌∷◌ c s) t u = ap (λ z. String.◌∷◌ c z) (join_assoc s t u)

-- The rest of a string literal, with its end. A backslash takes the next character with it.
pub data Literal : String → Type 0 where
  ending : {c : Char} → quoted_kind c ≡ end_quote → Literal (String.◌∷◌ c String.[])
  letter : {c : Char} {s : String} → quoted_kind c ≡ inner → Literal s → Literal (String.◌∷◌ c s)
  skip :
      {c d : Char} {s : String}
      → quoted_kind c ≡ backslash
      → Literal s
      → Literal (String.◌∷◌ c (String.◌∷◌ d s))

-- A text in which delimiters nest and string literals end. Delimiters in a literal do not count.
pub data Body (opener closer : Char) : String → Type 0 where
  empty : Body opener closer String.[]
  other :
      {c : Char} {s : String}
      → kind opener closer c ≡ plain
      → Body opener closer s
      → Body opener closer (String.◌∷◌ c s)
  literal :
      {c : Char} (t s : String)
      → kind opener closer c ≡ quote
      → Literal t
      → Body opener closer s
      → Body opener closer (String.◌∷◌ c (join t s))
  nested :
      {c : Char} (d : Char) (t s : String)
      → kind opener closer c ≡ opening
      → Body opener closer t
      → kind opener closer d ≡ closing
      → Body opener closer s
      → Body opener closer (String.◌∷◌ c (join t (String.◌∷◌ d s)))

Kind-cases : (k : Kind) → (k ≡ quote) ⊎ ((k ≡ opening) ⊎ ((k ≡ closing) ⊎ (k ≡ plain)))
Kind-cases quote = inl refl
Kind-cases opening = inr (inl refl)
Kind-cases closing = inr (inr (inl refl))
Kind-cases plain = inr (inr (inr refl))

QuotedKind-cases : (k : QuotedKind) → (k ≡ backslash) ⊎ ((k ≡ end_quote) ⊎ (k ≡ inner))
QuotedKind-cases backslash = inl refl
QuotedKind-cases end_quote = inr (inl refl)
QuotedKind-cases inner = inr (inr refl)

put_char-inv :
    (c : Char) (o : Option String) (p : String)
    → put_char c o ≡ some p
    → (q : String) × (o ≡ some q) × (String.◌∷◌ c q ≡ p)
put_char-inv c none p h = absurd (none_ne_some (sym h))
put_char-inv c (some q) p h = (q, refl, some_eq h)

positive : (n : ℕ) → (n ≡ 0 → ⊥) → (m : ℕ) × (n ≡ suc m)
positive zero h = absurd (h refl)
positive (suc m) h = (m, refl)

module _ (opener closer : Char) where
  -- `n` bodies, each with a closing character after it.
  abbrev Closes : ℕ → String → Type 0
  Closes zero p = p ≡ String.[]
  Closes (suc n) p =
      (b : String) × (c : Char) × (q : String) × Body opener closer b
      × (kind opener closer c ≡ closing)
      × Closes n q
      × (p ≡ join b (String.◌∷◌ c q))

  -- What a scan that starts in this state leaves to match.
  abbrev Scanned : Scan → ℕ → String → Type 0
  Scanned outside n p = Closes (suc n) p
  Scanned quoted n p = (t : String) × (q : String) × Literal t × Closes (suc n) q × (p ≡ join t q)
  Scanned escaped n p =
      (d : Char) × (p' : String) × (p ≡ String.◌∷◌ d p')
      × ((t : String) × (q : String) × Literal t × Closes (suc n) q × (p' ≡ join t q))

  match_from-Scanned :
      (n : ℕ) (scan : Scan) (s p : String)
      → match_from opener closer (suc n) scan s ≡ some p
      → Scanned scan n p
  unfolding match_from join
  match_from-Scanned n scan String.[] p h = absurd (none_ne_some (sym h))
  match_from-Scanned n outside (String.◌∷◌ c s) p h = elim (Kind-cases (kind opener closer c)) [
    | inl k ↦
        let (q, e, same) =
          put_char-inv c (match_from opener closer (suc n) quoted s) p (rw (k, match_from) at h) in
        let (t, r, lit, (b, d, u, body, close, rest, r_b), q_t) =
          match_from-Scanned n quoted s q e in
        (
          String.◌∷◌ c (join t b),
          d,
          u,
          literal t b k lit body,
          close,
          rest,
          sym same
              ∙ ap (λ z. String.◌∷◌ c z)
                  (q_t ∙ ap (join t) r_b ∙ sym (join_assoc t b (String.◌∷◌ d u))),
        )
    | inr (inl k) ↦
        let (q, e, same) =
          put_char-inv c (match_from opener closer (suc (suc n)) outside s) p
            (rw (k, match_from) at h) in
        let (b, d, u, body, close, (b', d', u', body', close', rest, u_b), q_b) =
          match_from-Scanned (suc n) outside s q e in
        (
          String.◌∷◌ c (join b (String.◌∷◌ d b')),
          d',
          u',
          nested d b b' k body close body',
          close',
          rest,
          sym same
              ∙ ap (λ z. String.◌∷◌ c z)
                  (q_b
                    ∙ ap (λ z. join b (String.◌∷◌ d z)) u_b
                    ∙ sym (join_assoc b (String.◌∷◌ d b') (String.◌∷◌ d' u'))),
        )
    | inr (inr (inl k)) ↦ elim (Bool-cases (suc n == 1)) [
      | inl last ↦
          let same : String.◌∷◌ c String.[] ≡ p = some_eq (rw (k, match_from, last) at h) in
          (
            String.[],
            c,
            String.[],
            empty,
            k,
            subst (λ z. Closes z String.[]) {x = 0} (ground (arith, last)) refl,
            sym same,
          )
      | inr more ↦
          let (m, n_m) = positive n (ground (arith, more)) in
          let (q, e, same) =
            put_char-inv c (match_from opener closer (suc n - 1) outside s) p
              (rw (k, match_from, more) at h) in
          let e' : match_from opener closer (suc m) outside s ≡ some q =
            subst (λ z. match_from opener closer z outside s ≡ some q) (omega (arith, n_m)) e in
          (
            String.[],
            c,
            q,
            empty,
            k,
            subst (λ z. Closes z q) (sym n_m) (match_from-Scanned m outside s q e'),
            sym same,
          )
    ]
    | inr (inr (inr k)) ↦
        let (q, e, same) =
          put_char-inv c (match_from opener closer (suc n) outside s) p (rw (k, match_from) at h) in
        let (b, d, u, body, close, rest, q_b) = match_from-Scanned n outside s q e in
        (String.◌∷◌ c b, d, u, other k body, close, rest, sym same ∙ ap (λ z. String.◌∷◌ c z) q_b)
  ]
  match_from-Scanned n quoted (String.◌∷◌ c s) p h = elim (QuotedKind-cases (quoted_kind c)) [
    | inl k ↦
        let (q, e, same) =
          put_char-inv c (match_from opener closer (suc n) escaped s) p (rw (k, match_from) at h) in
        let (d, p', q_d, (t, r, lit, closes, p_t)) = match_from-Scanned n escaped s q e in
        (
          String.◌∷◌ c (String.◌∷◌ d t),
          r,
          skip k lit,
          closes,
          sym same ∙ ap (λ z. String.◌∷◌ c z) (q_d ∙ ap (λ z. String.◌∷◌ d z) p_t),
        )
    | inr (inl k) ↦
        let (q, e, same) =
          put_char-inv c (match_from opener closer (suc n) outside s) p (rw (k, match_from) at h) in
        (String.◌∷◌ c String.[], q, ending k, match_from-Scanned n outside s q e, sym same)
    | inr (inr k) ↦
        let (q, e, same) =
          put_char-inv c (match_from opener closer (suc n) quoted s) p (rw (k, match_from) at h) in
        let (t, r, lit, closes, q_t) = match_from-Scanned n quoted s q e in
        (String.◌∷◌ c t, r, letter k lit, closes, sym same ∙ ap (λ z. String.◌∷◌ c z) q_t)
  ]
  match_from-Scanned n escaped (String.◌∷◌ c s) p h =
      let (q, e, same) = put_char-inv c (match_from opener closer (suc n) quoted s) p h in
      (c, q, sym same, match_from-Scanned n quoted s q e)

  -- A bracketed text: an opening character, a body and a closing character.
  abbrev pub IsValue : String → Type 0
  IsValue t =
      (c : Char) × (b : String) × (d : Char) × (kind opener closer c ≡ opening)
      × Body opener closer b
      × (kind opener closer d ≡ closing)
      × (t ≡ String.◌∷◌ c (join b (String.◌∷◌ d String.[])))

  match_delim-IsValue :
      (c : Char) (s t : String)
      → kind opener closer c ≡ opening
      → match_delim opener closer (String.◌∷◌ c s) ≡ some t
      → IsValue t
  unfolding match_from match_delim
  match_delim-IsValue c s t k h =
      let (q, e, same) =
        put_char-inv c (match_from opener closer 1 outside s) t (rw (k, match_from) at h) in
      let (b, d, u, body, close, u_end, q_b) = match_from-Scanned 0 outside s q e in
      (
        c,
        b,
        d,
        k,
        body,
        close,
        sym same ∙ ap (λ z. String.◌∷◌ c z) (q_b ∙ ap (λ z. join b (String.◌∷◌ d z)) u_end),
      )

  -- One more character before a match at the start of a text.
  one_more :
      {s : String}
      → ((m : ℕ) (sc : Scan) (q : String)
          → match_from opener closer m sc s ≡ some q
          → (after : String) × (s ≡ join q after))
      → (n : ℕ) (sc : Scan) (c : Char) (s' p : String)
      → put_char c (match_from opener closer n sc s) ≡ some p
      → (after : String) × (String.◌∷◌ c s ≡ join p after)
  unfolding join
  one_more {s} rest n sc c s' p h =
      let (q, e, same) = put_char-inv c (match_from opener closer n sc s) p h in
      let (after, s_q) = rest n sc q e in
      (after, ap (λ z. String.◌∷◌ c z) s_q ∙ ap (λ z. join z after) same)

  -- The match is where the text starts.
  match_from-join :
      (n : ℕ) (scan : Scan) (s p : String)
      → match_from opener closer n scan s ≡ some p
      → (after : String) × (s ≡ join p after)
  unfolding match_from join
  match_from-join n scan String.[] p h = absurd (none_ne_some (sym h))
  match_from-join n outside (String.◌∷◌ c s) p h = elim (Kind-cases (kind opener closer c)) [
    | inl k ↦
        one_more (λ m sc q e. match_from-join m sc s q e) n quoted c s p (rw (k, match_from) at h)
    | inr (inl k) ↦
        one_more (λ m sc q e. match_from-join m sc s q e) (suc n) outside c s p
          (rw (k, match_from) at h)
    | inr (inr (inl k)) ↦ elim (Bool-cases (n == 1)) [
      | inl last ↦ (s, ap (λ z. join z s) (some_eq (rw (k, match_from, last) at h)))
      | inr more ↦
          one_more (λ m sc q e. match_from-join m sc s q e) (n - 1) outside c s p
            (rw (k, match_from, more) at h)
    ]
    | inr (inr (inr k)) ↦
        one_more (λ m sc q e. match_from-join m sc s q e) n outside c s p (rw (k, match_from) at h)
  ]
  match_from-join n quoted (String.◌∷◌ c s) p h = elim (QuotedKind-cases (quoted_kind c)) [
    | inl k ↦
        one_more (λ m sc q e. match_from-join m sc s q e) n escaped c s p (rw (k, match_from) at h)
    | inr (inl k) ↦
        one_more (λ m sc q e. match_from-join m sc s q e) n outside c s p (rw (k, match_from) at h)
    | inr (inr k) ↦
        one_more (λ m sc q e. match_from-join m sc s q e) n quoted c s p (rw (k, match_from) at h)
  ]
  match_from-join n escaped (String.◌∷◌ c s) p h =
      one_more (λ m sc q e. match_from-join m sc s q e) n quoted c s p h

-- What extractJSON may cut out of a text, and where.
abbrev IsCut : String → String → Type 0
IsCut text t =
    (before : String) × (after : String) × (text ≡ join before (join t after))
    × (IsValue "{" "}" t ⊎ IsValue "[" "]" t)

later : (c : Char) (s t : String) → IsCut s t → IsCut (String.◌∷◌ c s) t
unfolding join
later c s t (before, after, e, v) = (String.◌∷◌ c before, after, ap (λ z. String.◌∷◌ c z) e, v)

kind-brace : (c : Char) → (code c == 123) ≡ true → kind "{" "}" c ≡ opening
unfolding kind
kind-brace c h = ground (arith, h)

kind-bracket : (c : Char) → (code c == 91) ≡ true → kind "[" "]" c ≡ opening
unfolding kind
kind-bracket c h = ground (arith, h)

found_here :
    (opener closer c : Char) (s t : String)
    → kind opener closer c ≡ opening
    → match_delim opener closer (String.◌∷◌ c s) ≡ some t
    → (after : String) × (String.◌∷◌ c s ≡ join t after) × IsValue opener closer t
unfolding match_delim
found_here opener closer c s t k h =
    let (after, e) = match_from-join opener closer 0 outside (String.◌∷◌ c s) t h in
    (after, e, match_delim-IsValue opener closer c s t k h)

first_of-IsCut :
    (opener closer c : Char) (s t : String) (rest : Option String)
    → kind opener closer c ≡ opening
    → (IsValue opener closer t → IsValue "{" "}" t ⊎ IsValue "[" "]" t)
    → (rest ≡ some t → IsCut (String.◌∷◌ c s) t)
    → first_of (match_delim opener closer (String.◌∷◌ c s)) rest ≡ some t
    → IsCut (String.◌∷◌ c s) t
unfolding join
first_of-IsCut opener closer c s t rest k value otherwise h =
    elim (Option-cases (match_delim opener closer (String.◌∷◌ c s))) [
      | inl e ↦ otherwise (subst (λ z. first_of z rest ≡ some t) e h)
      | inr (p, e) ↦
          let same : p ≡ t = some_eq (subst (λ z. first_of z rest ≡ some t) e h) in
          let (after, cut, v) = found_here opener closer c s t k (e ∙ ap (λ z. some z) same) in
          (String.[], after, cut, value v)
    ]

-- What extractJSON returns is a contiguous part of the text, and one object or array as far as its
-- own brackets go: it starts with an opening bracket and ends with the closing bracket that matches
-- it, with the brackets between them nested and the string literals between them ended.
pub extract_json-IsValue :
    (text t : String)
    → extract_json text ≡ some t
    → (before : String) × (after : String) × (text ≡ join before (join t after))
      × (IsValue "{" "}" t ⊎ IsValue "[" "]" t)
unfolding extract_json
extract_json-IsValue String.[] t h = absurd (none_ne_some (sym h))
extract_json-IsValue (String.◌∷◌ c s) t h =
    let text = String.◌∷◌ c s in
    let rest : extract_json s ≡ some t → IsCut text t =
      λ e. later c s t (extract_json-IsValue s t e) in
    if_split (λ z. z ≡ some t → IsCut text t) (code c == 123)
      (λ brace.
        first_of-IsCut "{" "}" c s t (extract_json s) (kind-brace c brace) (λ v. inl v) rest)
      (λ not_brace.
        if_split (λ z. z ≡ some t → IsCut text t) (code c == 91)
          (λ bracket.
            first_of-IsCut "[" "]" c s t (extract_json s) (kind-bracket c bracket) (λ v. inr v)
              rest)
          (λ neither. rest))
      h
