-- ===== src/Config/Sources.antt =====
-- server/config.py: where the tokens that are accepted come from.
use thchaos_backend.Prelude.{
  String, Option, none, some, [], ◌∷◌, ◌≡◌, ◌⊎◌, inl, inr, ◌==◌, string_eq, eq_iff, Bool-cases,
  refl, sym, ap, subst, not, ◌∙◌,
}
use thchaos_backend.Prelude.Dict.{Dict, lookup, insert}
use thchaos_backend.Protocol.Envelope.{
  Json, null, flag, number, negative, float, text, array, object, Members, end, member,
}
use thchaos_backend.Config.{is_token, to_dict, token_items, token_map, parsed_tokens}

-- The pair is in the dictionary; the member is in the object.
abbrev Holds : {V : Type 0} → String → V → Dict V → Type 0
Holds k v [] = ⊥
Holds k v ((j, w) ∷ d) = ((j ≡ k) × (w ≡ v)) ⊎ Holds k v d

abbrev pub HasMember : String → Json → Members → Type 0
HasMember k v end = ⊥
HasMember k v (member j w rest) = ((j ≡ k) × (w ≡ v)) ⊎ HasMember k v rest

insert-Holds :
    {V : Type 0} (k j : String) (v w : V) (d : Dict V)
    → Holds k v (insert j w d)
    → ((j ≡ k) × (w ≡ v)) ⊎ Holds k v d
unfolding insert
insert-Holds k j v w [] h = h
insert-Holds k j v w ((i, x) ∷ d) h = elim (Bool-cases (i == j)) [
  | inl same ↦
      let g : Holds k v ((i, w) ∷ d) = rw same at h in
      elim g [ inl (a, b) ↦ inl (sym ((eq_iff i j).0 same) ∙ a, b) | inr r ↦ inr (inr r) ]
  | inr other ↦
      let g : Holds k v ((i, x) ∷ insert j w d) = rw other at h in
      elim g [
        | inl here ↦ inr (inl here)
        | inr r ↦ elim (insert-Holds k j v w d r) [ inl new ↦ inl new | inr old ↦ inr (inr old) ]
      ]
]

lookup-Holds : {V : Type 0} (k : String) (v : V) (d : Dict V) → lookup k d ≡ some v → Holds k v d
unfolding lookup
lookup-Holds k v [] e = absurd (cc)
lookup-Holds k v ((j, w) ∷ d) e = elim (Bool-cases (j == k)) [
  | inl same ↦
      let f : some w ≡ some v = rw same at e in
      let value : w ≡ v = cc in inl ((eq_iff j k).0 same, value)
  | inr other ↦ inr (lookup-Holds k v d (rw other at e))
]

to_dict-HasMember :
    (k : String) (v : Json) (ms : Members) (d : Dict Json)
    → Holds k v (to_dict ms d)
    → HasMember k v ms ⊎ Holds k v d
unfolding to_dict
to_dict-HasMember k v end d h = inr h
to_dict-HasMember k v (member j w rest) d h = elim (to_dict-HasMember k v rest (insert j w d) h) [
  | inl later ↦ inl (inr later)
  | inr r ↦ elim (insert-Holds k j v w d r) [ inl here ↦ inl (inl here) | inr old ↦ inr old ]
]

token_items-Holds :
    (k room : String) (d : Dict Json) (result made : Dict String)
    → token_items d result ≡ some made
    → Holds k room made
    → Holds k (text room) d ⊎ Holds k room result
unfolding token_items
token_items-Holds k room [] result made e h =
    let same : result ≡ made = cc in inr (subst (Holds k room) (sym same) h)
token_items-Holds k room ((token, text r) ∷ d) result made e h =
    elim (Bool-cases (not (is_token token))) [
      | inl bad ↦ let f : none ≡ some made = rw bad at e in absurd (cc)
      | inr good ↦ elim (Bool-cases (r == "")) [
        | inl blank ↦ let f : none ≡ some made = rw (good, blank) at e in absurd (cc)
        | inr named ↦
            let f : token_items d (insert token r result) ≡ some made = rw (good, named) at e in
            elim (token_items-Holds k room d (insert token r result) made f h) [
              | inl later ↦ inl (inr later)
              | inr now ↦ elim (insert-Holds k token room r result now) [
                | inl (a, b) ↦ inl (inl (a, ap (λ x. text x) b))
                | inr old ↦ inr old
              ]
            ]
      ]
    ]
token_items-Holds k room ((token, null) ∷ d) result made e h = absurd (cc)
token_items-Holds k room ((token, flag b) ∷ d) result made e h = absurd (cc)
token_items-Holds k room ((token, number n) ∷ d) result made e h = absurd (cc)
token_items-Holds k room ((token, negative n) ∷ d) result made e h = absurd (cc)
token_items-Holds k room ((token, float f) ∷ d) result made e h = absurd (cc)
token_items-Holds k room ((token, array a) ∷ d) result made e h = absurd (cc)
token_items-Holds k room ((token, object ms) ∷ d) result made e h = absurd (cc)

-- The variable is set, to the text of a JSON object that has the token with the room.
abbrev pub IsConfigured : (String → Option Json) → Option String → String → String → Type 0
IsConfigured loads variable token room =
    (raw : String) × (ms : Members) × (variable ≡ some raw)
    × (loads raw ≡ some (object ms))
    × HasMember token (text room) ms

-- The variable is missing or empty.
abbrev pub IsUnset : Option String → Type 0
IsUnset variable = (variable ≡ none) ⊎ (variable ≡ some "")

pub token_map-sources :
    (loads : String → Option Json) (variable : Option String) (fallback made : Dict String)
    (token room : String)
    → token_map loads variable fallback ≡ some made
    → lookup token made ≡ some room
    → IsConfigured loads variable token room
      ⊎ (IsUnset variable × (lookup token fallback ≡ some room))
unfolding token_map parsed_tokens
token_map-sources loads none fallback made token room e found =
    let same : fallback ≡ made = cc in
    inr (inl refl, subst (λ d. lookup token d ≡ some room) (sym same) found)
token_map-sources loads (some raw) fallback made token room e found =
    elim (Bool-cases (raw == "")) [
      | inl blank ↦
          let f : some fallback ≡ some made = rw blank at e in
          let same : fallback ≡ made = cc in
          inr (
            inr (ap (λ x. some x) ((eq_iff raw "").0 blank)),
            subst (λ d. lookup token d ≡ some room) (sym same) found,
          )
      | inr given ↦ read (loads raw) refl (rw given at e)
    ]
  where
    made_from :
        (ms : Members) → token_items (to_dict ms []) [] ≡ some made → HasMember token (text room) ms
    made_from ms f =
        elim (token_items-Holds token room (to_dict ms []) [] made f
          (lookup-Holds token room made found)) [
            | inl later ↦ elim (to_dict-HasMember token (text room) ms [] later) [
              | inl here ↦ here
              | inr nowhere ↦ absurd nowhere
            ]
            | inr nowhere ↦ absurd nowhere
          ]

    read :
        (o : Option Json)
        → loads raw ≡ o
        → parsed_tokens o ≡ some made
        → IsConfigured loads (some raw) token room
          ⊎ (IsUnset (some raw) × (lookup token fallback ≡ some room))
    read (some (object (member k v rest))) l f =
        inl (raw, member k v rest, refl, l, made_from (member k v rest) f)
    read (some (object end)) l f = absurd (cc)
    read none l f = absurd (cc)
    read (some null) l f = absurd (cc)
    read (some (flag b)) l f = absurd (cc)
    read (some (number n)) l f = absurd (cc)
    read (some (negative n)) l f = absurd (cc)
    read (some (float t)) l f = absurd (cc)
    read (some (text t)) l f = absurd (cc)
    read (some (array a)) l f = absurd (cc)
