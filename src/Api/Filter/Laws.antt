-- ===== src/Api/Filter/Laws.antt =====
-- Which filter a query names.
use nap_cat_qq_rs.Prelude.{
  String, ◌==◌, ◌≡◌, ◌⊎◌, inl, inr, refl, false, not, Option, none, some, List, [], ◌∷◌, map,
  is_empty, any, retain,
}
use nap_cat_qq_rs.Text.{trim}
use nap_cat_qq_rs.Text.Split.{contains}
use nap_cat_qq_rs.Text.Words.{join, AreWords, split-join}
use nap_cat_qq_rs.Protocol.{ProtocolEvent}
use nap_cat_qq_rs.Api.Filter.{
  ListenQuery, parse_event_type_list, named_types, prefer, parse_event_types,
  onebot_event_post_type, is_accepted,
}

module _ (to_lowercase : String → String) where
  -- Words that a filter keeps as they are: without a comma, not empty, trimmed and in lower case.
  abbrev pub AreTypes : List String → Type 0
  AreTypes [] = Unit {0}
  AreTypes (word ∷ words) =
      (contains "," word ≡ false)
      × ((word == "") ≡ false)
      × (to_lowercase (trim word) ≡ word)
      × AreTypes words

  AreTypes-AreWords : (words : List String) → AreTypes words → AreWords "," words
  AreTypes-AreWords [] h = tt
  AreTypes-AreWords (word ∷ words) (c, e, l, h) = (c, AreTypes-AreWords words h)

  kept_types :
      (words : List String)
      → AreTypes words
      → retain (λ value. not (value == "")) (map (λ value. to_lowercase (trim value)) words) ≡ words
  unfolding retain
  kept_types [] h = refl
  kept_types (word ∷ words) (c, e, l, h) = rw (l, e, kept_types words h) refl

  -- A list of types, joined by commas, is parsed to itself, if each of them is in lower case,
  -- trimmed, not empty and without a comma.
  pub parse_event_type_list-join :
      (word : String) (words : List String)
      → AreTypes (word ∷ words)
      → parse_event_type_list to_lowercase (join "," (word ∷ words)) ≡ word ∷ words
  unfolding parse_event_type_list
  parse_event_type_list-join word words h =
      rw (split-join "," word words h.0 (AreTypes-AreWords words h.3)) (kept_types (word ∷ words) h)

  -- A query whose `type` is a list of types, joined by commas, accepts the events of these types
  -- and no others, whatever its `types` and `post_type` are.
  pub type_filter_accepts :
      {Value : Type 0} (query : ListenQuery) (word : String) (words : List String)
      (event : ProtocolEvent Value)
      → query.type_filter ≡ some (join "," (word ∷ words))
      → AreTypes (word ∷ words)
      → is_accepted (parse_event_types to_lowercase query) event
        ≡ any (λ t. t == onebot_event_post_type event) (word ∷ words)
  unfolding is_accepted parse_event_types named_types prefer
  type_filter_accepts query word words event f h =
      rw (f, parse_event_type_list-join word words h) refl

  -- The types that a field of the query names.
  abbrev pub Names : Option String → List String → Type 0
  Names field types =
      (raw : String) × (field ≡ some raw)
      × (parse_event_type_list to_lowercase raw ≡ types)
      × (is_empty types ≡ false)

  -- A field that is missing, or that names no type.
  abbrev pub NamesNone : Option String → Type 0
  NamesNone none = Unit {0}
  NamesNone (some raw) = parse_event_type_list to_lowercase raw ≡ []

  field-Names :
      (field : Option String)
      → ((types : List String) × (named_types to_lowercase field ≡ some types) × Names field types)
        ⊎ ((named_types to_lowercase field ≡ none) × NamesNone field)
  unfolding named_types
  field-Names none = inr (refl, tt)
  field-Names (some raw) = go (parse_event_type_list to_lowercase raw) refl
    where
      go :
          (types : List String)
          → parse_event_type_list to_lowercase raw ≡ types
          → ((types : List String) × (named_types to_lowercase (some raw) ≡ some types)
              × Names (some raw) types)
            ⊎ ((named_types to_lowercase (some raw) ≡ none) × NamesNone (some raw))
      go [] h = inr (rw h refl, h)
      go (t ∷ types) h = inl (t ∷ types, rw h refl, (raw, refl, h, refl))

  -- The filter of a query is what the first of its fields `type`, `types` and `post_type` names
  -- that names a type at all; it is missing, so that each event is accepted, exactly when none of
  -- the three does.
  pub parse_event_types-first :
      (query : ListenQuery)
      → ((types : List String) × (parse_event_types to_lowercase query ≡ some types)
          × (Names query.type_filter types
              ⊎ (NamesNone query.type_filter
                  × (Names query.types_filter types
                      ⊎ (NamesNone query.types_filter × Names query.post_type types)))))
        ⊎ ((parse_event_types to_lowercase query ≡ none)
            × NamesNone query.type_filter
            × NamesNone query.types_filter
            × NamesNone query.post_type)
  unfolding parse_event_types prefer
  parse_event_types-first query = elim (field-Names query.type_filter) [
    | inl (types, e, names) ↦ inl (types, rw e refl, inl names)
    | inr (e, nothing) ↦ elim (field-Names query.types_filter) [
      | inl (types, f, names) ↦ inl (types, rw (e, f) refl, inr (nothing, inl names))
      | inr (f, no_more) ↦ elim (field-Names query.post_type) [
        | inl (types, g, names) ↦
            inl (types, rw (e, f, g) refl, inr (nothing, inr (no_more, names)))
        | inr (g, none_left) ↦ inr (rw (e, f, g) refl, nothing, no_more, none_left)
      ]
    ]
  ]
