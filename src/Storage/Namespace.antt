-- ===== src/Storage/Namespace.antt =====
-- How a qualified key of napcat-rs/crates/storage is read back: `split_once('\0')` in `keys` and
-- `clear_namespace`, and `starts_with` in `count_namespace`.
use Prim.Native.Char.{nul}
use Prim.Native.String.append
use text.Mathlib.TextEquality.{starts_with_iff}
use text.Mathlib.TextLemmas.{append_assoc}
use text.Mathlib.TextPositions.{starts_with_of_prefix}
use nap_cat_qq_rs.Prelude.{
  String, ◌<>◌, ◌==◌, eq_iff, starts_with, ◌≡◌, refl, sym, ap, ◌∙◌, true, false, not, ◌&&◌, Option,
  none, some, arith, is_some, Bool-cases, inl, inr,
}
use nap_cat_qq_rs.Text.Split.{contains, split_once, split_once-append, split_once_join, parts}
use nap_cat_qq_rs.Storage.{qualified_key, key_in, outside}

pub split_once-qualified_key :
    (namespace key : String)
    → contains nul namespace ≡ false
    → split_once nul (qualified_key namespace key) ≡ some (namespace, key)
unfolding qualified_key
split_once-qualified_key namespace key h = split_once-append nul namespace key h

pub qualified_key_injective :
    (a k b l : String)
    → contains nul a ≡ false
    → contains nul b ≡ false
    → qualified_key a k ≡ qualified_key b l
    → (a ≡ b) × (k ≡ l)
qualified_key_injective a k b l ha hb e = parts (
    sym (split_once-qualified_key a k ha) ∙ ap (split_once nul) e ∙ split_once-qualified_key b l hb)

-- The two tests of a key agree, as Booleans.
pub qualified_key-eq :
    (a k b l : String)
    → contains nul a ≡ false
    → contains nul b ≡ false
    → (qualified_key a k == qualified_key b l) ≡ ((a == b) && (k == l))
qualified_key-eq a k b l ha hb = elim (Bool-cases (qualified_key a k == qualified_key b l)) [
  | inl same ↦
      let (e, f) = qualified_key_injective a k b l ha hb ((eq_iff _ _).0 same) in
      ground (arith, e, f, same, eq_iff a b, eq_iff k l)
  | inr differ ↦
      ground (arith, differ, eq_iff a b, eq_iff k l, eq_iff (qualified_key a k) (qualified_key b l))
]

join_prefix :
    (namespace rest : String)
    → (namespace <> String.◌∷◌ nul "") <> rest ≡ namespace <> String.◌∷◌ nul rest
join_prefix namespace rest =
    append_assoc namespace (String.◌∷◌ nul "") rest
    ∙ ap (◌<>◌ namespace) (append.cons nul "" rest ∙ ap (String.◌∷◌ nul) (append.nil rest))

split_of_prefix :
    (namespace q : String)
    → contains nul namespace ≡ false
    → starts_with q (namespace <> String.◌∷◌ nul "") ≡ true
    → (rest : String) × (split_once nul q ≡ some (namespace, rest))
split_of_prefix namespace q h p =
    let (rest, e) = (starts_with_iff q (namespace <> String.◌∷◌ nul "")).0 p in
    (
      rest,
      ap (split_once nul) (sym e ∙ join_prefix namespace rest)
          ∙ split_once-append nul namespace rest h,
    )

prefix_of_split :
    (namespace q rest : String)
    → split_once nul q ≡ some (namespace, rest)
    → starts_with q (namespace <> String.◌∷◌ nul "") ≡ true
prefix_of_split namespace q rest e =
    starts_with_of_prefix (namespace <> String.◌∷◌ nul "") q
      (rest, join_prefix namespace rest ∙ sym (split_once_join nul q namespace rest e).0)

no_key :
    (namespace q : String)
    → starts_with q (namespace <> String.◌∷◌ nul "") ≡ false
    → (r : Option (String × String)) → split_once nul q ≡ r
    → false ≡ is_some (key_in namespace r)
unfolding key_in
no_key namespace q no_prefix none e = refl
no_key namespace q no_prefix (some (current, key)) e = elim (Bool-cases (current == namespace)) [
  | inl same ↦
      let here = (eq_iff current namespace).0 same in
      cc (no_prefix, prefix_of_split namespace q key (e ∙ ap (λ (n : String). some (n, key)) here))
  | inr differ ↦ rw differ
]

-- For a namespace without the separator, the prefix test of `count_namespace` is the split test of
-- `keys`.
pub starts_with-key_in :
    (namespace q : String)
    → contains nul namespace ≡ false
    → starts_with q (namespace <> String.◌∷◌ nul "") ≡ is_some (key_in namespace (split_once nul q))
unfolding key_in
starts_with-key_in namespace q h =
    elim (Bool-cases (starts_with q (namespace <> String.◌∷◌ nul ""))) [
      | inl yes_prefix ↦
          let (rest, e) = split_of_prefix namespace q h yes_prefix in
          rw (yes_prefix, e) (ground (arith, eq_iff namespace namespace))
      | inr no_prefix ↦ rw no_prefix (no_key namespace q no_prefix (split_once nul q) refl)
    ]

pub outside-key_in :
    (namespace : String) (r : Option (String × String))
    → outside namespace r ≡ not (is_some (key_in namespace r))
unfolding outside key_in
outside-key_in namespace none = refl
outside-key_in namespace (some (current, key)) = ground arith
