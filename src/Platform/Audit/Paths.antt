-- ===== src/Platform/Audit/Paths.antt =====
-- What redaction leaves at each place of the details, a place being the keys and indices that lead
-- to it.
use karmevo_erp.Platform.Audit.{
  Value, Items, Fields, text, other, items, mapping, nil, item, end, field, redacted, is_sensitive,
  redact, redact_items, redact_fields,
}
use karmevo_erp.Prelude.{
  ℕ, zero, suc, String, Bool, false, List, [], ◌∷◌, Option, none, some, ◌≡◌, refl, if◌then◌else◌,
  arith, string_key, ◌==◌,
}

pub data Place : Type 0 where
  key : String → Place
  index : ℕ → Place

module _ {X : Type 0} where
  -- `fs[k]`, the value of the first field with the key
  unfoldable pub at_key : String → Fields X → Option (Value X)
  at_key k end = none
  at_key k (field name v fs) = if k == name then some v else at_key k fs

  unfoldable pub at_index : ℕ → Items X → Option (Value X)
  at_index n nil = none
  at_index zero (item v vs) = some v
  at_index (suc n) (item v vs) = at_index n vs

  abbrev pub at_place : Place → Value X → Option (Value X)
  at_place (key k) (mapping fs) = at_key k fs
  at_place (index n) (items vs) = at_index n vs
  at_place p v = none

  unfoldable pub get_in : List Place → Value X → Option (Value X)
  get_in [] v = some v
  get_in (p ∷ ps) v = elim (at_place p v) [ none ↦ none | some w ↦ get_in ps w ]

abbrev pub is_hidden : (lower : String → String) → Place → Bool
is_hidden lower (key k) = is_sensitive lower k
is_hidden lower (index n) = false

module _ (lower : String → String) {X : Type 0} where
  -- What a reader of the redacted details finds, told from the details alone: the values there, or
  -- the mask from the first sensitive key on.
  unfoldable pub view : List Place → Value X → Option (Value X)
  unfolding redact
  view [] v = some (redact lower v)
  view (p ∷ ps) v = elim (at_place p v) [
    | none ↦ none
    | some w ↦ if is_hidden lower p then get_in ps (text redacted) else view ps w
  ]

  at_key-redact_fields :
      (k : String) (fs : Fields X)
      → at_key k (redact_fields lower fs) ≡ elim (at_key k fs) [
        | none ↦ none
        | some w ↦ some (if is_sensitive lower k then text redacted else redact lower w)
      ]
  unfolding at_key redact
  at_key-redact_fields k end = refl
  at_key-redact_fields k (field name v fs) = ground (arith, at_key-redact_fields k fs)

  at_index-redact_items :
      (n : ℕ) (vs : Items X)
      → at_index n (redact_items lower vs)
        ≡ elim (at_index n vs) [ none ↦ none | some w ↦ some (redact lower w) ]
  unfolding at_index redact
  at_index-redact_items n nil = refl
  at_index-redact_items zero (item v vs) = refl
  at_index-redact_items (suc n) (item v vs) = at_index-redact_items n vs

  at_place-redact :
      (p : Place) (v : Value X)
      → at_place p (redact lower v) ≡ elim (at_place p v) [
        | none ↦ none
        | some w ↦ some (if is_hidden lower p then text redacted else redact lower w)
      ]
  unfolding redact
  at_place-redact (key k) (mapping fs) = at_key-redact_fields k fs
  at_place-redact (index n) (items vs) = at_index-redact_items n vs
  at_place-redact (key k) (items vs) = refl
  at_place-redact (key k) (text s) = refl
  at_place-redact (key k) (other x) = refl
  at_place-redact (index n) (mapping fs) = refl
  at_place-redact (index n) (text s) = refl
  at_place-redact (index n) (other x) = refl

  -- At every place of the redacted details there is what the details have there, redacted, if the
  -- way to it has no sensitive key; at a sensitive key that is present there is the mask, which has no
  -- places within; and where the details have nothing there is nothing.
  pub get_in-redact : (ps : List Place) (v : Value X) → get_in ps (redact lower v) ≡ view ps v
  unfolding get_in view
  get_in-redact [] v = refl
  get_in-redact (p ∷ ps) v =
      rw (at_place-redact p v, get_in)
        (elim (at_place p v)
          as (λ o.
            (elim (elim o as (λ _. Option (Value X)) [
              | none ↦ none
              | some w ↦ some (if is_hidden lower p then text redacted else redact lower w)
            ])
              as (λ _. Option (Value X)) [ none ↦ none | some w ↦ get_in ps w ])
            ≡ (elim o as (λ _. Option (Value X)) [
              | none ↦ none
              | some w ↦ if is_hidden lower p then get_in ps (text redacted) else view ps w
            ])) [ none ↦ refl | some w ↦ ground (arith, get_in-redact ps w) ])
