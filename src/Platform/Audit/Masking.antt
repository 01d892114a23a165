-- ===== src/Platform/Audit/Masking.antt =====
-- What redaction hides, and that it hides nothing else.
use karmevo_erp.Platform.Audit.{
  Value, Items, Fields, text, other, items, mapping, nil, item, end, field, redacted, is_sensitive,
  redact, redact_items, redact_fields,
}
use karmevo_erp.Prelude.{String, true, false, ◌≡◌, refl, ap, subst, if◌then◌else◌, arith, ◌↔◌}

module _ (lower : String → String) {X : Type 0} where
  -- Every field with a sensitive key is masked, at any depth.
  unfoldable mutual
    pub IsMasked : Value X → Type 0
    IsMasked (text s) = Unit
    IsMasked (other x) = Unit
    IsMasked (items vs) = AreMasked vs
    IsMasked (mapping fs) = HasMasked fs

    pub AreMasked : Items X → Type 0
    AreMasked nil = Unit
    AreMasked (item v vs) = IsMasked v × AreMasked vs

    pub HasMasked : Fields X → Type 0
    HasMasked end = Unit
    HasMasked (field k v fs) =
        (is_sensitive lower k ≡ true → v ≡ text redacted) × IsMasked v × HasMasked fs

  chosen-IsMasked :
      (k : String) (v : Value X)
      → IsMasked v
      → IsMasked (if is_sensitive lower k then text redacted else v)
  unfolding IsMasked
  chosen-IsMasked k v h =
      elim (is_sensitive lower k) as (λ b. IsMasked (if b then text redacted else v)) [
        | true ↦ tt
        | false ↦ h
      ]

  masks :
      (k : String) (v : Value X)
      → is_sensitive lower k ≡ true
      → (if is_sensitive lower k then text redacted else v) ≡ text redacted
  masks k v h = rw h refl

  mutual
    unfolding redact IsMasked

    masked : (v : Value X) → IsMasked (redact lower v)
    masked (text s) = tt
    masked (other x) = tt
    masked (items vs) = masked_items vs
    masked (mapping fs) = masked_fields fs

    masked_items : (vs : Items X) → AreMasked (redact_items lower vs)
    masked_items nil = tt
    masked_items (item v vs) = (masked v, masked_items vs)

    masked_fields : (fs : Fields X) → HasMasked (redact_fields lower fs)
    masked_fields end = tt
    masked_fields (field k v fs) =
        (masks k (redact lower v), chosen-IsMasked k (redact lower v) (masked v), masked_fields fs)

  kept_value :
      (k : String) (v w : Value X)
      → (is_sensitive lower k ≡ true → v ≡ text redacted)
      → w ≡ v
      → (if is_sensitive lower k then text redacted else w) ≡ v
  kept_value k v w h e = ground (arith, h, e)

  mutual
    unfolding redact IsMasked

    kept : (v : Value X) → IsMasked v → redact lower v ≡ v
    kept (text s) h = refl
    kept (other x) h = refl
    kept (items vs) h = ap items (kept_items vs h)
    kept (mapping fs) h = ap mapping (kept_fields fs h)

    kept_items : (vs : Items X) → AreMasked vs → redact_items lower vs ≡ vs
    kept_items nil h = refl
    kept_items (item v vs) h = rw (kept v h.0, kept_items vs h.1) refl

    kept_fields : (fs : Fields X) → HasMasked fs → redact_fields lower fs ≡ fs
    kept_fields end h = refl
    kept_fields (field k v fs) h =
        rw (kept_value k v (redact lower v) h.0 (kept v h.1), kept_fields fs h.2) refl

  -- Whatever the details, each field whose key is sensitive, in mappings within mappings and lists,
  -- has the mask as its value after redaction; and redaction changes a value exactly if one of its
  -- fields lacks the mask that it should have.
  pub redact_iff : (v : Value X) → IsMasked (redact lower v) × ((redact lower v ≡ v) ↔ IsMasked v)
  redact_iff v = (masked v, ((λ e. subst IsMasked e (masked v)), kept v))
