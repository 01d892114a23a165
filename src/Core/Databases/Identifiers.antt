-- ===== src/Core/Databases/Identifiers.antt =====
-- Which names `SqlIdentifier.safe` lets pass.
use Prim.Native.Char.{code}
use Prim.Native.String.{count as char_count}
use text.Mathlib.TextLemmas.{length-cons}
use karmevo_erp.Core.Databases.{is_lower, is_word, matches_rest, matches, safe}
use karmevo_erp.Prelude.{
  ℕ, zero, suc, ◌≤◌, String, true, ◌≡◌, ◌↔◌, refl, arith, ok, Bool-cases, inl, inr,
}

-- Every character is a lower-case letter, a digit or `_`.
abbrev pub AllWord : String → Type 0
AllWord String.[] = Unit
AllWord (String.◌∷◌ c s) = (is_word (code c) ≡ true) × AllWord s

-- The first character is a lower-case letter.
abbrev pub StartsLower : String → Type 0
StartsLower String.[] = ⊥
StartsLower (String.◌∷◌ c s) = is_lower (code c) ≡ true

-- A name that PostgreSQL takes as it stands: of at most 63 characters.
pub record IsIdentifier (s : String) : Type 0 where
  pub starts : StartsLower s
  pub words : AllWord s
  pub short : char_count s ≤ 63

pub matches_rest_sound :
    (n : ℕ) (s : String) → matches_rest n s ≡ true → AllWord s × (char_count s ≤ n)
unfolding matches_rest
matches_rest_sound n String.[] h = (tt, omega arith)
matches_rest_sound zero (String.◌∷◌ c s) h = cc
matches_rest_sound (suc n) (String.◌∷◌ c s) h =
    let (words, short) = matches_rest_sound n s (ground (arith, h)) in
    ((ground (arith, h), words), omega (arith, length-cons c s, short))

pub matches_rest_complete :
    (n : ℕ) (s : String) → AllWord s → char_count s ≤ n → matches_rest n s ≡ true
unfolding matches_rest
matches_rest_complete n String.[] w h = refl
matches_rest_complete zero (String.◌∷◌ c s) w h = absurd (omega (arith, length-cons c s, h))
matches_rest_complete (suc n) (String.◌∷◌ c s) (here, w) h =
    rw here (matches_rest_complete n s w (omega (arith, length-cons c s, h)))

pub matches_sound : (s : String) → matches s ≡ true → IsIdentifier s
unfolding matches
matches_sound String.[] h = cc
matches_sound (String.◌∷◌ c s) h =
    let (words, short) = matches_rest_sound 62 s (ground (arith, h)) in
    record {
      starts = ground (arith, h);
      words = (ground (arith, h), words);
      short = omega (arith, length-cons c s, short);
    }

pub matches_complete : (s : String) → IsIdentifier s → matches s ≡ true
unfolding matches
matches_complete String.[] i = absurd i.starts
matches_complete (String.◌∷◌ c s) i =
    rw i.starts (matches_rest_complete 62 s i.words.1 (omega (arith, length-cons c s, i.short)))

-- `safe` returns its argument, and returns exactly the names of at most 63 characters that start
-- with a lower-case letter and have only lower-case letters, digits and `_`.
pub safe_iff : (s t : String) → (safe s ≡ ok t) ↔ ((t ≡ s) × IsIdentifier s)
unfolding safe
safe_iff s t = (
  λ h. elim (Bool-cases (matches s)) [
    | inl fits ↦ (ground (arith, h, fits), matches_sound s fits)
    | inr bad ↦ absurd (ground (arith, h, bad))
  ],
  λ (same, i). rw (matches_complete s i, same) refl,
)
