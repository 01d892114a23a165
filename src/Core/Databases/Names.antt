-- ===== src/Core/Databases/Names.antt =====
-- The names of tenant databases.
use Prim.Native.Char.{code}
use Prim.Native.String.{◌++◌ as concat, count as char_count}
use text.Mathlib.TextLemmas.{length-cons, length-append, append_cancel_left}
use Prim.Native.String.append
use native.Mathlib.Nat.{pow-suc}
use native.Mathlib.Decide.{ℕ_discrete}
use karmevo_erp.Core.Databases.{TenantDbLocator, is_word, hex_digit, hex_digits, hex, database_name}
use karmevo_erp.Core.Databases.Identifiers.{AllWord, StartsLower, IsIdentifier, safe_iff}
use karmevo_erp.Prelude.{
  ℕ, zero, suc, ◌+◌, ◌/◌, ◌%◌, ◌^◌, ◌≤◌, ◌<◌, String, Bool, true, ◌&&◌, ◌≡◌, refl, arith,
  if◌then◌else◌, ◌==◌, nat_key, ok, leb, sym, ap, ◌∙◌,
}

-- `n` hexadecimal digits hold the number.
abbrev pub Fits : ℕ → ℕ → Type 0
Fits zero x = x ≡ 0
Fits (suc n) x = Fits n (x / 16)

-- Every number below `n` passes the test.
every_below : ℕ → (ℕ → Bool) → Bool
every_below zero test = true
every_below (suc n) test = test n && every_below n test

every_below_sound :
    (n : ℕ) (test : ℕ → Bool) (x : ℕ) → every_below n test ≡ true → x < n → test x ≡ true
unfolding every_below
every_below_sound zero test x h lt = absurd (omega (arith, lt))
every_below_sound (suc n) test x h lt = ground (arith, h, lt, every_below_sound n test x)

digit_table :
    every_below 16 (λ d. code (hex_digit d) == (if leb d 9 then 48 + d else 87 + d)) ≡ true
unfolding every_below hex_digit ℕ_discrete
digit_table = refl

code-hex_digit : (d : ℕ) → d < 16 → code (hex_digit d) ≡ (if leb d 9 then 48 + d else 87 + d)
code-hex_digit d h = ground (
  arith,
  every_below_sound 16 (λ x. code (hex_digit x) == (if leb x 9 then 48 + x else 87 + x)) d
      digit_table h,
)

hex_digit-word : (d : ℕ) → d < 16 → is_word (code (hex_digit d)) ≡ true
hex_digit-word d h = ground (arith, code-hex_digit d h)

hex_digit_injective : (c d : ℕ) → c < 16 → d < 16 → hex_digit c ≡ hex_digit d → c ≡ d
hex_digit_injective c d hc hd e =
    ground (arith, code-hex_digit c hc, code-hex_digit d hd, ap code e)

hex_digits_injective :
    (n x y : ℕ) (s t : String)
    → Fits n x
    → Fits n y
    → hex_digits n x s ≡ hex_digits n y t
    → (x ≡ y) × (s ≡ t)
unfolding hex_digits
hex_digits_injective zero x y s t fx fy e = (ground arith, e)
hex_digits_injective (suc n) x y s t fx fy e =
    let (above, below) =
      hex_digits_injective n (x / 16) (y / 16) (String.◌∷◌ (hex_digit (x % 16)) s)
        (String.◌∷◌ (hex_digit (y % 16)) t) fx fy e in
    let digit : hex_digit (x % 16) ≡ hex_digit (y % 16) = cc below in
    let same = hex_digit_injective (x % 16) (y % 16) (omega arith) (omega arith) digit in
    (omega arith, cc below)

AllWord-hex_digits : (n x : ℕ) (s : String) → AllWord s → AllWord (hex_digits n x s)
unfolding hex_digits
AllWord-hex_digits zero x s w = w
AllWord-hex_digits (suc n) x s w =
    AllWord-hex_digits n (x / 16) (String.◌∷◌ (hex_digit (x % 16)) s)
      (hex_digit-word (x % 16) (omega arith), w)

count-hex_digits : (n x : ℕ) (s : String) → char_count (hex_digits n x s) ≡ n + char_count s
unfolding hex_digits
count-hex_digits zero x s = omega arith
count-hex_digits (suc n) x s = omega (
  arith,
  count-hex_digits n (x / 16) (String.◌∷◌ (hex_digit (x % 16)) s),
  length-cons (hex_digit (x % 16)) s,
)

Fits_lem : (n x : ℕ) → x < 16 ^ n → Fits n x
Fits_lem zero x h = omega (arith, h)
Fits_lem (suc n) x h = Fits_lem n (x / 16) (omega (arith, pow-suc 16 n, h))

AllWord-append : (s t : String) → AllWord s → AllWord t → AllWord (concat s t)
AllWord-append String.[] t v w = rw (append.nil t) w
AllWord-append (String.◌∷◌ c s) t (here, v) w =
    rw (append.cons c s t) (here, AllWord-append s t v w)

StartsLower-append : (s t : String) → StartsLower s → StartsLower (concat s t)
StartsLower-append String.[] t h = absurd h
StartsLower-append (String.◌∷◌ c s) t h = rw (append.cons c s t) h

module _ (locator : TenantDbLocator) (checked : IsIdentifier locator.prefix) where
  -- With a checked prefix of at most 31 characters, every tenant has a database name that
  -- PostgreSQL takes: the prefix and the 32 hexadecimal digits of the id.
  pub database_name_total :
      (tenant_id : ℕ)
      → char_count locator.prefix ≤ 31
      → (database_name locator tenant_id ≡ ok (concat locator.prefix (hex tenant_id)))
        × IsIdentifier (concat locator.prefix (hex tenant_id))
        × (char_count (concat locator.prefix (hex tenant_id)) ≡ char_count locator.prefix + 32)
  unfolding database_name hex
  database_name_total tenant_id short =
      let size =
        length-append locator.prefix (hex_digits 32 tenant_id "")
        ∙ ap (λ n. char_count locator.prefix + n) (count-hex_digits 32 tenant_id "") in
      let name_ok : IsIdentifier (concat locator.prefix (hex tenant_id)) = record {
        starts = StartsLower-append locator.prefix (hex tenant_id) checked.starts;
        words =
            AllWord-append locator.prefix (hex tenant_id) checked.words
              (AllWord-hex_digits 32 tenant_id "" tt);
        short = omega (arith, short, size);
      } in
      (
        (safe_iff (concat locator.prefix (hex tenant_id)) (concat locator.prefix (hex tenant_id))).1
            (refl, name_ok),
        name_ok,
        size,
      )

  -- Two tenants never share a database name.
  pub database_name_injective :
      (tenant_id other : ℕ) (name : String)
      → tenant_id < 2 ^ 128
      → other < 2 ^ 128
      → database_name locator tenant_id ≡ ok name
      → database_name locator other ≡ ok name
      → tenant_id ≡ other
  unfolding database_name hex
  database_name_injective tenant_id other name h k e d =
      let first = ((safe_iff (concat locator.prefix (hex tenant_id)) name).0 e).0 in
      let second = ((safe_iff (concat locator.prefix (hex other)) name).0 d).0 in
      let same =
        append_cancel_left locator.prefix (hex tenant_id) (hex other) (sym first ∙ second) in
      (hex_digits_injective 32 tenant_id other "" "" (Fits_lem 32 tenant_id h) (Fits_lem 32 other k)
        same).0
