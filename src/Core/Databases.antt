-- ===== src/Core/Databases.antt =====
-- backend/src/erp/core/db.py, from `SqlIdentifier` on: the names of tenant databases and their
-- addresses. A `ValueError` is its message; `{value!r}` is the value between quotes, which it is for
-- texts with no quote, backslash or control character. A UUID is the number of its 128 bits.
pub mod Identifiers
pub mod Names
use Prim.Native.Char.{Char, code}
use Prim.Native.String.{◌++◌ as concat}
use karmevo_erp.Prelude.{
  ℕ, zero, suc, ◌+◌, ◌*◌, ◌/◌, ◌%◌, ◌-◌, String, Bool, true, false, not, ◌&&◌, ◌||◌, Option, none,
  some, if◌then◌else◌, ◌==◌, nat_key, leb, Dict, lookup, string_key, Result, ok, raise, ◌>>=◌,
}

abbrev pub ValueError : Type 0
ValueError = String

abbrev pub quoted : String → String
quoted s = concat "'" (concat s "'")

abbrev pub is_lower : ℕ → Bool
is_lower c = leb b'a' c && leb c b'z'

abbrev pub is_digit : ℕ → Bool
is_digit c = leb b'0' c && leb c b'9'

abbrev pub is_word : ℕ → Bool
is_word c = is_lower c || is_digit c || c == b'_'

-- `[a-z0-9_]{0,n}`, to the end of the text
unfoldable pub matches_rest : ℕ → String → Bool
matches_rest n String.[] = true
matches_rest zero (String.◌∷◌ c s) = false
matches_rest (suc n) (String.◌∷◌ c s) = is_word (code c) && matches_rest n s

-- `PATTERN.fullmatch`
unfoldable pub matches : String → Bool
matches String.[] = false
matches (String.◌∷◌ c s) = is_lower (code c) && matches_rest 62 s

-- `SqlIdentifier.safe`
unfoldable pub safe : String → Result ValueError String
safe value =
    if not (matches value) then raise (concat "unsafe SQL identifier " (quoted value)) else ok value

pub record DbCredentials : Type 0 where
  pub user : String
  pub password : String

-- `sqlalchemy.URL`, with the driver "postgresql+psycopg"
pub record Url : Type 0 where
  pub username : String
  pub password : String
  pub host : String
  pub port : ℕ
  pub database : String

pub record TenantDbLocator : Type 0 where
  pub servers : Dict String String
  pub prefix : String

unfoldable pub new_locator : Dict String String → String → Result ValueError TenantDbLocator
new_locator servers database_prefix = do
  prefix ← safe database_prefix
  ok (record { servers = servers; prefix = prefix })

-- The digit of a number below 16.
unfoldable pub hex_digit : ℕ → Char
hex_digit d =
    if d == 0
    then "0"
    else if d == 1
    then "1"
    else if d == 2
    then "2"
    else if d == 3
    then "3"
    else if d == 4
    then "4"
    else if d == 5
    then "5"
    else if d == 6
    then "6"
    else if d == 7
    then "7"
    else if d == 8
    then "8"
    else if d == 9
    then "9"
    else if d == 10
    then "a"
    else if d == 11
    then "b"
    else if d == 12
    then "c"
    else if d == 13
    then "d"
    else if d == 14
    then "e"
    else "f"

-- The `n` lowest hexadecimal digits of a number, before the text `s`.
unfoldable pub hex_digits : ℕ → ℕ → String → String
hex_digits zero x s = s
hex_digits (suc n) x s = hex_digits n (x / 16) (String.◌∷◌ (hex_digit (x % 16)) s)

-- `tenant_id.hex`
unfoldable pub hex : ℕ → String
unfolding hex_digits
hex tenant_id = hex_digits 32 tenant_id ""

-- `str.partition(":")`, without the separator
unfoldable pub partition : String → String × String
partition String.[] = ("", "")
partition (String.◌∷◌ c s) =
    let (before, after) = partition s in
    if code c == b':' then ("", s) else (String.◌∷◌ c before, after)

-- `int(text)`, after the number `n`; the signs, spaces and underscores that Python also takes are
-- refused here.
unfoldable pub int_from : ℕ → String → Option ℕ
int_from n String.[] = some n
int_from n (String.◌∷◌ c s) =
    let rest = int_from (n * 10 + (code c - b'0')) s in if is_digit (code c) then rest else none

unfoldable pub int : String → Result ValueError ℕ
unfolding int_from
int String.[] = raise "invalid literal for int() with base 10: ''"
int s = elim (int_from 0 s) [
  | none ↦ raise (concat "invalid literal for int() with base 10: " (quoted s))
  | some n ↦ ok n
]

unfoldable pub port_of : String → Result ValueError ℕ
unfolding int
port_of String.[] = ok 5432
port_of s = int s

module _ (locator : TenantDbLocator) where
  unfoldable pub database_name : ℕ → Result ValueError String
  database_name tenant_id = safe (concat locator.prefix (hex tenant_id))

  unfoldable pub url : String → String → DbCredentials → Result ValueError Url
  unfolding partition port_of
  url server database credentials = elim (lookup server locator.servers) [
    | none ↦ raise (concat "unknown tenant database server " (quoted server))
    | some address ↦
        let (host, port) = partition address in
        port_of port >>= λ number. ok (record {
          username = credentials.user;
          password = credentials.password;
          host = host;
          port = number;
          database = database;
        })
  ]
