-- ===== src/Seed/Url.antt =====
-- `_parse_database_url` of scripts/seed_demo_user.py. A text is the list of its characters.
pub mod Query
use Prim.Native.Char.{Char, code}
use Prim.Native.String.{[] as empty_text, ◌∷◌ as ◌∷ₜ◌}
use payment_ledger_api.Common.{
  String, Bool, true, false, not, ◌&&◌, ◌||◌, Option, none, some, List, [], ◌∷◌, ◌++◌, filter, any,
  nat_beq, if◌then◌else◌,
}

abbrev pub Text : Type 0
Text = List Char

abbrev pub chars : String → Text
chars empty_text = []
chars (c ∷ₜ s) = c ∷ chars s

abbrev pub same : Char → Char → Bool
same c d = nat_beq (code c) (code d)

-- `s.startswith(prefix)`, the prefix first.
abbrev pub starts_with : Text → Text → Bool
starts_with [] s = true
starts_with (p ∷ ps) [] = false
starts_with (p ∷ ps) (c ∷ s) = same p c && starts_with ps s

-- `t in s`
abbrev pub occurs : Text → Text → Bool
occurs t [] = starts_with t []
occurs t (c ∷ s) = starts_with t (c ∷ s) || occurs t s

abbrev pub equal : Text → Text → Bool
equal [] [] = true
equal (c ∷ s) (d ∷ t) = same c d && equal s t
equal _ _ = false

-- What is left after as many characters as the first text has.
abbrev pub after : Text → Text → Text
after [] s = s
after (p ∷ ps) [] = []
after (p ∷ ps) (c ∷ s) = after ps s

-- `s.replace(old, new, 1)`
abbrev pub replace_first : (old new : Text) → Text → Text
replace_first old new [] = if starts_with old [] then new else []
replace_first old new (c ∷ s) =
    let rest = replace_first old new s in
    if starts_with old (c ∷ s) then new ++ after old (c ∷ s) else c ∷ rest

abbrev pub in_front : Char → Option (Text × Text) → Option (Text × Text)
in_front c none = none
in_front c (some (s, t)) = some (c ∷ s, t)

-- `s.split(sep, 1)` where `sep in s`, and nothing else.
abbrev pub split_first : Char → Text → Option (Text × Text)
split_first sep [] = none
split_first sep (c ∷ s) =
    let rest = split_first sep s in if same c sep then some ([], s) else in_front c rest

abbrev pub into_first : Char → List Text → List Text
into_first c [] = (c ∷ []) ∷ []
into_first c (s ∷ ss) = (c ∷ s) ∷ ss

-- `s.split(sep)`
abbrev pub split : Char → Text → List Text
split sep [] = [] ∷ []
split sep (c ∷ s) = let rest = split sep s in if same c sep then [] ∷ rest else into_first c rest

-- `sep.join(ss)`
abbrev pub join : Char → List Text → Text
join sep [] = []
join sep (s ∷ []) = s
join sep (s ∷ t ∷ ss) = s ++ sep ∷ join sep (t ∷ ss)

-- The driver for SQLAlchemy's asyncio.
unfoldable pub with_driver : Text → Text
with_driver url =
    if starts_with (chars "postgres://") url
    then replace_first (chars "postgres://") (chars "postgresql+asyncpg://") url
    else if starts_with (chars "postgresql://") url && not (occurs (chars "+asyncpg") url)
    then replace_first (chars "postgresql://") (chars "postgresql+asyncpg://") url
    else url

abbrev pub is_sslmode : Text → Bool
is_sslmode p = starts_with (chars "sslmode=") p

abbrev pub disables_ssl : Text → Bool
disables_ssl p = is_sslmode p && equal p (chars "sslmode=disable")

abbrev pub with_query : Text → List Text → Text
with_query base [] = base
with_query base (p ∷ ps) = base ++ "?" ∷ join "&" (p ∷ ps)

-- Does `connect_args` say {"ssl": False}?
abbrev pub without_sslmode : Text → Option (Text × Text) → Text × Bool
without_sslmode url none = (url, false)
without_sslmode url (some (base, qs)) =
    let parts = split "&" qs in
    (with_query base (filter (λ p. not (is_sslmode p)) parts), any disables_ssl parts)

-- The environment variable, "" if it is missing; RuntimeError is `none`.
unfoldable pub parse_database_url : Text → Option (Text × Bool)
unfolding with_driver
parse_database_url [] = none
parse_database_url (c ∷ s) =
    let url = with_driver (c ∷ s) in some (without_sslmode url (split_first "?" url))
