-- ===== src/Session/Url.antt =====
-- `_asyncpg_url` of app/db/session.py. What it calls of urllib.parse are parameters.
use payment_ledger_api.Common.{
  String, Bool, false, not, Option, none, some, List, [], ◌∷◌, filter, if◌then◌else◌, ◌==◌, ◌≡◌,
  refl, string_eq, Bool-cases, inl, inr,
}

-- `SplitResult`
pub record SplitResult : Type 0 where
  pub scheme : String
  pub netloc : String
  pub path : String
  pub query : String
  pub fragment : String

-- A key of `parse_qs` with its values: there is a first one.
pub record Parameter : Type 0 where
  pub name : String
  pub first : String
  pub others : List String

-- `qs.get(name, [None])[0]`
abbrev pub first_value : String → List Parameter → Option String
first_value name [] = none
first_value name (p ∷ qs) =
    let rest = first_value name qs in if p.name == name then some p.first else rest

-- The dictionary after `qs.pop(name, ...)`.
abbrev pub popped : String → List Parameter → List Parameter
popped name qs = filter (λ p. not (p.name == name)) qs

-- Does `connect_args` say {"ssl": False}?
abbrev pub disables : Option String → Bool
disables none = false
disables (some mode) = mode == "disable"

module _ (urlsplit : String → SplitResult) (urlunsplit : SplitResult → String)
    (parse_qs : String → List Parameter) (urlencode : List Parameter → String) where
  unfoldable pub asyncpg_url : String → String × Bool
  asyncpg_url url =
      let parts = urlsplit url in
      let qs = parse_qs parts.query in
      if parts.query == "" then (urlunsplit parts, false) else (
        urlunsplit (record parts { query = urlencode (popped "sslmode" qs) }),
        disables (first_value "sslmode" qs),
      )

-- A key that was popped is gone.
pub first_value-popped :
    (name : String) (qs : List Parameter) → first_value name (popped name qs) ≡ none
first_value-popped name [] = refl
first_value-popped name (p ∷ qs) = elim (Bool-cases (p.name == name)) [
  | inl hit ↦ rw hit (first_value-popped name qs)
  | inr miss ↦ rw (miss, miss) (first_value-popped name qs)
]
