-- ===== src/Seed/Url/Query.antt =====
-- What is left of the query of a database URL.
use Prim.Native.Char.{Char}
use payment_ledger_api.Common.{
  ◌≡◌, refl, ap, sym, ◌∙◌, Bool, true, false, not, Option, none, some, List, [], ◌∷◌, ◌++◌, filter,
  any, All, Bool-cases, inl, inr,
}
use payment_ledger_api.Seed.Url.{
  Text, same, split_first, in_front, into_first, split, join, with_driver, is_sslmode, disables_ssl,
  with_query, without_sslmode, parse_database_url,
}

-- The text before the first question mark, and the parameters after it.
abbrev pub parts_of : Text → Option (Text × Text) → Text × List Text
parts_of url none = (url, [])
parts_of url (some (base, qs)) = (base, split "&" qs)

abbrev pub query_of : Text → Text × List Text
query_of url = parts_of url (split_first "?" url)

-- A text without this character.
abbrev Lacks : Char → Text → Type 0
Lacks sep s = All (λ c. same c sep ≡ false) s

split-Lacks : (sep : Char) (s : Text) → All (Lacks sep) (split sep s)
split-Lacks sep [] = (tt, tt)
split-Lacks sep (c ∷ s) = elim (Bool-cases (same c sep)) [
  | inl hit ↦ rw hit (tt, split-Lacks sep s)
  | inr miss ↦ rw miss (into miss (split sep s) (split-Lacks sep s))
]
  where
    into :
        same c sep ≡ false
        → (rest : List Text) → All (Lacks sep) rest
        → All (Lacks sep) (into_first c rest)
    into miss [] h = ((miss, tt), tt)
    into miss (t ∷ rest) h = ((miss, h.0), h.1)

split-lacking : (sep : Char) (s : Text) → Lacks sep s → split sep s ≡ s ∷ []
split-lacking sep [] h = refl
split-lacking sep (c ∷ s) h = rw (h.0, split-lacking sep s h.1) refl

split-append :
    (sep : Char) (s t : Text)
    → Lacks sep s
    → same sep sep ≡ true
    → split sep (s ++ sep ∷ t) ≡ s ∷ split sep t
split-append sep [] t h r = rw r refl
split-append sep (c ∷ s) t h r = rw (h.0, split-append sep s t h.1 r) refl

-- Texts that are joined are found again.
split-join :
    (sep : Char) (s : Text) (ss : List Text)
    → same sep sep ≡ true
    → All (Lacks sep) (s ∷ ss)
    → split sep (join sep (s ∷ ss)) ≡ s ∷ ss
split-join sep s [] r h = split-lacking sep s h.0
split-join sep s (t ∷ ss) r h =
    split-append sep s (join sep (t ∷ ss)) h.0 r ∙ ap (λ l. s ∷ l) (split-join sep t ss r h.1)

All-filter :
    (P : Text → Type 0) (test : Text → Bool) (ss : List Text) → All P ss → All P (filter test ss)
All-filter P test [] h = tt
All-filter P test (s ∷ ss) h = elim (Bool-cases (test s)) [
  | inl hit ↦ rw hit (h.0, All-filter P test ss h.1)
  | inr miss ↦ rw miss (All-filter P test ss h.1)
]

split_first-lacking : (sep : Char) (s : Text) → Lacks sep s → split_first sep s ≡ none
split_first-lacking sep [] h = refl
split_first-lacking sep (c ∷ s) h = rw (h.0, split_first-lacking sep s h.1) refl

split_first-append :
    (sep : Char) (s t : Text)
    → Lacks sep s
    → same sep sep ≡ true
    → split_first sep (s ++ sep ∷ t) ≡ some (s, t)
split_first-append sep [] t h r = rw r refl
split_first-append sep (c ∷ s) t h r = rw (h.0, split_first-append sep s t h.1 r) refl

-- What comes before the first separator lacks it.
abbrev LacksFirst : Char → Text → Option (Text × Text) → Type 0
LacksFirst sep s none = Lacks sep s
LacksFirst sep s (some (b, t)) = Lacks sep b

split_first-LacksFirst : (sep : Char) (s : Text) → LacksFirst sep s (split_first sep s)
split_first-LacksFirst sep [] = tt
split_first-LacksFirst sep (c ∷ s) = elim (Bool-cases (same c sep)) [
  | inl hit ↦ rw hit tt
  | inr miss ↦ rw miss (front miss (split_first sep s) (split_first-LacksFirst sep s))
]
  where
    front :
        same c sep ≡ false
        → (o : Option (Text × Text)) → LacksFirst sep s o
        → LacksFirst sep (c ∷ s) (in_front c o)
    front miss none h = (miss, h)
    front miss (some (b, t)) h = (miss, h)

query-with_query :
    (base : Text) (ps : List Text)
    → Lacks "?" base
    → All (Lacks "&") ps
    → query_of (with_query base ps) ≡ (base, ps)
query-with_query base [] h k = rw (split_first-lacking "?" base h) refl
query-with_query base (p ∷ ps) h k =
    rw (split_first-append "?" base (join "&" (p ∷ ps)) h refl)
      (ap (λ l. (base, l)) (split-join "&" p ps refl k))

without-query :
    (url : Text) (o : Option (Text × Text))
    → LacksFirst "?" url o
    → (query_of (without_sslmode url o).0
        ≡ ((parts_of url o).0, filter (λ p. not (is_sslmode p)) (parts_of url o).1))
      × ((without_sslmode url o).1 ≡ any disables_ssl (parts_of url o).1)
without-query url none h = (rw (split_first-lacking "?" url h) refl, refl)
without-query url (some (base, qs)) h = (
  query-with_query base (filter (λ p. not (is_sslmode p)) (split "&" qs)) h
      (All-filter (Lacks "&") (λ p. not (is_sslmode p)) (split "&" qs) (split-Lacks "&" qs)),
  refl,
)

of_some : (w p : Text × Bool) → some w ≡ some p → w ≡ p
of_some w p h = ap (λ o. elim o [ some q ↦ q | none ↦ w ]) h

-- A database URL that is accepted, read back, has the same text before its query as with the driver
-- put in, and of its parameters those that do not start with sslmode=, in their order; SSL is turned
-- off exactly if one of them was sslmode=disable.
pub parse_database_url-query :
    (env : Text) {url : Text} {ssl_off : Bool}
    → parse_database_url env ≡ some (url, ssl_off)
    → (query_of url ≡ (
      (query_of (with_driver env)).0,
      filter (λ p. not (is_sslmode p)) (query_of (with_driver env)).1,
    ))
      × (ssl_off ≡ any disables_ssl (query_of (with_driver env)).1)
unfolding parse_database_url
parse_database_url-query [] h = cc
parse_database_url-query (c ∷ s) {url} {ssl_off} h =
    let given = with_driver (c ∷ s) in
    let found = without-query given (split_first "?" given) (split_first-LacksFirst "?" given) in
    let same = of_some (without_sslmode given (split_first "?" given)) (url, ssl_off) h in
    (
      ap (λ (p : Text × Bool). query_of p.0) (sym same) ∙ found.0,
      ap (λ (p : Text × Bool). p.1) (sym same) ∙ found.1,
    )
