-- ===== src/BalanceCache/Keys.antt =====
-- The keys of the balance cache: whose they are, and which of them a DELETE takes away.
use Prim.Native.String.{◌++◌ as str_append}
use mathlib.Core.Path.{subst}
use text.Mathlib.TextLemmas.{append_assoc, append_cancel_left}
use payment_ledger_api.Common.{
  ◌≡◌, ◌⊎◌, refl, ap, sym, ◌∙◌, String, true, none, some, List, [], ◌∷◌, contains, inl, inr, ◌==◌,
  nat_eq, string_eq, ◌||◌, nat_beq_iff, Bool-cases, Option-cases, if◌then◌else◌,
}
use payment_ledger_api.Model.{Uuid, Date}
use payment_ledger_api.Idempotency.{Reply}
use payment_ledger_api.BalanceCache.{
  Redis, cache_key, pattern, deleted, scanned, invalidate_balance_cache,
}

-- What the keys rely on: the text of a UUID or of a date has none of the characters `*`, `?`, `[` and `\`, and
-- the two texts, with a colon between, can be told apart.
pub record Texts {Raw : Type 0} (R : Redis Raw) : Type 0 where
  pub uuid_text : Uuid → String
  pub date_text : Date → String
  pub plain : (id : Uuid) → R.IsPlain (str_append (str_append "balance:" (uuid_text id)) ":")
  pub injective :
      (a b : Uuid) (d e : Date)
      → str_append (uuid_text a) (str_append ":" (date_text d))
        ≡ str_append (uuid_text b) (str_append ":" (date_text e))
      → (a ≡ b) × (d ≡ e)

module _ {Raw : Type 0} (R : Redis Raw) (T : Texts R) where
  abbrev pub key_of : Uuid → Date → String
  key_of id as_of = cache_key T.uuid_text T.date_text id as_of

  pub key_of-injective : (a b : Uuid) (d e : Date) → key_of a d ≡ key_of b e → (a ≡ b) × (d ≡ e)
  key_of-injective a b d e h =
      let split = λ (i : Uuid) (x : Date).
        append_assoc "balance:" (T.uuid_text i) (str_append ":" (T.date_text x)) in
      T.injective a b d e (append_cancel_left "balance:" _ _ (sym (split a d) ∙ h ∙ split b e))

  abbrev keys_of : Uuid → R.Store → List String
  keys_of id s = R.scan_iter (pattern T.uuid_text T.date_text id) s

  -- The SCAN for an account gives each of its keys.
  keys_of-all :
      (id : Uuid) (as_of : Date) (s : R.Store) {raw : Raw}
      → R.get (key_of id as_of) s ≡ some raw
      → contains (keys_of id s) (key_of id as_of) ≡ true
  keys_of-all id as_of s {raw} h =
      let prefix = str_append "balance:" (T.uuid_text id) in
      let key = append_assoc prefix ":" (T.date_text as_of) in
      let star = append_assoc prefix ":" "*" in
      ap (λ p. contains (R.scan_iter p s) (key_of id as_of)) (sym star)
      ∙ ap (λ k. contains (R.scan_iter (str_append (str_append prefix ":") "*") s) k) (sym key)
      ∙ R.scan_iter-all (str_append prefix ":") (T.date_text as_of) s (T.plain id)
          (ap (λ k. R.get k s) key ∙ h)

  -- In a later store a key is gone, or as it was.
  abbrev pub Fades : R.Store → R.Store → Type 0
  Fades s s' = (key : String) → (R.get key s' ≡ none) ⊎ (R.get key s' ≡ R.get key s)

  Fades-delete : (keys : List String) (s : R.Store) → Fades s (R.delete keys s)
  Fades-delete keys s key = elim (Bool-cases (contains keys key)) [
    | inl hit ↦ inl (R.get-delete key keys s ∙ ap (λ b. if b then none else R.get key s) hit)
    | inr miss ↦ inr (R.get-delete key keys s ∙ ap (λ b. if b then none else R.get key s) miss)
  ]

  Fades-refl : (s : R.Store) → Fades s s
  Fades-refl s key = inr refl

  Fades-trans : (a b c : R.Store) → Fades a b → Fades b c → Fades a c
  Fades-trans a b c f g key = elim (g key) [
    | inl gone ↦ inl gone
    | inr kept ↦ elim (f key) [ inl gone ↦ inl (kept ∙ gone) | inr same ↦ inr (kept ∙ same) ]
  ]

  -- No key of these accounts is left.
  abbrev pub AreGone : List Uuid → R.Store → Type 0
  AreGone ids s =
      (id : Uuid) (as_of : Date) → contains ids id ≡ true → R.get (key_of id as_of) s ≡ none

  gone_after : (k : String) (a b : R.Store) → Fades a b → R.get k a ≡ none → R.get k b ≡ none
  gone_after k a b f h = elim (f k) [ inl gone ↦ gone | inr same ↦ same ∙ h ]

  deleted-Fades :
      (reply : Reply) (keys : List String) (rest : R.Store → R.Store) (s : R.Store)
      → ((t : R.Store) → Fades t (rest t))
      → Fades s (deleted T.uuid_text T.date_text R reply keys rest s)
  deleted-Fades _ [] rest s h = h s
  deleted-Fades Reply.answered (k ∷ keys) rest s h =
      Fades-trans s (R.delete (k ∷ keys) s) _ (Fades-delete (k ∷ keys) s)
        (h (R.delete (k ∷ keys) s))
  deleted-Fades Reply.refused (k ∷ keys) rest s h = Fades-refl s
  deleted-Fades Reply.lost (k ∷ keys) rest s h = Fades-delete (k ∷ keys) s

  scanned-Fades :
      (on_scan on_delete : Reply) (keys : List String) (rest : R.Store → R.Store) (s : R.Store)
      → ((t : R.Store) → Fades t (rest t))
      → Fades s (scanned T.uuid_text T.date_text R on_scan on_delete keys rest s)
  scanned-Fades Reply.answered on_delete keys rest s h = deleted-Fades on_delete keys rest s h
  scanned-Fades Reply.refused on_delete keys rest s h = Fades-refl s
  scanned-Fades Reply.lost on_delete keys rest s h = Fades-refl s

  -- A DELETE that is answered hands over a store without its keys.
  deleted_then :
      (keys : List String) (rest : R.Store → R.Store) (s : R.Store)
      → (t : R.Store) × (deleted T.uuid_text T.date_text R Reply.answered keys rest s ≡ rest t)
        × Fades s t
        × ((k : String) → contains keys k ≡ true → R.get k t ≡ none)
  deleted_then [] rest s = (s, refl, Fades-refl s, λ k h. cc)
  deleted_then (j ∷ keys) rest s = (
    R.delete (j ∷ keys) s,
    refl,
    Fades-delete (j ∷ keys) s,
    λ k h. R.get-delete k (j ∷ keys) s ∙ ap (λ b. if b then none else R.get k s) h,
  )

  -- So an account whose SCAN gave them has no key left.
  account-gone :
      (id : Uuid) (as_of : Date) (s t : R.Store)
      → Fades s t
      → ((k : String) → contains (keys_of id s) k ≡ true → R.get k t ≡ none)
      → R.get (key_of id as_of) t ≡ none
  account-gone id as_of s t f h = elim (Option-cases (R.get (key_of id as_of) s)) [
    | inl missing ↦ gone_after (key_of id as_of) s t f missing
    | inr (raw, present) ↦ h (key_of id as_of) (keys_of-all id as_of s present)
  ]

  module _ (replies : Uuid → Reply × Reply) where
    abbrev pub invalidated : List Uuid → R.Store → R.Store
    invalidated ids s = invalidate_balance_cache T.uuid_text T.date_text R replies ids s

    -- Whatever the replies are, an invalidation only takes keys away.
    pub invalidate-Fades : (ids : List Uuid) (s : R.Store) → Fades s (invalidated ids s)
    unfolding invalidate_balance_cache
    invalidate-Fades [] s = Fades-refl s
    invalidate-Fades (id ∷ ids) s =
        scanned-Fades (replies id).0 (replies id).1 (keys_of id s) (invalidated ids) s
          (invalidate-Fades ids)

    -- An invalidation whose commands are answered leaves no key of its accounts.
    pub invalidate-AreGone :
        (ids : List Uuid) (s : R.Store)
        → ((id : Uuid) → replies id ≡ (Reply.answered, Reply.answered))
        → AreGone ids (invalidated ids s)
    unfolding invalidate_balance_cache
    invalidate-AreGone [] s h id as_of k = cc
    invalidate-AreGone (j ∷ ids) s h id as_of k =
        let (t, same, f, gone) = deleted_then (keys_of j s) (invalidated ids) s in
        subst (λ w. R.get (key_of id as_of) w ≡ none) (sym (rw (h j) same))
          (elim (Bool-cases (j == id)) [
            | inl own ↦
                gone_after (key_of id as_of) t (invalidated ids t) (invalidate-Fades ids t) (
                  account-gone id as_of s t f (
                    subst (λ i. (k : String) → contains (keys_of i s) k ≡ true → R.get k t ≡ none)
                      ((nat_beq_iff j id).0 own) gone))
            | inr other ↦
                invalidate-AreGone ids t h id as_of (ap (λ b. b || contains ids id) (sym other) ∙ k)
          ])
