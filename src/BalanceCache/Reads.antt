-- ===== src/BalanceCache/Reads.antt =====
-- What the balance cache promises to its readers: the answer that the tables give.
use payment_ledger_api.Common.{
  ℕ, ◌≡◌, refl, ap, sym, ◌∙◌, String, some, inl, inr, ◌==◌, nat_eq, string_eq, Bool-cases,
  Option-cases, arith,
}
use payment_ledger_api.Model.{Uuid, Date}
use payment_ledger_api.Errors.{Result, ok, Result-cases}
use payment_ledger_api.Db.{Db}
use payment_ledger_api.Idempotency.{Reply}
use payment_ledger_api.BalanceCache.{
  Redis, Codec, CachedBalance, Settings, BalanceResponse, compute, cached, from_cache, ttl_of,
  write_back, get_account_balance,
}
use payment_ledger_api.BalanceCache.Keys.{Texts, key_of, key_of-injective, Fades}

-- The answer without a cache.
abbrev pub uncached : Uuid → Date → Db → Result BalanceResponse
uncached id as_of db = from_cache as_of (compute id as_of db)

module _ {Raw : Type 0} (R : Redis Raw) (J : Codec Raw) (T : Texts R) where
  -- What is stored for an account and a date is what the tables give.
  pub record IsStored (raw : Raw) (id : Uuid) (as_of : Date) (db : Db) : Type 0 where
    pub content : CachedBalance
    pub loaded : J.loads raw ≡ ok content
    pub computed : compute id as_of db ≡ ok content

  abbrev pub IsCoherent : Db → R.Store → Type 0
  IsCoherent db s =
      (id : Uuid) (as_of : Date) (raw : Raw)
      → R.get (key_of R T id as_of) s ≡ some raw
      → IsStored raw id as_of db

  -- Keys may vanish at any time.
  pub IsCoherent-Fades :
      (db : Db) (s s' : R.Store) → Fades R T s s' → IsCoherent db s → IsCoherent db s'
  IsCoherent-Fades db s s' f h id as_of raw p = elim (f (key_of R T id as_of)) [
    | inl gone ↦ cc
    | inr same ↦ h id as_of raw (sym same ∙ p)
  ]

  own_key :
      (db : Db) (s : R.Store) (j : Uuid) (on : Date) (id : Uuid) (as_of : Date)
      (content : CachedBalance) (ttl : ℕ) (raw : Raw)
      → key_of R T j on ≡ key_of R T id as_of
      → j ≡ id
      → on ≡ as_of
      → compute id as_of db ≡ ok content
      → R.get (key_of R T j on) (R.set (key_of R T id as_of) (J.dumps content) ttl s) ≡ some raw
      → IsStored raw j on db
  own_key db s j on id as_of content ttl raw k same_id same_date c p =
      let here = ap (λ x. R.get x (R.set (key_of R T id as_of) (J.dumps content) ttl s)) k in
      let there = R.get-set (key_of R T id as_of) (J.dumps content) ttl s in
      let stored : some raw ≡ some (J.dumps content) = sym p ∙ here ∙ there in
      record {
        content = content;
        loaded = ap J.loads (ground (arith, stored)) ∙ J.loads-dumps content;
        computed = rw (same_id, same_date) c;
      }

  set-IsCoherent :
      (db : Db) (s : R.Store) (id : Uuid) (as_of : Date) (content : CachedBalance) (ttl : ℕ)
      → compute id as_of db ≡ ok content
      → IsCoherent db s
      → IsCoherent db (R.set (key_of R T id as_of) (J.dumps content) ttl s)
  set-IsCoherent db s id as_of content ttl c h j on raw p =
      elim (Bool-cases (key_of R T j on == key_of R T id as_of)) [
        | inl own ↦
            (let k = (string_eq.equals_iff (key_of R T j on) (key_of R T id as_of)).0 own in
              let same = key_of-injective R T j id on as_of k in
              own_key db s j on id as_of content ttl raw k same.0 same.1 c p)
        | inr other ↦ h j on raw (sym (R.get-set-other _ _ (J.dumps content) ttl s other) ∙ p)
      ]

  write_back-IsCoherent :
      (reply : Reply) (db : Db) (s : R.Store) (id : Uuid) (as_of : Date) (content : CachedBalance)
      (ttl : ℕ)
      → compute id as_of db ≡ ok content
      → IsCoherent db s
      → IsCoherent db (write_back R J reply (key_of R T id as_of) content ttl s)
  unfolding write_back
  write_back-IsCoherent Reply.answered db s id as_of content ttl c h =
      set-IsCoherent db s id as_of content ttl c h
  write_back-IsCoherent Reply.refused db s id as_of content ttl c h = h
  write_back-IsCoherent Reply.lost db s id as_of content ttl c h =
      set-IsCoherent db s id as_of content ttl c h

  cached-get :
      (reply : Reply) (key : String) (s : R.Store) {raw : Raw}
      → cached R reply key s ≡ some raw
      → R.get key s ≡ some raw
  cached-get Reply.answered key s h = h
  cached-get Reply.refused key s h = cc
  cached-get Reply.lost key s h = cc

  -- A read from a coherent cache is answered as the tables answer it, balance, currency and error, whatever becomes of
  -- the commands to Redis, and leaves the cache coherent.
  pub get_account_balance-exact :
      (settings : Settings) (today : Date) (on_get on_set : Reply) (id : Uuid) (as_of : Date)
      (db : Db) (s : R.Store)
      → IsCoherent db s
      → ((get_account_balance T.uuid_text T.date_text R J settings today on_get on_set id as_of db
            s).0
          ≡ uncached id as_of db)
        × IsCoherent db
            (get_account_balance T.uuid_text T.date_text R J settings today on_get on_set id as_of
              db s).1
  unfolding get_account_balance
  get_account_balance-exact settings today on_get on_set id as_of db s h =
      elim (Option-cases (cached R on_get (key_of R T id as_of) s)) [
        | inr (raw, hit) ↦
            (let stored = h id as_of raw (cached-get on_get (key_of R T id as_of) s hit) in
              rw (get_account_balance, hit)
                (ap (from_cache as_of) (stored.loaded ∙ sym stored.computed), h))
        | inl miss ↦
            rw (get_account_balance, miss)
              (elim (Result-cases (compute id as_of db)) [
                | inl (content, c) ↦ rw c (
                  refl,
                  write_back-IsCoherent on_set db s id as_of content (ttl_of settings as_of today) c
                      h,
                )
                | inr (x, c) ↦ rw c (refl, h)
              ])
      ]
