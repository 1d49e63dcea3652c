-- ===== src/Idempotency/Admission.antt =====
-- What `check_idempotency` answers under a free key and under a taken one.
use payment_ledger_api.Common.{
  String, true, false, none, some, ◌≡◌, ◌≢◌, refl, ap, sym, ◌∙◌, ◌==◌, string_eq, Option-cases,
  Bool-cases, inl, inr, arith,
}
use payment_ledger_api.Errors.{ok, err, http_exception, key_reused}
use payment_ledger_api.Idempotency.{
  Redis, Codec, Reply, Replies, Context, pending, done, redis_key_of, already_used, judge,
  check_idempotency,
}

module _ {Raw B : Type 0} (R : Redis Raw) (J : Codec Raw B) (sha256 : String → String) where
  -- The key holds a response for this fingerprint.
  pub record Recorded (redis_key fingerprint : String) (response : B) (s : R.Store) : Type 0 where
    pub raw : Raw
    pub present : R.get redis_key s ≡ some raw
    pub judged : judge R J sha256 fingerprint (some raw) ≡ ok (Context.replayed response)

  same_text : (a : String) → (a == a) ≡ true
  same_text a = (string_eq.equals_iff a a).1 refl

  texts_apart : (a b : String) → a ≢ b → (a == b) ≡ false
  texts_apart a b h = elim (Bool-cases (a == b)) [
    | inl same ↦ absurd (h ((string_eq.equals_iff a b).0 same))
    | inr differ ↦ differ
  ]

  -- A taken key, with replies that arrive.
  pub check-taken :
      (key body : String) (replies : Replies) (s : R.Store) {raw : Raw}
      → replies.on_set_nx ≡ Reply.answered
      → replies.on_get ≡ Reply.answered
      → R.get (redis_key_of key) s ≡ some raw
      → check_idempotency R J sha256 (some key) body replies s
        ≡ (judge R J sha256 (sha256 body) (some raw), s)
  unfolding check_idempotency
  check-taken key body replies s {raw} p q h =
      let taken = R.set_nx-taken (redis_key_of key) (J.dumps (pending (sha256 body))) raw s h in
      ground (arith, taken)

  pub check-free :
      (key body : String) (replies : Replies) (s : R.Store)
      → replies.on_set_nx ≡ Reply.answered
      → R.get (redis_key_of key) s ≡ none
      → check_idempotency R J sha256 (some key) body replies s ≡ (
        ok (Context.admitted (redis_key_of key) (sha256 body)),
        R.set (redis_key_of key) (J.dumps (pending (sha256 body))) s,
      )
  unfolding check_idempotency
  check-free key body replies s p h =
      rw (p, R.set_nx-free (redis_key_of key) (J.dumps (pending (sha256 body))) s h) refl

  pub judge-done :
      (fingerprint : String) (response : B)
      → judge R J sha256 fingerprint (some (J.dumps (done fingerprint response)))
        ≡ ok (Context.replayed response)
  unfolding judge
  judge-done fingerprint response =
      ground (arith, J.loads-dumps (done fingerprint response), same_text fingerprint)

  pub judge-other :
      (fingerprint other : String) (raw : Raw) {response : B}
      → judge R J sha256 fingerprint (some raw) ≡ ok (Context.replayed response)
      → fingerprint ≢ other
      → judge R J sha256 other (some raw) ≡ err (http_exception 422 key_reused)
  unfolding judge
  judge-other fingerprint other raw {response} h differ = elim (Option-cases (J.loads raw)) [
    | inl bad ↦ ground arith
    | inr (stored, p) ↦ elim (Bool-cases (stored.fingerprint == fingerprint)) [
      | inr wrong ↦ ground arith
      | inl same ↦
          (let apart : (stored.fingerprint == other) ≡ false =
              texts_apart stored.fingerprint other (λ e.
                differ (sym ((string_eq.equals_iff stored.fingerprint fingerprint).0 same) ∙ e)) in
            ground (arith, p, apart))
    ]
  ]

  pub judge-pending :
      (fingerprint : String)
      → judge R J sha256 fingerprint (some (J.dumps (pending fingerprint))) ≡ err already_used
  unfolding judge
  judge-pending fingerprint =
      ground (arith, J.loads-dumps (pending {B = B} fingerprint), same_text fingerprint)

  pub check-not_unchecked :
      (key body : String) (replies : Replies) (s : R.Store) {t : R.Store}
      → check_idempotency R J sha256 (some key) body replies s ≡ (ok Context.unchecked, t)
      → ⊥
  unfolding check_idempotency judge
  check-not_unchecked key body replies s h = ground arith

  pub check-admitted :
      (key body : String) (replies : Replies) (s : R.Store) {t : R.Store} {k f : String}
      → check_idempotency R J sha256 (some key) body replies s ≡ (ok (Context.admitted k f), t)
      → (k ≡ redis_key_of key) × (f ≡ sha256 body)
  unfolding check_idempotency judge
  check-admitted key body replies s h = ground arith

  pub check-replayed :
      (key body : String) (replies : Replies) (s : R.Store) {t : R.Store} {response : B}
      → check_idempotency R J sha256 (some key) body replies s ≡ (ok (Context.replayed response), t)
      → Recorded (redis_key_of key) (sha256 body) response t
  unfolding check_idempotency
  check-replayed key body replies s {t} {response} h =
      let k = redis_key_of key in
      let mark = J.dumps (pending (sha256 body)) in
      elim (Option-cases (R.get k s)) [
        | inl free ↦ (let open_key = R.set_nx-free k mark s free in ground arith)
        | inr (raw, hit) ↦
            (let taken = R.set_nx-taken k mark raw s hit in
              let both : (judge R J sha256 (sha256 body) (some raw)
                    ≡ ok (Context.replayed response))
                  × (t ≡ s) =
                (ground arith, ground arith) in
              record { raw = raw; present = ap (R.get k) both.1 ∙ hit; judged = both.0 })
      ]
