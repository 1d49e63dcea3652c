-- ===== src/Idempotency/Retry.antt =====
-- What an Idempotency-Key promises: a request that was answered is not run again.
use mathlib.Core.Path.{subst₂, ap₂}
use payment_ledger_api.Common.{ℕ, String, none, some, ◌≡◌, ◌≢◌, refl, ap, ◌∙◌, string_eq, arith}
use payment_ledger_api.Errors.{Error, Result, ok, err, http_exception, redis_error, key_reused}
use payment_ledger_api.Idempotency.{
  Redis, Codec, Reply, Replies, Context, pending, done, redis_key_of, already_used,
  check_idempotency, cache, release, guarded, in_context, answered_by,
}
use payment_ledger_api.Idempotency.Admission.{
  Recorded, check-taken, check-free, judge-done, judge-other, judge-pending, check-not_unchecked,
  check-admitted, check-replayed,
}

abbrev pub reliable : Replies
reliable = record {
  on_set_nx = Reply.answered;
  on_get = Reply.answered;
  on_cache = Reply.answered;
  on_delete = Reply.answered;
}

module _ {Raw B : Type 0} (R : Redis Raw) (J : Codec Raw B) (sha256 : String → String) where
  module _ {W : Type 0} (handler : W → Result B × W) where
    -- A request whose response is recorded is answered by it.
    replay :
        (key body : String) (replies : Replies) (w : W) (s : R.Store) {response : B}
        → replies.on_set_nx ≡ Reply.answered
        → replies.on_get ≡ Reply.answered
        → Recorded R J sha256 (redis_key_of key) (sha256 body) response s
        → guarded R J sha256 handler (some key) body replies (w, s) ≡ (ok (200, response), (w, s))
    unfolding guarded
    replay key body replies w s p q recorded =
        rw (check-taken R J sha256 key body replies s p q recorded.present, recorded.judged) refl

    -- A request under a free key whose SET NX is answered is admitted; in the store as it leaves it
    -- then, the same request again, if its SET NX and GET are answered, gives a conflict, and
    -- neither the tables nor the store are touched.
    pub guarded-in_flight :
        (key body : String) (first again : Replies) (w : W) (s : R.Store)
        → R.get (redis_key_of key) s ≡ none
        → first.on_set_nx ≡ Reply.answered
        → again.on_set_nx ≡ Reply.answered
        → again.on_get ≡ Reply.answered
        → (s₁ : R.Store) × (check_idempotency R J sha256 (some key) body first s
            ≡ (ok (Context.admitted (redis_key_of key) (sha256 body)), s₁))
          × (guarded R J sha256 handler (some key) body again (w, s₁) ≡ (err already_used, (w, s₁)))
    unfolding guarded
    guarded-in_flight key body first again w s free p q r =
        let k = redis_key_of key in
        let mark = J.dumps (pending (sha256 body)) in
        (
          R.set k mark s,
          check-free R J sha256 key body first s p free,
          rw
              (
                check-taken R J sha256 key body again (R.set k mark s) q r (R.get-set k mark s),
                judge-pending R J sha256 (sha256 body),
              )
              refl,
        )

    -- A request under a free key whose handler raises is answered by that error and gives the key
    -- back, if Redis answers its commands.
    pub guarded-released :
        (key body : String) (w w' : W) (s : R.Store) (e : Error)
        → R.get (redis_key_of key) s ≡ none
        → handler w ≡ (err e, w')
        → (s' : R.Store) × (guarded R J sha256 handler (some key) body reliable (w, s)
            ≡ (err e, (w', s')))
          × (R.get (redis_key_of key) s' ≡ none)
    unfolding guarded release
    guarded-released key body w w' s e free raised =
        let k = redis_key_of key in
        let s₁ = R.set k (J.dumps (pending (sha256 body))) s in
        (
          R.delete k s₁,
          rw (check-free R J sha256 key body reliable s refl free, raised) refl,
          R.get-delete k s₁,
        )

    -- Under a key that is free the handler runs.
    runs-free :
        (key body : String) (w : W) (s : R.Store)
        → R.get (redis_key_of key) s ≡ none
        → (guarded R J sha256 handler (some key) body reliable (w, s)).1.0 ≡ (handler w).1
    unfolding guarded cache release
    runs-free key body w s free =
        ground (arith, check-free R J sha256 key body reliable s refl free)

    same_body :
        {m n : ℕ} {a b : B} {w w' : W} {t u : R.Store}
        → ◌≡◌ {A = Result (ℕ × B) × (W × R.Store)} (ok (m, a), (w, t)) (ok (n, b), (w', u))
        → a ≡ b
    same_body h = cc

    same_store :
        {m n : ℕ} {a b : B} {w w' : W} {t u : R.Store}
        → ◌≡◌ {A = Result (ℕ × B) × (W × R.Store)} (ok (m, a), (w, t)) (ok (n, b), (w', u))
        → t ≡ u
    same_store h = cc

    stored :
        (k f : String) (replies : Replies) (p : Result B × W) (t : R.Store) {n : ℕ} {response : B}
        {w₁ : W} {s₁ : R.Store}
        → answered_by R J sha256 handler (Context.admitted k f) replies p t
          ≡ (ok (n, response), (w₁, s₁))
        → s₁ ≡ R.set k (J.dumps (done f response)) t
    unfolding cache release
    stored k f replies (ok body, w) t h = ground arith
    stored k f replies (err x, w) t h = ground arith

    guarded-records :
        (key body : String) (first : Replies) (w w₁ : W) (s s₁ : R.Store) (n : ℕ) (response : B)
        → guarded R J sha256 handler (some key) body first (w, s) ≡ (ok (n, response), (w₁, s₁))
        → Recorded R J sha256 (redis_key_of key) (sha256 body) response s₁
    unfolding guarded
    guarded-records key body first w w₁ s s₁ n response h =
        from (check_idempotency R J sha256 (some key) body first s) refl h
      where
        from :
            (p : Result (Context B) × R.Store)
            → check_idempotency R J sha256 (some key) body first s ≡ p
            → in_context R J sha256 handler first w p ≡ (ok (n, response), (w₁, s₁))
            → Recorded R J sha256 (redis_key_of key) (sha256 body) response s₁
        from (err x, t) c k = cc
        from (ok Context.unchecked, t) c k =
            absurd (check-not_unchecked R J sha256 key body first s c)
        from (ok (Context.replayed r), t) c k =
            let recorded = check-replayed R J sha256 key body first s c in
            subst₂ (λ b u. Recorded R J sha256 (redis_key_of key) (sha256 body) b u) (same_body k)
              (same_store k) recorded
        from (ok (Context.admitted redis_key fingerprint), t) c k =
            let same = check-admitted R J sha256 key body first s c in
            let after = stored redis_key fingerprint first (handler w) t k in
            record {
              raw = J.dumps (done (sha256 body) response);
              present =
                  ap (λ u. R.get (redis_key_of key) u) after
                  ∙ ap₂ (λ a b. R.get (redis_key_of key) (R.set a (J.dumps (done b response)) t))
                      same.0 same.1
                  ∙ R.get-set (redis_key_of key) (J.dumps (done (sha256 body) response)) t;
              judged = judge-done R J sha256 (sha256 body) response;
            }

    -- Under a free key, a handler that returns, and then a SET of the response that raises, whether
    -- or not it took effect, while Redis answers the other commands: the answer is the error, the
    -- handler's effect stays, and a retry runs the handler once more on top of it.
    pub guarded-twice :
        (key body : String) (cached : Reply) (w w' : W) (s : R.Store) (response : B)
        → R.get (redis_key_of key) s ≡ none
        → handler w ≡ (ok response, w')
        → cached ≢ Reply.answered
        → (s' : R.Store) × (guarded R J sha256 handler
              (some key)
              body
              (record reliable { on_cache = cached })
              (w, s)
            ≡ (err redis_error, (w', s')))
          × ((guarded R J sha256 handler (some key) body reliable (w', s')).1.0 ≡ (handler w').1)
    unfolding guarded cache release
    guarded-twice key body Reply.answered w w' s response free ran raises = absurd (raises refl)
    guarded-twice key body Reply.refused w w' s response free ran raises =
        let k = redis_key_of key in
        let replies = record reliable { on_cache = Reply.refused } in
        let s' = R.delete k (R.set k (J.dumps (pending (sha256 body))) s) in
        (
          s',
          rw (check-free R J sha256 key body replies s refl free, ran) refl,
          runs-free key body w' s' (R.get-delete k (R.set k (J.dumps (pending (sha256 body))) s)),
        )
    guarded-twice key body Reply.lost w w' s response free ran raises =
        let k = redis_key_of key in
        let replies = record reliable { on_cache = Reply.lost } in
        let s₁ = R.set k (J.dumps (pending (sha256 body))) s in
        let s₂ = R.set k (J.dumps (done (sha256 body) response)) s₁ in
        (
          R.delete k s₂,
          rw (check-free R J sha256 key body replies s refl free, ran) refl,
          runs-free key body w' (R.delete k s₂) (R.get-delete k s₂),
        )

    -- A request that was answered, by the handler or by a replay, and the same request again: the
    -- second, if its SET NX and GET are answered, gives 200 and the body of the first, and neither
    -- the tables nor the store are touched, whatever became of the commands of the first.
    pub guarded-replays :
        (key body : String) (first again : Replies) (w w₁ w₂ : W) (s s₁ : R.Store) (n : ℕ)
        (response : B)
        → guarded R J sha256 handler (some key) body first (w, s) ≡ (ok (n, response), (w₁, s₁))
        → again.on_set_nx ≡ Reply.answered
        → again.on_get ≡ Reply.answered
        → guarded R J sha256 handler (some key) body again (w₂, s₁) ≡ (ok (200, response), (w₂, s₁))
    guarded-replays key body first again w w₁ w₂ s s₁ n response h p q =
        replay key body again w₂ s₁ p q (guarded-records key body first w w₁ s s₁ n response h)

    -- The key of a request that was answered, sent again with a body of another fingerprint, is
    -- refused by 422, if the SET NX and the GET are answered, and neither the tables nor the store are touched.
    pub guarded-mismatch :
        (key body other : String) (first again : Replies) (w w₁ w₂ : W) (s s₁ : R.Store) (n : ℕ)
        (response : B)
        → guarded R J sha256 handler (some key) body first (w, s) ≡ (ok (n, response), (w₁, s₁))
        → sha256 body ≢ sha256 other
        → again.on_set_nx ≡ Reply.answered
        → again.on_get ≡ Reply.answered
        → guarded R J sha256 handler (some key) other again (w₂, s₁)
          ≡ (err (http_exception 422 key_reused), (w₂, s₁))
    unfolding guarded
    guarded-mismatch key body other first again w w₁ w₂ s s₁ n response h differ p q =
        let recorded = guarded-records key body first w w₁ s s₁ n response h in
        rw
          (
            check-taken R J sha256 key other again s₁ p q recorded.present,
            judge-other R J sha256 (sha256 body) (sha256 other) recorded.raw recorded.judged differ,
          )
          refl
