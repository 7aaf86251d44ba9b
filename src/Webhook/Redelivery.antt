-- ===== src/Webhook/Redelivery.antt =====
-- receiver.go: a delivery that comes again.
use iter.Common.{
  ℕ, suc, ◌≡◌, refl, sym, ap, ◌∙◌, subst, true, false, ltb, Option, none, some, List, [], ◌∷◌, map,
  length, take, Option-cases, inl, inr, All,
}
use iter.Common.Bytes.{is_empty}
use iter.Common.KeyStore.{KeyStore, KeyLaws}
use iter.Webhook.{
  max_body, idempotency_ttl, find_route, EventHandler, Response, Inbound, Config,
  verify_hmac_sha256, delivery_key, replay_response,
}
use iter.Webhook.Receive.{World, Circumstances, dispatch_event, run_route, admit, accept, handle}

-- A delivery that passes the checks of its body and signature under an identifier, while Redis
-- answers.
pub record IsGenuine {App : Type 0} (cfg : Config App) (id : List ℕ) (e : Circumstances)
    (r : Inbound) : Type 0 where
  pub body : List ℕ
  pub content : r.content ≡ some body
  pub fits : ltb max_body (length (take (suc max_body) body)) ≡ false
  pub signed :
      verify_hmac_sha256 cfg.digest cfg.secret
        (r.header cfg.signature_header)
        (take (suc max_body) body)
        cfg.signature_prefix
      ≡ true
  pub named : r.header cfg.delivery_header ≡ id
  pub works : e.fails ≡ false

module _ (R : KeyStore) {App : Type 0} (cfg : Config App) where
  -- Deliveries one after the other: the answers, and the state after them.
  unfoldable pub handle_all :
      List (Circumstances × Inbound) → World R.S App → List Response × World R.S App
  unfolding handle
  handle_all [] wd = ([], wd)
  handle_all ((e, r) ∷ rs) wd =
      let first = handle R cfg e r wd in
      let rest = handle_all rs first.1 in (first.0 ∷ rest.0, rest.1)

module _ {R : KeyStore} (laws : KeyLaws R) {App : Type 0} (cfg : Config App) (id : List ℕ) where
  pub handle-admit :
      (e : Circumstances) (r : Inbound) (wd : World R.S App) (g : IsGenuine cfg id e r)
      → is_empty id ≡ false
      → cfg.has_redis ≡ true
      → handle R cfg e r wd
        ≡ admit R cfg
            (take (suc max_body) g.body)
            r
            wd.app
            (R.set_nx idempotency_ttl (delivery_key cfg.source id) e.now wd.redis)
  unfolding handle accept
  handle-admit e r wd g named redis =
      rw g.content rw g.fits rw g.signed rw (subst (λ d. is_empty d ≡ false) (sym g.named) named) rw
        redis rw g.works rw g.named refl

  abbrev pub Known : World R.S App → Type 0
  Known wd = (v : List ℕ) × (R.get (delivery_key cfg.source id) wd.redis ≡ some v)

  run_route-redis :
      (event body : List ℕ) (r : Inbound) (o : Option (EventHandler App)) (wd : World R.S App)
      → (run_route R cfg event body r o wd).1.redis ≡ wd.redis
  run_route-redis event body r none wd = refl
  run_route-redis event body r (some route) wd = refl

  dispatch-redis :
      (body : List ℕ) (r : Inbound) (o : Option (List ℕ)) (wd : World R.S App)
      → (dispatch_event R cfg body r o wd).1.redis ≡ wd.redis
  dispatch-redis body r none wd = refl
  dispatch-redis body r (some event) wd =
      run_route-redis event body r (find_route event cfg.routes) wd

  pub handle-Known :
      (e : Circumstances) (r : Inbound) (wd : World R.S App)
      → IsGenuine cfg id e r
      → is_empty id ≡ false
      → cfg.has_redis ≡ true
      → Known (handle R cfg e r wd).1
  handle-Known e r wd g named redis =
      subst (λ x. Known x.1) (sym (handle-admit e r wd g named redis))
        (elim (Option-cases (R.get k wd.redis)) [
          | inl free ↦
              subst (λ x. Known (admit R cfg b r wd.app x).1)
                (sym (laws.set_nx_free idempotency_ttl k e.now wd.redis free))
                (
                  e.now,
                  ap (R.get k) (dispatch-redis b r (cfg.event_name b r) _)
                      ∙ laws.get_set idempotency_ttl k e.now wd.redis,
                )
          | inr (v, held) ↦
              subst (λ x. Known (admit R cfg b r wd.app x).1)
                (sym (laws.set_nx_held idempotency_ttl k e.now v wd.redis held)) (v, held)
        ])
    where
      k : List ℕ
      k = delivery_key cfg.source id

      b : List ℕ
      b = take (suc max_body) g.body

  handle-replay :
      (e : Circumstances) (r : Inbound) (wd : World R.S App)
      → IsGenuine cfg id e r
      → is_empty id ≡ false
      → cfg.has_redis ≡ true
      → Known wd
      → handle R cfg e r wd ≡ (replay_response, wd)
  handle-replay e r wd g named redis (v, held) =
      handle-admit e r wd g named redis
      ∙ ap (admit R cfg (take (suc max_body) g.body) r wd.app)
          (laws.set_nx_held idempotency_ttl (delivery_key cfg.source id) e.now v wd.redis held)

  pub Known-replays :
      (rs : List (Circumstances × Inbound)) (wd : World R.S App)
      → is_empty id ≡ false
      → cfg.has_redis ≡ true
      → All (λ p. IsGenuine cfg id p.0 p.1) rs
      → Known wd
      → handle_all R cfg rs wd ≡ (map (λ p. replay_response) rs, wd)
  unfolding handle_all
  Known-replays [] wd named redis gs known = refl
  Known-replays ((e, r) ∷ rs) wd named redis gs known =
      rw (handle-replay e r wd gs.0 named redis known)
        (ap (λ x. (replay_response ∷ x.0, x.1)) (Known-replays rs wd named redis gs.1 known))

  -- Once a genuine delivery with an identifier was handled, whatever its answer was and whatever
  -- the store held, every further genuine delivery with that identifier is answered as a replay
  -- with status 200, and neither the application nor the store changes any more. No key expires
  -- meanwhile.
  pub redelivery_replayed :
      (e : Circumstances) (r : Inbound) (rs : List (Circumstances × Inbound)) (wd : World R.S App)
      → is_empty id ≡ false
      → cfg.has_redis ≡ true
      → IsGenuine cfg id e r
      → All (λ p. IsGenuine cfg id p.0 p.1) rs
      → let after = (handle R cfg e r wd).1 in
        handle_all R cfg rs after ≡ (map (λ p. replay_response) rs, after)
  redelivery_replayed e r rs wd named redis g gs =
      Known-replays rs (handle R cfg e r wd).1 named redis gs (handle-Known e r wd g named redis)
