-- ===== src/Outcomes/Lost.antt =====
-- A GitHub delivery that comes while the database takes no writes.
use iter.Common.{ℕ, suc, ◌≡◌, refl, ap, ◌∙◌, Bool, true, false, List, map, take, All}
use iter.Common.Bytes.{is_empty}
use iter.Common.KeyStore.{KeyStore, KeyLaws}
use iter.Webhook.{max_body, Inbound, Config, replay_response}
use iter.Webhook.Receive.{World, Circumstances, admit, handle}
use iter.Webhook.Redelivery.{IsGenuine, handle_all, handle-admit, handle-Known, Known-replays}
use iter.Outcomes.{Tables, Sink}
use iter.Outcomes.Github.{Tools, github_webhook_handler}
use iter.Outcomes.Handlers.{dispatch_closed}
use iter.Outcomes.Inserts.{IsIdle, IsIdle-IsClosed}

module _ {R : KeyStore} (laws : KeyLaws R) (tools : Tools) (down up : Sink) (secret : List ℕ)
    (digest : List ℕ → List ℕ → List ℕ) (id : List ℕ) where
  abbrev pub before : Config Tables
  before = github_webhook_handler tools down secret true digest

  abbrev pub afterwards : Config Tables
  afterwards = github_webhook_handler tools up secret true digest

  admit-idle :
      (body : List ℕ) (r : Inbound) (t : Tables) (x : Bool × R.S)
      → down.takes ≡ false
      → (admit R before body r t x).1.app ≡ t
  admit-idle body r t (false, s) h = refl
  admit-idle body r t (true, s) h =
      dispatch_closed down IsIdle (IsIdle-IsClosed down h) R tools secret digest true body r s
        (before.event_name body r) t

  -- A genuine GitHub delivery that comes while the database takes no writes leaves the tables as
  -- they are, and when GitHub sends it again, however often and after the database has recovered,
  -- it is answered as a replay and still changes nothing: what it tells is lost. Its key does not
  -- expire meanwhile.
  pub lost_delivery :
      (e : Circumstances) (r : Inbound) (again : List (Circumstances × Inbound))
      (wd : World R.S Tables)
      → down.takes ≡ false
      → is_empty id ≡ false
      → IsGenuine before id e r
      → All (λ p. IsGenuine afterwards id p.0 p.1) again
      → let after = (handle R before e r wd).1 in
        (after.app ≡ wd.app)
        × (handle_all R afterwards again after ≡ (map (λ p. replay_response) again, after))
  lost_delivery e r again wd h named g gs = (
    ap (λ x. x.1.app) (handle-admit laws before id e r wd g named refl)
        ∙ admit-idle (take (suc max_body) g.body) r wd.app _ h,
    Known-replays laws afterwards id again (handle R before e r wd).1 named refl gs
        (handle-Known laws before id e r wd g named refl),
  )
