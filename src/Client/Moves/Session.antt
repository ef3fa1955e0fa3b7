-- ===== src/Client/Moves/Session.antt =====
-- linux/main.c: the connection to the server leaves the balances alone.

use sync_clipboard.Client.Moves.{Quiet, Quiet-of, Quiet-refl, Quiet-sends, view}
use sync_clipboard.Client.Session.{dial, on_established, on_lost}
use sync_clipboard.Client.State.{Client, Env}
use sync_clipboard.Config.{ClientConfig}
use sync_clipboard.Prelude.{Bool, Option, if-both, maybe-both, not, refl, ℕ, ◌||◌}

module _ (c : Client) where
  pub on_established-Quiet : (cfg : ClientConfig) (env : Env) → Quiet c (on_established cfg env c)
  unfolding on_established view
  on_established-Quiet cfg env =
      maybe-both (Quiet c) _ _ _ (λ e. Quiet-of c _ refl refl)
        (λ msg e. Quiet-sends c _ msg refl refl)

  pub on_lost-Quiet : Quiet c (on_lost c)
  unfolding on_lost view
  on_lost-Quiet = Quiet-of c _ refl refl

  pub dial-Quiet : (has_tokens connects : Bool) → Quiet c (dial has_tokens connects c).1
  unfolding dial view
  dial-Quiet has_tokens connects =
      if-both (λ (r : Option ℕ × Client). Quiet c r.1) (c.connected || c.has_wsi) _ _
        (λ h. Quiet-refl c)
        (λ h.
          if-both (λ (r : Option ℕ × Client). Quiet c r.1) (not has_tokens) _ _
            (λ g. Quiet-of c _ refl refl)
            (λ g.
              if-both (λ (r : Option ℕ × Client). Quiet c r.1) connects _ _
                (λ k. Quiet-of c _ refl refl) (λ k. Quiet-of c _ refl refl)))
