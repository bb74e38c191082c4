-- ===== src/Session/Logout.antt =====
-- Logging out while a refresh is under way.
use clerq.Prelude.{String, ◌≡◌, ◌≢◌, some, arith, eq_iff}
use clerq.Session.{Client, posted, renewed, set_tokens, on_refreshed, logout}

-- A refresh that was posted before the user logs out, and is answered after it with tokens that are
-- not empty, stores these: the user who has logged out has tokens again.
pub tokens-after_logout :
    (c : Client) (sent access refresh : String)
    → c.inflight ≡ some (posted sent)
    → access ≢ ""
    → refresh ≢ ""
    → (on_refreshed (renewed (some access) (some refresh)) (logout c)).0.tokens
      ≡ record { access = some access; refresh = some refresh }
unfolding on_refreshed logout set_tokens
tokens-after_logout c sent access refresh h k l =
    ground (arith, eq_iff access "", eq_iff refresh "")
