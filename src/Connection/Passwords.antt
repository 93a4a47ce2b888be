-- ===== src/Connection/Passwords.antt =====
-- src/connection.c: prompts for passwords, and the end of a connection.
use telepathy_haze.Connection.{
  Effect, request_password, cancel_password_request, given, prompt, answer_password,
  connect_account, shut_down, finish_shutdown, Base, disconnected_cb, prompt_cb, Connection,
}
use telepathy_haze.Connection.Disconnects.{connects, disconnects}
use telepathy_haze.Prelude.{ℕ, ◌⊎◌, some, String, [], false, suc, ◌∷◌, List, true, arith, refl, ◌≡◌}

-- A password that is given for a asker of libpurple is the answer to it, and the account is not
-- connected by it; if libpurple cancels the asker before the password is given, the account is
-- connected by it, whether or not it was before.
pub given-connects :
    (B : Base) (C : Connection) (asker : ℕ) (secret : String)
    → ((prompt_cb B (request_password C asker) (given secret)).log
        ≡ answer_password asker (some secret) ∷ prompt ∷ C.log)
      × (connects
            (prompt_cb B (cancel_password_request (request_password C asker)) (given secret)).log
          ≡ suc (connects C.log))
unfolding prompt_cb request_password cancel_password_request connect_account connects
given-connects B C asker secret = (refl, refl)

unfoldable pub finishes : List Effect → ℕ
finishes [] = 0
finishes (finish_shutdown ∷ es) = suc (finishes es)
finishes (_ ∷ es) = finishes es

-- Shutting down a connection that never connected its account finishes at once and asks libpurple for
-- nothing. Otherwise it does not finish before libpurple says that the account is disconnected, which
-- it was asked to do unless it was doing so already; then it finishes.
pub shut_down-finishes :
    (B : Base) (C : Connection)
    → ((C.connect_called ≡ false) × ((shut_down C).log ≡ finish_shutdown ∷ C.log))
      ⊎ ((C.connect_called ≡ true)
          × (finishes (shut_down C).log ≡ finishes C.log)
          × ((C.disconnecting ≡ true) ⊎ (disconnects (shut_down C).log ≡ suc (disconnects C.log)))
          × ((shut_down C).disconnecting ≡ true)
          × (finishes (disconnected_cb B (shut_down C)).log ≡ suc (finishes C.log)))
unfolding shut_down disconnected_cb finishes disconnects
shut_down-finishes B C = ground arith
