-- ===== src/ImFactory/Requests.antt =====
-- src/im-channel-factory.c: the answers to requests for channels.
use telepathy_haze.ImChannel.{Channel}
use telepathy_haze.ImFactory.{
  request_already_satisfied, Request, request_failed, new_channel_for, Event, get_im_channel,
  answer_existing, Factory, request,
}
use telepathy_haze.Prelude.{
  Option-cases, arith, inr, inl, [], false, true, ℕ, List, ◌&&◌, Bool, ◌==◌, some, ◌∷◌, ◌≡◌,
  if◌then◌else◌, ◌⊎◌, ◌+◌,
}
use telepathy_haze.ImFactory.Opened.{get-inv}

-- A request is answered by its failure, by the channel that was there, or by a new channel with it.
unfoldable pub answers_of : ℕ → List ℕ → ℕ
answers_of token [] = 0
answers_of token (k ∷ ks) = (if k == token then 1 else 0) + answers_of token ks

unfoldable pub answers : ℕ → List Event → ℕ
unfolding answers_of
answers token [] = 0
answers token (new_channel_for h tokens ∷ es) = answers_of token tokens + answers token es
answers token (request_failed k ∷ es) = (if k == token then 1 else 0) + answers token es
answers token (request_already_satisfied k h ∷ es) =
    (if k == token then 1 else 0) + answers token es
answers token (_ ∷ es) = answers token es

get-answers :
    (F G : Factory) (h self_handle request_token token : ℕ) (c : Channel) (created : Bool)
    → get_im_channel F h self_handle (request_token ∷ []) ≡ some (G, c, created)
    → answers token G.events
      ≡ (if created && request_token == token then 1 else 0) + answers token F.events
unfolding answers
get-answers F G h self_handle request_token token c created e =
    elim (get-inv F G h self_handle (request_token ∷ []) c created e).2 [
      | inl (k, g, l) ↦ ground (arith, k, g)
      | inr (k, l, n, g) ↦ ground (arith, k, g)
    ]

-- A request that the factory takes on and that does not abort gets one answer, and no other request
-- gets any; a request that is not the factory's changes nothing.
pub request-answers :
    (F G : Factory) (self_handle request_token token : ℕ) (r : Request) (require_new handled : Bool)
    → request F self_handle request_token r require_new ≡ some (G, handled)
    → ((handled ≡ false) × (G ≡ F))
      ⊎ ((handled ≡ true)
          × (answers token G.events
              ≡ (if request_token == token then 1 else 0) + answers token F.events))
unfolding request answer_existing answers
request-answers F G self_handle request_token token r require_new handled e =
    elim (Option-cases (get_im_channel F r.target_handle self_handle (request_token ∷ []))) [
      | inl n ↦ ground (arith, e, n)
      | inr ((H, c, created), n) ↦
          ground (
            arith,
            e,
            n,
            get-answers F H r.target_handle self_handle request_token token c created n,
          )
    ]
