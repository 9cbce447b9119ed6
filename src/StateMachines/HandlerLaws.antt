-- ===== src/StateMachines/HandlerLaws.antt =====
-- Handlers: subscribing and the function that undoes it.
use moq_web.Base.{ℕ, ◌≡◌, ◌≢◌, ap, List, [], ◌∷◌, ◌++◌, arith, All}
use moq_web.StateMachines.{StateMachine, on, unsubscribe, remove_first}

remove_first-append :
    (handler : ℕ) (hs : List ℕ)
    → All (λ h. h ≢ handler) hs
    → remove_first handler (hs ++ handler ∷ []) ≡ hs
unfolding remove_first
remove_first-append handler [] fresh = ground arith
remove_first-append handler (h ∷ hs) (ne, fresh) =
    ground (arith, remove_first-append handler hs fresh)

-- Unsubscribing a handler that was not there before gives back the machine as it was.
pub unsubscribe-on :
    {S : Type 0} (handler : ℕ) (m : StateMachine S)
    → All (λ h. h ≢ handler) m.handlers
    → unsubscribe handler (on handler m) ≡ m
unfolding unsubscribe on
unsubscribe-on handler m fresh =
    ap (λ (hs : List ℕ). record m { handlers = hs }) (remove_first-append handler m.handlers fresh)
