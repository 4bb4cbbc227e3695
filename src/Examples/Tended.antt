-- ===== src/Examples/Tended.antt =====
-- The theorems on what tokens are held for, at concrete inputs.
use rbpmn.Common.{◌≡◌, refl, some, false, List, [], ◌∷◌, first}
use rbpmn.Common.Maps.{get}
use rbpmn.Json.{null}
use rbpmn.State
use rbpmn.State.{Token, TimerState}
use rbpmn.Step.Outcome.{Command, start, fire_timer}
use rbpmn.Step.Commands.{step}
use rbpmn.Step.Claims.{Fits, IsTended, timer_of, names_timer}
use rbpmn.Step.Claims.Commands.{step-IsTended}
use rbpmn.Step.Claims.History.{history, history-IsTended, history-live}
use rbpmn.Step.Claims.Dangling.{dangles, arrival-dangles}
use rbpmn.Step.Open.{runs}
use rbpmn.Examples.{plain, order}

-- The order, started: its payment waits under a timer.
abbrev opened : List Command
opened = start null ∷ []

step-IsTended_example :
    IsTended (step plain order 10 (fire_timer 0) (history plain order 10 opened State.new)).0
step-IsTended_example =
    step-IsTended plain order 10 (fire_timer 0) (history plain order 10 opened State.new)
      (history-IsTended plain order 10 opened)

history-live_example :
    (t : Token) × ((get 0 (history plain order 10 opened State.new).tokens ≡ some t)
      × Fits (timer_of 0) t.wait)
unfolding runs history
history-live_example =
    history-live plain order 10 opened 0 (timer_of 0) (names_timer 0 _ first refl) (λ n. n)

-- The payment's timer fires on the token that waits under it.
arrival-dangles_example :
    dangles (step plain order 10 (fire_timer 0) (history plain order 10 opened State.new)).1 ≡ false
arrival-dangles_example = arrival-dangles order plain 10 opened (fire_timer 0) tt
