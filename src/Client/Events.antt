-- ===== src/Client/Events.antt =====
-- The events that a user takes out of the channel of a subscription.
use zbc_go.Common.{ℕ, ◌==◌, if◌then◌else◌, Option, List, [], ◌∷◌, ◌++◌}
use zbc_go.Wire.{Bytes}
use zbc_go.Message.{Message}
use zbc_go.Request.Values.{Data}
use zbc_go.Client.Steps.{System, Step}
use zbc_go.Client.Steps.{event_taken}
use zbc_go.Client.Steps.{Steps, stop, ◌then◌}

module _ {X : Type 0} (unmarshal : Bytes → Option (Data X)) (n : ℕ) where
  -- Those that are taken out of channel `n`.
  unfoldable pub taken : {s t : System X} → Step unmarshal s t → List (Message (Data X))
  taken (event_taken m k rest at_queue) = if n == k then m ∷ [] else []
  taken _ = []

  unfoldable pub all_taken : {s t : System X} → Steps unmarshal s t → List (Message (Data X))
  unfolding taken
  all_taken stop = []
  all_taken (step then steps) = taken step ++ all_taken steps
