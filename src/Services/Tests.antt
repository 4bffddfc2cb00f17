-- ===== src/Services/Tests.antt =====
-- The theorems of the services on a slow descriptor.
use unix_network_programming.Base.{[], ◌∷◌}
use unix_network_programming.Stream.Paced.{Pipe, pipe, paced, paced-IsSocket}
use unix_network_programming.Services.{discard_service}
use unix_network_programming.Services.Lines.{Silent, discard_service-Silent}

-- "hi\n".
abbrev greeting : Pipe
greeting = pipe (104 ∷ 105 ∷ 10 ∷ []) []

discard_service-Silent_example :
    Silent paced paced-IsSocket greeting (discard_service paced 4 greeting)
discard_service-Silent_example = discard_service-Silent paced paced-IsSocket greeting
