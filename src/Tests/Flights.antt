-- ===== src/Tests/Flights.antt =====
-- Two goroutines that call `Do` for the same key.
use go.Common.{ℕ, ◌≡◌, refl, ◌⊎◌, Option, some, Bytes, bytes_eq, [], ◌∷◌}
use go.Common.Map.{lookup, insert}
use go.Flight.{Flights, enter, join, running, waiting, start, Reaches, here, then, at}
use go.Flight.Safety.{running_once, waiting_served}

abbrev key : Bytes
key = b'k' ∷ []

abbrev first : ℕ
first = 0

abbrev entered : Flights ℕ
entered = record start {
  table = insert key 0 [];
  next = 1;
  stage = at 0 (running key 0) start.stage;
}

abbrev joined : Flights ℕ
joined = record entered { stage = at 1 (waiting key 0) entered.stage }

reached : Reaches start joined
unfolding go.Flight.store_call lookup insert go.Common.bytes_beq
reached =
    then start entered joined (then start start entered (here start) (enter 0 key start refl refl))
      (join 1 0 key entered refl refl)

running_once_example : first ≡ first
running_once_example = running_once joined first first 0 0 key reached refl refl

waiting_served_example :
    ((r : Option ℕ) × (joined.results 0 ≡ some r)) ⊎ ((j : ℕ) × (joined.stage j ≡ running key 0))
waiting_served_example = waiting_served joined 1 0 key reached refl
