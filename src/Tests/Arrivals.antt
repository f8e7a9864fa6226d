-- ===== src/Tests/Arrivals.antt =====
-- The resolutions that come in for one request, at concrete inputs.
use setinstone.Prelude.{refl, none, List, [], ◌∷◌, Option, codes, arith, All}
use setinstone.Prelude.Assoc.{lookup}
use setinstone.Cache
use setinstone.Crypto.{sign}
use setinstone.Message.{Message, sign_with_key, get_id}
use setinstone.Resolver.Network.Answer.{resolution_of}
use setinstone.Resolver.Network.Latest.{Arrival, hear, IsLatest, IsTimely, Holds}
use setinstone.Resolver.Network.Latest.Heard.{hear-IsLatest}
use setinstone.Tests.Events.{of_outcome}
use setinstone.Tests.Network.{fresh, env, answer}
use setinstone.Tests.Samples.{toy, key}
use setinstone.Tests.Stores.{request}

-- an answer with an older time stamp, and one that nobody has signed
abbrev stale : Message
stale = of_outcome (sign_with_key toy 0 key (resolution_of env (codes "1999") request (codes "w")))

abbrev unsigned : Message
unsigned = resolution_of env (codes "3000") request (codes "x")

abbrev arrivals : List Arrival
arrivals =
    record { now = 3; message = stale }
    ∷ record { now = 4; message = answer }
    ∷ record { now = 5; message = unsigned }
    ∷ record { now = 13; message = stale }
    ∷ []

fresh-Holds : Holds env (get_id toy request) 3 9 none fresh
unfolding Cache.get Cache.live lookup
fresh-Holds = record { lasting = refl; found = λ now during. refl }

arrivals-IsTimely : All (IsTimely env (get_id toy request) 3 9) arrivals
unfolding resolution_of toy sign sign_with_key
arrivals-IsTimely = (
  ((omega arith, omega arith), λ _. (b'1', refl)),
  (
    ((omega arith, omega arith), λ _. (b'2', refl)),
    (
      ((omega arith, omega arith), λ _. (b'3', refl)),
      (((omega arith, omega arith), λ _. (b'1', refl)), tt),
    ),
  ),
)

hear-IsLatest_example :
    (o : Option Message) × IsLatest env (get_id toy request) none arrivals o
    × Holds env (get_id toy request) 3 9 o (hear env arrivals fresh)
hear-IsLatest_example =
    hear-IsLatest env (get_id toy request) 3 9 arrivals none fresh fresh-Holds tt arrivals-IsTimely
