-- ===== src/Tests/LifespanRuns.antt =====
-- The application from its start to its end.
use paystream.Base.{refl, List, [], ◌∷◌}
use paystream.Api.Lifespan.{Call, features, health_check}
use paystream.Api.Lifetime.{Shut, lifespan-Shut}
use paystream.Tests.ApiRuns.{env, request, at}

-- Two requests around a health check.
abbrev calls : List Call
calls = features request (at 10) ∷ health_check ∷ features request (at 20) ∷ []

lifespan-Shut_example : Shut env calls
lifespan-Shut_example = lifespan-Shut env (λ conn. refl) calls
