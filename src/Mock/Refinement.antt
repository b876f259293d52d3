-- ===== src/Mock/Refinement.antt =====
-- The mock's handlers against the desk that they stand for.
use faf_hackathon_challenge.Prelude.{◌≡◌}
use faf_hackathon_challenge.Mock.Store.{Storage, Response}
use faf_hackathon_challenge.Mock.Desk.{Desk, Answer, answer, view}

-- The mock and the desk agree on an answer and on what is known after it.
abbrev Agrees : Response × Storage → Answer × Desk → Type 0
Agrees (r, s) (told, d) = (answer r ≡ told) × (view s ≡ d)
