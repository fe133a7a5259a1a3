-- ===== src/Auth/Scrub/Tests.antt =====
-- Output that holds two secrets, one within the other.
use enclave.Common.{◌≡◌, refl, [], ◌∷◌, codes}
use enclave.Auth.Scrub.{Scrubs, scrub_from, scrub_secrets, scrub_secrets-Scrubs}

scrubs_longest :
    (scrub_secrets (codes "x abcdef abc") (codes "abc" ∷ codes "" ∷ codes "abcdef" ∷ [])
      ≡ codes "x [REDACTED] [REDACTED]")
    × (scrub_secrets (codes "abc") (codes "" ∷ []) ≡ codes "abc")
unfolding scrub_secrets scrub_from
scrubs_longest = (refl, refl)

scrub_secrets-Scrubs_example :
    Scrubs
      (codes "abc" ∷ codes "abcdef" ∷ [])
      (codes "x abcdef")
      (scrub_secrets (codes "x abcdef") (codes "abc" ∷ codes "abcdef" ∷ []))
scrub_secrets-Scrubs_example =
    scrub_secrets-Scrubs (codes "x abcdef") (codes "abc" ∷ codes "abcdef" ∷ [])
