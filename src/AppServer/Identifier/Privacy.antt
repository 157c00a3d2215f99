-- ===== src/AppServer/Identifier/Privacy.antt =====
-- What a masked identifier gives away.
use codex_quota_glance.Prelude.{ℕ, ◌≡◌, refl, List, ◌∷◌, ◌++◌, take}
use codex_quota_glance.Prelude.Bytes.{HasNo, split_once-none, split_once-append}
use codex_quota_glance.AppServer.Identifier.{at_sign, mask_identifier, masked}

-- Of what stands before the sign `@` a masked identifier gives away the first two characters and
-- nothing else: two identifiers that agree in these and in the domain have the same mask, and so
-- have two without a domain.
mask_identifier_noninterference :
    (a b domain : List ℕ)
    → HasNo at_sign a
    → HasNo at_sign b
    → take 2 a ≡ take 2 b
    → (mask_identifier (a ++ (at_sign ∷ domain)) ≡ mask_identifier (b ++ (at_sign ∷ domain)))
      × (mask_identifier a ≡ mask_identifier b)
unfolding mask_identifier masked
mask_identifier_noninterference a b domain h k e = (
  rw (split_once-append at_sign a domain h, split_once-append at_sign b domain k, e) refl,
  rw (split_once-none at_sign a h, split_once-none at_sign b k, e) refl,
)
