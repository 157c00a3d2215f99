-- ===== src/AppServer/Identifier/Tests.antt =====
-- The mask at concrete identifiers, written as code points.
use codex_quota_glance.Prelude.{◌≡◌, refl, [], ◌∷◌}
use codex_quota_glance.Prelude.Bytes.{split_once}
use codex_quota_glance.AppServer.Identifier.{mask_identifier}

-- "alice@a" and "al".
masked_alice :
    mask_identifier (97 ∷ 108 ∷ 105 ∷ 99 ∷ 101 ∷ 64 ∷ 97 ∷ [])
    ≡ 97 ∷ 108 ∷ 42 ∷ 42 ∷ 42 ∷ 64 ∷ 97 ∷ []
unfolding mask_identifier split_once
masked_alice = refl
