-- ===== src/Domain/Usage/Tests.antt =====
-- The Rust tests of usage.rs.
use codex_quota_glance.Prelude.{◌≡◌, refl, some}
use codex_quota_glance.Domain.Usage.{TokenCounts, no_counts, display_total}

abbrev detailed : TokenCounts
detailed = record no_counts {
  input = some 100;
  cached_input = some 80;
  output = some 20;
  total = some 200;
}

cached_input_counted_once : display_total detailed ≡ some 120
unfolding display_total
cached_input_counted_once = refl
