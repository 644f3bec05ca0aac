-- ===== src/FileTools.antt =====
-- src/file_tools.cpp. `stat` is a parameter: its result for each path.
use ipvshttpd.Prelude.Bytes.{Bytes}
use ipvshttpd.Prelude.Int.{ℤ, pos, eq_ℤ}
use ipvshttpd.Prelude.{Bool}

unfoldable pub file_exists : (Bytes → ℤ) → Bytes → Bool
file_exists stat filename = eq_ℤ (stat filename) (pos 0)
